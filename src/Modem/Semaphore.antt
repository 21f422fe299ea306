-- ===== src/Modem/Semaphore.antt =====
-- `nrf_modem_os_sem_init`, `nrf_modem_os_sem_give` and `nrf_modem_os_sem_take` of src/nrf_modem.c on one
-- semaphore of the kernel, and `nrf_modem_os_mutex_unlock`.
use nrf.Base.{ℕ, zero, suc, ◌+◌, ◌*◌, ◌≤◌, ◌≡◌, refl, ap, true, false, List, [], ◌∷◌, arith, length}
use nrf.Base.Int.{ℤ, pos, negsuc, is_zero}
use nrf.Base.Run.{Run, ok, out_of_fuel, ◌>>=◌, Returns, Returns-bind}
use nrf.Modem.Timedwait.{Code, success}
use nrf.Modem.Service.{milliseconds, take_timeout, nrf_modem_os_sem_take}

-- The kernel's semaphores. A wait that finds a permit takes it at once and returns non-zero. Without a
-- permit, a wait with a time ends with 0 when the time is over, if nobody posts; one with the time 0
-- waits forever: it does not return, which is `out_of_fuel` here.
pub record Semaphores : Type 1 where
  pub Sem : Type 0
  pub count : Sem → ℕ
  pub sem_init : ℕ → Sem
  pub sem_post : Sem → Sem
  pub timedwait : Sem → ℤ → Run (Sem × ℤ)
  pub count-sem_init : (n : ℕ) → count (sem_init n) ≡ n
  pub count-sem_post : (s : Sem) → count (sem_post s) ≡ suc (count s)
  pub timedwait-permit :
      (s : Sem) (tmout : ℤ) (n : ℕ)
      → count s ≡ suc n
      → (r : Sem × ℤ) × (timedwait s tmout ≡ ok r) × (count r.0 ≡ n) × (is_zero r.1 ≡ false)
  pub timedwait-over :
      (s : Sem) (n : ℕ)
      → count s ≡ 0
      → (r : Sem × ℤ) × (timedwait s (pos (suc n)) ≡ ok r) × (count r.0 ≡ 0) × (is_zero r.1 ≡ true)
  pub timedwait-forever : (s : Sem) → count s ≡ 0 → timedwait s (pos 0) ≡ out_of_fuel

-- `unlock` is the kernel's.
unfoldable pub nrf_modem_os_mutex_unlock : {Mtx : Type 0} (unlock : Mtx → Mtx) → Mtx → Mtx × Code
nrf_modem_os_mutex_unlock unlock mtx = (unlock mtx, success)

module _ (k : Semaphores) where
  open k use {Sem, count, sem_init, sem_post, timedwait}

  unfoldable pub nrf_modem_os_sem_give : Sem → Sem
  nrf_modem_os_sem_give s = sem_post s

  unfoldable pub give_times : ℕ → Sem → Sem
  give_times zero s = s
  give_times (suc n) s = give_times n (nrf_modem_os_sem_give s)

  -- Takes with the given timeouts, one after the other: the results.
  unfoldable pub take_all : List ℤ → Sem → Run (Sem × List Code)
  take_all [] s = ok (s, [])
  take_all (t ∷ ts) s = nrf_modem_os_sem_take timedwait s t >>= λ r.
      take_all ts r.0 >>= λ rest. ok (rest.0, r.1 ∷ rest.1)

  count-give_times : (n : ℕ) (s : Sem) → count (give_times n s) ≡ count s + n
  unfolding give_times nrf_modem_os_sem_give
  count-give_times zero s = omega arith
  count-give_times (suc n) s = omega (arith, count-give_times n (sem_post s), k.count-sem_post s)

  -- A timeout whose product in microseconds is an `int`.
  abbrev pub Fits : ℤ → Type 0
  Fits (pos n) = n ≤ 2147483
  Fits (negsuc n) = n ≤ 2147482

  abbrev pub AllFit : List ℤ → Type 0
  AllFit [] = Unit
  AllFit (t ∷ ts) = Fits t × AllFit ts

  abbrev pub all_success : List ℤ → List Code
  all_success [] = []
  all_success (t ∷ ts) = success ∷ all_success ts

  pub take_timeout-Fits : (t : ℤ) → Fits t → (u : ℤ) × (take_timeout t ≡ ok u)
  unfolding take_timeout milliseconds
  take_timeout-Fits (pos n) h = (pos (n * 1000), ground arith)
  take_timeout-Fits (negsuc zero) h = (pos 0, refl)
  take_timeout-Fits (negsuc (suc n)) h = (negsuc (suc n * 1000 + 999), ground arith)

  -- With a permit for each of them, takes succeed, whatever their timeouts.
  take_all-permits :
      (ts : List ℤ) (s : Sem) (n : ℕ)
      → AllFit ts
      → count s ≡ length ts + n
      → Returns (λ r. (count r.0 ≡ n) × (r.1 ≡ all_success ts)) (take_all ts s)
  unfolding take_all nrf_modem_os_sem_take
  take_all-permits [] s n h e = (omega arith, refl)
  take_all-permits (t ∷ ts) s n (h, hs) e =
      let (u, fits) = take_timeout-Fits t h in
      let (r, waited, left, taken) = k.timedwait-permit s u (length ts + n) (omega arith) in
      rw (fits, waited, taken)
        (Returns-bind (λ r. (count r.0 ≡ n) × (r.1 ≡ all_success ts)) _ _ (take_all ts r.0)
          (λ r p. (p.0, ap (λ cs. success ∷ cs) p.1)) (take_all-permits ts r.0 n hs left))

  -- A semaphore that was initialised with a number, and then given to some times, can be taken from as
  -- often as both make together, with any timeouts that do not overflow: each take succeeds, and what
  -- is left is the number that was not taken.
  pub take_all-give_times :
      (initial given n : ℕ) (ts : List ℤ)
      → AllFit ts
      → initial + given ≡ length ts + n
      → Returns
          (λ r. (count r.0 ≡ n) × (r.1 ≡ all_success ts))
          (take_all ts (give_times given (sem_init initial)))
  take_all-give_times initial given n ts fit e =
      take_all-permits ts (give_times given (sem_init initial)) n fit
        (omega (arith, count-give_times given (sem_init initial), k.count-sem_init initial))
