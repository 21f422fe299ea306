-- ===== src/Modem/ServiceExamples.antt =====
-- Runs of the services in src/nrf_modem.c, and the theorems about them at inputs.
use nrf.Base.{
  List, ℕ, suc, ◌+◌, ◌*◌, ◌≤◌, ◌≡◌, refl, ap, ◌↔◌, true, false, zero, none, some, [], ◌∷◌, arith,
}
use nrf.Base.Int.{ℤ, pos, negsuc, is_zero}
use nrf.Base.Run.{Run, ok, out_of_fuel, Returns}
use nrf.Modem.Kernel.{Ptr}
use nrf.Modem.Timedwait.{success, again}
use nrf.Modem.Pool.{
  nrf_modem_os_sem_init, nrf_modem_os_mutex_init, find_slot, Pool, write, os_init, init_many, slots,
  os_init-again, init_many-slots,
}
use nrf.Modem.Service.{
  take_timeout, milliseconds, nrf_modem_os_sem_take, nrf_modem_os_mutex_lock, nrf_modem_os_sleep,
  nrf_modem_os_sem_take_no_wait, nrf_modem_os_mutex_lock_refused, nrf_modem_os_sleep_exact,
}
use nrf.Modem.Handles.{
  Call, make, give, counters, count_calls, Matches, element, serve_call, serve_calls,
  serve_calls-count_calls,
}
use nrf.Modem.Semaphore.{
  nrf_modem_os_sem_give, Semaphores, give_times, take_all, nrf_modem_os_mutex_unlock,
  take_all-give_times,
}

-- An array of three elements at 100, 104 and 108, and handles that start as 0.
abbrev slot : ℕ → Ptr
slot i = 100 + 4 * i

abbrev empty : Pool ℕ
empty = record { used = 0; cell = λ i. 0 }

all_three : init_many slot 3 3 1 0 empty ≡ some (slots slot 3 0)
all_three = init_many-slots slot 3 1 0 (λ j e. omega arith) 3 empty (omega arith) (omega arith)

same_handle : os_init slot 3 9 104 empty ≡ some (record { used = 0; cell = write 1 9 empty }, 104)
same_handle = os_init-again slot 3 9 empty 1 (λ i j e. omega arith) (omega arith)

-- A kernel that waits for no semaphore and refuses every timed lock.
abbrev never : ℕ → ℤ → ℕ × ℤ
never s tmout = (s, pos 0)

no_wait :
    nrf_modem_os_sem_take (λ s tmout. ok (never s tmout)) 5 (pos 0)
    ≡ nrf_modem_os_sem_take (λ s tmout. ok (never s tmout)) 5 (negsuc 0)
no_wait = nrf_modem_os_sem_take_no_wait (λ s tmout. ok (never s tmout)) 5

refused_lock : nrf_modem_os_mutex_lock (λ m. m) never 5 (pos 20) ≡ ok (5, success)
refused_lock = nrf_modem_os_mutex_lock_refused (λ m. m) never 5 20 (pos 0) (omega arith) refl

short_sleep :
    (usec : ℕ) × (nrf_modem_os_sleep 0 0xffffffff 250 ≡ (success, some usec))
    × ((usec ≡ 250 * 1000) ↔ (250 ≤ 4294967))
short_sleep = nrf_modem_os_sleep_exact 0 0xffffffff 250 (omega arith) (omega arith)

-- The handle of element 1, which is at the address 104, stays the same.
semaphore_again :
    nrf_modem_os_sem_init (λ n. n) slot 3 104 7 20 empty
    ≡ some (record { used = 0; cell = write 1 7 empty }, 104)
unfolding nrf_modem_os_sem_init os_init find_slot
semaphore_again = refl

-- The first mutex, and none from an array without elements.
first_mutex :
    nrf_modem_os_mutex_init 5 slot 3 1 empty
    ≡ some (record { used = 1; cell = write 0 5 empty }, 100)
unfolding nrf_modem_os_mutex_init os_init find_slot
first_mutex = refl

no_mutex : nrf_modem_os_mutex_init 5 slot 0 1 empty ≡ none
unfolding nrf_modem_os_mutex_init os_init find_slot
no_mutex = refl

-- Semaphores that are numbers.
abbrev counted : ℕ → ℤ → Run (ℕ × ℤ)
counted zero (pos zero) = out_of_fuel
counted zero tmout = ok (zero, pos 0)
counted (suc n) tmout = ok (n, pos 1)

counted-permit :
    (s : ℕ) (tmout : ℤ) (n : ℕ)
    → s ≡ suc n
    → (r : ℕ × ℤ) × (counted s tmout ≡ ok r) × (r.0 ≡ n) × (is_zero r.1 ≡ false)
counted-permit s tmout n e = ((n, pos 1), ap (λ m. counted m tmout) e, refl, refl)

counted-over :
    (s n : ℕ)
    → s ≡ 0
    → (r : ℕ × ℤ) × (counted s (pos (suc n)) ≡ ok r) × (r.0 ≡ 0) × (is_zero r.1 ≡ true)
counted-over s n e = ((0, pos 0), ap (λ m. counted m (pos (suc n))) e, refl, refl)

abbrev numbers : Semaphores
numbers = record {
  Sem = ℕ;
  count = λ n. n;
  sem_init = λ n. n;
  sem_post = suc;
  timedwait = counted;
  count-sem_init = λ n. refl;
  count-sem_post = λ n. refl;
  timedwait-permit = counted-permit;
  timedwait-over = counted-over;
  timedwait-forever = λ s e. ap (λ m. counted m (pos 0)) e;
}

-- One permit at first and two more, and two takes, of which one does not wait.
one_given :
    Returns
      (λ r. (r.0 ≡ 1) × (r.1 ≡ success ∷ success ∷ []))
      (take_all numbers (pos 0 ∷ negsuc 0 ∷ []) (give_times numbers 2 1))
one_given =
    take_all-give_times numbers 1 2 1 (pos 0 ∷ negsuc 0 ∷ []) (omega arith, (omega arith, tt)) refl

unlocked : nrf_modem_os_mutex_unlock (λ (m : ℕ). 0) 1 ≡ (0, success)
unfolding nrf_modem_os_mutex_unlock
unlocked = refl

-- Two elements at 100 and 104: the second is made with one permit, taken twice, of which the second
-- take is refused, and the first is given to.
abbrev calls : List (ℕ × Call)
calls = (1, make 1 5) ∷ (1, Call.take (pos 3)) ∷ (1, Call.take (pos 3)) ∷ (0, give) ∷ []

second_refused :
    Returns
      (λ r. (r.1 ≡ success ∷ success ∷ again ∷ success ∷ []) × (counters numbers slot 2 r.0 0 ≡ 1))
      (serve_calls numbers slot 2 calls empty)
unfolding serve_calls serve_call element nrf_modem_os_sem_init os_init find_slot
    nrf_modem_os_sem_give nrf_modem_os_sem_take take_timeout milliseconds
second_refused = (refl, refl)

serve_calls-count_calls_example :
    Matches
      (λ r b. ((i : ℕ) → counters numbers slot 2 r.0 i ≡ b.0 i) × (r.1 ≡ b.1))
      (serve_calls numbers slot 2 calls empty)
      (count_calls calls (λ i. 0))
serve_calls-count_calls_example =
    serve_calls-count_calls numbers slot 2 (λ i j e. omega arith) calls empty (λ i. 0)
      (omega arith, ((omega arith, omega arith), ((omega arith, omega arith), (omega arith, tt))))
      (λ i. refl)

-- A take that should not wait, without a permit.
waits_forever : serve_calls numbers slot 2 ((1, Call.take (pos 0)) ∷ []) empty ≡ out_of_fuel
unfolding serve_calls serve_call element find_slot nrf_modem_os_sem_take take_timeout milliseconds
waits_forever = refl
