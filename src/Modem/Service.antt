-- ===== src/Modem/Service.antt =====
-- Further services of src/nrf_modem.c: taking a semaphore, locking a mutex, sleep, and the question
-- whether an interrupt is served.
use nrf.Base.{
  ℕ, zero, suc, ◌+◌, ◌*◌, ◌^◌, ◌≤◌, ◌==◌, ◌≡◌, refl, ◌≢◌, ◌↔◌, ◌||◌, Bool, true, Option, none, some,
  arith, ltb, u32, if◌then◌else◌,
}
use nrf.Base.Int.{ℤ, pos, negsuc, is_zero}
use nrf.Base.Run.{Run, ok, undefined, ◌>>=◌}
use nrf.Modem.Timedwait.{Code, success, again, invalid}

-- `n * 1000` as an `int`, which is undefined when it overflows.
unfoldable pub milliseconds : ℤ → Run ℤ
milliseconds (pos n) = if ltb (n * 1000) (2 ^ 31) then ok (pos (n * 1000)) else undefined
milliseconds (negsuc n) =
    if ltb (suc n * 1000) (2 ^ 31 + 1) then ok (negsuc (n * 1000 + 999)) else undefined

-- `timeout == -1 ? 0 : timeout * 1000`
unfoldable pub take_timeout : ℤ → Run ℤ
take_timeout (negsuc zero) = ok (pos 0)
take_timeout timeout = milliseconds timeout

-- `timedwait` is the kernel's `mdx_sem_timedwait`: the semaphore after the wait, and the result,
-- if the wait ends.
unfoldable pub nrf_modem_os_sem_take :
    {Sem : Type 0} (timedwait : Sem → ℤ → Run (Sem × ℤ)) → Sem → (timeout : ℤ) → Run (Sem × Code)
nrf_modem_os_sem_take timedwait sem timeout = do
  tmout ← take_timeout timeout
  (sem', err) ← timedwait sem tmout
  ok (sem', if is_zero err then again else success)

-- `lock` and `timedlock` are the kernel's; the result of `timedlock` is not looked at.
unfoldable pub nrf_modem_os_mutex_lock :
    {Mtx : Type 0} (lock : Mtx → Mtx) (timedlock : Mtx → ℤ → Mtx × ℤ)
    → Mtx
    → (timeout : ℤ) → Run (Mtx × Code)
nrf_modem_os_mutex_lock lock timedlock mtx (negsuc zero) = ok (lock mtx, success)
nrf_modem_os_mutex_lock lock timedlock mtx timeout = do
  tmout ← milliseconds timeout
  ok ((timedlock mtx tmout).0, success)

-- The argument of `mdx_usleep`, a `uint32_t` product, or the error; the two constants are those of
-- the modem library.
unfoldable pub nrf_modem_os_sleep : (no_wait forever timeout : ℕ) → Code × Option ℕ
nrf_modem_os_sleep no_wait forever timeout =
    if (timeout == no_wait) || (timeout == forever)
    then (invalid, none)
    else (success, some (u32 (timeout * 1000)))

-- `curthread->td_critnest > 0`
unfoldable pub nrf_modem_os_is_in_isr : (td_critnest : ℕ) → Bool
nrf_modem_os_is_in_isr td_critnest = ltb 0 td_critnest

-- For every kernel, a semaphore take that must not wait is the same call as one that may wait
-- forever: the timeouts 0 and -1 both become the wait time 0.
pub nrf_modem_os_sem_take_no_wait :
    {Sem : Type 0} (timedwait : Sem → ℤ → Run (Sem × ℤ)) (sem : Sem)
    → nrf_modem_os_sem_take timedwait sem (pos 0) ≡ nrf_modem_os_sem_take timedwait sem (negsuc 0)
unfolding nrf_modem_os_sem_take take_timeout milliseconds
nrf_modem_os_sem_take_no_wait timedwait sem = refl

-- A timed lock that leaves the mutex as it was is reported as taken: for every timeout from 0 up to
-- the largest that does not overflow, the result is success, whatever `timedlock` returned.
pub nrf_modem_os_mutex_lock_refused :
    {Mtx : Type 0} (lock : Mtx → Mtx) (timedlock : Mtx → ℤ → Mtx × ℤ) (mtx : Mtx) (n : ℕ) (err : ℤ)
    → n ≤ 2147483
    → timedlock mtx (pos (n * 1000)) ≡ (mtx, err)
    → nrf_modem_os_mutex_lock lock timedlock mtx (pos n) ≡ ok (mtx, success)
unfolding nrf_modem_os_mutex_lock milliseconds
nrf_modem_os_mutex_lock_refused lock timedlock mtx n err le h =
    let fits : ltb (n * 1000) (2 ^ 31) ≡ true = ground arith in rw (fits, h)

-- A sleep with neither of the two reserved timeouts is accepted, and is passed on as its number of
-- microseconds exactly when the timeout is at most 4294967 milliseconds.
pub nrf_modem_os_sleep_exact :
    (no_wait forever timeout : ℕ)
    → timeout ≢ no_wait
    → timeout ≢ forever
    → (usec : ℕ) × (nrf_modem_os_sleep no_wait forever timeout ≡ (success, some usec))
      × ((usec ≡ timeout * 1000) ↔ (timeout ≤ 4294967))
unfolding nrf_modem_os_sleep
nrf_modem_os_sleep_exact no_wait forever timeout h g =
    (u32 (timeout * 1000), ground arith, (λ e. omega arith, λ le. omega arith))
