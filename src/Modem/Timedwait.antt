-- ===== src/Modem/Timedwait.antt =====
-- `nrf_modem_os_timedwait`, cut at its sleep: up to the wait on the semaphore, and after it.
use nrf.Base.{ℕ, zero, suc, ◌*◌, ◌^◌, ◌==◌, Bool, true, false, ltb, if◌then◌else◌}
use nrf.Base.Int.{ℤ, pos, negsuc, is_negative, is_zero}
use nrf.Modem.Kernel.{Ptr, Kernel}
use nrf.Modem.Waiters.{Os}

-- The results 0, -NRF_EAGAIN, -NRF_ESHUTDOWN and -NRF_EINVAL.
pub data Code : Type 0 where
  success again shut_down invalid : Code

module _ (k : Kernel) where
  open k use {sem_init, list_append, list_remove}

  -- The function returns, waits for `tmout` microseconds, or overflows in `val * 1000`.
  pub data Entry : Type 0 where
    returned : Code → Entry
    sleeps : (tmout : ℕ) → Os k → Entry
    overflow : Entry

  -- The `struct sleeping_thread` at `td`, set up and put at the end of the list.
  abbrev pub enqueue : (context : ℕ) → Ptr → Os k → Os k
  enqueue context td os = record os {
    links = list_append os.links td;
    sem = λ a. if a == td then sem_init 0 else os.sem a;
    context = λ a. if a == td then context else os.context a;
  }

  -- `initialized` is what `nrf_modem_is_initialized` returns, `td` the address of the local record.
  unfoldable pub timedwait_enter : (initialized : Bool) (context : ℕ) (val : ℤ) → Ptr → Os k → Entry
  timedwait_enter false context val td os = returned shut_down
  timedwait_enter true context (pos zero) td os = returned again
  timedwait_enter true context (pos (suc n)) td os =
      if ltb (suc n * 1000) (2 ^ 31)
      then sleeps (suc n * 1000) (enqueue context td os)
      else overflow
  timedwait_enter true context (negsuc n) td os = sleeps 500000 (enqueue context td os)

  -- `err` is what `mdx_sem_timedwait` returned.
  unfoldable pub timedwait_leave : (initialized : Bool) (val err : ℤ) → Ptr → Os k → Os k × Code
  timedwait_leave initialized val err td os =
      let os' = record os { links = list_remove os.links td } in
      if initialized
      then (if is_zero err
          then (os', (if is_negative val then success else again))
          else (os', success))
      else (os', shut_down)
