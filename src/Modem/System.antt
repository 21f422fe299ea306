-- ===== src/Modem/System.antt =====
-- Threads that sleep in `nrf_modem_os_timedwait` while notifications arrive, in any order. The
-- pieces of code between two scheduling points are those of Timedwait and Waiters.
pub mod Lists
pub mod Drain
pub mod Invariant
pub mod Progress
pub mod Refine
pub mod Room
pub mod Safety
pub mod Spurious
mod Examples
use nrf.Base.{ℕ, ◌≤◌, ◌<◌, ◌==◌, ◌≡◌, ◌≢◌, suc, Bool, true, false, if◌then◌else◌, length}
use nrf.Base.Int.{ℤ, pos}
use nrf.Base.Run.{ok}
use nrf.Modem.Kernel.{Ptr, Kernel}
use nrf.Modem.Waiters.{Os, nrf_modem_os_event_notify, nrf_modem_os_shutdown}
use nrf.Modem.Timedwait.{Entry, sleeps, timedwait_enter, timedwait_leave}

-- Where a thread stands: outside of the function, in `mdx_sem_timedwait`, or behind it with the
-- result `err` and about to leave the list.
pub data Pc : Type 0 where
  outside : Pc
  asleep : (context : ℕ) (val : ℤ) → Pc
  leaving : (val err : ℤ) → Pc

abbrev pub waits : Pc → Bool
waits outside = false
waits (asleep context val) = true
waits (leaving val err) = true

module _ (k : Kernel) where
  open k use {Sem, count, nodes}

  pub record System : Type 0 where
    pub os : Os k
    pub pc : ℕ → Pc

  abbrev pub moved : System → Os k → (i : ℕ) → Pc → System
  moved s os' i p = record { os = os'; pc = λ j. if j == i then p else s.pc j }

  -- `frame i` is the address of the record on the stack of thread `i`. A call that returns at once
  -- is no step. The wait on the semaphore returns non-zero when it took the semaphore, which had to
  -- be posted, and 0 when the time is over. A walk has the fuel that its theorem asks for.
  pub data Step (frame : ℕ → Ptr) (s : System) : System → Type 0 where
    enter :
        (i context tmout : ℕ) (val : ℤ) (initialized : Bool) {os' : Os k}
        → s.pc i ≡ outside
        → timedwait_enter k initialized context val (frame i) s.os ≡ sleeps tmout os'
        → Step frame s (moved s os' i (asleep context val))
    wake :
        (i context : ℕ) (val : ℤ) (taken : Sem)
        → s.pc i ≡ asleep context val
        → suc (count taken) ≡ count (s.os.sem (frame i))
        → Step frame s (
            moved s
              (record s.os { sem = λ a. if a == frame i then taken else s.os.sem a })
              i
              (leaving val (pos 1)))
    expire :
        (i context : ℕ) (val : ℤ)
        → s.pc i ≡ asleep context val
        → Step frame s (moved s s.os i (leaving val (pos 0)))
    leave :
        (i : ℕ) (val err : ℤ) (initialized : Bool)
        → s.pc i ≡ leaving val err
        → Step frame s (moved s (timedwait_leave k initialized val err (frame i) s.os).0 i outside)
    notify :
        (context : ℕ) {os' : Os k}
        → nrf_modem_os_event_notify k (suc (length (nodes s.os.links))) context s.os ≡ ok os'
        → Step frame s (record s { os = os' })
    shutdown :
        {os' : Os k}
        → nrf_modem_os_shutdown k (suc (length (nodes s.os.links))) s.os ≡ ok os'
        → Step frame s (record s { os = os' })

  -- The states that can arise after `nrf_modem_os_init`, with all threads outside.
  pub data Reach (frame : ℕ → Ptr) : System → Type 0 where
    start : (s : System) → s.os.links ≡ k.list_init → ((i : ℕ) → s.pc i ≡ outside) → Reach frame s
    later : {s t : System} → Reach frame s → Step frame s t → Reach frame t
