-- ===== src/Modem/Walk.antt =====
-- The loop of `nrf_modem_os_shutdown` of src/nrf_modem.c entry by entry, with the steps of threads and
-- interrupts between two rounds.
pub mod Cut
pub mod Cover
pub mod Finish
mod Examples
use nrf.Base.{ℕ, ◌≡◌, ◌≢◌, Option, some}
use nrf.Modem.Kernel.{Ptr, Kernel}
use nrf.Modem.Waiters.{td_first, td_next, post}
use nrf.Modem.System.{System, Step, enter, wake, expire, leave, notify, shutdown}

module _ (k : Kernel) (frame : ℕ → Ptr) where
  -- The threads, and the variable `td` of the loop.
  pub record Walk : Type 0 where
    pub sys : System k
    pub td : Option Ptr

  abbrev pub begin : System k → Walk
  begin s = record { sys = s; td = td_first k s.os }

  -- One round: the post, and the step to the next entry.
  abbrev pub visited : Walk → Ptr → Walk
  visited w a =
      let os' = post k a w.sys.os in
      record { sys = record w.sys { os = os' }; td = td_next k os' a }

  -- The thread that the loop stands at does not leave.
  abbrev pub Keeps : Ptr → {s t : System k} → Step k frame s t → Type 0
  Keeps a (enter i context tmout val initialized out h) = Unit
  Keeps a (wake i context val taken here h) = Unit
  Keeps a (expire i context val here) = Unit
  Keeps a (leave i val err initialized here) = frame i ≢ a
  Keeps a (notify context h) = Unit
  Keeps a (shutdown h) = Unit

  pub data Move (w : Walk) : Walk → Type 0 where
    visit : (a : Ptr) → w.td ≡ some a → Move w (visited w a)
    other :
        (a : Ptr) {t : System k} (st : Step k frame w.sys t)
        → w.td ≡ some a
        → Keeps a st
        → Move w (record { sys = t; td = w.td })

  pub data Moves : Walk → Walk → Type 0 where
    stay : (w : Walk) → Moves w w
    then : {w v u : Walk} → Move w v → Moves v u → Moves w u

  -- Rounds of the loop with nothing between them.
  pub data Rounds : Walk → Walk → Type 0 where
    no_round : (w : Walk) → Rounds w w
    round : {w u : Walk} (a : Ptr) → w.td ≡ some a → Rounds (visited w a) u → Rounds w u
