-- ===== src/Modem/Preempt.antt =====
-- `nrf_modem_os_timedwait` of src/nrf_modem.c action by action, before and after its sleep, with the
-- steps of other threads and of interrupts between two actions: the list is changed by two actions,
-- between which nobody else may look at it, and a critical section keeps the others off.
pub mod Alike
pub mod Atomic
mod Examples
use nrf.Base.{ℕ, ◌==◌, ◌≡◌, ◌≢◌, Bool, true, false, List, [], ◌∷◌, if◌then◌else◌}
use nrf.Base.Int.{ℤ}
use nrf.Modem.Kernel.{Ptr, Kernel}
use nrf.Modem.System.{
  outside, asleep, System, moved, Step, enter, wake, expire, leave, notify, shutdown,
}

-- The calls on the thread's record and on the list; `list_append` and `list_remove` begin and end.
pub data Act : Type 0 where
  sem_init set_context critical_enter critical_exit : Act
  append_begin append_end remove_begin remove_end : Act

-- From `mdx_sem_init` to the wait, and behind the wait.
abbrev pub entry_acts : List Act
entry_acts =
    sem_init ∷ set_context ∷ critical_enter ∷ append_begin ∷ append_end ∷ critical_exit ∷ []

abbrev pub exit_acts : List Act
exit_acts = critical_enter ∷ remove_begin ∷ remove_end ∷ critical_exit ∷ []

-- Whether a critical section is open, and whether the list is half changed, after an action.
abbrev pub is_inside : Bool → Act → Bool
is_inside inside critical_enter = true
is_inside inside critical_exit = false
is_inside inside _ = inside

abbrev pub is_torn : Bool → Act → Bool
is_torn torn append_begin = true
is_torn torn append_end = false
is_torn torn remove_begin = true
is_torn torn remove_end = false
is_torn torn _ = torn

module _ (k : Kernel) where
  pub data End : Type 0 where
    ended : System k → End
    saw_torn : End

module _ (k : Kernel) (frame : ℕ → Ptr) (i context : ℕ) (val : ℤ) where
  -- What an action of thread `i` changes. It counts as asleep when its record is on the list, and as
  -- outside when its record is off it.
  abbrev pub acted : Act → System k → System k
  acted sem_init s =
      let os' = record s.os { sem = λ a. if a == frame i then k.sem_init 0 else s.os.sem a } in
      record s { os = os' }
  acted set_context s =
      let os' = record s.os { context = λ a. if a == frame i then context else s.os.context a } in
      record s { os = os' }
  acted append_end s =
      moved k s (record s.os { links = k.list_append s.os.links (frame i) }) i (asleep context val)
  acted remove_end s =
      moved k s (record s.os { links = k.list_remove s.os.links (frame i) }) i outside
  acted _ s = s

  -- A step of another thread, or of an interrupt.
  abbrev pub IsOther : {s t : System k} → Step k frame s t → Type 0
  IsOther (enter j d tmout v initialized out h) = j ≢ i
  IsOther (wake j d v taken here h) = j ≢ i
  IsOther (expire j d v here) = j ≢ i
  IsOther (leave j v err initialized here) = j ≢ i
  IsOther (notify d h) = Unit
  IsOther (shutdown h) = Unit

  -- The actions in order, with any steps of others before, between and after them while no critical
  -- section is open. Another step on a list that is half changed is the end of all order.
  pub data Runs : (inside torn : Bool) → List Act → System k → End k → Type 0 where
    done : {inside torn : Bool} {s : System k} → Runs inside torn [] s (ended s)
    act :
        {inside torn : Bool} {s : System k} {end : End k} (a : Act) (acts : List Act)
        → Runs (is_inside inside a) (is_torn torn a) acts (acted a s) end
        → Runs inside torn (a ∷ acts) s end
    other :
        {inside torn : Bool} {acts : List Act} {s t : System k} {end : End k}
        (st : Step k frame s t)
        → inside ≡ false
        → torn ≡ false
        → IsOther st
        → Runs inside torn acts t end
        → Runs inside torn acts s end
    torn_seen :
        {inside torn : Bool} {acts : List Act} {s t : System k} (st : Step k frame s t)
        → inside ≡ false
        → torn ≡ true
        → Runs inside torn acts s saw_torn
