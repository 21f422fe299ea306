-- ===== src/Modem/Preempt/Examples.antt =====
-- A thread that goes to sleep and one that leaves, each with an interrupt in between, and the theorems
-- about them.
use nrf.Base.{refl, false}
use nrf.Base.Int.{pos}
use nrf.Modem.ListKernel.{lists, frame, frame-Frames, quiet, one_asleep, one_asleep-Reach}
use nrf.Modem.Waiters.{td_first, td_next, notify_loop, nrf_modem_os_event_notify}
use nrf.Modem.Timedwait.{timedwait_enter}
use nrf.Modem.System.{System, outside, asleep, leaving, moved, expire, notify, start, later}
use nrf.Modem.Preempt.{
  Act, sem_init, set_context, critical_enter, critical_exit, append_begin, append_end, remove_begin,
  remove_end, entry_acts, exit_acts, acted, ended, Runs, done, act, other,
}
use nrf.Modem.Preempt.Atomic.{Settled, exit_acts-Settled, entry_acts-Settled}

program : Unit {0}
unfolding td_first td_next notify_loop nrf_modem_os_event_notify timedwait_enter
program = tt

abbrev put : Act → System lists → System lists
put = acted lists frame 0 7 (pos 50)

abbrev asleep_now : System lists
asleep_now = put append_end (put set_context (put sem_init quiet))

-- A notification on the context 7, for which it is still too early.
entry_run : Runs lists frame 0 7 (pos 50) false false entry_acts quiet (ended asleep_now)
unfolding program
entry_run = act sem_init _ (
    other (notify 7 refl) refl refl tt (
      act set_context _
        (act critical_enter _ (act append_begin _ (act append_end _ (act critical_exit _ done))))))

entry_acts-Settled_example : Settled lists frame 0 (asleep 7 (pos 50)) (ended asleep_now)
unfolding program
entry_acts-Settled_example =
    entry_acts-Settled lists frame frame-Frames 0 7 (pos 50) 50000 one_asleep.os
      (start quiet refl (λ i. refl)) refl refl entry_run

abbrev timed_out : System lists
timed_out = moved lists one_asleep one_asleep.os 0 (leaving (pos 50) (pos 0))

exit_run :
    Runs lists frame 0 7 (pos 50) false false exit_acts timed_out (ended (put remove_end timed_out))
unfolding program
exit_run =
    other (notify 8 refl) refl refl tt
      (act critical_enter _ (act remove_begin _ (act remove_end _ (act critical_exit _ done))))

exit_acts-Settled_example : Settled lists frame 0 outside (ended (put remove_end timed_out))
exit_acts-Settled_example =
    exit_acts-Settled lists frame frame-Frames 0 7 (pos 50) (pos 50) (pos 0)
      (later one_asleep-Reach (expire 0 7 (pos 50) refl)) refl exit_run
