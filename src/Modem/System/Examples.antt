-- ===== src/Modem/System/Examples.antt =====
-- A sleep that nobody ends before its time, and the theorem about it.
use nrf.Base.{◌≡◌, refl, true}
use nrf.Base.Int.{ℤ, pos}
use nrf.Modem.ListKernel.{lists, frame, frame-Frames, quiet, one_asleep}
use nrf.Modem.Waiters.{td_first, td_next, notify_loop, nrf_modem_os_event_notify}
use nrf.Modem.Timedwait.{again, timedwait_enter, timedwait_leave}
use nrf.Modem.System.{System, leaving, moved, expire, notify, start}
use nrf.Modem.System.Spurious.{Silence, hush, on, unsignalled_result}

-- A notification on the context 8 passes thread 0, which waits on 7 for 50 milliseconds.
abbrev late : System lists
late = moved lists one_asleep one_asleep.os 0 (leaving (pos 50) (pos 0))

late-Silence : Silence lists frame 0 7 one_asleep late
unfolding td_first td_next notify_loop nrf_modem_os_event_notify
late-Silence = on (on hush (notify 8 refl) refl) (expire 0 7 (pos 50) refl) tt

unsignalled_result_example :
    (◌≡◌ {A = ℤ} (pos 0) (pos 0))
    × ((timedwait_leave lists true (pos 50) (pos 0) 1 late.os).1 ≡ again)
unfolding timedwait_enter
unsignalled_result_example =
    unsignalled_result lists frame frame-Frames 0 7 (pos 50) quiet late 50000 true true
      one_asleep.os (pos 50) (pos 0) (start quiet refl (λ i. refl)) refl refl late-Silence refl
