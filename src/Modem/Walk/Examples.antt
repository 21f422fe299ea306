-- ===== src/Modem/Walk/Examples.antt =====
-- A shutdown during which a thread falls asleep, and the theorems about it at this run.
use nrf.Base.{◌≡◌, refl, true, false, none, some, [], ◌∷◌}
use nrf.Base.Int.{pos}
use nrf.Modem.Kernel.{has}
use nrf.Modem.ListKernel.{lists, frame, frame-Frames, one_asleep, one_asleep-Reach}
use nrf.Modem.Waiters.{td_first, td_next, post, shutdown_loop, nrf_modem_os_shutdown}
use nrf.Modem.Timedwait.{enqueue, timedwait_enter}
use nrf.Modem.System.{asleep, moved, enter}
use nrf.Modem.System.Progress.{Exits}
use nrf.Modem.Walk.{Walk, begin, visited, visit, other, Moves, stay, then, Rounds}
use nrf.Modem.Walk.Finish.{nrf_modem_os_shutdown-Moves, Moves-has, Moves-Exits}

program : Unit {0}
unfolding td_first td_next timedwait_enter
program = tt

-- The loop stands at thread 0 when thread 1 goes to sleep on the context 8.
abbrev joined : Walk lists frame
joined = record {
  sys = moved lists one_asleep (enqueue lists 8 2 one_asleep.os) 1 (asleep 8 (pos 50));
  td = some 1;
}

abbrev second : Walk lists frame
second = visited lists frame joined 1

second-Moves : Moves lists frame (begin lists frame one_asleep) second
unfolding program
second-Moves =
    then (other 1 (enter 1 8 50000 (pos 50) true refl refl) refl tt)
      (then (visit 1 refl) (stay second))

third-Moves : Moves lists frame (begin lists frame one_asleep) (visited lists frame second 2)
unfolding program
third-Moves =
    then (other 1 (enter 1 8 50000 (pos 50) true refl refl) refl tt)
      (then (visit 1 refl) (then (visit 2 refl) (stay (visited lists frame second 2))))

Moves-has_example :
    (has 2 (1 ∷ 2 ∷ []) ≡ true)
    × (u : Walk lists frame) × Rounds lists frame second u
    × (u.td ≡ none)
unfolding program
Moves-has_example =
    Moves-has lists frame frame-Frames one_asleep one_asleep-Reach second second-Moves 2 refl

Moves-Exits_example : Exits lists frame false 1 (pos 50) (visited lists frame second 2).sys
unfolding program
Moves-Exits_example =
    Moves-Exits lists frame frame-Frames one_asleep one_asleep-Reach (visited lists frame second 2)
      third-Moves false 1 8 (pos 50) refl refl

-- Without other steps the loop posts to thread 0 and ends.
alone :
    Moves lists frame
      (begin lists frame one_asleep)
      (record { sys = record one_asleep { os = post lists 1 one_asleep.os }; td = none })
unfolding nrf_modem_os_shutdown shutdown_loop td_first td_next
alone = nrf_modem_os_shutdown-Moves lists frame 2 one_asleep (post lists 1 one_asleep.os) refl
