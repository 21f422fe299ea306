-- ===== src/Modem/Examples.antt =====
-- Runs of src/nrf_modem.c over a kernel whose lists are lists, and the theorems about it at inputs.
use nrf.Base.{
  ◌≢◌, ℕ, ◌+◌, ◌==◌, ◌≡◌, refl, ◌↔◌, inl, true, false, none, some, List, [], ◌∷◌, arith,
  if◌then◌else◌,
}
use nrf.Base.Int.{pos}
use nrf.Base.Run.{Returns}
use nrf.Modem.ListKernel.{lists, frame, frame-Frames, quiet, one_asleep, one_asleep-Reach}
use nrf.Modem.Kernel.{has}
use nrf.Modem.Waiters.{
  post, ipc_intr, nrf_modem_os_init, Os, td_first, td_next, is_addressed, notify_loop,
  nrf_modem_os_event_notify, nrf_modem_os_shutdown,
}
use nrf.Modem.Notify.{
  IsWell, Posted, nrf_modem_os_event_notify-Posted, nrf_modem_os_shutdown-Posted,
}
use nrf.Modem.System.{System, waits, Reach, notify}
use nrf.Modem.System.Progress.{
  Returning, nrf_modem_os_event_notify-Returning, Exits, nrf_modem_os_shutdown-Exits,
}
use nrf.Modem.System.Safety.{Woken, no_dangling_entry, no_lost_wakeup}
use nrf.Modem.System.Drain.{Exodus, Reach-Exodus}
use nrf.Modem.System.Room.{Turn, signal, Visit}
use nrf.Modem.System.Refine.{view, Step-Turn}
use nrf.Modem.Delivery.{interrupt, run_actions, notify_all, interrupt-Returning}
use nrf.Modem.Interrupts.{deliver, run_isr, deliver-nrf_modem_os_init}
use nrf.Ipc.Interrupt.{serve, pending_channels}
use nrf.Ipc.Driver.{clear_event, call_handler, ControlBlock, nrfx_ipc_irq_handler, irq_loop}

-- Three sleepers at 10, 20 and 30, on the contexts 7, 8 and 7.
abbrev three : Os lists
three = record { links = 10 ∷ 20 ∷ 30 ∷ []; sem = λ a. 0; context = λ a. if a == 20 then 8 else 7 }

three-IsWell : IsWell lists three.links
three-IsWell = ((refl, (refl, (refl, tt))), refl)

abbrev semaphores : Os lists → List ℕ
semaphores os = os.sem 10 ∷ os.sem 20 ∷ os.sem 30 ∷ []

notify_seven :
    Returns (λ os. semaphores os ≡ 1 ∷ 0 ∷ 1 ∷ []) (nrf_modem_os_event_notify lists 4 7 three)
unfolding nrf_modem_os_event_notify notify_loop td_first td_next
notify_seven = refl

reached_once :
    Returns
      (Posted lists (is_addressed lists 7 three) (10 ∷ 20 ∷ 30 ∷ []) three)
      (nrf_modem_os_event_notify lists 4 7 three)
reached_once = nrf_modem_os_event_notify-Posted lists 7 4 three (omega arith) three-IsWell

shutdown_of_three :
    Returns
      (Posted lists (λ a. true) (10 ∷ 20 ∷ 30 ∷ []) three)
      (nrf_modem_os_shutdown lists 4 three)
shutdown_of_three = nrf_modem_os_shutdown-Posted lists 4 three (omega arith) three-IsWell

no_dangling_entry_example :
    (has 1 (1 ∷ []) ≡ true) ↔ ((i : ℕ) × (1 ≡ i + 1) × (waits (one_asleep.pc i) ≡ true))
no_dangling_entry_example = no_dangling_entry lists frame frame-Frames one_asleep one_asleep-Reach 1

no_lost_wakeup_example :
    Returns
      (Woken lists frame frame-Frames one_asleep one_asleep-Reach 0)
      (nrf_modem_os_event_notify lists 2 7 one_asleep.os)
no_lost_wakeup_example =
    no_lost_wakeup lists frame frame-Frames one_asleep one_asleep-Reach 0 7 7 (pos 50) refl
      (inl refl)

nrf_modem_os_event_notify-Returning_example :
    Returns
      (λ os'. Returning lists frame 0 (pos 50) (record one_asleep { os = os' }))
      (nrf_modem_os_event_notify lists 2 7 one_asleep.os)
nrf_modem_os_event_notify-Returning_example =
    nrf_modem_os_event_notify-Returning lists frame frame-Frames one_asleep one_asleep-Reach 0 7 7
      (pos 50) refl (inl refl)

abbrev woken : Os lists
woken = post lists 1 one_asleep.os

Step-Turn_example :
    Turn
      (signal 7)
      (view lists frame one_asleep)
      (view lists frame (record one_asleep { os = woken }))
    × Visit (view lists frame (record one_asleep { os = woken }))
unfolding nrf_modem_os_event_notify notify_loop td_first td_next
Step-Turn_example = Step-Turn lists frame frame-Frames one_asleep-Reach (notify 7 refl)

all_exit :
    Returns
      (λ os'. Exits lists frame false 0 (pos 50) (record one_asleep { os = os' }))
      (nrf_modem_os_shutdown lists 2 one_asleep.os)
all_exit =
    nrf_modem_os_shutdown-Exits lists frame frame-Frames one_asleep one_asleep-Reach 0 7 (pos 50)
      refl

Reach-Exodus_example :
    (t : System lists) × Exodus lists frame one_asleep t
    × (t.os.links ≡ [])
    × ((i : ℕ) → waits (t.pc i) ≡ false)
Reach-Exodus_example = Reach-Exodus lists frame frame-Frames one_asleep one_asleep-Reach

-- The interrupt 42, on which the channels 0 and 2 are pending.
abbrev served : ControlBlock
served = record { handler = 9; context = 4 }

served_handler : served.handler ≢ 0
served_handler = omega arith

two_channels_served :
    deliver 42 (λ irq. if irq == 42 then some ipc_intr else none) served 5
    ≡ some (clear_event 0 ∷ call_handler 9 0 4 ∷ clear_event 2 ∷ call_handler 9 2 4 ∷ [])
unfolding nrf_modem_os_init serve pending_channels
two_channels_served =
    deliver-nrf_modem_os_init lists 42 1 (λ irq. none)
      (λ irq. if irq == 42 then some ipc_intr else none) quiet.os (record quiet.os { links = [] })
      served 5 refl

-- On the channel 2 the library's handler notifies the context 7.
abbrev on_two : ℕ → List ℕ
on_two argument = if argument == 2 then 7 ∷ [] else []

interrupt-Returning_example :
    Returns
      (λ os'.
        Reach lists frame (record one_asleep { os = os' })
        × Returning lists frame 0 (pos 50) (record one_asleep { os = os' }))
      (interrupt lists on_two 42
        (λ irq. if irq == 42 then some ipc_intr else none)
        served
        5
        one_asleep.os)
unfolding nrf_modem_os_init pending_channels
interrupt-Returning_example =
    interrupt-Returning lists on_two frame frame-Frames 0 7 (pos 50) 42 1 (λ irq. none)
      (λ irq. if irq == 42 then some ipc_intr else none) quiet.os (record quiet.os { links = [] })
      served 5 one_asleep refl served_handler one_asleep-Reach refl refl

-- The thread is posted to once, by the second of the two handler calls.
one_post :
    Returns
      (λ os. os.sem 1 ≡ 1)
      (interrupt lists on_two 42
        (λ irq. if irq == 42 then some ipc_intr else none)
        served
        5
        one_asleep.os)
unfolding interrupt run_actions notify_all deliver run_isr nrfx_ipc_irq_handler irq_loop
    nrf_modem_os_event_notify notify_loop td_first td_next
one_post = refl
