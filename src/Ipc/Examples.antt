-- ===== src/Ipc/Examples.antt =====
-- Runs of src/nrfx_ipc.c, and the theorems about it at inputs.
use nrf.Base.{
  ℕ, ◌/◌, ◌%◌, ◌^◌, ◌==◌, ◌≡◌, ◌≢◌, refl, ◌&&◌, true, false, none, some, List, [], ◌∷◌, ◌++◌, ◌+◌,
  arith, ltb, if◌then◌else◌,
}
use nrf.Ipc.Driver.{
  ControlBlock, Action, Config, clear_event, call_handler, inten, nrfx_success, cb, irq_loop,
  nrfx_ipc_irq_handler, nrfx_ipc_init, nrfx_ipc_receive_event_enable,
  nrfx_ipc_receive_event_disable, nrfx_ipc_config_load, nrfx_ipc_uninit,
}
use nrf.Ipc.Interrupt.{
  pending_channels, serve, registers, nrfx_ipc_irq_handler-serve, nrfx_ipc_irq_handler-registers,
  cb-nrfx_ipc_irq_handler,
}
use nrf.Ipc.Routing.{
  Route, route, routed, driven, driven-nrfx_ipc_config_load, routed-nrfx_ipc_uninit,
}

abbrev installed : ControlBlock
installed = record { handler = 0x8000; context = 5 }

installed_by_init : nrfx_ipc_init 1 2 0x8000 5 ≡ some (installed, nrfx_success)
unfolding nrfx_ipc_init
installed_by_init = refl

init_panics : nrfx_ipc_init 1 0 0x8000 5 ≡ none
unfolding nrfx_ipc_init
init_panics = refl

event_switch :
    (nrfx_ipc_receive_event_enable 1 3 ≡ some (inten 3 true ∷ []))
    × (nrfx_ipc_receive_event_disable 1 3 ≡ some (inten 3 false ∷ []))
    × (nrfx_ipc_receive_event_disable 0 3 ≡ none)
unfolding nrfx_ipc_receive_event_enable nrfx_ipc_receive_event_disable
event_switch = (refl, refl, refl)

two_pending :
    nrfx_ipc_irq_handler installed 0x112
    ≡ some (clear_event 1 ∷ call_handler 0x8000 1 5 ∷ clear_event 4 ∷ call_handler 0x8000 4 5 ∷ [])
unfolding nrfx_ipc_irq_handler irq_loop
two_pending = refl

has_handler : installed.handler ≢ 0
has_handler = omega arith

nrfx_ipc_irq_handler-serve_example :
    nrfx_ipc_irq_handler installed 0x112 ≡ some (serve installed (pending_channels 0x112 8 0))
nrfx_ipc_irq_handler-serve_example = nrfx_ipc_irq_handler-serve installed 0x112 has_handler

cleared_and_called :
    (actions : List Action) × (nrfx_ipc_irq_handler installed 0x112 ≡ some actions)
    × (registers (λ i. i + 1) actions 4 ≡ (if ltb 4 8 && (0x112 / 2 ^ 4 % 2 == 1) then 0 else 5))
cleared_and_called = nrfx_ipc_irq_handler-registers installed 0x112 (λ i. i + 1) 4 has_handler

two_arguments :
    (a b : ℕ) × (a ≢ b)
    × (cb installed 3 ≡ some (call_handler 0x8000 a 5 ∷ []))
    × (nrfx_ipc_irq_handler installed (2 ^ 3) ≡ some (clear_event 3 ∷ call_handler 0x8000 b 5 ∷ []))
two_arguments = cb-nrfx_ipc_irq_handler installed 3 (omega arith) has_handler

abbrev settings : Config
settings = record {
  send_task_config = λ i. i + 10;
  receive_event_config = λ i. i + 20;
  receive_events_enabled = 0xff;
}

abbrev unset : Route
unset = route none none none

-- Without the device the calls are made with NULL.
no_device :
    ((nrfx_ipc_config_load 0 settings).dev ≡ 0)
    × (driven 3 (nrfx_ipc_config_load 0 settings) unset ≡ none)
unfolding nrfx_ipc_config_load
no_device = (refl, driven-nrfx_ipc_config_load 0 settings 3 unset)

undone :
    routed 3 ((nrfx_ipc_config_load 0x5000 settings).calls ++ (nrfx_ipc_uninit 0x5000).calls) unset
    ≡ route (some 0) (some (0, false)) (some (0xffffffff, false))
undone = routed-nrfx_ipc_uninit 0x5000 settings 3 unset refl
