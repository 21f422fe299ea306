-- ===== src/Ipc/Driver.antt =====
-- The functions of src/nrfx_ipc.c. What they ask of the IPC driver and of the hardware is the list
-- of their calls and accesses, in order; an address 0 is NULL, and `none` is a panic or a fault.
use nrf.Base.{
  ℕ, zero, suc, ◌+◌, ◌^◌, ◌==◌, Bool, true, false, Option, none, some, List, [], ◌∷◌, ◌++◌,
  if◌then◌else◌,
}
use nrf.Base.Bits.{has_bits}

abbrev pub ipc_conf_num : ℕ
ipc_conf_num = 8

-- NRFX_SUCCESS of src/nrfx_errors.h.
abbrev pub nrfx_success : ℕ
nrfx_success = 0x0bad0000

-- `struct ipc_control_block`; its member `state` is used nowhere.
pub record ControlBlock : Type 0 where
  pub handler : ℕ
  pub context : ℕ

-- `nrfx_ipc_config_t`
pub record Config : Type 0 where
  pub send_task_config : ℕ → ℕ
  pub receive_event_config : ℕ → ℕ
  pub receive_events_enabled : ℕ

-- Calls of the driver. `callback` says whether a receive channel is given `cb` or NULL.
pub data Call : Type 0 where
  configure_send : (channel value : ℕ) → Call
  configure_recv : (channel value : ℕ) (callback : Bool) → Call
  inten : (channel : ℕ) (on : Bool) → Call
  inten_chanmask : (mask : ℕ) (on : Bool) → Call

-- What an interrupt does: clear the event register of a channel, or call the handler.
pub data Action : Type 0 where
  clear_event : (channel : ℕ) → Action
  call_handler : (handler argument context : ℕ) → Action

unfoldable pub cb : ControlBlock → ℕ → Option (List Action)
cb m ev_id =
    if m.handler == 0 then none else some (call_handler m.handler (2 ^ ev_id) m.context ∷ [])

unfoldable pub send_loop : (rounds i : ℕ) → (ℕ → ℕ) → List Call
send_loop zero i values = []
send_loop (suc rounds) i values = configure_send i (values i) ∷ send_loop rounds (i + 1) values

unfoldable pub recv_loop : (rounds i : ℕ) → (ℕ → ℕ) → Bool → List Call
recv_loop zero i values callback = []
recv_loop (suc rounds) i values callback =
    configure_recv i (values i) callback ∷ recv_loop rounds (i + 1) values callback

-- The device that all the calls of a function are given, and the calls.
pub record Calls : Type 0 where
  pub dev : ℕ
  pub calls : List Call

-- `dev` is the result of the device lookup, which is not tested here: the calls are made with NULL too.
unfoldable pub nrfx_ipc_config_load : (dev : ℕ) → Config → Calls
nrfx_ipc_config_load dev p_config = record {
  dev = dev;
  calls =
      send_loop ipc_conf_num 0 p_config.send_task_config
      ++ (recv_loop ipc_conf_num 0 p_config.receive_event_config true
          ++ inten_chanmask p_config.receive_events_enabled true ∷ []);
}

-- `dev` is the result of the device lookup.
unfoldable pub nrfx_ipc_receive_event_disable : (dev event_index : ℕ) → Option (List Call)
nrfx_ipc_receive_event_disable dev event_index =
    if dev == 0 then none else some (inten event_index false ∷ [])

unfoldable pub nrfx_ipc_receive_event_enable : (dev event_index : ℕ) → Option (List Call)
nrfx_ipc_receive_event_enable dev event_index =
    if dev == 0 then none else some (inten event_index true ∷ [])

unfoldable pub nrfx_ipc_init : (nvic dev handler p_context : ℕ) → Option (ControlBlock × ℕ)
nrfx_ipc_init nvic dev handler p_context =
    if nvic == 0
    then none
    else if dev == 0
    then none
    else some (record { handler = handler; context = p_context }, nrfx_success)

-- The same holds here.
unfoldable pub nrfx_ipc_uninit : (dev : ℕ) → Calls
nrfx_ipc_uninit dev = record {
  dev = dev;
  calls =
      send_loop ipc_conf_num 0 (λ i. 0)
      ++ (recv_loop ipc_conf_num 0 (λ i. 0) false ++ inten_chanmask 0xffffffff false ∷ []);
}

unfoldable pub irq_loop : ControlBlock → (pending rounds i : ℕ) → Option (List Action)
irq_loop m pending zero i = some []
irq_loop m pending (suc rounds) i =
    let rest = irq_loop m pending rounds (i + 1) in
    if has_bits pending (2 ^ i)
    then (if m.handler == 0 then none else (elim rest [
      | none ↦ none
      | some actions ↦ some (clear_event i ∷ call_handler m.handler i m.context ∷ actions)
    ]))
    else rest

-- `pending` is what the register IPC_INTPEND holds when the interrupt is entered.
unfoldable pub nrfx_ipc_irq_handler : ControlBlock → (pending : ℕ) → Option (List Action)
nrfx_ipc_irq_handler m pending = irq_loop m pending ipc_conf_num 0
