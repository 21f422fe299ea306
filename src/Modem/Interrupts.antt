-- ===== src/Modem/Interrupts.antt =====
-- The way of an IPC interrupt: the handler that `nrf_modem_os_init` of src/nrf_modem.c installs, and
-- `nrfx_ipc_irq_handler` of src/nrfx_ipc.c, which it calls.
use nrf.Base.{
  ℕ, ◌==◌, ==_iff, ◌≡◌, refl, sym, ap, ◌∙◌, Bool-cases, inl, inr, Option, none, some, List, [],
  if◌then◌else◌,
}
use nrf.Ipc.Driver.{ControlBlock, Action, nrfx_ipc_irq_handler}
use nrf.Ipc.Interrupt.{
  pending_channels, serve, unserved, nrfx_ipc_irq_handler-serve, nrfx_ipc_irq_handler-unserved,
}
use nrf.Modem.Kernel.{Kernel}
use nrf.Modem.Waiters.{Os, Isr, ipc_intr, Vectors, nrf_modem_os_init}

-- `ipc_intr` of src/nrf_modem.c; `m` is the control block in src/nrfx_ipc.c.
unfoldable pub run_isr : Isr → ControlBlock → (pending : ℕ) → Option (List Action)
run_isr ipc_intr m pending = nrfx_ipc_irq_handler m pending

-- The interrupt controller calls what was installed for the interrupt.
unfoldable pub deliver : (irq : ℕ) → Vectors → ControlBlock → (pending : ℕ) → Option (List Action)
deliver irq vectors m pending = elim (vectors irq) [
  | none ↦ some []
  | some isr ↦ run_isr isr m pending
]

installed :
    (k : Kernel) (id_ipc nvic : ℕ) (vectors vectors' : Vectors) (os os' : Os k)
    → nrf_modem_os_init k id_ipc nvic vectors os ≡ some (os', vectors')
    → vectors' id_ipc ≡ some ipc_intr
unfolding nrf_modem_os_init
installed k id_ipc nvic vectors vectors' os os' h = elim (Bool-cases (nvic == 0)) [
  | inl e ↦ absurd (cc (rw e at h))
  | inr e ↦
      let table : (λ (irq : ℕ). if irq == id_ipc then some ipc_intr else vectors irq) ≡ vectors' =
        cc (rw e at h) in
      sym (ap (λ (f : Vectors). f id_ipc) table) ∙ rw ((==_iff id_ipc id_ipc).1 refl)
]

-- Once `nrf_modem_os_init` has found the interrupt controller, an IPC interrupt is handled by
-- src/nrfx_ipc.c: with a handler in its control block each pending channel of the eight is served, in
-- ascending order; with none, as before `nrfx_ipc_init`, the interrupt faults if one is pending.
pub deliver-nrf_modem_os_init :
    (k : Kernel) (id_ipc nvic : ℕ) (vectors vectors' : Vectors) (os os' : Os k) (m : ControlBlock)
    (pending : ℕ)
    → nrf_modem_os_init k id_ipc nvic vectors os ≡ some (os', vectors')
    → deliver id_ipc vectors' m pending ≡ (
        if m.handler == 0
        then unserved (pending_channels pending 8 0)
        else some (serve m (pending_channels pending 8 0)))
unfolding deliver run_isr
deliver-nrf_modem_os_init k id_ipc nvic vectors vectors' os os' m pending h =
    rw (installed k id_ipc nvic vectors vectors' os os' h, deliver)
      (elim (Bool-cases (m.handler == 0)) [
        | inl e ↦ rw e (nrfx_ipc_irq_handler-unserved m pending ((==_iff m.handler 0).0 e))
        | inr e ↦
            rw e (nrfx_ipc_irq_handler-serve m pending (λ q. cc (e, (==_iff m.handler 0).1 q)))
      ])
