-- ===== src/Ipc/Interrupt.antt =====
-- What `nrfx_ipc_irq_handler` does to the event registers, and the handler calls that it makes.
use native.Mathlib.Nat.{pow-suc}
use nrf.Base.{
  ℕ, zero, suc, ◌+◌, ◌/◌, ◌%◌, ◌^◌, ◌<◌, ◌==◌, ◌≡◌, refl, ap, ◌∙◌, ◌≢◌, ◌&&◌, Option, none, some,
  List, [], ◌∷◌, arith, leb, ltb, if◌then◌else◌,
}
use nrf.Base.Bits.{has_bits-pow}
use nrf.Ipc.Driver.{
  ControlBlock, Action, clear_event, call_handler, cb, irq_loop, nrfx_ipc_irq_handler,
}

-- The channels from `i` on whose bit is set in `pending`, lowest first.
unfoldable pub pending_channels : (pending rounds i : ℕ) → List ℕ
pending_channels pending zero i = []
pending_channels pending (suc rounds) i =
    let rest = pending_channels pending rounds (i + 1) in
    if pending / 2 ^ i % 2 == 1 then i ∷ rest else rest

-- Serving a list of channels: each event is cleared before its handler call.
unfoldable pub serve : ControlBlock → List ℕ → List Action
serve m [] = []
serve m (i ∷ is) = clear_event i ∷ call_handler m.handler i m.context ∷ serve m is

irq_loop-serve :
    (m : ControlBlock) (pending rounds i : ℕ)
    → m.handler ≢ 0
    → irq_loop m pending rounds i ≡ some (serve m (pending_channels pending rounds i))
unfolding irq_loop serve pending_channels
irq_loop-serve m pending zero i h = refl
irq_loop-serve m pending (suc rounds) i h =
    ground (arith, has_bits-pow i pending, irq_loop-serve m pending rounds (i + 1) h)

-- With a handler installed, the interrupt clears the event of each of the eight channels that is
-- pending and calls the handler with the number of the channel, in ascending order and no other.
pub nrfx_ipc_irq_handler-serve :
    (m : ControlBlock) (pending : ℕ)
    → m.handler ≢ 0
    → nrfx_ipc_irq_handler m pending ≡ some (serve m (pending_channels pending 8 0))
unfolding nrfx_ipc_irq_handler
nrfx_ipc_irq_handler-serve m pending h = irq_loop-serve m pending 8 0 h

-- The work of an interrupt with no handler to call: it faults at the first channel that is pending.
abbrev pub unserved : List ℕ → Option (List Action)
unserved [] = some []
unserved (i ∷ is) = none

irq_loop-unserved :
    (m : ControlBlock) (pending rounds i : ℕ)
    → m.handler ≡ 0
    → irq_loop m pending rounds i ≡ unserved (pending_channels pending rounds i)
unfolding irq_loop pending_channels
irq_loop-unserved m pending zero i h = refl
irq_loop-unserved m pending (suc rounds) i h =
    ground (arith, has_bits-pow i pending, irq_loop-unserved m pending rounds (i + 1) h)

pub nrfx_ipc_irq_handler-unserved :
    (m : ControlBlock) (pending : ℕ)
    → m.handler ≡ 0
    → nrfx_ipc_irq_handler m pending ≡ unserved (pending_channels pending 8 0)
unfolding nrfx_ipc_irq_handler
nrfx_ipc_irq_handler-unserved m pending h = irq_loop-unserved m pending 8 0 h

-- The event registers after the actions.
pub registers : (ℕ → ℕ) → List Action → ℕ → ℕ
registers regs [] j = regs j
registers regs (clear_event i ∷ actions) j = registers (λ k. if k == i then 0 else regs k) actions j
registers regs (call_handler h a c ∷ actions) j = registers regs actions j

registers-serve :
    (m : ControlBlock) (pending rounds i : ℕ) (regs : ℕ → ℕ) (j : ℕ)
    → registers regs (serve m (pending_channels pending rounds i)) j
      ≡ (if leb i j && ltb j (i + rounds) && (pending / 2 ^ j % 2 == 1) then 0 else regs j)
unfolding registers serve pending_channels
registers-serve m pending zero i regs j = ground arith
registers-serve m pending (suc rounds) i regs j = ground (
  arith,
  registers-serve m pending rounds (i + 1) (λ k. if k == i then 0 else regs k) j,
  registers-serve m pending rounds (i + 1) regs j,
)

-- With a handler installed, the interrupt leaves the event registers of the pending channels below
-- eight at 0, and all others as they were.
pub nrfx_ipc_irq_handler-registers :
    (m : ControlBlock) (pending : ℕ) (regs : ℕ → ℕ) (j : ℕ)
    → m.handler ≢ 0
    → (actions : List Action) × (nrfx_ipc_irq_handler m pending ≡ some actions)
      × (registers regs actions j ≡ (if ltb j 8 && (pending / 2 ^ j % 2 == 1) then 0 else regs j))
nrfx_ipc_irq_handler-registers m pending regs j h = (
  serve m (pending_channels pending 8 0),
  nrfx_ipc_irq_handler-serve m pending h,
  ground (arith, registers-serve m pending 8 0 regs j),
)

lt-pow : (i : ℕ) → i < 2 ^ i
lt-pow zero = omega arith
lt-pow (suc i) = omega (arith, lt-pow i, pow-suc 2 i)

-- A word with one bit has one pending channel.
single : (i : ℕ) → i < 8 → pending_channels (2 ^ i) 8 0 ≡ i ∷ []
unfolding pending_channels
single zero h = refl
single (suc zero) h = refl
single (suc (suc zero)) h = refl
single (suc (suc (suc zero))) h = refl
single (suc (suc (suc (suc zero)))) h = refl
single (suc (suc (suc (suc (suc zero))))) h = refl
single (suc (suc (suc (suc (suc (suc zero)))))) h = refl
single (suc (suc (suc (suc (suc (suc (suc zero))))))) h = refl
single (suc (suc (suc (suc (suc (suc (suc (suc i)))))))) h = absurd (omega arith)

-- The two ways in which this file calls an installed handler never agree on its argument, for none
-- of the eight channels: `cb` passes a mask with the bit of the channel, the interrupt, when that
-- channel alone is pending, passes another number.
pub cb-nrfx_ipc_irq_handler :
    (m : ControlBlock) (i : ℕ)
    → i < 8
    → m.handler ≢ 0
    → (a b : ℕ) × (a ≢ b)
      × (cb m i ≡ some (call_handler m.handler a m.context ∷ []))
      × (nrfx_ipc_irq_handler m (2 ^ i)
          ≡ some (clear_event i ∷ call_handler m.handler b m.context ∷ []))
unfolding cb serve
cb-nrfx_ipc_irq_handler m i lt h = (
  2 ^ i,
  i,
  omega (arith, lt-pow i),
  ground arith,
  nrfx_ipc_irq_handler-serve m (2 ^ i) h ∙ ap (λ is. some (serve m is)) (single i lt),
)
