-- ===== src/Modem/Delivery.antt =====
-- An IPC interrupt up to the threads in `nrf_modem_os_timedwait`: the routine of src/nrf_modem.c, the
-- handler calls of src/nrfx_ipc.c, and the calls of `nrf_modem_os_event_notify` that the modem library
-- makes in its handler.
use nrf.Base.{
  ℕ, suc, ◌+◌, ◌≤◌, ◌==◌, ◌≡◌, ◌≢◌, ==_iff, ◌∙◌, ◌||◌, Bool, Bool-cases, true, false, inl, inr,
  none, some, List, [], ◌∷◌, arith, length, if◌then◌else◌,
}
use nrf.Base.Int.{ℤ}
use nrf.Base.Run.{Run, ok, undefined, ◌>>=◌, Returns, Returns-mono, Returns-bind, Returns-cases}
use nrf.Ipc.Driver.{ControlBlock, Action, clear_event, call_handler}
use nrf.Ipc.Interrupt.{pending_channels, serve}
use nrf.Modem.Kernel.{Kernel, Ptr, has}
use nrf.Modem.Waiters.{Os, Vectors, is_addressed, nrf_modem_os_init, nrf_modem_os_event_notify}
use nrf.Modem.Notify.{Posted, nrf_modem_os_event_notify-Posted}
use nrf.Modem.Interrupts.{deliver, deliver-nrf_modem_os_init}
use nrf.Modem.System.{System, asleep, Reach, later, notify}
use nrf.Modem.System.Invariant.{Frames, Reach-Inv}
use nrf.Modem.System.Progress.{Returning, posted-Exits}

-- `library` has the contexts that the library's handler notifies, by its argument.
module _ (k : Kernel) (library : ℕ → List ℕ) where
  open k use {nodes, count, sem_init, sem_post, count-sem_init, count-sem_post}

  unfoldable pub notify_all : List ℕ → Os k → Run (Os k)
  notify_all [] os = ok os
  notify_all (context ∷ contexts) os =
      nrf_modem_os_event_notify k (suc (length (nodes os.links))) context os >>= notify_all contexts

  unfoldable pub run_actions : List Action → Os k → Run (Os k)
  run_actions [] os = ok os
  run_actions (clear_event channel ∷ actions) os = run_actions actions os
  run_actions (call_handler handler argument context ∷ actions) os =
      notify_all (library argument) os >>= run_actions actions

  unfoldable pub interrupt : (irq : ℕ) → Vectors → ControlBlock → (pending : ℕ) → Os k → Run (Os k)
  interrupt irq vectors m pending os = elim (deliver irq vectors m pending) [
    | none ↦ undefined
    | some actions ↦ run_actions actions os
  ]

  -- Whether one of the contexts is that of a thread, or 0; and whether that is so for a channel.
  abbrev pub any_addressed : (context : ℕ) → List ℕ → Bool
  any_addressed c [] = false
  any_addressed c (context ∷ contexts) =
      ((c == context) || (context == 0)) || any_addressed c contexts

  abbrev pub rings : (context : ℕ) → List ℕ → Bool
  rings c [] = false
  rings c (channel ∷ channels) = any_addressed c (library channel) || rings c channels

  module _ (frame : ℕ → Ptr) (fr : Frames k frame) (i c : ℕ) (val : ℤ) where
    -- The threads where they stood, and thread `i` with a permit more if it was hit.
    record Rung (s : System k) (hit : Bool) (os' : Os k) : Type 0 where
      pub reach : Reach k frame (record s { os = os' })
      pub permits : (if hit then 1 else 0) + count (s.os.sem (frame i)) ≤ count (os'.sem (frame i))

    still-Rung : (s : System k) → Reach k frame s → Rung s false s.os
    still-Rung s r = record { reach = r; permits = omega arith }

    -- One after the other.
    bind-Rung :
        (s : System k) (a b : Bool) (run : Run (Os k)) (next : Os k → Run (Os k))
        → Returns (Rung s a) run
        → ((os1 : Os k)
            → Reach k frame (record s { os = os1 })
            → Returns (Rung (record s { os = os1 }) b) (next os1))
        → Returns (Rung s (a || b)) (run >>= next)
    bind-Rung s a b run next first second =
        Returns-bind (Rung s a) (Rung s (a || b)) next run
          (λ os1 p.
            Returns-mono (Rung (record s { os = os1 }) b) (Rung s (a || b)) (next os1)
              (second os1 p.reach)
              (λ os2 q. record { reach = q.reach; permits = ground (arith, p.permits, q.permits) }))
          first

    Posted-Rung :
        (s : System k) (context : ℕ) (os' : Os k)
        → Reach k frame s
        → s.pc i ≡ asleep c val
        → nrf_modem_os_event_notify k (suc (length (nodes s.os.links))) context s.os ≡ ok os'
        → Posted k (is_addressed k context s.os) (nodes s.os.links) s.os os'
        → Rung s ((c == context) || (context == 0)) os'
    Posted-Rung s context os' r here ran p =
        let inv = Reach-Inv k frame fr r in
        let listed : has (frame i) (nodes s.os.links) ≡ true = inv.listed i ∙ ground arith in
        record {
          reach = later r (notify context ran);
          permits =
              rw (p.sem (frame i), listed, inv.context i c val here)
                (ground (arith, count-sem_post (s.os.sem (frame i))));
        }

    notify-Rung :
        (s : System k) (context : ℕ)
        → Reach k frame s
        → s.pc i ≡ asleep c val
        → Returns
            (Rung s ((c == context) || (context == 0)))
            (nrf_modem_os_event_notify k (suc (length (nodes s.os.links))) context s.os)
    notify-Rung s context r here =
        let (os', ran, p) =
          Returns-cases (Posted k (is_addressed k context s.os) (nodes s.os.links) s.os)
            (nrf_modem_os_event_notify k (suc (length (nodes s.os.links))) context s.os)
            (nrf_modem_os_event_notify-Posted k context (suc (length (nodes s.os.links))) s.os
              (omega arith) (Reach-Inv k frame fr r).well) in
        rw ran (Posted-Rung s context os' r here ran p)

    notify_all-Rung :
        (contexts : List ℕ) (s : System k)
        → Reach k frame s
        → s.pc i ≡ asleep c val
        → Returns (Rung s (any_addressed c contexts)) (notify_all contexts s.os)
    unfolding notify_all
    notify_all-Rung [] s r here = still-Rung s r
    notify_all-Rung (context ∷ contexts) s r here =
        bind-Rung s ((c == context) || (context == 0)) (any_addressed c contexts) _
          (notify_all contexts) (notify-Rung s context r here)
          (λ os1 r1. notify_all-Rung contexts (record s { os = os1 }) r1 here)

    serve-Rung :
        (m : ControlBlock) (channels : List ℕ) (s : System k)
        → Reach k frame s
        → s.pc i ≡ asleep c val
        → Returns (Rung s (rings c channels)) (run_actions (serve m channels) s.os)
    unfolding run_actions serve
    serve-Rung m [] s r here = still-Rung s r
    serve-Rung m (channel ∷ channels) s r here =
        bind-Rung s (any_addressed c (library channel)) (rings c channels)
          (notify_all (library channel) s.os) (run_actions (serve m channels))
          (notify_all-Rung (library channel) s r here)
          (λ os1 r1. serve-Rung m channels (record s { os = os1 }) r1 here)

    Rung-Returning :
        (s : System k) (os' : Os k)
        → s.pc i ≡ asleep c val
        → Rung s true os'
        → Reach k frame (record s { os = os' }) × Returning k frame i val (record s { os = os' })
    Rung-Returning s os' here p = (
      p.reach,
      posted-Exits k frame fr true (record s { os = os' }) i c val (Reach-Inv k frame fr p.reach)
          here (omega (arith, p.permits)),
    )

    -- After `nrf_modem_os_init` has installed the interrupt and `nrfx_ipc_init` a handler, from every
    -- state that can be reached: if the library's handler notifies, for one of the channels that are
    -- pending, the context of a sleeping thread or the context 0, then the interrupt comes to its end
    -- in a state that can be reached, and in it that thread's semaphore has a permit. From there two
    -- steps can follow: its wait takes the permit, with no need for its time to be over, and the thread
    -- leaves. Then it is outside of `nrf_modem_os_timedwait` and off the list, and the function's
    -- result after such a wait is 0. The threads' records have addresses of their own.
    pub interrupt-Returning :
        (id_ipc nvic : ℕ) (vectors vectors' : Vectors) (os0 os0' : Os k) (m : ControlBlock)
        (pending : ℕ) (s : System k)
        → nrf_modem_os_init k id_ipc nvic vectors os0 ≡ some (os0', vectors')
        → m.handler ≢ 0
        → Reach k frame s
        → s.pc i ≡ asleep c val
        → rings c (pending_channels pending 8 0) ≡ true
        → Returns
            (λ os'.
              Reach k frame (record s { os = os' })
              × Returning k frame i val (record s { os = os' }))
            (interrupt id_ipc vectors' m pending s.os)
    unfolding interrupt
    interrupt-Returning id_ipc nvic vectors vectors' os0 os0' m pending s up handled r here hit =
        let called : deliver id_ipc vectors' m pending
            ≡ some (serve m (pending_channels pending 8 0)) =
          elim (Bool-cases (m.handler == 0)) [
            | inl e ↦ absurd (handled ((==_iff m.handler 0).0 e))
            | inr e ↦
                rw e at
                  (deliver-nrf_modem_os_init k id_ipc nvic vectors vectors' os0 os0' m pending up)
          ] in
        rw (called, Returns)
          (Returns-mono (Rung s true) _ (run_actions (serve m (pending_channels pending 8 0)) s.os)
            (rw hit at (serve-Rung m (pending_channels pending 8 0) s r here))
            (λ os' p. Rung-Returning s os' here p))
