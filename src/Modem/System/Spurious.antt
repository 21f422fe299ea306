-- ===== src/Modem/System/Spurious.antt =====
-- A sleep in `nrf_modem_os_timedwait` during which nobody signals.
use nrf.Base.{
  ℕ, suc, ◌==◌, ==_iff, ◌≡◌, refl, sym, subst, ap, ◌∙◌, ◌⊎◌, ◌||◌, Bool, true, false, Bool-cases,
  inl, inr, arith, length, if◌then◌else◌,
}
use nrf.Base.Int.{ℤ, pos, is_negative}
use nrf.Modem.Kernel.{Ptr, Kernel}
use nrf.Modem.Waiters.{Os, is_addressed}
use nrf.Modem.Notify.{Posted, nrf_modem_os_event_notify-Posted}
use nrf.Modem.Timedwait.{
  success, again, shut_down, sleeps, enqueue, timedwait_enter, timedwait_leave,
}
use nrf.Modem.System.{
  Pc, outside, asleep, leaving, System, Step, enter, wake, expire, leave, notify, shutdown, moved,
  Reach,
}
use nrf.Modem.System.Invariant.{Frames, Inv, same, sleeps-enqueue, leave-os, Step-Inv, Reach-Inv}

module _ (k : Kernel) (frame : ℕ → Ptr) where
  open k use {nodes, count, count-sem_init}

  -- A step that does not signal a thread `i` on the context `c`, and is not its way out.
  abbrev pub Silent : (i c : ℕ) {s t : System k} → Step k frame s t → Type 0
  Silent i c (enter j context tmout val initialized out h) = Unit
  Silent i c (wake j context val taken here h) = Unit
  Silent i c (expire j context val here) = Unit
  Silent i c (leave j val err initialized here) = (i == j) ≡ false
  Silent i c (notify context h) = ((c == context) || (context == 0)) ≡ false
  Silent i c (shutdown h) = ⊥

  pub data Silence (i c : ℕ) (s : System k) : System k → Type 0 where
    hush : Silence i c s s
    on :
        {t u : System k}
        → Silence i c s t
        → (st : Step k frame t u) → Silent i c st
        → Silence i c s u

  -- The thread sleeps without a permit, or its time is over.
  abbrev Unsignalled : (i c : ℕ) (val : ℤ) → System k → Type 0
  Unsignalled i c val s =
      ((s.pc i ≡ asleep c val) × (count (s.os.sem (frame i)) ≡ 0)) ⊎ (s.pc i ≡ leaving val (pos 0))

  module _ (fr : Frames k frame) (i c : ℕ) (val : ℤ) (s : System k) (inv : Inv k frame s)
      (u : Unsignalled i c val s) where
    inside : s.pc i ≡ outside → ⊥
    inside out = elim u [ inl h ↦ cc (h.0, out) | inr h ↦ cc (h, out) ]

    -- There is no permit to take.
    no_permit :
        (j d : ℕ) (v : ℤ) (n : ℕ)
        → i ≡ j
        → s.pc j ≡ asleep d v
        → suc n ≡ count (s.os.sem (frame j))
        → ⊥
    no_permit j d v n e here h =
        let mine : suc n ≡ count (s.os.sem (frame i)) =
          h ∙ ap (λ x. count (s.os.sem (frame x))) (sym e) in
        elim u [
          | inl q ↦ let none : suc n ≡ 0 = mine ∙ q.1 in absurd (omega arith)
          | inr q ↦ cc (q, ap s.pc e, here)
        ]

    own_val : (j d : ℕ) (v : ℤ) → i ≡ j → s.pc j ≡ asleep d v → v ≡ val
    own_val j d v e here = elim u [
      | inl q ↦ cc (q.0, ap s.pc e, here)
      | inr q ↦ absurd (cc (q, ap s.pc e, here))
    ]

    -- Another thread's move.
    moved-Unsignalled :
        (j : ℕ) (p : Pc) (os' : Os k)
        → (i == j) ≡ false
        → os'.sem (frame i) ≡ s.os.sem (frame i)
        → Unsignalled i c val (moved k s os' j p)
    moved-Unsignalled j p os' other still = elim u [
      | inl h ↦ inl (rw other h.0, ap count still ∙ h.1)
      | inr h ↦ inr (rw other h)
    ]

    Posted-Unsignalled :
        (context : ℕ) (os' : Os k)
        → ((c == context) || (context == 0)) ≡ false
        → Posted k (is_addressed k context s.os) (nodes s.os.links) s.os os'
        → Unsignalled i c val (record s { os = os' })
    Posted-Unsignalled context os' silent p = elim u [
      | inl h ↦
          let own = inv.context i c val h.0 in
          let missed : is_addressed k context s.os (frame i) ≡ false = ground arith in
          inl (h.0, ap count (p.sem (frame i) ∙ ground arith) ∙ h.1)
      | inr h ↦ inr h
    ]

    Step-Unsignalled :
        {t : System k} (st : Step k frame s t) → Silent i c st → Unsignalled i c val t
    Step-Unsignalled (enter j d tmout v b {os'} out h) silent = elim (Bool-cases (i == j)) [
      | inl e ↦ absurd (inside (ap s.pc ((==_iff i j).0 e) ∙ out))
      | inr e ↦ moved-Unsignalled j (asleep d v) os' e (
          ap (λ (o : Os k). o.sem (frame i))
            (sleeps-enqueue k frame b d v (frame j) s.os tmout os' h)
          ∙ (rw (same k frame fr s inv j i ∙ e) refl))
    ]
    Step-Unsignalled (wake j d v taken here h) silent = elim (Bool-cases (i == j)) [
      | inl e ↦ absurd (no_permit j d v (count taken) ((==_iff i j).0 e) here h)
      | inr e ↦
          moved-Unsignalled j (leaving v (pos 1))
            (record s.os { sem = λ a. if a == frame j then taken else s.os.sem a }) e
            (rw (same k frame fr s inv j i ∙ e) refl)
    ]
    Step-Unsignalled (expire j d v here) silent = elim (Bool-cases (i == j)) [
      | inl e ↦ inr (rw e (ap (λ x. leaving x (pos 0)) (own_val j d v ((==_iff i j).0 e) here)))
      | inr e ↦ moved-Unsignalled j (leaving v (pos 0)) s.os e refl
    ]
    Step-Unsignalled (leave j v err b here) other =
        moved-Unsignalled j outside (timedwait_leave k b v err (frame j) s.os).0 other
          (ap (λ (o : Os k). o.sem (frame i)) (leave-os k frame b v err (frame j) s.os))
    Step-Unsignalled (notify context {os'} h) silent = Posted-Unsignalled context os' silent (
        rw h at (
          nrf_modem_os_event_notify-Posted k context (suc (length (nodes s.os.links))) s.os
            (omega arith) inv.well))
    Step-Unsignalled (shutdown h) silent = absurd silent

  module _ (fr : Frames k frame) (i c : ℕ) (val : ℤ) where
    Silence-Unsignalled :
        {s t : System k}
        → Inv k frame s
        → Unsignalled i c val s
        → Silence i c s t
        → Inv k frame t × Unsignalled i c val t
    Silence-Unsignalled inv u hush = (inv, u)
    Silence-Unsignalled {s} inv u (on quiet st silent) =
        let (inv', u') = Silence-Unsignalled inv u quiet in
        (Step-Inv k frame fr st inv', Step-Unsignalled fr i c val _ inv' u' st silent)

    entered-Unsignalled :
        (s : System k)
        → Unsignalled i c val (moved k s (enqueue k c (frame i) s.os) i (asleep c val))
    entered-Unsignalled s =
        let own = (==_iff i i).1 refl in
        let record_own = (==_iff (frame i) (frame i)).1 refl in
        inl (rw own refl, rw record_own (count-sem_init 0))

    -- In a state that can be reached, where the threads' records have addresses of their own, a thread
    -- goes to sleep in `nrf_modem_os_timedwait`, and any steps follow but a notification on its context
    -- or on the context 0, and a shutdown. If it is then about to return, its time is over. The result
    -- is -NRF_ESHUTDOWN if the modem library says that it is not initialized any more, and -NRF_EAGAIN
    -- otherwise if the timeout is positive; but if it is negative the result is 0, as for a thread that
    -- was woken, although nobody woke it.
    pub unsignalled_result :
        (s t : System k) (tmout : ℕ) (initialized b : Bool) (os' : Os k) (val' err : ℤ)
        → Reach k frame s
        → s.pc i ≡ outside
        → timedwait_enter k initialized c val (frame i) s.os ≡ sleeps tmout os'
        → Silence i c (moved k s os' i (asleep c val)) t
        → t.pc i ≡ leaving val' err
        → (err ≡ pos 0)
          × ((timedwait_leave k b val' err (frame i) t.os).1
              ≡ (if b then (if is_negative val then success else again) else shut_down))
    unfolding timedwait_leave
    unsignalled_result s t tmout initialized b os' val' err r out h quiet here =
        let step = enter i c tmout val initialized out h in
        let asked = sleeps-enqueue k frame initialized c val (frame i) s.os tmout os' h in
        let start : Unsignalled i c val (moved k s os' i (asleep c val)) =
          subst (λ (o : Os k). Unsignalled i c val (moved k s o i (asleep c val))) (sym asked)
            (entered-Unsignalled s) in
        let (inv, u) =
          Silence-Unsignalled (Step-Inv k frame fr step (Reach-Inv k frame fr r)) start quiet in
        elim u [
          | inl q ↦ absurd (cc (q.0, here))
          | inr q ↦
              let e : err ≡ pos 0 = cc (q, here) in
              let v : val' ≡ val = cc (q, here) in (e, rw (e, v) (go b))
        ]
      where
        go :
            (b : Bool)
            → (timedwait_leave k b val (pos 0) (frame i) t.os).1
              ≡ (if b then (if is_negative val then success else again) else shut_down)
        go true = refl
        go false = refl
