-- ===== src/Modem/System/Invariant.antt =====
-- The invariant of the list of sleepers in src/nrf_modem.c, and each kind of step.
use nrf.Base.{
  ℕ, zero, suc, ◌*◌, ◌^◌, ◌==◌, ==_iff, ◌≡◌, refl, sym, subst, ap, ◌∙◌, ◌≢◌, inl, inr, ◌&&◌, ◌||◌,
  not, Bool, true, false, Bool-cases, List, [], ◌∷◌, ◌++◌, arith, ltb, length,
}
use nrf.Base.Int.{ℤ, pos, negsuc, is_zero}
use nrf.Modem.Kernel.{Ptr, Kernel, has, erase}
use nrf.Modem.Waiters.{Os}
use nrf.Modem.Notify.{
  IsWell, Posted, nrf_modem_os_event_notify-Posted, nrf_modem_os_shutdown-Posted,
}
use nrf.Modem.Timedwait.{sleeps, enqueue, timedwait_enter, timedwait_leave}
use nrf.Modem.System.{
  outside, asleep, leaving, waits, System, moved, Step, enter, wake, expire, leave, notify,
  shutdown, Reach, start, later,
}
use nrf.Modem.System.Lists.{has-append_one, Distinct-append_one, has-erase, Distinct-erase}

module _ (k : Kernel) (frame : ℕ → Ptr) where
  open k use {head, nodes, nodes-append, nodes-remove, nodes-init, list_append, list_remove}

  -- Each thread has a record of its own, and none is the list head.
  pub record Frames : Type 0 where
    pub injective : (i j : ℕ) → frame i ≡ frame j → i ≡ j
    pub no_head : (i : ℕ) → frame i ≢ head

  pub record Inv (s : System k) : Type 0 where
    pub well : IsWell k s.os.links
    pub listed : (i : ℕ) → has (frame i) (nodes s.os.links) ≡ waits (s.pc i)
    pub live :
        (a : Ptr)
        → has a (nodes s.os.links) ≡ true
        → (i : ℕ) × (a ≡ frame i) × (waits (s.pc i) ≡ true)
    pub context : (i c : ℕ) (val : ℤ) → s.pc i ≡ asleep c val → s.os.context (frame i) ≡ c

  -- What `timedwait_enter` does when it goes to sleep.
  pub sleeps-enqueue :
      (b : Bool) (c : ℕ) (val : ℤ) (td : Ptr) (os : Os k) (tmout : ℕ) (os' : Os k)
      → timedwait_enter k b c val td os ≡ sleeps tmout os'
      → os' ≡ enqueue k c td os
  unfolding timedwait_enter
  sleeps-enqueue false c val td os tmout os' h = cc
  sleeps-enqueue true c (pos zero) td os tmout os' h = cc
  sleeps-enqueue true c (pos (suc n)) td os tmout os' h =
      elim (Bool-cases (ltb (suc n * 1000) (2 ^ 31))) [
        | inl e ↦ cc (rw e at h)
        | inr e ↦ cc (rw e at h)
      ]
  sleeps-enqueue true c (negsuc n) td os tmout os' h = cc

  module _ (fr : Frames) (s : System k) (inv : Inv s) (i : ℕ) where
    open inv use {well, listed, live}

    pub same : (j : ℕ) → (frame j == frame i) ≡ (j == i)
    same j = elim (Bool-cases (j == i)) [
      | inl e ↦ let q = (==_iff j i).0 e in rw e ((==_iff _ _).1 (ap frame q))
      | inr e ↦ ground (arith, fr.injective j i)
    ]

    module _ (c : ℕ) (val : ℤ) (out : s.pc i ≡ outside) where
      abbrev entered : System k
      entered = moved k s (enqueue k c (frame i) s.os) i (asleep c val)

      new : has (frame i) (nodes s.os.links) ≡ false
      new = listed i ∙ ap waits out

      nodes_entered : nodes (list_append s.os.links (frame i)) ≡ nodes s.os.links ++ frame i ∷ []
      nodes_entered = nodes-append s.os.links (frame i) new (fr.no_head i)

      entered-IsWell : IsWell k (list_append s.os.links (frame i))
      entered-IsWell = rw nodes_entered (
        Distinct-append_one (frame i) (nodes s.os.links) well.0 new,
        ground (arith, has-append_one head (frame i) (nodes s.os.links), well.1, fr.no_head i),
      )

      entered-listed :
          (j : ℕ) → has (frame j) (nodes (list_append s.os.links (frame i))) ≡ waits (entered.pc j)
      entered-listed j =
          rw
            (nodes_entered, has-append_one (frame j) (frame i) (nodes s.os.links), same j, listed j)
            (ground arith)

      entered-live :
          (a : Ptr)
          → has a (nodes (list_append s.os.links (frame i))) ≡ true
          → (j : ℕ) × (a ≡ frame j) × (waits (entered.pc j) ≡ true)
      entered-live a h = elim (Bool-cases (has a (nodes s.os.links))) [
        | inl old ↦ let (j, e, w) = live a old in (j, e, ground arith)
        | inr other ↦
            let split : (has a (nodes s.os.links) || (a == frame i)) ≡ true =
              sym (has-append_one a (frame i) (nodes s.os.links)) ∙ (rw nodes_entered at h) in
            (i, ground arith, ground arith)
      ]

      entered-Inv : Inv entered
      entered-Inv = record {
        well = entered-IsWell;
        listed = entered-listed;
        live = entered-live;
        context = λ j d w h. rw (same j) (ground (arith, inv.context j d w));
      }

    module _ (val err : ℤ) (b : Bool) (here : s.pc i ≡ leaving val err) where
      abbrev left : System k
      left = moved k s (record s.os { links = list_remove s.os.links (frame i) }) i outside

      nodes_left : nodes (list_remove s.os.links (frame i)) ≡ erase (frame i) (nodes s.os.links)
      nodes_left = nodes-remove s.os.links (frame i) (listed i ∙ ap waits here)

      has_left :
          (a : Ptr)
          → has a (nodes (list_remove s.os.links (frame i)))
            ≡ (has a (nodes s.os.links) && not (a == frame i))
      has_left a = rw nodes_left (has-erase a (frame i) (nodes s.os.links) well.0)

      left-live :
          (a : Ptr)
          → has a (nodes (list_remove s.os.links (frame i))) ≡ true
          → (j : ℕ) × (a ≡ frame j) × (waits (left.pc j) ≡ true)
      left-live a h =
          let kept : (has a (nodes s.os.links) && not (a == frame i)) ≡ true =
            sym (has_left a) ∙ h in
          let (j, e, w) = live a (ground arith) in
          let other : (frame j == frame i) ≡ false = rw (← e) (ground arith) in
          let apart : (j == i) ≡ false = sym (same j) ∙ other in (j, e, ground arith)

      left-Inv : Inv left
      left-Inv = record {
        well = (
          rw nodes_left (Distinct-erase (frame i) (nodes s.os.links) well.0),
          ground (arith, has_left head, well.1),
        );
        listed = λ j. rw (has_left (frame j), same j, listed j) (ground arith);
        live = left-live;
        context = λ j d w h. ground (arith, inv.context j d w);
      }

    -- A thread that was asleep is about to leave: it is still on the list.
    woken-Inv :
        (c : ℕ) (val err : ℤ) (os' : Os k)
        → s.pc i ≡ asleep c val
        → os'.links ≡ s.os.links
        → os'.context ≡ s.os.context
        → Inv (moved k s os' i (leaving val err))
    woken-Inv c val err os' here links context = record {
      well = rw links well;
      listed = λ j. rw (links, listed j) (ground arith);
      live = λ a h. let (j, e, w) = live a (rw links at h) in (j, e, ground arith);
      context = λ j d w h. rw context (ground (arith, inv.context j d w));
    }

  pub Posted-Inv :
      (s : System k) (chosen : Ptr → Bool) (xs : List Ptr) (os' : Os k)
      → Inv s
      → Posted k chosen xs s.os os'
      → Inv (record s { os = os' })
  Posted-Inv s chosen xs os' inv p = record {
    well = rw p.links inv.well;
    listed = λ j. rw p.links (inv.listed j);
    live = λ a h. inv.live a (rw p.links at h);
    context = λ j d w h. rw p.context (inv.context j d w h);
  }

  start-Inv : (s : System k) → s.os.links ≡ k.list_init → ((i : ℕ) → s.pc i ≡ outside) → Inv s
  start-Inv s e out = record {
    well = rw empty (tt, refl);
    listed = λ i. rw (empty, out i);
    live = λ a h. absurd (cc (rw empty at h));
    context = λ i c val h. absurd (cc (out i));
  }
    where
      empty : nodes s.os.links ≡ []
      empty = ap nodes e ∙ nodes-init

  -- Every way out of the function takes the record off the list.
  pub leave-os :
      (b : Bool) (val err : ℤ) (td : Ptr) (os : Os k)
      → (timedwait_leave k b val err td os).0 ≡ record os { links = list_remove os.links td }
  unfolding timedwait_leave
  leave-os false val err td os = refl
  leave-os true val err td os = elim (Bool-cases (is_zero err)) [ inl e ↦ rw e | inr e ↦ rw e ]

  pub Step-Inv : {s t : System k} → Frames → Step k frame s t → Inv s → Inv t
  Step-Inv {s} fr (enter i c tmout val b {os'} out h) inv =
      subst (λ o. Inv (moved k s o i (asleep c val)))
        (sym (sleeps-enqueue b c val (frame i) s.os tmout os' h)) (entered-Inv fr s inv i c val out)
  Step-Inv {s} fr (wake i c val taken here h) inv =
      woken-Inv fr s inv i c val (pos 1) _ here refl refl
  Step-Inv {s} fr (expire i c val here) inv = woken-Inv fr s inv i c val (pos 0) s.os here refl refl
  Step-Inv {s} fr (leave i val err b here) inv =
      subst (λ o. Inv (moved k s o i outside)) (sym (leave-os b val err (frame i) s.os))
        (left-Inv fr s inv i val err b here)
  Step-Inv {s} fr (notify c {os'} h) inv = Posted-Inv s _ _ os' inv (
      rw h at (
        nrf_modem_os_event_notify-Posted k c (suc (length (nodes s.os.links))) s.os (omega arith)
          inv.well))
  Step-Inv {s} fr (shutdown {os'} h) inv = Posted-Inv s _ _ os' inv (
      rw h at (
        nrf_modem_os_shutdown-Posted k (suc (length (nodes s.os.links))) s.os (omega arith)
          inv.well))

  pub Reach-Inv : {s : System k} → Frames → Reach k frame s → Inv s
  Reach-Inv fr (start s e out) = start-Inv s e out
  Reach-Inv fr (later r st) = Step-Inv fr st (Reach-Inv fr r)
