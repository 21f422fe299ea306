-- ===== src/Modem/Walk/Cover.antt =====
-- What a step of a thread or of an interrupt leaves of the cut of the list.
use mathlib.Core.List.{append_assoc}
use nrf.Base.{
  ℕ, suc, ◌==◌, ==_iff, ◌≡◌, ◌≢◌, refl, sym, subst, ap, ◌∙◌, Bool, true, false, Bool-cases, inl,
  inr, some, List, [], ◌∷◌, ◌++◌, arith, length, if◌then◌else◌,
}
use nrf.Base.Int.{ℤ, pos}
use nrf.Modem.Kernel.{Ptr, Kernel, has, erase}
use nrf.Modem.Waiters.{Os, is_addressed}
use nrf.Modem.Notify.{Posted, nrf_modem_os_event_notify-Posted, nrf_modem_os_shutdown-Posted}
use nrf.Modem.Timedwait.{enqueue}
use nrf.Modem.System.{
  Pc, outside, asleep, leaving, waits, System, Step, enter, wake, expire, leave, notify, shutdown,
  moved,
}
use nrf.Modem.System.Lists.{has-append, has-of-erase, erase-append_left, erase-append_right}
use nrf.Modem.System.Invariant.{Frames, Inv, same, sleeps-enqueue, leave-os, Step-Inv}
use nrf.Modem.Walk.{Keeps}
use nrf.Modem.Walk.Cut.{Cut}

module _ (k : Kernel) (frame : ℕ → Ptr) where
  open k use {
    head, nodes, next, count, sem_post, list_append, list_remove, nodes-append, nodes-remove,
    count-sem_post,
  }

  abbrev sleeping : Pc → Bool
  sleeping (asleep context val) = true
  sleeping _ = false

  -- A thread that sleeps is not the one that has just stopped sleeping.
  another :
      (s : System k) (os' : Os k) (i j d : ℕ) (w : ℤ) (p : Pc)
      → sleeping p ≡ false
      → (moved k s os' i p).pc j ≡ asleep d w
      → ((j == i) ≡ false) × (s.pc j ≡ asleep d w)
  another s os' i j d w p up e = elim (Bool-cases (j == i)) [
    | inl q ↦ let woke : p ≡ asleep d w = rw q at e in absurd (cc (up, ap sleeping woke))
    | inr q ↦ (q, rw q at e)
  ]

  -- The loop stands where it stood, with a list that may have changed elsewhere.
  abbrev pub Kept : Ptr → System k → Type 0
  Kept a t = (passed : List Ptr) × (rest : List Ptr) × Cut k frame t (some a) passed (a ∷ rest)

  module _ (fr : Frames k frame) (s : System k) (a : Ptr) (passed rest : List Ptr)
      (c : Cut k frame s (some a) passed (a ∷ rest)) where
    entered-Cut :
        (i ctx : ℕ) (val : ℤ)
        → s.pc i ≡ outside
        → Inv k frame (moved k s (enqueue k ctx (frame i) s.os) i (asleep ctx val))
        → Kept a (moved k s (enqueue k ctx (frame i) s.os) i (asleep ctx val))
    entered-Cut i ctx val out inv' =
        let new : has (frame i) (nodes s.os.links) ≡ false = c.inv.listed i ∙ ap waits out in
        let unseen : has (frame i) passed ≡ false = ground (
          arith,
          new,
          c.split,
          ap (has (frame i)) c.split,
          has-append (frame i) passed (a ∷ rest),
        ) in
        (
          passed,
          rest ++ frame i ∷ [],
          record {
            inv = inv';
            split =
                nodes-append s.os.links (frame i) new (fr.no_head i)
                ∙ ap (λ l. l ++ frame i ∷ []) c.split
                ∙ append_assoc passed (a ∷ rest) (frame i ∷ []);
            here = refl;
            rung = λ j d w e h. elim (Bool-cases (j == i)) [
              | inl q ↦ absurd (cc (ap (λ m. has (frame m) passed) ((==_iff j i).0 q), h, unseen))
              | inr q ↦ rw (same k frame fr s c.inv i j ∙ q) (c.rung j d w (rw q at e) h)
            ];
          },
        )

    moved-Cut :
        (i : ℕ) (val err : ℤ) (os' : Os k)
        → os'.links ≡ s.os.links
        → ((j : ℕ) → (j == i) ≡ false → os'.sem (frame j) ≡ s.os.sem (frame j))
        → Inv k frame (moved k s os' i (leaving val err))
        → Kept a (moved k s os' i (leaving val err))
    moved-Cut i val err os' links others inv' = (
      passed,
      rest,
      record {
        inv = inv';
        split = ap nodes links ∙ c.split;
        here = refl;
        rung = λ j d w e h.
            let (q, still) = another s os' i j d w (leaving val err) refl e in
            rw (others j q) (c.rung j d w still h);
      },
    )

    left-Cut :
        (i : ℕ) (val err : ℤ) (b : Bool)
        → s.pc i ≡ leaving val err
        → frame i ≢ a
        → Inv k frame
            (moved k s (record s.os { links = list_remove s.os.links (frame i) }) i outside)
        → Kept a (moved k s (record s.os { links = list_remove s.os.links (frame i) }) i outside)
    left-Cut i val err b here ne inv' =
        let gone : nodes (list_remove s.os.links (frame i)) ≡ erase (frame i) (passed ++ a ∷ rest) =
          nodes-remove s.os.links (frame i) (c.inv.listed i ∙ ap waits here)
          ∙ ap (erase (frame i)) c.split in
        elim (Bool-cases (has (frame i) passed)) [
          | inl behind ↦ (
            erase (frame i) passed,
            rest,
            record {
              inv = inv';
              split = gone ∙ erase-append_left (frame i) passed (a ∷ rest) behind;
              here = refl;
              rung = λ j d w e h.
                  let (q, still) = another s s.os i j d w outside refl e in
                  c.rung j d w still (has-of-erase (frame j) (frame i) passed h);
            },
          )
          | inr before ↦ (
            passed,
            erase (frame i) rest,
            record {
              inv = inv';
              split = gone ∙ erase-append_right (frame i) passed (a ∷ rest) before ∙ ground arith;
              here = refl;
              rung = λ j d w e h.
                  let (q, still) = another s s.os i j d w outside refl e in c.rung j d w still h;
            },
          )
        ]

    Posted-Cut :
        (chosen : Ptr → Bool) (xs : List Ptr) (os' : Os k)
        → Posted k chosen xs s.os os'
        → Inv k frame (record s { os = os' })
        → Kept a (record s { os = os' })
    Posted-Cut chosen xs os' p inv' = (
      passed,
      rest,
      record {
        inv = inv';
        split = ap nodes p.links ∙ c.split;
        here = refl;
        rung = λ j d w e h.
            ground (arith, p.sem (frame j), count-sem_post (s.os.sem (frame j)), c.rung j d w e h);
      },
    )

    -- A step of a thread or of an interrupt between two rounds.
    pub Step-Cut : {t : System k} (st : Step k frame s t) → Keeps k frame a st → Kept a t
    Step-Cut (enter i ctx tmout val b {os'} out h) keep =
        let asked : os' ≡ enqueue k ctx (frame i) s.os =
          sleeps-enqueue k frame b ctx val (frame i) s.os tmout os' h in
        subst (λ (o : Os k). Kept a (moved k s o i (asleep ctx val))) (sym asked)
          (entered-Cut i ctx val out (
            subst (λ (o : Os k). Inv k frame (moved k s o i (asleep ctx val))) asked
              (Step-Inv k frame fr (enter i ctx tmout val b out h) c.inv)))
    Step-Cut (wake i ctx val taken here h) keep =
        moved-Cut i val (pos 1)
          (record s.os { sem = λ x. if x == frame i then taken else s.os.sem x }) refl
          (λ j q. rw (same k frame fr s c.inv i j ∙ q) refl)
          (Step-Inv k frame fr (wake i ctx val taken here h) c.inv)
    Step-Cut (expire i ctx val here) keep =
        moved-Cut i val (pos 0) s.os refl (λ j q. refl)
          (Step-Inv k frame fr (expire i ctx val here) c.inv)
    Step-Cut (leave i val err b here) keep =
        let gone = leave-os k frame b val err (frame i) s.os in
        subst (λ (o : Os k). Kept a (moved k s o i outside)) (sym gone)
          (left-Cut i val err b here keep (
            subst (λ (o : Os k). Inv k frame (moved k s o i outside)) gone
              (Step-Inv k frame fr (leave i val err b here) c.inv)))
    Step-Cut (notify ctx {os'} h) keep =
        Posted-Cut (is_addressed k ctx s.os) (nodes s.os.links) os'
          (rw h at (
            nrf_modem_os_event_notify-Posted k ctx (suc (length (nodes s.os.links))) s.os
              (omega arith) c.inv.well))
          (Step-Inv k frame fr (notify ctx h) c.inv)
    Step-Cut (shutdown {os'} h) keep =
        Posted-Cut (λ x. true) (nodes s.os.links) os'
          (rw h at (
            nrf_modem_os_shutdown-Posted k (suc (length (nodes s.os.links))) s.os (omega arith)
              c.inv.well))
          (Step-Inv k frame fr (shutdown h) c.inv)
