-- ===== src/Modem/Preempt/Alike.antt =====
-- Two states that differ in the record of a thread that is not on the list, and the steps of others
-- in both.
use nrf.Base.{
  ℕ, zero, suc, ltb, ◌*◌, ◌^◌, ◌==◌, ◌≡◌, ◌≢◌, refl, sym, subst, ap, ◌∙◌, Bool, true, false,
  Bool-cases, inl, inr, arith, length, ◌||◌, if◌then◌else◌,
}
use nrf.Base.Int.{ℤ, pos, negsuc}
use nrf.Base.Run.{Run, ok, undefined, out_of_fuel, Returns}
use nrf.Modem.Kernel.{Ptr, Kernel, has}
use nrf.Modem.Waiters.{Os, is_addressed, nrf_modem_os_event_notify, nrf_modem_os_shutdown}
use nrf.Modem.Notify.{
  IsWell, Posted, nrf_modem_os_event_notify-Posted, nrf_modem_os_shutdown-Posted,
}
use nrf.Modem.Timedwait.{sleeps, enqueue, timedwait_enter, timedwait_leave}
use nrf.Modem.System.{
  Pc, outside, asleep, leaving, waits, moved, System, Step, enter, wake, expire, leave, notify,
  shutdown,
}
use nrf.Modem.System.Invariant.{Frames, Inv, sleeps-enqueue, leave-os}
use nrf.Modem.Preempt.{IsOther}

module _ (k : Kernel) (frame : ℕ → Ptr) (i : ℕ) where
  -- Alike but at the record of thread `i`.
  pub record Alike (s t : System k) : Type 0 where
    pub pc : t.pc ≡ s.pc
    pub links : t.os.links ≡ s.os.links
    pub sem : (a : Ptr) → a ≢ frame i → t.os.sem a ≡ s.os.sem a
    pub context : (a : Ptr) → a ≢ frame i → t.os.context a ≡ s.os.context a

  -- The other state after a step, and that the record of thread `i` is as before.
  pub record Followed (s t t' : System k) : Type 0 where
    pub state : System k
    pub step : Step k frame s state
    pub alike : Alike state t'
    pub out : state.pc i ≡ outside
    pub sem : t'.os.sem (frame i) ≡ t.os.sem (frame i)
    pub context : t'.os.context (frame i) ≡ t.os.context (frame i)

  -- Whether a thread goes to sleep does not depend on the list.
  pub sleeps-any :
      (b : Bool) (d : ℕ) (v : ℤ) (td : Ptr) (os os1 os2 : Os k) (tmout : ℕ)
      → timedwait_enter k b d v td os ≡ sleeps tmout os1
      → timedwait_enter k b d v td os2 ≡ sleeps tmout (enqueue k d td os2)
  unfolding timedwait_enter
  sleeps-any false d v td os os1 os2 tmout h = absurd (cc h)
  sleeps-any true d (pos zero) td os os1 os2 tmout h = absurd (cc h)
  sleeps-any true d (pos (suc n)) td os os1 os2 tmout h =
      elim (Bool-cases (ltb (suc n * 1000) (2 ^ 31))) [
        | inl e ↦
            let same : suc n * 1000 ≡ tmout = cc (rw e at h) in
            rw e (ap (λ x. sleeps x (enqueue k d td os2)) same)
        | inr e ↦ absurd (cc (rw e at h))
      ]
  sleeps-any true d (negsuc n) td os os1 os2 tmout h =
      let same : 500000 ≡ tmout = cc h in ap (λ x. sleeps x (enqueue k d td os2)) same

  Returns-eq : {P : Os k → Type 0} (r : Run (Os k)) → Returns P r → (os : Os k) × (r ≡ ok os) × P os
  Returns-eq (ok os) p = (os, refl, p)
  Returns-eq undefined p = absurd p
  Returns-eq out_of_fuel p = absurd p

  module _ (fr : Frames k frame) (s t : System k) (inv : Inv k frame s) (out : s.pc i ≡ outside)
      (like : Alike s t) where
    open k use {nodes}

    off : has (frame i) (nodes s.os.links) ≡ false
    off = inv.listed i ∙ ap waits out

    apart :
        (j : ℕ) → j ≢ i → (frame j ≢ frame i) × ((frame i == frame j) ≡ false) × ((i == j) ≡ false)
    apart j ne = (λ e. ne (fr.injective j i e), ground (arith, fr.injective j i), ground arith)

    -- Another thread moves, and the list, the semaphores and the contexts change alike.
    moved-Followed :
        (j : ℕ) (p : Pc) (os1 os' : Os k)
        → j ≢ i
        → Step k frame s (moved k s os1 j p)
        → os'.links ≡ os1.links
        → ((a : Ptr) → a ≢ frame i → os'.sem a ≡ os1.sem a)
        → ((a : Ptr) → a ≢ frame i → os'.context a ≡ os1.context a)
        → os'.sem (frame i) ≡ t.os.sem (frame i)
        → os'.context (frame i) ≡ t.os.context (frame i)
        → Followed s t (moved k t os' j p)
    moved-Followed j p os1 os' ne step links sem context own_sem own_context = record {
      state = moved k s os1 j p;
      step = step;
      alike = record {
        pc = ap {B = ℕ → Pc} (λ f m. if m == j then p else f m) like.pc;
        links = links;
        sem = sem;
        context = context;
      };
      out = rw ((apart j ne).2) out;
      sem = own_sem;
      context = own_context;
    }

    -- A walk over the list, which posts to the same entries in both.
    Posted-Followed :
        (chosen chosen' : Ptr → Bool) (os1 os' : Os k)
        → ((a : Ptr) → a ≢ frame i → chosen' a ≡ chosen a)
        → Step k frame s (record s { os = os1 })
        → Posted k chosen (nodes s.os.links) s.os os1
        → Posted k chosen' (nodes t.os.links) t.os os'
        → Followed s t (record t { os = os' })
    Posted-Followed chosen chosen' os1 os' picks step p p' = record {
      state = record s { os = os1 };
      step = step;
      alike = record {
        pc = like.pc;
        links = p'.links ∙ like.links ∙ sym p.links;
        sem = λ a ne. p'.sem a ∙ (rw (like.links, picks a ne, like.sem a ne) (sym (p.sem a)));
        context = λ a ne.
            ap (λ (f : Ptr → ℕ). f a) p'.context
            ∙ like.context a ne
            ∙ ap (λ (f : Ptr → ℕ). f a) (sym p.context);
      };
      out = out;
      sem = p'.sem (frame i) ∙ (rw (like.links, off) refl);
      context = ap (λ (f : Ptr → ℕ). f (frame i)) p'.context;
    }

    well' : IsWell k t.os.links
    well' = rw like.links inv.well

    pub Step-Followed :
        (context : ℕ) (val : ℤ) {t' : System k} (st : Step k frame t t')
        → IsOther k frame i context val st
        → Followed s t t'
    Step-Followed context val (enter j d tmout v b {os'} idle h) ne =
        let (ne', off', _) = apart j ne in
        let asked = sleeps-enqueue k frame b d v (frame j) t.os tmout os' h in
        subst (λ (o : Os k). Followed s t (moved k t o j (asleep d v))) (sym asked)
          (moved-Followed j (asleep d v) (enqueue k d (frame j) s.os) (enqueue k d (frame j) t.os)
            ne
            (enter j d tmout v b (ap (λ (f : ℕ → Pc). f j) (sym like.pc) ∙ idle)
              (sleeps-any b d v (frame j) t.os os' s.os tmout h))
            (ap (λ l. k.list_append l (frame j)) like.links)
            (λ a n. ap (λ x. if a == frame j then k.sem_init 0 else x) (like.sem a n))
            (λ a n. ap (λ x. if a == frame j then d else x) (like.context a n)) (rw off' refl)
            (rw off' refl))
    Step-Followed context val (wake j d v taken here h) ne =
        let (ne', off', _) = apart j ne in
        moved-Followed j (leaving v (pos 1))
          (record s.os { sem = λ a. if a == frame j then taken else s.os.sem a })
          (record t.os { sem = λ a. if a == frame j then taken else t.os.sem a }) ne
          (wake j d v taken (ap (λ (f : ℕ → Pc). f j) (sym like.pc) ∙ here)
            (h ∙ ap k.count (like.sem (frame j) ne')))
          like.links (λ a n. ap (λ x. if a == frame j then taken else x) (like.sem a n))
          like.context (rw off' refl) refl
    Step-Followed context val (expire j d v here) ne =
        moved-Followed j (leaving v (pos 0)) s.os t.os ne
          (expire j d v (ap (λ (f : ℕ → Pc). f j) (sym like.pc) ∙ here)) like.links like.sem
          like.context refl refl
    Step-Followed context val (leave j v err b here) ne =
        let gone = leave-os k frame b v err (frame j) t.os in
        let gone' = leave-os k frame b v err (frame j) s.os in
        moved-Followed j outside (timedwait_leave k b v err (frame j) s.os).0
          (timedwait_leave k b v err (frame j) t.os).0 ne
          (leave j v err b (ap (λ (f : ℕ → Pc). f j) (sym like.pc) ∙ here))
          (ap (λ (o : Os k). o.links) gone
            ∙ ap (λ l. k.list_remove l (frame j)) like.links
            ∙ ap (λ (o : Os k). o.links) (sym gone'))
          (λ a n.
            ap (λ (o : Os k). o.sem a) gone ∙ like.sem a n ∙ ap (λ (o : Os k). o.sem a) (sym gone'))
          (λ a n.
            ap (λ (o : Os k). o.context a) gone
            ∙ like.context a n
            ∙ ap (λ (o : Os k). o.context a) (sym gone'))
          (ap (λ (o : Os k). o.sem (frame i)) gone) (ap (λ (o : Os k). o.context (frame i)) gone)
    Step-Followed context val (notify d {os'} h) _ =
        let (os1, e, p) =
          Returns-eq (nrf_modem_os_event_notify k (suc (length (nodes s.os.links))) d s.os) (
            nrf_modem_os_event_notify-Posted k d (suc (length (nodes s.os.links))) s.os
              (omega arith) inv.well) in
        Posted-Followed (is_addressed k d s.os) (is_addressed k d t.os) os1 os'
          (λ a n. ap (λ x. (x == d) || (d == 0)) (like.context a n)) (notify d e) p
          (rw h at (
            nrf_modem_os_event_notify-Posted k d (suc (length (nodes t.os.links))) t.os
              (omega arith) well'))
    Step-Followed context val (shutdown {os'} h) _ =
        let (os1, e, p) =
          Returns-eq (nrf_modem_os_shutdown k (suc (length (nodes s.os.links))) s.os) (
            nrf_modem_os_shutdown-Posted k (suc (length (nodes s.os.links))) s.os (omega arith)
              inv.well) in
        Posted-Followed (λ a. true) (λ a. true) os1 os' (λ a n. refl) (shutdown e) p
          (rw h at (
            nrf_modem_os_shutdown-Posted k (suc (length (nodes t.os.links))) t.os (omega arith)
              well'))
