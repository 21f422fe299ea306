-- ===== src/Modem/Preempt/Atomic.antt =====
-- The two halves of `nrf_modem_os_timedwait` are as good as one step each.
use mathlib.Core.Path.{fun_ext}
use nrf.Base.{
  ℕ, ◌==◌, ==_iff, ◌≡◌, ◌≢◌, refl, sym, subst, ap, ◌∙◌, true, false, Bool-cases, inl, inr, arith,
  if◌then◌else◌, [], ◌∷◌,
}
use nrf.Base.Int.{ℤ}
use nrf.Modem.Kernel.{Ptr, Kernel}
use nrf.Modem.Waiters.{Os}
use nrf.Modem.Timedwait.{sleeps, enqueue, timedwait_enter}
use nrf.Modem.System.{
  Pc, outside, asleep, leaving, System, Step, enter, wake, expire, leave, notify, shutdown, moved,
  Reach, later,
}
use nrf.Modem.System.Invariant.{Frames, leave-os, Reach-Inv}
use nrf.Modem.Preempt.{
  set_context, critical_enter, critical_exit, append_begin, append_end, remove_begin, remove_end,
  entry_acts, exit_acts, acted, IsOther, End, ended, Runs, done, act, other, torn_seen,
}
use nrf.Modem.Preempt.Alike.{Alike, Step-Followed, sleeps-any}

module _ (k : Kernel) (frame : ℕ → Ptr) where
  same_system :
      (u v : System k)
      → u.os.links ≡ v.os.links
      → u.os.sem ≡ v.os.sem
      → u.os.context ≡ v.os.context
      → u.pc ≡ v.pc
      → u ≡ v
  same_system u v l m c p =
      λ j. record { os = record { links = l j; sem = m j; context = c j }; pc = p j }

  -- A step of others leaves a thread where it stands.
  other-pc :
      (i context : ℕ) (val : ℤ) {s t : System k} (st : Step k frame s t)
      → IsOther k frame i context val st
      → t.pc i ≡ s.pc i
  other-pc i context val (enter j d tmout v b out h) ne = ground arith
  other-pc i context val (wake j d v taken here h) ne = ground arith
  other-pc i context val (expire j d v here) ne = ground arith
  other-pc i context val (leave j v err b here) ne = ground arith
  other-pc i context val (notify d h) _ = refl
  other-pc i context val (shutdown h) _ = refl

  -- The run has ended, in a state that can be reached, with thread `i` at `p`.
  abbrev pub Settled : (i : ℕ) (p : Pc) → End k → Type 0
  Settled i p end = (u : System k) × (end ≡ ended u) × Reach k frame u × (u.pc i ≡ p)

  module _ (fr : Frames k frame) (i context : ℕ) (val : ℤ) where
    -- Behind the last change of the list, with the critical section closed or about to be closed.
    settle :
        (p : Pc) {s : System k} {end : End k}
        → Reach k frame s
        → s.pc i ≡ p
        → Runs k frame i context val false false [] s end
        → Settled i p end
    settle p {s} r here done = (s, refl, r, here)
    settle p r here (other st free whole ne runs) =
        settle p (later r st) (other-pc i context val st ne ∙ here) runs
    settle p r here (torn_seen st free torn) = absurd (cc torn)

    closing :
        (p : Pc) {s : System k} {end : End k}
        → Reach k frame s
        → s.pc i ≡ p
        → Runs k frame i context val true false (critical_exit ∷ []) s end
        → Settled i p end
    closing p r here (act a acts runs) = settle p r here runs
    closing p r here (other st free whole ne runs) = absurd (cc free)
    closing p r here (torn_seen st free torn) = absurd (cc torn)

    -- The way out: others may come first, and then the record is taken off.
    removing :
        (v err : ℤ) {s : System k} {end : End k}
        → Reach k frame s
        → s.pc i ≡ leaving v err
        → Runs k frame i context val true true (remove_end ∷ critical_exit ∷ []) s end
        → Settled i outside end
    removing v err {s} r here (act a acts runs) =
        closing outside
          (subst (λ (o : Os k). Reach k frame (moved k s o i outside))
            (leave-os k frame true v err (frame i) s.os) (later r (leave i v err true here)))
          (rw ((==_iff i i).1 refl) refl) runs
    removing v err r here (other st free whole ne runs) = absurd (cc free)
    removing v err r here (torn_seen st free torn) = absurd (cc free)

    locked :
        (v err : ℤ) {s : System k} {end : End k}
        → Reach k frame s
        → s.pc i ≡ leaving v err
        → Runs k frame i context val true false
            (remove_begin ∷ remove_end ∷ critical_exit ∷ [])
            s
            end
        → Settled i outside end
    locked v err r here (act a acts runs) = removing v err r here runs
    locked v err r here (other st free whole ne runs) = absurd (cc free)
    locked v err r here (torn_seen st free torn) = absurd (cc torn)

    -- From a state that can be reached, where the threads' records have addresses of their own, a thread
    -- whose wait is over goes through the actions of `nrf_modem_os_timedwait` behind it, with any steps
    -- of other threads and of interrupts before, between and after them while no critical section is
    -- open. Then nobody sees the list half changed, and the state at the end is one that can be reached
    -- where the way out is a single step; the thread is outside in it.
    pub exit_acts-Settled :
        (v err : ℤ) {s : System k} {end : End k}
        → Reach k frame s
        → s.pc i ≡ leaving v err
        → Runs k frame i context val false false exit_acts s end
        → Settled i outside end
    exit_acts-Settled v err r here (act a acts runs) = locked v err r here runs
    exit_acts-Settled v err r here (other st free whole ne runs) =
        exit_acts-Settled v err (later r st) (other-pc i context val st ne ∙ here) runs
    exit_acts-Settled v err r here (torn_seen st free torn) = absurd (cc torn)

    module _ (tmout : ℕ)
        (asks : (os : Os k)
          → timedwait_enter k true context val (frame i) os
            ≡ sleeps tmout (enqueue k context (frame i) os)) where
      -- A state that can be reached, with thread `i` outside, and one that differs in its record.
      abbrev Before : System k → Type 0
      Before t = (s : System k) × Reach k frame s × (s.pc i ≡ outside) × Alike k frame i s t

      follow :
          {t t' : System k}
          → Before t
          → (st : Step k frame t t') → IsOther k frame i context val st
          → Before t'
            × (t'.os.sem (frame i) ≡ t.os.sem (frame i))
            × (t'.os.context (frame i) ≡ t.os.context (frame i))
      follow {t} (s, r, out, like) st ne =
          let f =
            Step-Followed k frame i fr s t (Reach-Inv k frame fr r) out like context val st ne in
          ((f.state, later r f.step, f.out, f.alike), f.sem, f.context)

      -- At the end of the append the two states are one step apart.
      appended :
          (t : System k)
          → Before t
          → t.os.sem (frame i) ≡ k.sem_init 0
          → t.os.context (frame i) ≡ context
          → Reach k frame (acted k frame i context val append_end t)
      appended t (s, r, out, like) sem ctx =
          subst (Reach k frame) (sym equal)
            (later r (enter i context tmout val true out (asks s.os)))
        where
          own : (a : Ptr) → (a == frame i) ≡ false → a ≢ frame i
          own a e q = cc (e, (==_iff a (frame i)).1 q)

          equal :
              acted k frame i context val append_end t
              ≡ moved k s (enqueue k context (frame i) s.os) i (asleep context val)
          equal =
              same_system _ _ (ap (λ l. k.list_append l (frame i)) like.links)
                (fun_ext (λ a. elim (Bool-cases (a == frame i)) [
                  | inl e ↦ rw e (ap t.os.sem ((==_iff a (frame i)).0 e) ∙ sem)
                  | inr e ↦ rw e (like.sem a (own a e))
                ]))
                (fun_ext (λ a. elim (Bool-cases (a == frame i)) [
                  | inl e ↦ rw e (ap t.os.context ((==_iff a (frame i)).0 e) ∙ ctx)
                  | inr e ↦ rw e (like.context a (own a e))
                ]))
                (ap {B = ℕ → Pc} (λ f m. if m == i then asleep context val else f m) like.pc)

      appending :
          {t : System k} {end : End k}
          → Before t
          → t.os.sem (frame i) ≡ k.sem_init 0
          → t.os.context (frame i) ≡ context
          → Runs k frame i context val true true (append_end ∷ critical_exit ∷ []) t end
          → Settled i (asleep context val) end
      appending {t} b sem ctx (act a acts runs) =
          closing (asleep context val) (appended t b sem ctx) (rw ((==_iff i i).1 refl) refl) runs
      appending b sem ctx (other st free whole ne runs) = absurd (cc free)
      appending b sem ctx (torn_seen st free torn) = absurd (cc free)

      entering :
          {t : System k} {end : End k}
          → Before t
          → t.os.sem (frame i) ≡ k.sem_init 0
          → t.os.context (frame i) ≡ context
          → Runs k frame i context val true false
              (append_begin ∷ append_end ∷ critical_exit ∷ [])
              t
              end
          → Settled i (asleep context val) end
      entering b sem ctx (act a acts runs) = appending b sem ctx runs
      entering b sem ctx (other st free whole ne runs) = absurd (cc free)
      entering b sem ctx (torn_seen st free torn) = absurd (cc torn)

      prepared :
          {t : System k} {end : End k}
          → Before t
          → t.os.sem (frame i) ≡ k.sem_init 0
          → t.os.context (frame i) ≡ context
          → Runs k frame i context val false false
              (critical_enter ∷ append_begin ∷ append_end ∷ critical_exit ∷ [])
              t
              end
          → Settled i (asleep context val) end
      prepared b sem ctx (act a acts runs) = entering b sem ctx runs
      prepared b sem ctx (other st free whole ne runs) =
          let (b', sem', ctx') = follow b st ne in prepared b' (sem' ∙ sem) (ctx' ∙ ctx) runs
      prepared b sem ctx (torn_seen st free torn) = absurd (cc torn)

      initialised :
          {t : System k} {end : End k}
          → Before t
          → t.os.sem (frame i) ≡ k.sem_init 0
          → Runs k frame i context val false false
              (set_context ∷ critical_enter ∷ append_begin ∷ append_end ∷ critical_exit ∷ [])
              t
              end
          → Settled i (asleep context val) end
      initialised (s, r, out, like) sem (act a acts runs) =
          prepared
            (
              s,
              r,
              out,
              record {
                pc = like.pc;
                links = like.links;
                sem = like.sem;
                context = λ x ne.
                    let off : (x == frame i) ≡ false = ground arith in rw off (like.context x ne);
              },
            )
            sem (rw ((==_iff (frame i) (frame i)).1 refl) refl) runs
      initialised b sem (other st free whole ne runs) =
          let (b', sem', ctx') = follow b st ne in initialised b' (sem' ∙ sem) runs
      initialised b sem (torn_seen st free torn) = absurd (cc torn)

      started :
          {t : System k} {end : End k}
          → Before t
          → Runs k frame i context val false false entry_acts t end
          → Settled i (asleep context val) end
      started (s, r, out, like) (act a acts runs) =
          initialised
            (
              s,
              r,
              out,
              record {
                pc = like.pc;
                links = like.links;
                context = like.context;
                sem = λ x ne.
                    let off : (x == frame i) ≡ false = ground arith in rw off (like.sem x ne);
              },
            )
            (rw ((==_iff (frame i) (frame i)).1 refl) refl) runs
      started b (other st free whole ne runs) =
          let (b', sem', ctx') = follow b st ne in started b' runs
      started b (torn_seen st free torn) = absurd (cc torn)

    -- From a state that can be reached, where the threads' records have addresses of their own, a thread
    -- outside that is to sleep goes through the actions of `nrf_modem_os_timedwait` up to its wait, with
    -- any steps of other threads and of interrupts before, between and after them while no critical
    -- section is open. Then nobody sees the list half changed, and the state at the end is one that can
    -- be reached where all these actions are a single step; the thread is asleep in it on its context.
    pub entry_acts-Settled :
        (tmout : ℕ) (os' : Os k) {s : System k} {end : End k}
        → Reach k frame s
        → s.pc i ≡ outside
        → timedwait_enter k true context val (frame i) s.os ≡ sleeps tmout os'
        → Runs k frame i context val false false entry_acts s end
        → Settled i (asleep context val) end
    entry_acts-Settled tmout os' {s} r out h runs =
        started tmout (λ os. sleeps-any k frame i true context val (frame i) s.os os' os tmout h)
          (
            s,
            r,
            out,
            record { pc = refl; links = refl; sem = λ a ne. refl; context = λ a ne. refl },
          )
          runs
