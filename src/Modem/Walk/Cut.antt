-- ===== src/Modem/Walk/Cut.antt =====
-- The loop of `nrf_modem_os_shutdown` cuts the list into what it has behind it and before it.
use mathlib.Core.List.{append_assoc}
use nrf.Base.{ℕ, ◌<◌, ◌≡◌, refl, sym, subst, ◌∙◌, true, Option, some, List, [], ◌∷◌, ◌++◌, arith}
use nrf.Base.Int.{ℤ}
use nrf.Modem.Kernel.{Ptr, Kernel, has, Chain}
use nrf.Modem.Waiters.{post}
use nrf.Modem.Notify.{entry, td_next-entry, td_first-entry}
use nrf.Modem.System.{asleep, System}
use nrf.Modem.System.Lists.{has-append_one, Chain-append}
use nrf.Modem.System.Invariant.{Inv}
use nrf.Modem.Walk.{begin, visited}

module _ (k : Kernel) (frame : ℕ → Ptr) where
  open k use {
    head, nodes, next, count, sem_post, list_append, list_remove, nodes-append, nodes-remove,
    count-sem_post,
  }

  -- The list is cut where the loop stands; each thread that sleeps on an entry behind has a permit.
  pub record Cut (s : System k) (td : Option Ptr) (passed ahead : List Ptr) : Type 0 where
    pub inv : Inv k frame s
    pub split : nodes s.os.links ≡ passed ++ ahead
    pub here : td ≡ entry k ahead
    pub rung :
        (i c : ℕ) (val : ℤ)
        → s.pc i ≡ asleep c val
        → has (frame i) passed ≡ true
        → 0 < count (s.os.sem (frame i))

  pub begin-Cut : (s : System k) → Inv k frame s → Cut s (begin k frame s).td [] (nodes s.os.links)
  begin-Cut s inv = record {
    inv = inv;
    split = refl;
    here = td_first-entry k s.os inv.well;
    rung = λ i c val e h. absurd (cc h);
  }

  -- A round.
  pub visit-Cut :
      (s : System k) (a : Ptr) (passed ahead : List Ptr)
      → Cut s (some a) passed (a ∷ ahead)
      → Cut
          (visited k frame (record { sys = s; td = some a }) a).sys
          (visited k frame (record { sys = s; td = some a }) a).td
          (passed ++ a ∷ [])
          ahead
  visit-Cut s a passed ahead c =
      let inv = c.inv in
      let (d, h) = inv.well in
      record {
        inv = record {
          well = inv.well;
          listed = inv.listed;
          live = inv.live;
          context = inv.context;
        };
        split = c.split ∙ sym (append_assoc passed (a ∷ []) ahead);
        here = td_next-entry k (post k a s.os) a ahead (
            Chain-append (next s.os.links) head head a passed ahead
              (subst (Chain (next s.os.links) head head) c.split (k.chain s.os.links d h)));
        rung = λ i ctx val e h. ground (
          arith,
          has-append_one (frame i) a passed,
          count-sem_post (s.os.sem (frame i)),
          c.rung i ctx val e,
        );
      }
