-- ===== src/Gps/Fpu/Mix.antt =====
-- `fpu_test` and its thread `test_thr` of src/gps.c at the same time.
use nrf.Base.{
  ℕ, ◌+◌, ◌-◌, ◌*◌, ◌<◌, ◌≡◌, refl, sym, subst, ap, ◌∙◌, Bool, true, false, some, List, [], ◌∷◌,
  replicate,
}
use nrf.Base.Run.{ok}
use nrf.Gps.Fpu.{
  one_float, FpuAct, thread_create, vfp_control, pcb_flags_fpu, sched_add, critical_enter,
  critical_exit, d_is, result0, result1, Section, closed, entered, spent, guarded, test_thr,
  fpu_test, guarded-fpu_test,
}
use nrf.Gps.Fpu.Lead.{section_after, printed, guarded-Leads}
use nrf.Gps.Fpu.Bounds.{guarded-test_thr}

-- The thread that has a critical section open.
pub data Owner : Type 0 where
  free first second : Owner

abbrev pub is_first : Owner → Bool
is_first first = true
is_first _ = false

abbrev pub is_second : Owner → Bool
is_second second = true
is_second _ = false

abbrev is_open : Section → Bool
is_open closed = false
is_open _ = true

-- The section of the thread that has it open.
abbrev holder : Owner → (mine its : Section) → Section
holder free mine its = closed
holder first mine its = mine
holder second mine its = its

abbrev Holds : Owner → (mine its : Section) → Type 0
Holds o mine its = (is_open mine ≡ is_first o) × (is_open its ≡ is_second o)

holder_first :
    (o : Owner) (mine its : Section)
    → is_second o ≡ false
    → Holds o mine its
    → holder o mine its ≡ mine
holder_first free closed its e h = refl
holder_first free entered its e h = absurd (cc h.0)
holder_first free spent its e h = absurd (cc h.0)
holder_first first mine its e h = refl
holder_first second mine its e h = absurd (cc e)

holder_second :
    (o : Owner) (mine its : Section)
    → is_first o ≡ false
    → Holds o mine its
    → holder o mine its ≡ its
holder_second free mine closed e h = refl
holder_second free mine entered e h = absurd (cc h.1)
holder_second free mine spent e h = absurd (cc h.1)
holder_second second mine its e h = refl
holder_second first mine its e h = absurd (cc e)

module _ {A : Type 0} where
  abbrev pub owner_after : (me owner : Owner) → FpuAct A → Owner
  owner_after me owner critical_enter = me
  owner_after me owner critical_exit = free
  owner_after me owner _ = owner

  -- The actions of two threads in any order, where nobody else runs in a critical section.
  pub data Mix : Owner → List (FpuAct A) → List (FpuAct A) → List (FpuAct A) → Type 0 where
    both_done : {owner : Owner} → Mix owner [] [] []
    left :
        {owner : Owner} {xs ys zs : List (FpuAct A)} (x : FpuAct A)
        → is_second owner ≡ false
        → Mix (owner_after first owner x) xs ys zs
        → Mix owner (x ∷ xs) ys (x ∷ zs)
    right :
        {owner : Owner} {xs ys zs : List (FpuAct A)} (y : FpuAct A)
        → is_first owner ≡ false
        → Mix (owner_after second owner y) xs ys zs
        → Mix owner xs (y ∷ ys) (y ∷ zs)

  -- A list made of two, each in its order.
  pub data Shuffle : List A → List A → List A → Type 0 where
    nil : Shuffle [] [] []
    from_left : {xs ys zs : List A} (x : A) → Shuffle xs ys zs → Shuffle (x ∷ xs) ys (x ∷ zs)
    from_right : {xs ys zs : List A} (y : A) → Shuffle xs ys zs → Shuffle xs (y ∷ ys) (y ∷ zs)

  printed-left :
      (x : FpuAct A) {rs qs ts : List A}
      → Shuffle rs qs ts
      → Shuffle (printed x rs) qs (printed x ts)
  printed-left (result0 text) s = from_left text s
  printed-left (result1 text) s = from_left text s
  printed-left thread_create s = s
  printed-left vfp_control s = s
  printed-left pcb_flags_fpu s = s
  printed-left sched_add s = s
  printed-left critical_enter s = s
  printed-left critical_exit s = s
  printed-left (d_is text) s = s

  printed-right :
      (y : FpuAct A) {rs qs ts : List A}
      → Shuffle rs qs ts
      → Shuffle rs (printed y qs) (printed y ts)
  printed-right (result0 text) s = from_right text s
  printed-right (result1 text) s = from_right text s
  printed-right thread_create s = s
  printed-right vfp_control s = s
  printed-right pcb_flags_fpu s = s
  printed-right sched_add s = s
  printed-right critical_enter s = s
  printed-right critical_exit s = s
  printed-right (d_is text) s = s

  -- Who has the critical section open behind an action.
  after_first :
      (o : Owner) (x : FpuAct A) (mine its : Section)
      → is_second o ≡ false
      → Holds o mine its
      → Holds (owner_after first o x) (section_after mine x) its
        × (is_second (owner_after first o x) ≡ false)
  after_first o critical_enter mine its e h = ((refl, h.1 ∙ e), refl)
  after_first o critical_exit mine its e h = ((refl, h.1 ∙ e), refl)
  after_first o (result0 text) closed its e h = (h, e)
  after_first o (result0 text) entered its e h = (h, e)
  after_first o (result0 text) spent its e h = (h, e)
  after_first o (result1 text) closed its e h = (h, e)
  after_first o (result1 text) entered its e h = (h, e)
  after_first o (result1 text) spent its e h = (h, e)
  after_first o thread_create mine its e h = (h, e)
  after_first o vfp_control mine its e h = (h, e)
  after_first o pcb_flags_fpu mine its e h = (h, e)
  after_first o sched_add mine its e h = (h, e)
  after_first o (d_is text) mine its e h = (h, e)

  after_second :
      (o : Owner) (y : FpuAct A) (mine its : Section)
      → is_first o ≡ false
      → Holds o mine its
      → Holds (owner_after second o y) mine (section_after its y)
        × (is_first (owner_after second o y) ≡ false)
  after_second o critical_enter mine its e h = ((h.0 ∙ e, refl), refl)
  after_second o critical_exit mine its e h = ((h.0 ∙ e, refl), refl)
  after_second o (result0 text) mine closed e h = (h, e)
  after_second o (result0 text) mine entered e h = (h, e)
  after_second o (result0 text) mine spent e h = (h, e)
  after_second o (result1 text) mine closed e h = (h, e)
  after_second o (result1 text) mine entered e h = (h, e)
  after_second o (result1 text) mine spent e h = (h, e)
  after_second o thread_create mine its e h = (h, e)
  after_second o vfp_control mine its e h = (h, e)
  after_second o pcb_flags_fpu mine its e h = (h, e)
  after_second o sched_add mine its e h = (h, e)
  after_second o (d_is text) mine its e h = (h, e)

  ended :
      (o : Owner) (mine its : Section) (rs qs : List A)
      → guarded mine [] ≡ some rs
      → guarded its [] ≡ some qs
      → (ts : List A) × (guarded (holder o mine its) [] ≡ some ts) × Shuffle rs qs ts
  unfolding guarded
  ended o entered its rs qs h g = absurd (cc h)
  ended o spent its rs qs h g = absurd (cc h)
  ended o closed entered rs qs h g = absurd (cc g)
  ended o closed spent rs qs h g = absurd (cc g)
  ended o closed closed rs qs h g =
      let l : [] ≡ rs = cc h in
      let r : [] ≡ qs = cc g in
      ([], end o, subst (λ x. Shuffle x qs []) l (subst (λ x. Shuffle [] x []) r nil))
    where
      end : (o : Owner) → guarded {A = A} (holder o closed closed) [] ≡ some []
      end free = refl
      end first = refl
      end second = refl

  guarded-Mix :
      {o : Owner} {xs ys zs : List (FpuAct A)} (mine its : Section)
      → Mix o xs ys zs
      → Holds o mine its
      → (rs qs : List A) → guarded mine xs ≡ some rs
      → guarded its ys ≡ some qs
      → (ts : List A) × (guarded (holder o mine its) zs ≡ some ts) × Shuffle rs qs ts
  guarded-Mix {o} mine its both_done held rs qs h g = ended o mine its rs qs h g
  guarded-Mix {o} {ys} mine its (left {xs} {zs} x e m) held rs qs h g =
      let (held', e') = after_first o x mine its e held in
      let lead = guarded-Leads mine x xs rs h in
      let (ts, joined, shuffled) =
        guarded-Mix (section_after mine x) its m held' lead.rest qs lead.later g in
      let joined' : guarded (section_after mine x) zs ≡ some ts =
        ap (λ s. guarded s zs) (sym (holder_first (owner_after first o x) _ its e' held'))
        ∙ joined in
      (
        printed x ts,
        ap (λ s. guarded s (x ∷ zs)) (holder_first o mine its e held) ∙ lead.joins zs ts joined',
        subst (λ l. Shuffle l qs (printed x ts)) (sym lead.splits) (printed-left x shuffled),
      )
  guarded-Mix {o} {xs} mine its (right {ys} {zs} y e m) held rs qs h g =
      let (held', e') = after_second o y mine its e held in
      let lead = guarded-Leads its y ys qs g in
      let (ts, joined, shuffled) =
        guarded-Mix mine (section_after its y) m held' rs lead.rest h lead.later in
      let joined' : guarded (section_after its y) zs ≡ some ts =
        ap (λ s. guarded s zs) (sym (holder_second (owner_after second o y) mine _ e' held'))
        ∙ joined in
      (
        printed y ts,
        ap (λ s. guarded s (y ∷ zs)) (holder_second o mine its e held) ∙ lead.joins zs ts joined',
        subst (λ l. Shuffle rs l (printed y ts)) (sym lead.splits) (printed-right y shuffled),
      )

-- `fpu_test` has its thread, and `n` rounds of the one and `m` of the other go on in any order, where
-- nobody else runs in a critical section. Then each result is printed in a critical section that has
-- no other result, each section has one, and no two are open at once; those of `fpu_test` are `n` times 500000.0, those of its thread `m` times one number less than
-- 3907 away from 100000, and all are printed, each thread's in its order.
pub fpu_test-Mix :
    {A : Type 0} (ftoa : ℕ → A) (n m : ℕ) (acts zs : List (FpuAct A))
    → fpu_test ftoa true n ≡ ok acts
    → Mix free acts (test_thr ftoa m) zs
    → (b : ℕ) × (ts : List A) × (guarded closed zs ≡ some ts)
      × Shuffle (replicate n (ftoa (500000 * one_float))) (replicate m (ftoa b)) ts
      × (b < (100000 + 3907) * one_float)
      × ((100000 - 3907) * one_float < b)
fpu_test-Mix ftoa n m acts zs e mix =
    let (b, thr, above, below) = guarded-test_thr ftoa m in
    let (ts, all, shuffled) =
      guarded-Mix closed closed mix (refl, refl) (replicate n (ftoa (500000 * one_float)))
        (replicate m (ftoa b)) (rw e at (guarded-fpu_test ftoa n)) thr in
    (b, ts, all, shuffled, above, below)
