-- ===== src/Gps/Fpu/Lead.antt =====
-- One action of `fpu_test` or `test_thr` of src/gps.c in front of others, and the critical sections.
use mathlib.Core.Option
use nrf.Base.{◌≡◌, refl, sym, ap, ◌∙◌, Option, none, some, List, ◌∷◌}
use nrf.Gps.Fpu.{
  FpuAct, thread_create, vfp_control, pcb_flags_fpu, sched_add, critical_enter, critical_exit, d_is,
  result0, result1, Section, closed, entered, spent, guarded,
}

module _ {A : Type 0} where
  abbrev pub section_after : Section → FpuAct A → Section
  section_after s critical_enter = entered
  section_after s critical_exit = closed
  section_after entered (result0 text) = spent
  section_after entered (result1 text) = spent
  section_after s _ = s

  abbrev pub printed : FpuAct A → List A → List A
  printed (result0 text) texts = text ∷ texts
  printed (result1 text) texts = text ∷ texts
  printed _ texts = texts

  -- What an action that may stand first means for the rest, and in front of any other rest.
  pub record Leads (s : Section) (x : FpuAct A) (xs : List (FpuAct A)) (rs : List A) : Type 0 where
    pub rest : List A
    pub splits : rs ≡ printed x rest
    pub later : guarded (section_after s x) xs ≡ some rest
    pub joins :
        (zs : List (FpuAct A)) (ts : List A)
        → guarded (section_after s x) zs ≡ some ts
        → guarded s (x ∷ zs) ≡ some (printed x ts)

  map-eq-some :
      (text : A) (o : Option (List A)) (rs : List A)
      → Option.map (λ texts. text ∷ texts) o ≡ some rs
      → (rest : List A) × (rs ≡ text ∷ rest) × (o ≡ some rest)
  map-eq-some text none rs h = absurd (cc h)
  map-eq-some text (some rest) rs h = (rest, cc h, refl)

  -- An action that prints nothing.
  passes-Leads :
      (s : Section) (x : FpuAct A) (xs : List (FpuAct A)) (rs : List A)
      → ((zs : List (FpuAct A)) → guarded s (x ∷ zs) ≡ guarded (section_after s x) zs)
      → ((ts : List A) → printed x ts ≡ ts)
      → guarded s (x ∷ xs) ≡ some rs
      → Leads s x xs rs
  passes-Leads s x xs rs passes silent h = record {
    rest = rs;
    splits = sym (silent rs);
    later = sym (passes xs) ∙ h;
    joins = λ zs ts e. passes zs ∙ e ∙ ap some (sym (silent ts));
  }

  pub guarded-Leads :
      (s : Section) (x : FpuAct A) (xs : List (FpuAct A)) (rs : List A)
      → guarded s (x ∷ xs) ≡ some rs
      → Leads s x xs rs
  unfolding guarded
  guarded-Leads closed critical_enter xs rs h =
      passes-Leads closed critical_enter xs rs (λ zs. refl) (λ ts. refl) h
  guarded-Leads entered critical_enter xs rs h = absurd (cc h)
  guarded-Leads spent critical_enter xs rs h = absurd (cc h)
  guarded-Leads closed critical_exit xs rs h = absurd (cc h)
  guarded-Leads entered critical_exit xs rs h = absurd (cc h)
  guarded-Leads spent critical_exit xs rs h =
      passes-Leads spent critical_exit xs rs (λ zs. refl) (λ ts. refl) h
  guarded-Leads closed (result0 text) xs rs h = absurd (cc h)
  guarded-Leads entered (result0 text) xs rs h =
      let (rest, e, later) = map-eq-some text (guarded spent xs) rs h in
      record {
        rest = rest;
        splits = e;
        later = later;
        joins = λ zs ts q. ap (Option.map (λ texts. text ∷ texts)) q;
      }
  guarded-Leads spent (result0 text) xs rs h = absurd (cc h)
  guarded-Leads closed (result1 text) xs rs h = absurd (cc h)
  guarded-Leads entered (result1 text) xs rs h =
      let (rest, e, later) = map-eq-some text (guarded spent xs) rs h in
      record {
        rest = rest;
        splits = e;
        later = later;
        joins = λ zs ts q. ap (Option.map (λ texts. text ∷ texts)) q;
      }
  guarded-Leads spent (result1 text) xs rs h = absurd (cc h)
  guarded-Leads closed thread_create xs rs h =
      passes-Leads closed thread_create xs rs (λ zs. refl) (λ ts. refl) h
  guarded-Leads entered thread_create xs rs h =
      passes-Leads entered thread_create xs rs (λ zs. refl) (λ ts. refl) h
  guarded-Leads spent thread_create xs rs h =
      passes-Leads spent thread_create xs rs (λ zs. refl) (λ ts. refl) h
  guarded-Leads closed vfp_control xs rs h =
      passes-Leads closed vfp_control xs rs (λ zs. refl) (λ ts. refl) h
  guarded-Leads entered vfp_control xs rs h =
      passes-Leads entered vfp_control xs rs (λ zs. refl) (λ ts. refl) h
  guarded-Leads spent vfp_control xs rs h =
      passes-Leads spent vfp_control xs rs (λ zs. refl) (λ ts. refl) h
  guarded-Leads closed pcb_flags_fpu xs rs h =
      passes-Leads closed pcb_flags_fpu xs rs (λ zs. refl) (λ ts. refl) h
  guarded-Leads entered pcb_flags_fpu xs rs h =
      passes-Leads entered pcb_flags_fpu xs rs (λ zs. refl) (λ ts. refl) h
  guarded-Leads spent pcb_flags_fpu xs rs h =
      passes-Leads spent pcb_flags_fpu xs rs (λ zs. refl) (λ ts. refl) h
  guarded-Leads closed sched_add xs rs h =
      passes-Leads closed sched_add xs rs (λ zs. refl) (λ ts. refl) h
  guarded-Leads entered sched_add xs rs h =
      passes-Leads entered sched_add xs rs (λ zs. refl) (λ ts. refl) h
  guarded-Leads spent sched_add xs rs h =
      passes-Leads spent sched_add xs rs (λ zs. refl) (λ ts. refl) h
  guarded-Leads closed (d_is text) xs rs h =
      passes-Leads closed (d_is text) xs rs (λ zs. refl) (λ ts. refl) h
  guarded-Leads entered (d_is text) xs rs h =
      passes-Leads entered (d_is text) xs rs (λ zs. refl) (λ ts. refl) h
  guarded-Leads spent (d_is text) xs rs h =
      passes-Leads spent (d_is text) xs rs (λ zs. refl) (λ ts. refl) h
