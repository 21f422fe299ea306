-- ===== src/Lte/Fields.antt =====
-- `lte_signal_quality_decode` of src/main.c on replies with too few fields.
use nrf.Base.{
  ℕ, zero, suc, ◌+◌, ◌-◌, ◌<◌, ◌≤◌, ◌==◌, ◌≡◌, ◌≢◌, refl, Bool, true, not, ◌&&◌, Bool-cases, inl,
  inr, Option, none, some, List, [], ◌∷◌, ◌++◌, arith, if◌then◌else◌, length,
}
use nrf.Base.Run.{Run, ok, undefined, out_of_fuel, ◌>>=◌, Ends}
use nrf.Lte.Text.{strncpy, strsep, scan, atoi, signed, skip_spaces, strncpy-ends}
use nrf.Lte.Signal.{at_response_len, lte_signal_quality_decode}

abbrev pub commas : List ℕ → ℕ
commas [] = 0
commas (c ∷ cs) = (if c == 44 then 1 else 0) + commas cs

-- A text, as C knows it: no byte is 0.
unfoldable pub IsText : List ℕ → Type 0
IsText [] = Unit
IsText (c ∷ cs) = (c ≢ 0) × IsText cs

abbrev pub is_text : List ℕ → Bool
is_text [] = true
is_text (c ∷ cs) = not (c == 0) && is_text cs

pub is_text-IsText : (s : List ℕ) → is_text s ≡ true → IsText s
unfolding IsText
is_text-IsText [] h = tt
is_text-IsText (c ∷ cs) h = let ih = is_text-IsText cs in (ground arith, ih (ground arith))

-- A pointer behind which at most `n` fields follow.
abbrev Left : ℕ → Option (List ℕ) → Type 0
Left n none = Unit
Left zero (some buffer) = ⊥
Left (suc n) (some buffer) =
    (s : List ℕ) × (pad : List ℕ) × (buffer ≡ s ++ 0 ∷ pad) × IsText s × (commas s ≤ n)

-- The field in front of the first comma or of the end, and what is left.
scan-Left :
    (s pad : List ℕ) (n : ℕ)
    → IsText s
    → commas s ≤ n
    → (f : List ℕ) × (t : Option (List ℕ)) × (scan (s ++ 0 ∷ pad) ≡ ok (f, t)) × Left n t
unfolding scan IsText
scan-Left [] pad n h le = ([], none, refl, tt)
scan-Left (c ∷ s) pad zero (nz, h) le =
    let (f, t, e, left) = scan-Left s pad zero h (ground arith) in
    (c ∷ f, t, rw e (ground arith), left)
scan-Left (c ∷ s) pad (suc n) (nz, h) le = elim (Bool-cases (c == 44)) [
  | inl comma ↦ ([], some (s ++ 0 ∷ pad), ground arith, (s, pad, refl, h, ground arith))
  | inr other ↦
      let (f, t, e, left) = scan-Left s pad (suc n) h (ground arith) in
      (c ∷ f, t, rw e (ground arith), left)
]

strsep-Left :
    (n : ℕ) (t : Option (List ℕ))
    → Left (suc n) t
    → (f : Option (List ℕ)) × (t' : Option (List ℕ)) × (strsep t ≡ ok (f, t')) × Left n t'
strsep-Left n none h = (none, none, refl, tt)
strsep-Left n (some buffer) (s, pad, e, text, le) =
    let (f, t', scanned, left) = scan-Left s pad n text le in
    (some f, t', rw (e, scanned) refl, left)

no_field : (t : Option (List ℕ)) → Left zero t → t ≡ none
no_field none h = refl
no_field (some buffer) h = absurd h

pub atoi-Ends : (p : Option (List ℕ)) → Ends (λ n. Unit) (atoi p)
unfolding signed
atoi-Ends none = tt
atoi-Ends (some s) = go (skip_spaces s)
  where
    go : (s : List ℕ) → Ends (λ n. Unit) (signed s)
    go [] = tt
    go (c ∷ s) = ground arith

pub undefined_later :
    {A B : Type 0} (run : Run A) (next : A → Run B)
    → Ends (λ a. Unit) run
    → ((a : A) → next a ≡ undefined)
    → (run >>= next) ≡ undefined
undefined_later (ok a) next h later = later a
undefined_later undefined next h later = refl
undefined_later out_of_fuel next h later = absurd h

-- A reply of fewer than 128 bytes, none of them 0, with fewer than five commas, which is to say fewer
-- than six fields, is undefined behaviour: `atoi` is called with a null pointer.
pub lte_signal_quality_decode-undefined :
    (at_s : List ℕ)
    → IsText at_s
    → length at_s < at_response_len
    → commas at_s < 5
    → lte_signal_quality_decode at_s ≡ undefined
unfolding lte_signal_quality_decode
lte_signal_quality_decode-undefined at_s text room few =
    let pad = strncpy (at_response_len - length at_s - 1) [] in
    let (f0, t0, e0, l0) =
      strsep-Left 4 (some (strncpy at_response_len at_s))
        (at_s, pad, strncpy-ends at_response_len at_s room, text, omega (arith, few)) in
    let (f1, t1, e1, l1) = strsep-Left 3 t0 l0 in
    let (f2, t2, e2, l2) = strsep-Left 2 t1 l1 in
    let (f3, t3, e3, l3) = strsep-Left 1 t2 l2 in
    let (f4, t4, e4, l4) = strsep-Left 0 t3 l3 in
    rw (e0, e1, e2, e3, e4, no_field t4 l4) (undefined_later (atoi f4) _ (atoi-Ends f4) (λ q. refl))
