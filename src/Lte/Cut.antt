-- ===== src/Lte/Cut.antt =====
-- `strsep` on a buffer with the text of a reply, by the fields between the commas of the text.
use nrf.Base.{
  ℕ, ◌≡◌, refl, sym, subst, ap, Bool-cases, inl, inr, Option, none, some, List, [], ◌∷◌, ◌++◌,
  arith, ◌==◌, if◌then◌else◌,
}
use nrf.Base.Run.{ok}
use nrf.Lte.Text.{strsep, scan}
use nrf.Lte.Fields.{IsText}

-- A text cut at its commas: the first field, and the others.
unfoldable pub cut : List ℕ → List ℕ × List (List ℕ)
cut [] = ([], [])
cut (c ∷ s) = let r = cut s in if c == 44 then ([], r.0 ∷ r.1) else (c ∷ r.0, r.1)

abbrev pub fields : List ℕ → List (List ℕ)
fields s = (cut s).0 ∷ (cut s).1

abbrev pub head? : List (List ℕ) → Option (List ℕ)
head? [] = none
head? (f ∷ fs) = some f

abbrev pub tail : List (List ℕ) → List (List ℕ)
tail [] = []
tail (f ∷ fs) = fs

-- The fields that are left behind a pointer.
abbrev pub Ahead : Option (List ℕ) → List (List ℕ) → Type 0
Ahead none fs = fs ≡ []
Ahead (some buffer) fs =
    (s : List ℕ) × (pad : List ℕ) × (buffer ≡ s ++ 0 ∷ pad) × IsText s × (fs ≡ fields s)

scan-cut :
    (s pad : List ℕ)
    → IsText s
    → (t : Option (List ℕ)) × (scan (s ++ 0 ∷ pad) ≡ ok ((cut s).0, t)) × Ahead t (cut s).1
unfolding scan IsText cut
scan-cut [] pad h = (none, refl, refl)
scan-cut (c ∷ s) pad (nz, h) = elim (Bool-cases (c == 44)) [
  | inl comma ↦ rw comma (some (s ++ 0 ∷ pad), ground arith, (s, pad, refl, h, refl))
  | inr other ↦ let (t, e, ahead) = scan-cut s pad h in rw other (t, rw e (ground arith), ahead)
]

pub strsep-Ahead :
    (t : Option (List ℕ)) (fs : List (List ℕ))
    → Ahead t fs
    → (t' : Option (List ℕ)) × (strsep t ≡ ok (head? fs, t')) × Ahead t' (tail fs)
strsep-Ahead none fs h = (none, ap (λ fs'. ok (head? fs', none)) (sym h), ap tail h)
strsep-Ahead (some buffer) fs (s, pad, e, text, cuts) =
    let (t', scanned, ahead) = scan-cut s pad text in
    (t', rw (e, scanned, cuts) refl, subst (λ fs'. Ahead t' (tail fs')) (sym cuts) ahead)
