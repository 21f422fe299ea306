-- ===== src/Lte/Quality.antt =====
-- `lte_signal_quality_decode` of src/main.c on any reply.
use nrf.Base.{
  ℕ, suc, ◌-◌, ◌<◌, ◌≤◌, ◌==◌, ◌≡◌, refl, sym, ap, ◌∙◌, ◌⊎◌, Bool-cases, inl, inr, Option, some,
  List, [], ◌∷◌, ◌++◌, arith, length,
}
use nrf.Base.Int.{ℤ}
use nrf.Base.Run.{Run, ok, undefined, ◌>>=◌}
use nrf.Lte.Text.{strncpy, strsep, scan, atoi, strncpy-ends}
use nrf.Lte.Fields.{IsText, commas, atoi-Ends, undefined_later}
use nrf.Lte.Cut.{fields, head?, tail, strsep-Ahead}
use nrf.Lte.Signal.{at_response_len, half, minus_int, rsrp_of, lte_signal_quality_decode}

-- The numbers in the fifth and the sixth field, as they are printed.
abbrev pub quality : List (List ℕ) → Run (ℤ × ℤ)
quality (_ ∷ _ ∷ _ ∷ _ ∷ rsrq ∷ rsrp ∷ _) = atoi (some rsrq) >>= λ q.
    atoi (some rsrp) >>= λ p. rsrp_of p >>= λ d. ok (minus_int 20 (half q), d)
quality _ = undefined

-- The same, where a field that is missing is a null pointer.
abbrev read : List (List ℕ) → Run (ℤ × ℤ)
read fs = atoi (head? (tail (tail (tail (tail fs))))) >>= λ q.
    atoi (head? (tail (tail (tail (tail (tail fs)))))) >>= λ p.
    rsrp_of p >>= λ d. ok (minus_int 20 (half q), d)

read-quality : (fs : List (List ℕ)) → read fs ≡ quality fs
read-quality [] = refl
read-quality (f0 ∷ []) = refl
read-quality (f0 ∷ (f1 ∷ [])) = refl
read-quality (f0 ∷ (f1 ∷ (f2 ∷ []))) = refl
read-quality (f0 ∷ (f1 ∷ (f2 ∷ (f3 ∷ [])))) = refl
read-quality (f0 ∷ (f1 ∷ (f2 ∷ (f3 ∷ (f4 ∷ []))))) =
    undefined_later (atoi (some f4)) _ (atoi-Ends (some f4)) (λ q. refl)
read-quality (f0 ∷ (f1 ∷ (f2 ∷ (f3 ∷ (f4 ∷ (f5 ∷ more)))))) = refl

-- For a reply of fewer than 128 bytes, none of them 0, the fifth and the sixth of the fields between
-- its commas are read as numbers: 20 less half the one, rounded towards 0, and 141 less the other are
-- printed, the former after its conversion to `float`. The run is undefined with fewer than six
-- fields, with a number there that no `int` holds, and where the difference overflows.
pub lte_signal_quality_decode-fields :
    (at_s : List ℕ)
    → IsText at_s
    → length at_s < at_response_len
    → lte_signal_quality_decode at_s ≡ quality (fields at_s)
unfolding lte_signal_quality_decode
lte_signal_quality_decode-fields at_s text room =
    let pad = strncpy (at_response_len - length at_s - 1) [] in
    let fs = fields at_s in
    let (t0, e0, l0) =
      strsep-Ahead (some (strncpy at_response_len at_s)) fs
        (at_s, pad, strncpy-ends at_response_len at_s room, text, refl) in
    let (t1, e1, l1) = strsep-Ahead t0 (tail fs) l0 in
    let (t2, e2, l2) = strsep-Ahead t1 (tail (tail fs)) l1 in
    let (t3, e3, l3) = strsep-Ahead t2 (tail (tail (tail fs))) l2 in
    let (t4, e4, l4) = strsep-Ahead t3 (tail (tail (tail (tail fs)))) l3 in
    let (t5, e5, l5) = strsep-Ahead t4 (tail (tail (tail (tail (tail fs))))) l4 in
    rw (e0, e1, e2, e3, e4, e5) (read-quality fs)

-- A pointer to a text of at most `n` commas that the buffer ends without a 0 after.
abbrev Unended : ℕ → Option (List ℕ) → Type 0
Unended n t = (s : List ℕ) × (t ≡ some s) × IsText s × (commas s ≤ n)

scan-Unended :
    (s : List ℕ) (n : ℕ)
    → IsText s
    → commas s ≤ n
    → (scan s ≡ undefined)
      ⊎ ((f : List ℕ) × (s' : List ℕ) × (m : ℕ) × (n ≡ suc m)
          × (scan s ≡ ok (f, some s'))
          × IsText s'
          × (commas s' ≤ m))
unfolding scan IsText
scan-Unended [] n h le = inl refl
scan-Unended (c ∷ s) n (nz, h) le = elim (Bool-cases (c == 44)) [
  | inl comma ↦ inr ([], s, n - 1, ground arith, ground arith, h, ground arith)
  | inr other ↦ elim (scan-Unended s n h (ground arith)) [
    | inl e ↦ inl (rw e (ground arith))
    | inr (f, s', m, eq, e, text, fewer) ↦ inr (c ∷ f, s', m, eq, rw e (ground arith), text, fewer)
  ]
]

-- A call of `strsep` leads beyond the buffer, or passes a comma.
strsep-Unended :
    {B : Type 0} (n : ℕ) (t : Option (List ℕ)) (next : Option (List ℕ) × Option (List ℕ) → Run B)
    → Unended n t
    → ((f t' : Option (List ℕ)) (m : ℕ) → n ≡ suc m → Unended m t' → next (f, t') ≡ undefined)
    → (strsep t >>= next) ≡ undefined
strsep-Unended n t next (s, e, text, le) later = elim (scan-Unended s n text le) [
  | inl over ↦ rw (e, over) refl
  | inr (f, s', m, eq, scanned, text', fewer) ↦
      rw (e, scanned) (later (some f) (some s') m eq (s', refl, text', fewer))
]

strncpy-length : (front rest : List ℕ) → strncpy (length front) (front ++ rest) ≡ front
unfolding strncpy
strncpy-length [] rest = refl
strncpy-length (c ∷ front) rest = ap (λ s. c ∷ s) (strncpy-length front rest)

-- A reply of 128 bytes or more, the first 128 without a 0 and with fewer than six commas among them,
-- is undefined behaviour: the copy has no 0 at its end, and the buffer is read beyond it.
pub lte_signal_quality_decode-overrun :
    (front rest : List ℕ)
    → IsText front
    → length front ≡ at_response_len
    → commas front < 6
    → lte_signal_quality_decode (front ++ rest) ≡ undefined
unfolding lte_signal_quality_decode
lte_signal_quality_decode-overrun front rest text long few =
    let copied : strncpy at_response_len (front ++ rest) ≡ front =
      ap (λ n. strncpy n (front ++ rest)) (sym long) ∙ strncpy-length front rest in
    strsep-Unended 5 _ _ (front, ap some copied, text, omega (arith, few))
      (λ f0 t0 n0 e0 u0. strsep-Unended n0 t0 _ u0 (λ f1 t1 n1 e1 u1.
        strsep-Unended n1 t1 _ u1 (λ f2 t2 n2 e2 u2. strsep-Unended n2 t2 _ u2 (λ f3 t3 n3 e3 u3.
          strsep-Unended n3 t3 _ u3 (λ f4 t4 n4 e4 u4.
            undefined_later (atoi f4) _ (atoi-Ends f4) (λ q.
              strsep-Unended n4 t4 _ u4
                (λ f5 t5 n5 e5 u5. absurd (omega (arith, e0, e1, e2, e3, e4, e5)))))))))
