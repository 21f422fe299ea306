-- ===== src/Lte/Text.antt =====
-- The C library's `strncpy`, `strsep` with "," and `atoi`, on the bytes that the parsers of
-- src/main.c read. A string argument is a list without its final 0; a buffer is a list with it.
use nrf.Base.{
  ℕ, zero, suc, ◌+◌, ◌-◌, ◌*◌, ◌/◌, ◌%◌, ◌^◌, ◌<◌, ◌≡◌, ◌≢◌, refl, sym, subst, ap, ◌∙◌, Bool, true,
  false, Option, none, some, List, [], ◌∷◌, ◌++◌, not, ◌&&◌, ◌||◌, arith, ltb, leb, ◌⊎◌, inl, inr,
  ◌==◌, if◌then◌else◌, length,
}
use nrf.Base.Int.{ℤ, pos, negsuc}
use nrf.Base.Run.{Run, ok, undefined, ◌>>=◌}

-- The buffer of `n` bytes after the copy: filled up with 0, but without one if the string is as
-- long as the buffer.
unfoldable pub strncpy : (n : ℕ) → List ℕ → List ℕ
strncpy zero s = []
strncpy (suc n) [] = 0 ∷ strncpy n []
strncpy (suc n) (c ∷ cs) = c ∷ strncpy n cs

-- The bytes up to the first comma or 0, and what stands after the comma. To read beyond the buffer
-- is undefined.
unfoldable pub scan : List ℕ → Run (List ℕ × Option (List ℕ))
scan [] = undefined
scan (c ∷ cs) =
    let rest = scan cs >>= λ r. ok (c ∷ r.0, r.1) in
    if c == 0 then ok ([], none) else if c == 44 then ok ([], some cs) else rest

-- The field, if there is one, and the pointer that is left.
abbrev pub strsep : Option (List ℕ) → Run (Option (List ℕ) × Option (List ℕ))
strsep none = ok (none, none)
strsep (some s) = scan s >>= λ r. ok (some r.0, r.1)

abbrev pub is_digit : ℕ → Bool
is_digit c = leb 48 c && leb c 57

abbrev is_space : ℕ → Bool
is_space c = (c == 32) || (leb 9 c && leb c 13)

unfoldable pub digits : (acc : ℕ) → List ℕ → ℕ
digits acc [] = acc
digits acc (c ∷ cs) = if is_digit c then digits (acc * 10 + (c - 48)) cs else acc

unfoldable pub skip_spaces : List ℕ → List ℕ
skip_spaces [] = []
skip_spaces (c ∷ cs) = if is_space c then skip_spaces cs else c ∷ cs

abbrev negated : ℕ → ℤ
negated zero = pos 0
negated (suc n) = negsuc n

-- A number that no `int` holds is undefined.
abbrev plus : ℕ → Run ℤ
plus n = if ltb n (2 ^ 31) then ok (pos n) else undefined

abbrev minus : ℕ → Run ℤ
minus n = if leb n (2 ^ 31) then ok (negated n) else undefined

unfoldable pub signed : List ℕ → Run ℤ
signed [] = ok (pos 0)
signed (c ∷ cs) =
    if c == 45
    then minus (digits 0 cs)
    else if c == 43
    then plus (digits 0 cs)
    else plus (digits 0 (c ∷ cs))

-- To read through a null pointer is undefined.
abbrev pub atoi : Option (List ℕ) → Run ℤ
atoi none = undefined
atoi (some s) = signed (skip_spaces s)

-- A field without the bytes that end one.
unfoldable pub Plain : List ℕ → Type 0
Plain [] = Unit
Plain (c ∷ cs) = (c ≢ 0) × (c ≢ 44) × Plain cs

abbrev pub is_plain : List ℕ → Bool
is_plain [] = true
is_plain (c ∷ cs) = not (c == 0) && (not (c == 44) && is_plain cs)

pub is_plain-Plain : (s : List ℕ) → is_plain s ≡ true → Plain s
unfolding Plain
is_plain-Plain [] h = tt
is_plain-Plain (c ∷ cs) h =
    let ih = is_plain-Plain cs in (ground arith, ground arith, ih (ground arith))

-- The digits of a number below 1000.
abbrev pub decimal : ℕ → List ℕ
decimal n =
    if ltb n 10
    then (48 + n) ∷ []
    else if ltb n 100
    then (48 + n / 10) ∷ (48 + n % 10) ∷ []
    else (48 + n / 100) ∷ (48 + n / 10 % 10) ∷ (48 + n % 10) ∷ []

-- A string at which a number ends.
abbrev pub Stops : List ℕ → Type 0
Stops [] = Unit
Stops (c ∷ cs) = is_digit c ≡ false

digits-Stops : (acc : ℕ) (s : List ℕ) → Stops s → digits acc s ≡ acc
unfolding digits
digits-Stops acc [] h = refl
digits-Stops acc (c ∷ cs) h = rw h refl

digits-digit :
    (acc d : ℕ) (s : List ℕ) → d < 10 → digits acc ((48 + d) ∷ s) ≡ digits (acc * 10 + d) s
unfolding digits
digits-digit acc d s small =
    let value : 48 + d - 48 ≡ d = omega arith in
    let digit : is_digit (48 + d) ≡ true = ground arith in rw value (rw digit refl)

signed-digit :
    (d : ℕ) (s : List ℕ)
    → d < 10
    → signed (skip_spaces ((48 + d) ∷ s)) ≡ plus (digits 0 ((48 + d) ∷ s))
unfolding signed skip_spaces
signed-digit d s small =
    let space : is_space (48 + d) ≡ false = ground arith in
    let sign : ((48 + d == 45) ≡ false) × ((48 + d == 43) ≡ false) = (ground arith, ground arith) in
    rw (space, sign.0, sign.1) refl

plus-small : (n k : ℕ) → n < 1000 → k ≡ n → plus k ≡ ok (pos n)
plus-small n k small eq = ground arith

-- The shapes that `decimal` gives, with the digits as numbers below 10 whose value is `n`.
decimal-cases :
    (n : ℕ)
    → n < 1000
    → (decimal n ≡ (48 + n) ∷ []) × (n < 10)
      ⊎ ((decimal n ≡ (48 + n / 10) ∷ (48 + n % 10) ∷ []) × (n / 10 < 10)
          ⊎ (decimal n ≡ (48 + n / 100) ∷ (48 + n / 10 % 10) ∷ (48 + n % 10) ∷ []) × (n / 100 < 10))
decimal-cases n small = ground arith

pub atoi-decimal :
    (n : ℕ) (s : List ℕ) → n < 1000 → Stops s → atoi (some (decimal n ++ s)) ≡ ok (pos n)
atoi-decimal n s small h = elim (decimal-cases n small) [
  | inl (shape, d1) ↦
      ap (λ d. atoi (some (d ++ s))) shape
      ∙ signed-digit n s d1
      ∙ plus-small n (digits 0 ((48 + n) ∷ s)) small
          (digits-digit 0 n s d1 ∙ digits-Stops (0 * 10 + n) s h ∙ omega arith)
  | inr (inl (shape, d1)) ↦
      ap (λ d. atoi (some (d ++ s))) shape
      ∙ signed-digit (n / 10) ((48 + n % 10) ∷ s) d1
      ∙ plus-small n (digits 0 ((48 + n / 10) ∷ (48 + n % 10) ∷ s)) small (
          digits-digit 0 (n / 10) ((48 + n % 10) ∷ s) d1
          ∙ digits-digit (0 * 10 + n / 10) (n % 10) s (omega arith)
          ∙ digits-Stops ((0 * 10 + n / 10) * 10 + n % 10) s h
          ∙ omega arith)
  | inr (inr (shape, d1)) ↦
      ap (λ d. atoi (some (d ++ s))) shape
      ∙ signed-digit (n / 100) ((48 + n / 10 % 10) ∷ (48 + n % 10) ∷ s) d1
      ∙ plus-small n (digits 0 ((48 + n / 100) ∷ (48 + n / 10 % 10) ∷ (48 + n % 10) ∷ s)) small (
          digits-digit 0 (n / 100) ((48 + n / 10 % 10) ∷ (48 + n % 10) ∷ s) d1
          ∙ digits-digit (0 * 10 + n / 100) (n / 10 % 10) ((48 + n % 10) ∷ s) (omega arith)
          ∙ digits-digit ((0 * 10 + n / 100) * 10 + n / 10 % 10) (n % 10) s (omega arith)
          ∙ digits-Stops (((0 * 10 + n / 100) * 10 + n / 10 % 10) * 10 + n % 10) s h
          ∙ omega arith)
]

pub scan-comma : (f rest : List ℕ) → Plain f → scan (f ++ 44 ∷ rest) ≡ ok (f, some rest)
unfolding scan Plain
scan-comma [] rest h = refl
scan-comma (c ∷ f) rest (nz, nc, h) = rw (scan-comma f rest h) (ground arith)

pub scan-end : (f rest : List ℕ) → Plain f → scan (f ++ 0 ∷ rest) ≡ ok (f, none)
unfolding scan Plain
scan-end [] rest h = refl
scan-end (c ∷ f) rest (nz, nc, h) = rw (scan-end f rest h) (ground arith)

-- What is in the buffer after the copy of a string that leaves room for a 0.
pub strncpy-ends :
    (n : ℕ) (s : List ℕ) → length s < n → strncpy n s ≡ s ++ 0 ∷ strncpy (n - length s - 1) []
unfolding strncpy
strncpy-ends zero s h = absurd (omega arith)
strncpy-ends (suc n) [] h = ap (λ k. 0 ∷ strncpy k []) (omega arith)
strncpy-ends (suc n) (c ∷ s) h =
    ap (λ r. c ∷ r) (strncpy-ends n s (omega arith) ∙ ap (λ k. s ++ 0 ∷ strncpy k []) (omega arith))

pub decimal-Plain : (n : ℕ) (s : List ℕ) → n < 1000 → Plain s → Plain (decimal n ++ s)
unfolding Plain
decimal-Plain n s small h = elim (decimal-cases n small) [
  | inl (shape, d1) ↦ subst (λ d. Plain (d ++ s)) (sym shape) (omega arith, omega arith, h)
  | inr (inl (shape, d1)) ↦
      subst (λ d. Plain (d ++ s)) (sym shape)
        (omega arith, omega arith, (omega arith, omega arith, h))
  | inr (inr (shape, d1)) ↦
      subst (λ d. Plain (d ++ s)) (sym shape)
        (omega arith, omega arith, (omega arith, omega arith, (omega arith, omega arith, h)))
]
