-- ===== src/Gps/Fpu.antt =====
-- The test of floating point in src/gps.c: `fpu_test` and its thread `test_thr`. A `float` that is
-- not negative is a number of units of 2^-27, in which 0.1, 0.125 and 0.5 are whole; the sums stay
-- below the largest `float`, and each is rounded to a `float`, as the processor's unit does.
pub mod Bounds
pub mod Lead
pub mod Mix
use native.Mathlib.Nat.{add-mul, pow-suc, one-le-pow, mul-mod_left, mul-div_cancel, mul_assoc}
use nrf.Base.{
  ℕ, zero, suc, ◌+◌, ◌*◌, ◌/◌, ◌%◌, ◌^◌, ◌<◌, ◌≡◌, refl, ap, ◌∙◌, sym, inl, inr, Option, none, some,
  List, [], ◌∷◌, ◌++◌, ◌&&◌, ◌||◌, arith, subst, Bool, true, false, replicate, Bool-cases, ltb,
  ◌==◌, if◌then◌else◌,
}
use mathlib.Core.Option
use nrf.Base.Run.{Run, ok, undefined, Returns}

-- The values of the literals 0.1f, 0.125 and 0.5f.
abbrev pub tenth : ℕ
tenth = 13421773

abbrev pub eighth : ℕ
eighth = 2 ^ 24

abbrev pub one_half : ℕ
one_half = 2 ^ 26

-- The number of low bits that a significand of 24 bits has no room for.
unfoldable pub excess : (fuel : ℕ) → ℕ → ℕ
excess zero n = 0
excess (suc fuel) n = let more = excess fuel (n / 2) in if ltb n (2 ^ 24) then 0 else suc more

-- To the nearest multiple of `2 ^ e`, and to the even one of two.
unfoldable pub nearest : (e n : ℕ) → ℕ
nearest e n =
    let q = n / 2 ^ e in
    let r = n % 2 ^ e in
    (if ltb (2 ^ e) (2 * r) || ((2 * r == 2 ^ e) && (q % 2 == 1)) then suc q else q) * 2 ^ e

-- The sum of two numbers of type `float`.
unfoldable pub add_float : ℕ → ℕ → ℕ
add_float a b = let n = a + b in nearest (excess 131 n) n

-- The loop `b += a`.
unfoldable pub sum_loop : (n a b : ℕ) → ℕ
sum_loop zero a b = b
sum_loop (suc n) a b = sum_loop n a (add_float b a)

-- The value 1.0.
abbrev pub one_float : ℕ
one_float = 2 ^ 27

-- A call, or a line of `ftoa`'s text.
pub data FpuAct (A : Type 0) : Type 0 where
  thread_create : FpuAct A
  vfp_control : FpuAct A
  pcb_flags_fpu : FpuAct A
  sched_add : FpuAct A
  critical_enter : FpuAct A
  critical_exit : FpuAct A
  d_is result0 result1 : A → FpuAct A

-- `n` is a significand of 24 bits and as many zeros as are in excess.
abbrev Fits : (fuel n : ℕ) → Type 0
Fits fuel n = (k : ℕ) × (n ≡ k * 2 ^ excess fuel n)

excess-large :
    (fuel n : ℕ) → ltb (n * 2) (2 ^ 24) ≡ false → excess (suc fuel) (n * 2) ≡ suc (excess fuel n)
unfolding excess
excess-large fuel n large =
    let halved : n * 2 / 2 ≡ n = mul-div_cancel n (omega arith) in
    let same = ap (excess fuel) halved in ground (arith, large, same)

shift : (n k e : ℕ) → n ≡ k * 2 ^ e → n * 2 ≡ k * 2 ^ suc e
shift n k e h = ap (λ x. x * 2) h ∙ mul_assoc k (2 ^ e) 2 ∙ sym (ap (λ p. k * p) (pow-suc 2 e))

doubled : (fuel n : ℕ) → Fits fuel n → Fits (suc fuel) (n * 2)
unfolding excess
doubled fuel n (k, e) = elim (Bool-cases (ltb (n * 2) (2 ^ 24))) [
  | inl small ↦ (n * 2, ground (arith, small))
  | inr large ↦
      (k, shift n k (excess fuel n) e ∙ sym (ap (λ x. k * 2 ^ x) (excess-large fuel n large)))
]

whole : (fuel m j : ℕ) → m < 2 ^ 24 → Fits fuel (m * 2 ^ j)
unfolding excess
whole zero m j small = (m * 2 ^ j, omega arith)
whole (suc fuel) m zero small = (m, ground (arith, small))
whole (suc fuel) m (suc j) small =
    subst (Fits (suc fuel)) (sym (ap (λ p. m * p) (pow-suc 2 j) ∙ sym (mul_assoc m (2 ^ j) 2)))
      (doubled fuel (m * 2 ^ j) (whole fuel m j small))

nearest-whole : (e n k : ℕ) → n ≡ k * 2 ^ e → nearest e n ≡ n
unfolding nearest
nearest-whole e n k whole =
    let q : n / 2 ^ e ≡ k =
      ap (λ x. x / 2 ^ e) whole ∙ mul-div_cancel k (one-le-pow e 2 (omega arith)) in
    let r : n % 2 ^ e ≡ 0 = ap (λ x. x % 2 ^ e) whole ∙ mul-mod_left k (2 ^ e) in
    let above = one-le-pow e 2 (omega arith) in
    ground (arith, q, r, above, ap (λ x. x * 2 ^ e) q ∙ sym whole)

add_float-whole : (a b m j : ℕ) → a + b ≡ m * 2 ^ j → m < 2 ^ 24 → add_float a b ≡ a + b
unfolding add_float
add_float-whole a b m j e small =
    let (k, fits) = whole 131 m j small in
    nearest-whole (excess 131 (a + b)) (a + b) k
      (subst (λ x. x ≡ k * 2 ^ excess 131 x) (sym e) fits)

-- A multiple of a power of 2 added again and again, while the significand has 24 bits.
sum_loop-whole :
    (n m c j : ℕ) → m * n + c < 2 ^ 24 → sum_loop n (m * 2 ^ j) (c * 2 ^ j) ≡ (m * n + c) * 2 ^ j
unfolding sum_loop
sum_loop-whole zero m c j small = ap (λ x. x * 2 ^ j) {x = c} {y = m * 0 + c} (omega arith)
sum_loop-whole (suc n) m c j small =
    let next : c * 2 ^ j + m * 2 ^ j ≡ (m + c) * 2 ^ j =
      sym (add-mul c m (2 ^ j)) ∙ ap (λ x. x * 2 ^ j) (omega arith) in
    let added = add_float-whole (c * 2 ^ j) (m * 2 ^ j) (m + c) j next (omega arith) in
    ap (sum_loop n (m * 2 ^ j)) (added ∙ next)
    ∙ sum_loop-whole n m (m + c) j (omega arith)
    ∙ ap (λ x. x * 2 ^ j) (omega arith)

-- No critical section is open; one is, without a result so far; or with its one result.
pub data Section : Type 0 where
  closed entered spent : Section

module _ {A : Type 0} where
  -- The results, if each is printed in a critical section that has no other result, each section has
  -- one, and the sections do not nest.
  unfoldable pub guarded : Section → List (FpuAct A) → Option (List A)
  guarded closed [] = some []
  guarded entered [] = none
  guarded spent [] = none
  guarded closed (critical_enter ∷ acts) = guarded entered acts
  guarded entered (critical_enter ∷ acts) = none
  guarded spent (critical_enter ∷ acts) = none
  guarded closed (critical_exit ∷ acts) = none
  guarded entered (critical_exit ∷ acts) = none
  guarded spent (critical_exit ∷ acts) = guarded closed acts
  guarded closed (result0 text ∷ acts) = none
  guarded entered (result0 text ∷ acts) = Option.map (λ texts. text ∷ texts) (guarded spent acts)
  guarded spent (result0 text ∷ acts) = none
  guarded closed (result1 text ∷ acts) = none
  guarded entered (result1 text ∷ acts) = Option.map (λ texts. text ∷ texts) (guarded spent acts)
  guarded spent (result1 text ∷ acts) = none
  guarded s (_ ∷ acts) = guarded s acts

module _ {A : Type 0} (ftoa : ℕ → A) where
  -- One round of the loop of `test_thr`, and the first `n` rounds after its first line.
  unfoldable pub thr_round : List (FpuAct A)
  thr_round = critical_enter ∷ result0 (ftoa (sum_loop 1000000 tenth 0)) ∷ critical_exit ∷ []

  unfoldable pub thr_rounds : (n : ℕ) → List (FpuAct A)
  thr_rounds zero = []
  thr_rounds (suc n) = thr_round ++ thr_rounds n

  unfoldable pub test_thr : (n : ℕ) → List (FpuAct A)
  test_thr n = d_is (ftoa eighth) ∷ thr_rounds n

  unfoldable pub fpu_round : List (FpuAct A)
  fpu_round = critical_enter ∷ result1 (ftoa (sum_loop 1000000 one_half 0)) ∷ critical_exit ∷ []

  unfoldable pub fpu_rounds : (n : ℕ) → List (FpuAct A)
  fpu_rounds zero = []
  fpu_rounds (suc n) = fpu_round ++ fpu_rounds n

  -- `fpu_test` up to its first `n` rounds; `created` tells whether `mdx_thread_create` gave a thread.
  unfoldable pub fpu_test : (created : Bool) → (n : ℕ) → Run (List (FpuAct A))
  fpu_test created n =
      if created
      then ok (thread_create ∷ vfp_control ∷ pcb_flags_fpu ∷ sched_add ∷ fpu_rounds n)
      else undefined

  halves : sum_loop 1000000 one_half 0 ≡ 500000 * one_float
  halves = sum_loop-whole 1000000 1 0 26 (omega arith)

  guarded-fpu_rounds :
      (n : ℕ) → guarded closed (fpu_rounds n) ≡ some (replicate n (ftoa (500000 * one_float)))
  unfolding guarded fpu_rounds fpu_round
  guarded-fpu_rounds zero = refl
  guarded-fpu_rounds (suc n) = rw (halves, guarded-fpu_rounds n) refl

  -- If `mdx_thread_create` gives a thread, then any number of rounds of `fpu_test` print so many
  -- results, each in a critical section of its own, and each that of 500000.0: the million sums of
  -- the round are exact, and nothing is left of the round before.
  pub guarded-fpu_test :
      (n : ℕ)
      → Returns
          (λ acts. guarded closed acts ≡ some (replicate n (ftoa (500000 * one_float))))
          (fpu_test true n)
  unfolding fpu_test guarded
  guarded-fpu_test n = guarded-fpu_rounds n
