-- ===== src/Math/Search.antt =====
-- The outer loop of `decompose_64bit` in src/math.c: its end, and what it returns.
use Prim.Native.Nat.{◌∣◌}
use native.Mathlib.Nat.{pow-suc, one-le-pow, mul-div_cancel', mul_comm}
use nrf.Base.{
  ℕ, zero, suc, ◌+◌, ◌-◌, ◌*◌, ◌/◌, ◌^◌, ◌≤◌, ◌<◌, ◌≡◌, ◌⊎◌, inl, inr, Bool, true, false, arith,
  if◌then◌else◌, ltb, ◌==◌, Bool-cases,
}
use nrf.Base.Int.{pos}
use nrf.Base.Run.{Ends, Ends-bind}
use nrf.Math.Gcd.{gcd-dvd_right}
use nrf.Math.Decompose.{
  Found, walk, round, search_divisor, order_factors, decompose_64bit, math_test, test_product,
}

module _ (pq : ℕ) where
  if-dvd : (b : Bool) (u v : Found) → u.g ∣ pq → v.g ∣ pq → (if b then u else v).g ∣ pq
  if-dvd true u v h k = h
  if-dvd false u v h k = k

  -- A divisor of `pq` stays one along a walk.
  walk-dvd : (q n j iter x y g : ℕ) → g ∣ pq → (walk pq q n j iter x y g).g ∣ pq
  unfolding walk
  walk-dvd q zero j iter x y g d = d
  walk-dvd q (suc n) j iter x y g d =
      let d' = gcd-dvd_right _ pq in
      if-dvd (_ == 1) _ _ (walk-dvd q n (j + 1) (iter + 1) _ _ _ d') d'

  walk-dvd_pos : (q n j iter x y g : ℕ) → 0 < n → (walk pq q n j iter x y g).g ∣ pq
  unfolding walk
  walk-dvd_pos q zero j iter x y g h = absurd (omega arith)
  walk-dvd_pos q (suc n) j iter x y g h =
      let d' = gcd-dvd_right _ pq in
      if-dvd (_ == 1) _ _ (walk-dvd q n (j + 1) (iter + 1) _ _ _ d') d'

  pub lim_pos : (i : ℕ) → 0 < 2 ^ (i + 18) - 1
  lim_pos i =
      let e : i + 18 ≡ suc (i + 17) = omega arith in
      rw e (omega (arith, pow-suc 2 (i + 17), one-le-pow (i + 17) 2))

  pub round-dvd : (i r0 r1 iter g : ℕ) → (round pq i r0 r1 iter g).g ∣ pq
  unfolding round
  round-dvd i r0 r1 iter g = walk-dvd_pos _ _ 1 iter _ _ g (lim_pos i)

  -- Fourteen rounds of fuel reach `i = 13`.
  search_divisor-Ends :
      (rand : ℕ → ℕ) (fuel i iter g : ℕ)
      → 14 ≤ i + fuel
      → i ≤ 13
      → (g ∣ pq) ⊎ (i < 3)
      → Ends (λ d. d ∣ pq) (search_divisor rand pq fuel i iter g)
  unfolding search_divisor
  search_divisor-Ends rand zero i iter g enough le d = absurd (omega arith)
  search_divisor-Ends rand (suc fuel) i iter g enough le d =
      let r = round pq i (rand (2 * i)) (rand (2 * i + 1)) iter g in
      let d' : r.g ∣ pq = round-dvd i (rand (2 * i)) (rand (2 * i + 1)) iter g in
      ground (arith, d', search_divisor-Ends rand fuel (i + 1) r.iter r.g)

-- Two factors of `pq`, the smaller first.
abbrev pub Factors : ℕ → ℕ × ℕ → Type 0
Factors pq (p, q0) = (p * q0 ≡ pq) × (p ≤ q0)

module _ (rand : ℕ → ℕ) (pq : ℕ) where
  order_factors-Factors : (g : ℕ) → 0 < pq → g ∣ pq → Ends (Factors pq) (order_factors rand pq g)
  unfolding order_factors
  order_factors-Factors zero h d = tt
  order_factors-Factors (suc g) h d =
      ground (arith, mul-div_cancel' (suc g) d, mul_comm (suc g) (pq / suc g))

  -- For every number and every sequence of random numbers `decompose_64bit` ends, and unless it ran
  -- into undefined behaviour it has stored two factors of the number, the smaller in `*p`.
  pub decompose_64bit-Ends : Ends (Factors pq) (decompose_64bit rand pq)
  unfolding decompose_64bit
  decompose_64bit-Ends = elim (Bool-cases (ltb pq 2)) [
    | inl e ↦ rw e tt
    | inr e ↦ rw e (
        Ends-bind (λ d. d ∣ pq) (Factors pq) (order_factors rand pq)
          (search_divisor rand pq 14 0 0 0) (λ g. order_factors-Factors g (ground arith))
          (search_divisor-Ends pq rand 14 0 0 0 (omega arith) (omega arith) (inr (omega arith))))
  ]

-- The self test never fails: for every sequence of random numbers it ends with 0 or in undefined
-- behaviour.
pub math_test-Ends : (rand : ℕ → ℕ) → Ends (λ r. r ≡ pos 0) (math_test rand)
unfolding math_test
math_test-Ends rand =
    Ends-bind (Factors test_product) (λ r. r ≡ pos 0) _ (decompose_64bit rand test_product)
      (λ (p, q) (e, le). rw e) (decompose_64bit-Ends rand test_product)
