-- ===== src/Math/Outcome.antt =====
-- `decompose_64bit` of src/math.c where a round finds a proper factor, and at 2, where none does.
use Prim.Native.Nat.{◌∣◌}
use native.Mathlib.Nat.{mul-div_cancel', mul_comm, pow-suc, one-le-pow}
use nrf.Base.{
  ℕ, zero, suc, ◌+◌, ◌-◌, ◌*◌, ◌/◌, ◌%◌, ◌^◌, ◌≤◌, ◌<◌, ◌≡◌, refl, ap, ◌∙◌, true, false, arith,
  add64, bit_and, ltb, if◌then◌else◌,
}
use nrf.Base.Run.{undefined, Returns, Returns-bind}
use nrf.Math.Decompose.{
  distance, is_proper, walk, round, search_divisor, order_factors, decompose_64bit,
}
use nrf.Base.Bits.{has_bits}
use nrf.Math.Gcd.{gcd}
use nrf.Math.Product.{product}
use nrf.Math.Search.{round-dvd, lim_pos}

-- The divisor that the round `i` finds by itself.
abbrev pub round_divisor : (rand : ℕ → ℕ) (pq i : ℕ) → ℕ
round_divisor rand pq i = (round pq i (rand (2 * i)) (rand (2 * i + 1)) 0 0).g

-- What a walk finds does not depend on the counter, nor on the divisor found before it.
walk-iter :
    (pq q n j iter iter' x y g : ℕ) → (walk pq q n j iter x y g).g ≡ (walk pq q n j iter' x y g).g
unfolding walk
walk-iter pq q zero j iter iter' x y g = refl
walk-iter pq q (suc n) j iter iter' x y g =
    let x' = product pq q x in
    let y' = if has_bits j (j - 1) then y else x' in
    let g1 = gcd (distance pq x' y) pq in
    ground (arith, walk-iter pq q n (j + 1) (iter + 1) (iter' + 1) x' y' g1)

walk-iter-g :
    (pq q n j iter iter' x y g g' : ℕ)
    → 0 < n
    → (walk pq q n j iter x y g).g ≡ (walk pq q n j iter' x y g').g
unfolding walk
walk-iter-g pq q zero j iter iter' x y g g' h = absurd (omega arith)
walk-iter-g pq q (suc n) j iter iter' x y g g' h =
    let x' = product pq q x in
    let y' = if has_bits j (j - 1) then y else x' in
    let g1 = gcd (distance pq x' y) pq in
    ground (arith, walk-iter pq q n (j + 1) (iter + 1) (iter' + 1) x' y' g1)

round-g :
    (pq i r0 r1 iter iter' g g' : ℕ) → (round pq i r0 r1 iter g).g ≡ (round pq i r0 r1 iter' g').g
unfolding round
round-g pq i r0 r1 iter iter' g g' = walk-iter-g pq _ _ 1 iter iter' _ _ g g' (lim_pos pq i)

-- A factor strictly between 1 and `pq`.
abbrev pub Proper : (pq d : ℕ) → Type 0
Proper pq d = (1 < d) × (d < pq) × (d ∣ pq)

module _ (rand : ℕ → ℕ) (pq k : ℕ) (early : k < 3)
    (hit : is_proper pq (round_divisor rand pq k) ≡ true) where
  search_divisor-Proper :
      (fuel i iter g : ℕ)
      → 14 ≤ i + fuel
      → i ≤ k
      → Returns (Proper pq) (search_divisor rand pq fuel i iter g)
  unfolding search_divisor
  search_divisor-Proper zero i iter g enough le = absurd (omega arith)
  search_divisor-Proper (suc fuel) i iter g enough le =
      let r = round pq i (rand (2 * i)) (rand (2 * i + 1)) iter g in
      let d : r.g ∣ pq = round-dvd pq i (rand (2 * i)) (rand (2 * i + 1)) iter g in
      let same : r.g ≡ round_divisor rand pq i =
        round-g pq i (rand (2 * i)) (rand (2 * i + 1)) iter 0 g 0 in
      let last : i ≡ k → r.g ≡ round_divisor rand pq k = λ e. same ∙ ap (round_divisor rand pq) e in
      ground (arith, d, last, search_divisor-Proper fuel (i + 1) r.iter r.g)

  -- Both factors of a split at a proper divisor are proper.
  order_factors-Proper :
      (d : ℕ)
      → Proper pq d
      → Returns (λ (p, q0). (1 < p) × (p * q0 ≡ pq) × (p ≤ q0)) (order_factors rand pq d)
  unfolding order_factors
  order_factors-Proper zero h = absurd (omega arith)
  order_factors-Proper (suc g) (gt, lt, d) =
      grind (arith, mul-div_cancel' (suc g) d, mul_comm (suc g) (pq / suc g))

  -- If one of the first three rounds on a number from 2 on by itself finds a proper divisor,
  -- `decompose_64bit` returns, and what it stores is a proper factorisation, the smaller factor
  -- first.
  pub decompose_64bit-Proper :
      2 ≤ pq → Returns (λ (p, q0). (1 < p) × (p * q0 ≡ pq) × (p ≤ q0)) (decompose_64bit rand pq)
  unfolding decompose_64bit
  decompose_64bit-Proper h =
      let e : ltb pq 2 ≡ false = ground arith in
      rw e (
        Returns-bind (Proper pq) _ (order_factors rand pq) (search_divisor rand pq 14 0 0 0)
          order_factors-Proper (search_divisor-Proper 14 0 0 0 (omega arith) (omega arith)))

lim_large : (i : ℕ) → 8 ≤ 2 ^ (i + 18)
lim_large i =
    let e : i + 18 ≡ suc (suc (suc (i + 15))) = omega arith in
    let high = one-le-pow (i + 15) 2 in
    rw e (
      omega
        (arith, pow-suc 2 (suc (suc (i + 15))), pow-suc 2 (suc (i + 15)), pow-suc 2 (i + 15), high))

-- At 2 each round meets the whole number within four steps.
module _ (m iter g : ℕ) where
  walk_two :
      (q : ℕ)
      → q < 2
      → ((walk 2 q (suc (suc (suc (suc m)))) 1 iter 1 1 g).g ≡ 2)
        × ((walk 2 q (suc (suc (suc (suc m)))) 1 iter 1 1 g).iter ≤ iter + 4)
  unfolding walk product gcd distance
  walk_two zero h = (refl, omega arith)
  walk_two (suc zero) h = (refl, omega arith)
  walk_two (suc (suc q)) h = absurd (omega arith)

round_two :
    (i r0 r1 iter g : ℕ)
    → ((round 2 i r0 r1 iter g).g ≡ 2) × ((round 2 i r0 r1 iter g).iter ≤ iter + 4)
unfolding round
round_two i r0 r1 iter g =
    rw (rounds, start) (walk_two (2 ^ (i + 18) - 5) iter g ((bit_and r0 15 + 17) % 2) (omega arith))
  where
    rounds : 2 ^ (i + 18) - 1 ≡ suc (suc (suc (suc (2 ^ (i + 18) - 5))))
    rounds = omega (arith, lim_large i)

    start : add64 (r1 % 1) 1 ≡ 1
    start = omega arith

search_divisor_two :
    (rand : ℕ → ℕ) (fuel i iter g : ℕ)
    → i + fuel ≡ 14
    → iter ≤ 4 * i
    → i ≤ 13
    → search_divisor rand 2 fuel i iter g ≡ undefined
unfolding search_divisor
search_divisor_two rand zero i iter g e h le = absurd (omega arith)
search_divisor_two rand (suc fuel) i iter g e h le =
    let r0 = rand (2 * i) in
    let r1 = rand (2 * i + 1) in
    let r = round 2 i r0 r1 iter g in
    ground (arith, round_two i r0 r1 iter g, search_divisor_two rand fuel (i + 1) r.iter r.g)

-- Whatever `rand` returns, `decompose_64bit` runs into undefined behaviour when it is given 2.
pub decompose_64bit_two : (rand : ℕ → ℕ) → decompose_64bit rand 2 ≡ undefined
unfolding decompose_64bit
decompose_64bit_two rand = rw (search_divisor_two rand 14 0 0 0 refl (omega arith) (omega arith))
