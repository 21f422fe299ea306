-- ===== src/Math/Decompose.antt =====
-- `decompose_64bit` and `math_test` of src/math.c. `rand k` is what the call number `k` of the
-- static function `rand` returns: the bytes come from the platform's `get_random_number`.
use nrf.Base.{
  ℕ, zero, suc, ◌+◌, ◌-◌, ◌*◌, ◌/◌, ◌%◌, ◌^◌, Bool, ◌&&◌, bit_and, leb, ltb, ◌==◌, if◌then◌else◌,
  add64, sub64, u64,
}
use nrf.Base.Bits.{has_bits}
use nrf.Base.Int.{ℤ, pos, negsuc}
use nrf.Base.Run.{Run, ok, undefined, out_of_fuel, ◌>>=◌}
use nrf.Math.Gcd.{gcd}
use nrf.Math.Product.{product}

-- `z = x < y ? pq + x - y : x - y`
unfoldable pub distance : (pq x y : ℕ) → ℕ
distance pq x y = if ltb x y then sub64 (add64 pq x) y else sub64 x y

-- What the outer loop keeps between its rounds.
pub record Found : Type 0 where
  pub iter : ℕ
  pub g : ℕ

abbrev pub found : ℕ → ℕ → Found
found iter g = record { iter = iter; g = g }

-- The loop on `j` with `rounds` more rounds before `j` reaches `lim`.
unfoldable pub walk : (pq q rounds j iter x y g : ℕ) → Found
walk pq q zero j iter x y g = found iter g
walk pq q (suc rounds) j iter x y g =
    let x' = product pq q x in
    let g' = gcd (distance pq x' y) pq in
    let rest = walk pq q rounds (j + 1) (iter + 1) x' (if has_bits j (j - 1) then y else x') g' in
    if g' == 1 then rest else found (iter + 1) g'

-- One round of the loop on `i`, with the numbers that its two calls of `rand` returned.
unfoldable pub round : (pq i r0 r1 iter g : ℕ) → Found
round pq i r0 r1 iter g =
    let x = add64 (r1 % (pq - 1)) 1 in
    walk pq ((bit_and r0 15 + 17) % pq) (2 ^ (i + 18) - 1) 1 iter x x g

-- `g > 1 && g < pq`
abbrev pub is_proper : ℕ → ℕ → Bool
is_proper pq g = ltb 1 g && ltb g pq

module _ (rand : ℕ → ℕ) (pq : ℕ) where
  -- The loop on `i`. From `i = 13` on `1 << (i + 18)` is no `int`: undefined behaviour.
  unfoldable pub search_divisor : (fuel i iter g : ℕ) → Run ℕ
  search_divisor zero i iter g = out_of_fuel
  search_divisor (suc fuel) i iter g =
      let r = round pq i (rand (2 * i)) (rand (2 * i + 1)) iter g in
      let rest = search_divisor fuel (i + 1) r.iter r.g in
      if leb 3 i && leb 1000 iter
      then ok g
      else if leb 13 i
      then undefined
      else if is_proper pq r.g
      then ok r.g
      else rest

  -- The two factors, the smaller first. A division by zero is undefined.
  unfoldable pub order_factors : ℕ → Run (ℕ × ℕ)
  order_factors zero = undefined
  order_factors (suc g) =
      let q0 = pq / suc g in if ltb q0 (suc g) then ok (q0, suc g) else ok (suc g, q0)

  -- The whole function: `*p` and `*q0`. Below 2 a remainder by zero is taken in the first round.
  unfoldable pub decompose_64bit : Run (ℕ × ℕ)
  decompose_64bit =
      if ltb pq 2 then undefined else (do g ← search_divisor 14 0 0 0; order_factors g)

abbrev pub test_product : ℕ
test_product = 2341224282031054919

unfoldable pub math_test : (rand : ℕ → ℕ) → Run ℤ
math_test rand = decompose_64bit rand test_product >>= λ (p, q).
    if u64 (p * q) == test_product then ok (pos 0) else ok (negsuc 0)
