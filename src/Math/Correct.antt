-- ===== src/Math/Correct.antt =====
-- The machine arithmetic of `decompose_64bit` in src/math.c beside a walk over exact numbers, as
-- Pollard's rho has it.
use native.Mathlib.Nat.{mod-eq_of_lt, mod-eq-sub-mod, mod-lt}
use nrf.Base.{
  ℕ, zero, suc, ◌+◌, ◌-◌, ◌*◌, ◌%◌, ◌^◌, ◌≤◌, ◌<◌, ◌≡◌, refl, Bool, true, false, arith, bit_and,
  ◌==◌, if◌then◌else◌, add64,
}
use nrf.Base.Bits.{has_bits}
use nrf.Math.Gcd.{gcd}
use nrf.Math.Product.{product_lem}
use nrf.Math.Decompose.{Found, found, distance, walk, round}

-- The walk over exact numbers: `x` runs through the orbit of `x * x + q` modulo `pq`, and `g` is
-- the greatest common divisor of `pq` and the distance to `y`, which is moved at powers of two.
unfoldable pub orbit_walk : (pq q rounds j iter x y g : ℕ) → Found
orbit_walk pq q zero j iter x y g = found iter g
orbit_walk pq q (suc rounds) j iter x y g =
    let x' = (q + x * x) % pq in
    let g' = gcd ((pq + x' - y) % pq) pq in
    let y' = if has_bits j (j - 1) then y else x' in
    let rest = orbit_walk pq q rounds (j + 1) (iter + 1) x' y' g' in
    if g' == 1 then rest else found (iter + 1) g'

module _ (pq : ℕ) (small : pq ≤ 2 ^ 63) where
  distance_lem : (x y : ℕ) → x < pq → y < pq → distance pq x y ≡ (pq + x - y) % pq
  unfolding distance
  distance_lem x y hx hy = grind (arith, mod-eq_of_lt, mod-eq-sub-mod)

  if-lt : {u v : ℕ} (b : Bool) → u < pq → v < pq → (if b then u else v) < pq
  if-lt true h k = h
  if-lt false h k = k

  walk-orbit_walk :
      (q n j iter x y g : ℕ)
      → q < pq
      → x < pq
      → y < pq
      → walk pq q n j iter x y g ≡ orbit_walk pq q n j iter x y g
  unfolding walk orbit_walk
  walk-orbit_walk q zero j iter x y g hq hx hy = refl
  walk-orbit_walk q (suc n) j iter x y g hq hx hy =
      let hx' : (q + x * x) % pq < pq = omega arith in
      rw (product_lem pq small q x hq hx, distance_lem ((q + x * x) % pq) y hx' hy)
        (rw (
          walk-orbit_walk q n (j + 1) (iter + 1) ((q + x * x) % pq)
            (if has_bits j (j - 1) then y else (q + x * x) % pq) _ hq hx' (if-lt _ hy hx')))

  -- A round of `decompose_64bit` on a number from 2 to `2 ^ 63` is the walk over exact numbers that
  -- starts at `r1 % (pq - 1) + 1`, for all numbers that its two calls of `rand` may return.
  pub round-orbit_walk :
      (i r0 r1 iter g : ℕ)
      → 2 ≤ pq
      → round pq i r0 r1 iter g
        ≡ orbit_walk pq
            ((bit_and r0 15 + 17) % pq)
            (2 ^ (i + 18) - 1)
            1
            iter
            (r1 % (pq - 1) + 1)
            (r1 % (pq - 1) + 1)
            g
  unfolding round
  round-orbit_walk i r0 r1 iter g h =
      let start : add64 (r1 % (pq - 1)) 1 ≡ r1 % (pq - 1) + 1 =
        omega (arith, mod-lt r1 {m = pq - 1}) in
      let lt : r1 % (pq - 1) + 1 < pq = omega (arith, mod-lt r1 {m = pq - 1}) in
      rw start (walk-orbit_walk _ _ 1 iter _ _ g (omega arith) lt lt)
