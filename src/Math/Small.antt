-- ===== src/Math/Small.antt =====
-- Numbers with a small divisor, which `decompose_64bit` of src/math.c can split in its first step.
use Prim.Native.Nat.{◌∣◌}
use native.Mathlib.Nat.{
  mod-eq_of_lt, mod-eq-sub-mod, dvd_refl, dvd-mul_right, le_of_dvd, pos_of_dvd_of_pos,
}
use nrf.Base.{
  ℕ, zero, suc, ◌+◌, ◌-◌, ◌*◌, ◌/◌, ◌%◌, ◌^◌, ◌≤◌, ◌<◌, ◌≡◌, refl, ap, ◌∙◌, Bool, true, false,
  arith, bit_and, ◌==◌, ==_iff, ◌&&◌, ◌||◌, ltb, leb, if◌then◌else◌,
}
use nrf.Base.Run.{Returns}
use nrf.Math.Gcd.{gcd, gcd_iff}
use nrf.Math.Decompose.{Found, is_proper, round, decompose_64bit}
use nrf.Math.Correct.{orbit_walk, round-orbit_walk}
use nrf.Math.Outcome.{round_divisor, decompose_64bit-Proper}

mod-eq-sub-mod_one : (pq q : ℕ) → q < pq → (pq + (q + 1) - 1) % pq ≡ q
mod-eq-sub-mod_one pq q lt = grind (arith, mod-eq_of_lt, mod-eq-sub-mod)

-- The low four bits of a number below 16, checked for each.
all_below : ℕ → (ℕ → Bool) → Bool
all_below zero p = true
all_below (suc n) p = p n && all_below n p

all_below_lem : (n : ℕ) (p : ℕ → Bool) (x : ℕ) → all_below n p ≡ true → x < n → p x ≡ true
unfolding all_below
all_below_lem zero p x h lt = absurd (omega arith)
all_below_lem (suc n) p x h lt = ground (arith, all_below_lem n p x)

low_bits : (r : ℕ) → r < 16 → bit_and r 15 ≡ r
unfolding all_below
low_bits r lt = (==_iff (bit_and r 15) r).0 (all_below_lem 16 (λ x. bit_and x 15 == x) r refl lt)

-- From 1 the first step leads to `q + 1`, whose distance to 1 is `q`.
orbit_walk_first :
    (pq q n iter g : ℕ)
    → 0 < n
    → q + 1 < pq
    → (gcd q pq == 1) ≡ false
    → (orbit_walk pq q n 1 iter 1 1 g).g ≡ gcd q pq
unfolding orbit_walk
orbit_walk_first pq q zero iter g pos lt h = absurd (omega arith)
orbit_walk_first pq q (suc n) iter g pos lt h =
    let next : (q + 1 * 1) % pq ≡ q + 1 = mod-eq_of_lt (omega arith) ∙ omega arith in
    let apart : (pq + (q + 1) - 1) % pq ≡ q = mod-eq-sub-mod_one pq q (omega arith) in
    rw (next, apart, h) refl

-- A divisor `d` of at most 32 has a multiple from 17 to 32.
abbrev multiple : ℕ → ℕ
multiple d = d * (32 / d)

multiple_range : (d : ℕ) → 2 ≤ d → d ≤ 32 → (17 ≤ multiple d) × (multiple d ≤ 32)
unfolding all_below
multiple_range d low high =
    let checked =
      all_below_lem 33 (λ x. ltb x 2 || (leb 17 (multiple x) && leb (multiple x) 32)) d refl
        (omega arith) in
    (ground arith, ground arith)

-- Numbers that `rand` may return.
abbrev pub draws : ℕ → ℕ → ℕ
draws d k = if k == 0 then multiple d - 17 else 0

module _ (pq d : ℕ) (low : 2 ≤ d) (high : d ≤ 32) (dvd : d ∣ pq) (big : 34 ≤ pq)
    (small : pq ≤ 2 ^ 63) where
  gcd_proper : (1 < gcd (multiple d) pq) × (gcd (multiple d) pq < pq)
  gcd_proper =
      let (from, to) = multiple_range d low high in
      let common : d ∣ gcd (multiple d) pq =
        (gcd_iff d (multiple d) pq).1 (dvd-mul_right d (32 / d), dvd) in
      let of_q : gcd (multiple d) pq ∣ multiple d =
        ((gcd_iff (gcd (multiple d) pq) (multiple d) pq).0 (dvd_refl (gcd (multiple d) pq))).0 in
      let above = le_of_dvd {n = multiple d} (omega arith) of_q in
      let positive : 0 < gcd (multiple d) pq = pos_of_dvd_of_pos of_q (omega arith) in
      let at_least = le_of_dvd {m = d} positive common in (omega arith, omega arith)

  -- The first round finds the divisor.
  round_divisor-draws : is_proper pq (round_divisor (draws d) pq 0) ≡ true
  round_divisor-draws =
      let (from, to) = multiple_range d low high in
      let (above, below) = gcd_proper in
      let increment : (bit_and (multiple d - 17) 15 + 17) % pq ≡ multiple d =
        ap (λ r. (r + 17) % pq) (low_bits (multiple d - 17) (omega arith))
        ∙ ap (λ r. r % pq) (omega arith)
        ∙ mod-eq_of_lt (omega arith) in
      let start : 0 % (pq - 1) + 1 ≡ 1 = ap (λ r. r + 1) (mod-eq_of_lt (omega arith)) in
      let other : (gcd (multiple d) pq == 1) ≡ false = ground arith in
      let first : (round pq 0 (multiple d - 17) 0 0 0).g ≡ gcd (multiple d) pq =
        ap (λ (f : Found). f.g) (round-orbit_walk pq small 0 (multiple d - 17) 0 0 0 (omega arith))
        ∙ (rw (increment, start)
            (orbit_walk_first pq (multiple d) (2 ^ 18 - 1) 0 0 (omega arith) (omega arith)
              other)) in
      rw first (ground arith)

  -- A number from 34 to `2 ^ 63` with a divisor from 2 to 32 can be split: there are 64-bit numbers,
  -- with which, as the results of `rand`, `decompose_64bit` returns and stores a proper factorisation,
  -- the smaller factor first.
  pub decompose_64bit-draws :
      (rand : ℕ → ℕ) × ((k : ℕ) → rand k < 2 ^ 64)
      × Returns (λ (p, q0). (1 < p) × (p * q0 ≡ pq) × (p ≤ q0)) (decompose_64bit rand pq)
  decompose_64bit-draws = (
    draws d,
    (λ k. ground (arith, multiple_range d low high)),
    decompose_64bit-Proper (draws d) pq 0 (omega arith) round_divisor-draws (omega arith),
  )
