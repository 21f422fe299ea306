-- ===== src/Gps/Fpu/Bounds.antt =====
-- How far the sums of type `float` in src/gps.c are from exact ones.
use native.Mathlib.Nat.{mod-add-div, mod-lt, one-le-pow, pow-suc, pow-le-pow_right}
use nrf.Base.{
  ℕ, zero, suc, ◌+◌, ◌-◌, ◌*◌, ◌/◌, ◌%◌, ◌^◌, ◌≤◌, ◌<◌, ◌≡◌, refl, ap, ◌∙◌, subst, inl, inr,
  Bool-cases, some, ◌&&◌, ◌||◌, arith, ltb, ◌==◌, if◌then◌else◌, replicate,
}
use nrf.Gps.Fpu.{
  tenth, one_float, excess, nearest, add_float, sum_loop, closed, guarded, thr_round, thr_rounds,
  test_thr,
}

-- Two numbers at most `d / 2` apart.
abbrev Near : (d a b : ℕ) → Type 0
Near d a b = (2 * a ≤ 2 * b + d) × (2 * b ≤ 2 * a + d)

multiple :
    (q r p : ℕ)
    → r < p
    → Near p
        ((if ltb p (2 * r) || ((2 * r == p) && (q % 2 == 1)) then suc q else q) * p)
        (r + p * q)
multiple q r p lt = elim (Bool-cases (ltb p (2 * r) || ((2 * r == p) && (q % 2 == 1)))) [
  | inl up ↦ rw up (ground (arith, up), ground (arith, up))
  | inr down ↦ rw down (ground (arith, down), ground (arith, down))
]

nearest-Near : (e n : ℕ) → Near (2 ^ e) (nearest e n) n
unfolding nearest
nearest-Near e n =
    subst (Near (2 ^ e) (nearest e n)) (mod-add-div n (2 ^ e))
      (multiple (n / 2 ^ e) (n % 2 ^ e) (2 ^ e) (mod-lt n (one-le-pow e 2 (omega arith))))

excess-le : (fuel n j : ℕ) → n < 2 ^ (24 + j) → excess fuel n ≤ j
unfolding excess
excess-le zero n j lt = omega arith
excess-le (suc fuel) n zero lt = ground (arith, lt)
excess-le (suc fuel) n (suc j) lt =
    let double : 2 ^ (24 + suc j) ≡ 2 ^ (24 + j) * 2 =
      ap (λ x. 2 ^ x) {x = 24 + suc j} {y = suc (24 + j)} (omega arith) ∙ pow-suc 2 (24 + j) in
    let ih = excess-le fuel (n / 2) j (omega arith) in ground (arith, ih)

add_float-Near : (a b : ℕ) → a + b < 2 ^ 44 → Near (2 ^ 20) (add_float a b) (a + b)
unfolding add_float
add_float-Near a b lt =
    let ulp : 2 ^ excess 131 (a + b) ≤ 2 ^ 20 =
      pow-le-pow_right (omega arith) (excess-le 131 (a + b) 20 lt) in
    let (up, down) = nearest-Near (excess 131 (a + b)) (a + b) in (omega arith, omega arith)

sum_loop-tenth :
    (n k b : ℕ)
    → k + n ≤ 1000000
    → b ≤ k * (tenth + 2 ^ 19)
    → k * tenth ≤ b + k * 2 ^ 19
    → (sum_loop n tenth b ≤ (k + n) * (tenth + 2 ^ 19))
      × ((k + n) * tenth ≤ sum_loop n tenth b + (k + n) * 2 ^ 19)
unfolding sum_loop
sum_loop-tenth zero k b le up down = (omega arith, omega arith)
sum_loop-tenth (suc n) k b le up down =
    let (above, below) = add_float-Near b tenth (omega arith) in
    let shift : k + suc n ≡ k + 1 + n = omega arith in
    rw shift
      (sum_loop-tenth n (k + 1) (add_float b tenth) (omega arith) (omega arith) (omega arith))

-- The sum of each round of `test_thr`.
abbrev pub tenths : ℕ
tenths = sum_loop 1000000 tenth 0

module _ {A : Type 0} (ftoa : ℕ → A) where
  guarded-thr_rounds :
      (n : ℕ) → guarded closed (thr_rounds ftoa n) ≡ some (replicate n (ftoa tenths))
  unfolding guarded thr_rounds thr_round
  guarded-thr_rounds zero = refl
  guarded-thr_rounds (suc n) = rw (guarded-thr_rounds n) refl

  -- Any number of rounds of `test_thr` print so many results, each in a critical section of its own,
  -- and each that of the same number, which is less than 3907 away from 100000.
  pub guarded-test_thr :
      (n : ℕ)
      → (b : ℕ) × (guarded closed (test_thr ftoa n) ≡ some (replicate n (ftoa b)))
        × (b < (100000 + 3907) * one_float)
        × ((100000 - 3907) * one_float < b)
  unfolding test_thr guarded
  guarded-test_thr n =
      let (up, down) = sum_loop-tenth 1000000 0 0 (omega arith) (omega arith) (omega arith) in
      (tenths, guarded-thr_rounds n, omega arith, omega arith)
