-- ===== src/Math/Examples.antt =====
-- Runs of src/math.c on small numbers, and the theorems about it at inputs.
use Prim.Native.Nat.{◌∣◌}
use nrf.Base.{ℕ, ◌+◌, ◌-◌, ◌*◌, ◌%◌, ◌^◌, ◌≤◌, ◌<◌, ◌≡◌, refl, ◌↔◌, bit_and, arith}
use nrf.Base.Int.{pos}
use nrf.Base.Run.{ok, undefined, Ends, Returns}
use nrf.Math.Gcd.{gcd, gcd_iff}
use nrf.Math.Random.{rand, load}
use nrf.Math.Product.{product, product_lem}
use nrf.Math.Decompose.{
  distance, walk, round, search_divisor, order_factors, decompose_64bit, math_test,
}
use nrf.Math.Search.{Factors, decompose_64bit-Ends, math_test-Ends}
use nrf.Math.Correct.{orbit_walk, round-orbit_walk}
use native.Mathlib.Nat.{dvd_of_mod-eq-zero}
use nrf.Math.Small.{decompose_64bit-draws}
use nrf.Math.Outcome.{round_divisor, decompose_64bit-Proper, decompose_64bit_two}

abbrev script : ℕ → ℕ
script k = 7 * k + 3

program : Unit {0}
unfolding gcd product distance walk round search_divisor order_factors decompose_64bit
program = tt

decompose_fifteen : decompose_64bit script 15 ≡ ok (3, 5)
unfolding program
decompose_fifteen = refl

decompose_one : decompose_64bit script 1 ≡ undefined
unfolding program
decompose_one = refl

common_divisor : (6 ∣ gcd 24 18) ↔ ((6 ∣ 24) × (6 ∣ 18))
common_divisor = gcd_iff 6 24 18

product_in_range : product 15 5 11 ≡ 6
product_in_range = product_lem 15 (omega arith) 5 11 (omega arith) (omega arith)

round-orbit_walk_example :
    round 15 0 20 100 0 0
    ≡ orbit_walk 15
        ((bit_and 20 15 + 17) % 15)
        (2 ^ (0 + 18) - 1)
        1
        0
        (100 % 14 + 1)
        (100 % 14 + 1)
        0
round-orbit_walk_example = round-orbit_walk 15 (omega arith) 0 20 100 0 0 (omega arith)

decompose_64bit-Ends_example : Ends (Factors 15) (decompose_64bit script 15)
decompose_64bit-Ends_example = decompose_64bit-Ends script 15

first_round : round_divisor script 15 0 ≡ 5
unfolding program
first_round = refl

decompose_64bit-Proper_example :
    Returns (λ (p, q0). (1 < p) × (p * q0 ≡ 15) × (p ≤ q0)) (decompose_64bit script 15)
unfolding program
decompose_64bit-Proper_example = decompose_64bit-Proper script 15 0 (omega arith) refl (omega arith)

self_test : Ends (λ r. r ≡ pos 0) (math_test script)
self_test = math_test-Ends script

two_is_undefined : decompose_64bit script 2 ≡ undefined
two_is_undefined = decompose_64bit_two script

bytes_loaded : rand (λ i. i) ≡ 0x0706050403020100
unfolding rand load
bytes_loaded = refl

-- 91 is 7 times 13.
decompose_64bit-draws_example :
    (rand : ℕ → ℕ) × ((k : ℕ) → rand k < 2 ^ 64)
    × Returns (λ (p, q0). (1 < p) × (p * q0 ≡ 91) × (p ≤ q0)) (decompose_64bit rand 91)
decompose_64bit-draws_example =
    decompose_64bit-draws 91 7 (omega arith) (omega arith) (dvd_of_mod-eq-zero 7 refl) (omega arith)
      (omega arith)
