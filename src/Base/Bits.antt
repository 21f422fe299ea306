-- ===== src/Base/Bits.antt =====
-- One bit of a word.
use Prim.Native.Nat.{ℕ, zero, suc, ◌*◌, ◌/◌, ◌%◌, ◌^◌, ◌≤◌, min, bit_and, bit_and-bitwise, digits}
use mathlib.Core.Path.{◌≡◌, refl, sym, ap, ◌∙◌}
use mathlib.Core.Bool.{Bool, not}
use native.Mathlib.Nat.{pow-suc, one-le-pow, zero-div, div-div-eq-div-mul}
use native.Mathlib.Omega.{arith}
use nrf.Base.Tests.{◌==◌}

-- `w & mask`, as a condition.
abbrev pub has_bits : ℕ → ℕ → Bool
has_bits w mask = not (bit_and w mask == 0)

-- The conjunction, digit by digit: with the mask 0, and with one bit.
abbrev and_digits : ℕ → ℕ → ℕ → ℕ
and_digits n a b = digits (λ x. zero) min n a b

and_digits-zero : (n a : ℕ) → and_digits n a 0 ≡ 0
and_digits-zero zero a = refl
and_digits-zero (suc n) zero = refl
and_digits-zero (suc n) (suc a) = omega (arith, and_digits-zero n (suc a / 2))

and_digits-pow : (n i a : ℕ) → a ≤ n → and_digits n a (2 ^ i) ≡ a / 2 ^ i % 2 * 2 ^ i
and_digits-pow zero i zero h = rw (zero-div (2 ^ i)) (omega arith)
and_digits-pow zero i (suc a) h = absurd (omega arith)
and_digits-pow (suc n) i zero h = rw (zero-div (2 ^ i)) (omega arith)
and_digits-pow (suc n) zero (suc a) h = omega (arith, and_digits-zero n (suc a / 2))
and_digits-pow (suc n) (suc i) (suc a) h =
    rw (halves, even, shift)
      (omega (
        arith,
        and_digits-pow n i (suc a / 2) (omega arith),
        ap (λ (t : ℕ). suc a / 2 / 2 ^ i % 2 * t) twice,
      ))
  where
    twice : 2 ^ suc i ≡ 2 * 2 ^ i
    twice = omega (arith, pow-suc 2 i)

    halves : 2 ^ suc i / 2 ≡ 2 ^ i
    halves = omega (arith, pow-suc 2 i)

    shift : suc a / 2 ^ suc i ≡ suc a / 2 / 2 ^ i
    shift = ap (λ (t : ℕ). suc a / t) twice ∙ sym (div-div-eq-div-mul (suc a) 2 (2 ^ i))

    even : 2 ^ suc i % 2 ≡ 0
    even = omega (arith, pow-suc 2 i)

-- `w & (1 << i)` is the digit of `w` at `i`, in its place.
pub bit_and-pow : (i w : ℕ) → bit_and w (2 ^ i) ≡ w / 2 ^ i % 2 * 2 ^ i
bit_and-pow i w = bit_and-bitwise w (2 ^ i) ∙ and_digits-pow w i w (omega arith)

-- The same as a condition.
pub has_bits-pow : (i w : ℕ) → has_bits w (2 ^ i) ≡ (w / 2 ^ i % 2 == 1)
has_bits-pow i w = ground (arith, bit_and-pow i w, one-le-pow i 2)
