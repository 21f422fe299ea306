-- ===== src/Math/Random.antt =====
-- `rand` of src/math.c.
use nrf.Base.{ℕ, zero, suc, ◌+◌, ◌*◌, ◌/◌, ◌%◌, ◌^◌, ◌<◌, ◌≡◌, arith}
use native.Mathlib.Nat.{pow-suc}

-- A number of `n` bytes in memory, the lowest first.
unfoldable pub load : (n : ℕ) (bytes : ℕ → ℕ) → ℕ
load zero bytes = 0
load (suc n) bytes = bytes 0 + 256 * load n (λ i. bytes (suc i))

-- `num` after `get_random_number`, whose result is not looked at: `out` has the bytes of `num`, which
-- are what they were before if the platform wrote none.
unfoldable pub rand : (out : ℕ → ℕ) → ℕ
rand out = load 8 out

-- The bytes of a number.
abbrev pub store : (n num : ℕ) → ℕ → ℕ
store zero num i = 0
store (suc n) num zero = num % 256
store (suc n) num (suc i) = store n (num / 256) i

load-store : (n num : ℕ) → num < 256 ^ n → load n (store n num) ≡ num
unfolding load
load-store zero num h = omega arith
load-store (suc n) num h =
    let small : num / 256 < 256 ^ n = omega (arith, pow-suc 256 n) in
    omega (arith, load-store n (num / 256) small)

load-bound : (n : ℕ) (bytes : ℕ → ℕ) → ((i : ℕ) → bytes i < 256) → load n bytes < 256 ^ n
unfolding load
load-bound zero bytes h = omega arith
load-bound (suc n) bytes h =
    omega (arith, h 0, pow-suc 256 n, load-bound n (λ i. bytes (suc i)) (λ i. h (suc i)))

-- Every 64-bit number can be drawn: `rand` returns it when the platform gives its bytes, and for any
-- bytes it returns a 64-bit number.
pub rand-store :
    (num : ℕ) (out : ℕ → ℕ)
    → num < 2 ^ 64
    → ((i : ℕ) → out i < 256)
    → (rand (store 8 num) ≡ num) × (rand out < 2 ^ 64)
unfolding rand
rand-store num out small bytes = (load-store 8 num small, load-bound 8 out bytes)
