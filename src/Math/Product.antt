-- ===== src/Math/Product.antt =====
-- The `while (b)` loop of `decompose_64bit` in src/math.c: `c + a * b` modulo `pq` by doubling.
use mathlib.Core.Logic.{dite, dif_pos, dif_neg}
use mathlib.Core.WellFounded.{Acc}
use native.Mathlib.Bridge.{le_prop}
use native.Mathlib.Decide.{dec_lt}
use native.Mathlib.Nat.{mod-eq_of_lt, mod-eq-sub-mod, mod-add-div', add-mul-mod_self_right}
use nrf.Base.{
  ℕ, ◌+◌, ◌*◌, ◌/◌, ◌%◌, ◌^◌, ◌≤◌, ◌<◌, ◌≡◌, sym, ap, ◌∙◌, arith, leb, if◌then◌else◌, add64, sub64,
  lt_wf,
}
use nrf.Base.Bits.{has_bits, has_bits-pow}

-- `if (v >= pq) v -= pq;`
abbrev reduce : ℕ → ℕ → ℕ
reduce pq v = if leb pq v then sub64 v pq else v

product_acc : (pq a c b : ℕ) → Acc ◌<◌ b → ℕ
product_acc pq a c b (Acc.intro _ below) =
    dite (dec_lt 0 b)
      (λ h.
        product_acc pq (reduce pq (add64 a a)) (if has_bits b 1 then reduce pq (add64 c a) else c)
          (b / 2) (below (b / 2) (omega arith)))
      (λ _. c)

-- `a` and `b` start as `x`, and `c` as `q`.
unfoldable pub product : (pq q x : ℕ) → ℕ
unfolding product_acc lt_wf dec_lt
product pq q x = product_acc pq x q x (lt_wf.apply x)

-- A linear expression is the same modulo `m` when its terms are reduced first.
mod_add_mul : (u v h m : ℕ) → (u % m + v % m * h) % m ≡ (u + v * h) % m
mod_add_mul u v h m =
    sym (add-mul-mod_self_right (u % m + v % m * h) (u / m + v / m * h) m) ∙ ap (λ t. t % m) regroup
  where
    regroup : u % m + v % m * h + (u / m + v / m * h) * m ≡ u + v * h
    regroup = omega (arith, mod-add-div' u m, ap (λ (t : ℕ). t * h) (mod-add-div' v m))

-- The binary digits of `b` split the product.
double_step : (a b c : ℕ) → c + b % 2 * a + (a + a) * (b / 2) ≡ c + a * b
double_step a b c = omega (arith, ap (λ (t : ℕ). a * t) (mod-add-div' b 2))

module _ (pq : ℕ) (small : pq ≤ 2 ^ 63) where
  reduce_double : (u v : ℕ) → u < pq → v < pq → reduce pq (add64 u v) ≡ (u + v) % pq
  reduce_double u v hu hv = grind (arith, mod-eq_of_lt, mod-eq-sub-mod)

  digit_step :
      (a b c : ℕ)
      → a < pq
      → c < pq
      → (if has_bits b 1 then reduce pq (add64 c a) else c) ≡ (c + b % 2 * a) % pq
  digit_step a b c ha hc =
      ground (arith, has_bits-pow 0 b, reduce_double c a hc ha, mod-eq_of_lt hc)

  product_acc_lem :
      (a c b : ℕ) (w : Acc ◌<◌ b) → a < pq → c < pq → product_acc pq a c b w ≡ (c + a * b) % pq
  unfolding product_acc
  product_acc_lem a c b (Acc.intro _ below) ha hc = elim (dec_lt 0 b) [
    | no h ↦ rw (dif_neg (dec_lt 0 b) h) (
        let e : b ≡ 0 = omega arith in
        let stays : c + a * b ≡ c = omega (arith, ap (λ (t : ℕ). a * t) e) in
        rw (stays, mod-eq_of_lt hc))
    | yes h ↦
        rw (dif_pos (dec_lt 0 b) le_prop h, reduce_double a a ha ha, digit_step a b c ha hc)
          (product_acc_lem ((a + a) % pq) ((c + b % 2 * a) % pq) (b / 2)
              (below (b / 2) (omega arith)) (omega arith) (omega arith)
            ∙ mod_add_mul (c + b % 2 * a) (a + a) (b / 2) pq
            ∙ ap (λ t. t % pq) (double_step a b c))
  ]

  -- For a modulus up to `2 ^ 63` and two numbers below it the loop computes `q + x * x` modulo the
  -- modulus: no sum wraps.
  pub product_lem : (q x : ℕ) → q < pq → x < pq → product pq q x ≡ (q + x * x) % pq
  unfolding product
  product_lem q x hq hx = product_acc_lem x q x (lt_wf.apply x) hx hq
