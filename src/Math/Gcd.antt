-- ===== src/Math/Gcd.antt =====
-- `gcd` of src/math.c: recursion on the second argument, which falls at each call.
use Prim.Native.Nat.{◌∣◌}
use mathlib.Core.Logic.{dite, dif_pos, dif_neg}
use mathlib.Core.WellFounded.{Acc}
use native.Mathlib.Bridge.{le_prop}
use native.Mathlib.Decide.{dec_lt}
use native.Mathlib.Nat.{dvd_refl, dvd-zero, dvd-mod_iff}
use nrf.Base.{ℕ, ◌%◌, ◌<◌, ◌≡◌, ◌↔◌, arith, lt_wf}

euclid : (b : ℕ) (w : Acc ◌<◌ b) (a : ℕ) → ℕ
euclid b (Acc.intro _ below) a =
    let last : ℕ = a in
    dite (dec_lt 0 b) (λ h. euclid (a % b) (below (a % b) (omega arith)) b) (λ h. last)

unfoldable pub gcd : ℕ → ℕ → ℕ
unfolding euclid lt_wf dec_lt
gcd a b = euclid b (lt_wf.apply b) a

euclid_iff : (d a b : ℕ) (w : Acc ◌<◌ b) → (d ∣ euclid b w a) ↔ ((d ∣ a) × (d ∣ b))
unfolding euclid
euclid_iff d a b (Acc.intro _ below) = elim (dec_lt 0 b) [
  | yes h ↦ rw (dif_pos (dec_lt 0 b) le_prop h) (
      let ih = euclid_iff d b (a % b) (below (a % b) (omega arith)) in
      (
        λ p. let (x, y) = ih.0 p in ((dvd-mod_iff d x).0 y, x),
        λ (x, y). ih.1 (y, (dvd-mod_iff d y).1 x),
      ))
  | no h ↦
      rw (dif_neg (dec_lt 0 b) h)
        (let e : b ≡ 0 = omega arith in rw e ((λ p. (p, dvd-zero d)), λ (x, y). x))
]

-- The result of `gcd` is the greatest common divisor: its divisors are the common divisors of the
-- two arguments.
pub gcd_iff : (d a b : ℕ) → (d ∣ gcd a b) ↔ ((d ∣ a) × (d ∣ b))
unfolding gcd
gcd_iff d a b = euclid_iff d a b (lt_wf.apply b)

pub gcd-dvd_right : (a b : ℕ) → gcd a b ∣ b
gcd-dvd_right a b = ((gcd_iff (gcd a b) a b).0 (dvd_refl (gcd a b))).1
