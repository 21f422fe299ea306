-- ===== src/Lte/Signal.antt =====
-- The parsers of src/main.c: `lte_signal_quality_decode` and `check_ipaddr`.
use mathlib.Core.List.{append_assoc}
use nrf.Base.{
  ltb, ◌^◌, ℕ, zero, suc, ◌+◌, ◌-◌, ◌/◌, ◌<◌, ◌≡◌, refl, ◌∙◌, Bool, Bool-cases, inl, inr, true,
  false, Option, none, some, List, [], ◌∷◌, ◌++◌, not, ◌&&◌, arith, leb, ◌==◌, if◌then◌else◌,
  length,
}
use nrf.Base.Int.{ℤ, pos, negsuc}
use nrf.Base.Run.{Run, ok, undefined, ◌>>=◌}
use nrf.Lte.Text.{
  strncpy, strncpy-ends, strsep, scan-comma, scan-end, atoi, decimal, Plain, Stops, atoi-decimal,
  decimal-Plain,
}

-- AT_RESPONSE_LEN
abbrev pub at_response_len : ℕ
at_response_len = 128

-- `n / 2`, `m - n` and `n + 1` on `int`.
abbrev pub half : ℤ → ℤ
half (pos n) = pos (n / 2)
half (negsuc zero) = pos 0
half (negsuc (suc n)) = negsuc (n / 2)

abbrev pub minus_int : ℕ → ℤ → ℤ
minus_int m (pos n) = if leb n m then pos (m - n) else negsuc (n - m - 1)
minus_int m (negsuc n) = pos (m + n + 1)

abbrev pub plus_one : ℤ → ℤ
plus_one (pos n) = pos (suc n)
plus_one (negsuc zero) = pos 0
plus_one (negsuc (suc n)) = negsuc n

-- A result that no `int` holds is undefined.
abbrev pub int_of : ℤ → Run ℤ
int_of (pos n) = if ltb n (2 ^ 31) then ok (pos n) else undefined
int_of (negsuc n) = if ltb n (2 ^ 31) then ok (negsuc n) else undefined

-- `140 - n + 1`
unfoldable pub rsrp_of : ℤ → Run ℤ
rsrp_of n = int_of (minus_int 140 n) >>= λ d. int_of (plus_one d)

-- The two numbers printed: what `rsrq` is assigned, before it becomes a `float`, and `rsrp`.
unfoldable pub lte_signal_quality_decode : List ℕ → Run (ℤ × ℤ)
lte_signal_quality_decode at_s = strsep (some (strncpy at_response_len at_s)) >>= λ rxlev.
    strsep rxlev.1 >>= λ ber. strsep ber.1 >>= λ rscp. strsep rscp.1 >>= λ echo.
    strsep echo.1 >>= λ rsrq. atoi rsrq.0 >>= λ q.
    strsep rsrq.1 >>= λ rsrp. atoi rsrp.0 >>= λ p. rsrp_of p >>= λ d. ok (minus_int 20 (half q), d)

-- `strcmp` with the result 0.
unfoldable pub same : List ℕ → List ℕ → Bool
same [] [] = true
same [] (d ∷ ds) = false
same (c ∷ cs) [] = false
same (c ∷ cs) (d ∷ ds) = (c == d) && same cs ds

-- "+CGDCONT: 0", "\"IP\"" and "\"\"".
abbrev pub cgdcont_0 : List ℕ
cgdcont_0 = 43 ∷ 67 ∷ 71 ∷ 68 ∷ 67 ∷ 79 ∷ 78 ∷ 84 ∷ 58 ∷ 32 ∷ 48 ∷ []

abbrev pub quoted_ip : List ℕ
quoted_ip = 34 ∷ 73 ∷ 80 ∷ 34 ∷ []

abbrev pub quoted_empty : List ℕ
quoted_empty = 34 ∷ 34 ∷ []

abbrev pub is_field : List ℕ → Option (List ℕ) → Bool
is_field s none = false
is_field s (some p) = same p s

abbrev pub is_filled : Option (List ℕ) → Bool
is_filled none = false
is_filled (some p) = not (same p quoted_empty)

-- `buf` is a string with its final 0.
unfoldable pub check_ipaddr : (buf : List ℕ) → Run ℕ
check_ipaddr buf = strsep (some buf) >>= λ cid.
    if not (is_field cgdcont_0 cid.0)
    then ok 0
    else (strsep cid.1 >>= λ pdp.
        if not (is_field quoted_ip pdp.0)
        then ok 0
        else (strsep pdp.1 >>= λ apn.
            if not (is_filled apn.0)
            then ok 0
            else (strsep apn.1 >>= λ ip. if not (is_filled ip.0) then ok 0 else ok 1)))

-- A reply with six fields, of which the last two are numbers; `tail` is what follows the last one.
abbrev pub reply : (f0 f1 f2 f3 : List ℕ) (q p : ℕ) (tail : List ℕ) → List ℕ
reply f0 f1 f2 f3 q p tail =
    f0
    ++ 44 ∷ (f1 ++ 44 ∷ (f2 ++ 44 ∷ (f3 ++ 44 ∷ ((decimal q ++ []) ++ 44 ∷ (decimal p ++ tail)))))

-- For a text of four fields without a comma or a 0 in them, the result is 1 exactly if the first is
-- `+CGDCONT: 0`, the second is `IP` in quotes, and the third and fourth are not empty quotes;
-- otherwise it is 0.
pub check_ipaddr-fields :
    (cid pdp apn ip : List ℕ)
    → Plain cid
    → Plain pdp
    → Plain apn
    → Plain ip
    → check_ipaddr (cid ++ 44 ∷ (pdp ++ 44 ∷ (apn ++ 44 ∷ (ip ++ 0 ∷ []))))
      ≡ ok (
          if same cid cgdcont_0
            && (same pdp quoted_ip && (not (same apn quoted_empty) && not (same ip quoted_empty)))
          then 1
          else 0)
unfolding check_ipaddr
check_ipaddr-fields cid pdp apn ip h0 h1 h2 h3 =
    rw
      (
        scan-comma cid (pdp ++ 44 ∷ (apn ++ 44 ∷ (ip ++ 0 ∷ []))) h0,
        scan-comma pdp (apn ++ 44 ∷ (ip ++ 0 ∷ [])) h1,
        scan-comma apn (ip ++ 0 ∷ []) h2,
        scan-end ip [] h3,
      )
      (ground arith)

-- The buffer with the copied reply.
ended :
    (f0 f1 f2 f3 : List ℕ) (q p : ℕ) (tail rest : List ℕ)
    → reply f0 f1 f2 f3 q p tail ++ rest
      ≡ f0
        ++ 44
          ∷ (f1
              ++ 44
                ∷ (f2
                    ++ 44 ∷ (f3 ++ 44 ∷ ((decimal q ++ []) ++ 44 ∷ ((decimal p ++ tail) ++ rest)))))
ended f0 f1 f2 f3 q p tail rest = simp append_assoc refl

below :
    (m : ℕ) → m < 1000 → (int_of (negsuc m) >>= λ d. int_of (plus_one d)) ≡ ok (plus_one (negsuc m))
below zero small = refl
below (suc m) small =
    let fits : (ltb m (2 ^ 31) ≡ true) × (ltb (suc m) (2 ^ 31) ≡ true) =
      (ground arith, ground arith) in
    rw (fits.1, fits.0) refl

rsrp_of-small : (p : ℕ) → p < 1000 → rsrp_of (pos p) ≡ ok (plus_one (minus_int 140 (pos p)))
unfolding rsrp_of
rsrp_of-small p small = elim (Bool-cases (leb p 140)) [
  | inl low ↦
      let fits : (ltb (140 - p) (2 ^ 31) ≡ true) × (ltb (suc (140 - p)) (2 ^ 31) ≡ true) =
        (ground arith, ground arith) in
      rw (low, fits.0, fits.1) refl
  | inr high ↦ rw high (below (p - 140 - 1) (omega arith))
]

-- A reply of fewer than 128 bytes has four fields of any text without a comma or a 0, two numbers
-- below 1000 after them, and then any text without a comma, a 0 or a digit at its start. For it 20
-- less half the first number, rounded down, and 141 less the second are printed.
pub lte_signal_quality_decode-reply :
    (f0 f1 f2 f3 : List ℕ) (q p : ℕ) (tail : List ℕ)
    → Plain f0
    → Plain f1
    → Plain f2
    → Plain f3
    → q < 1000
    → p < 1000
    → Plain tail
    → Stops tail
    → length (reply f0 f1 f2 f3 q p tail) < at_response_len
    → lte_signal_quality_decode (reply f0 f1 f2 f3 q p tail)
      ≡ ok (minus_int 20 (pos (q / 2)), plus_one (minus_int 140 (pos p)))
unfolding lte_signal_quality_decode Plain
lte_signal_quality_decode-reply f0 f1 f2 f3 q p tail h0 h1 h2 h3 hq hp ht stops room =
    let pad = strncpy (at_response_len - length (reply f0 f1 f2 f3 q p tail) - 1) [] in
    let r5 = (decimal p ++ tail) ++ 0 ∷ pad in
    let r4 = (decimal q ++ []) ++ 44 ∷ r5 in
    let r3 = f3 ++ 44 ∷ r4 in
    let r2 = f2 ++ 44 ∷ r3 in
    let r1 = f1 ++ 44 ∷ r2 in
    let copied : strncpy at_response_len (reply f0 f1 f2 f3 q p tail) ≡ f0 ++ 44 ∷ r1 =
      strncpy-ends at_response_len (reply f0 f1 f2 f3 q p tail) room
      ∙ ended f0 f1 f2 f3 q p tail (0 ∷ pad) in
    rw
      (
        copied,
        scan-comma f0 r1 h0,
        scan-comma f1 r2 h1,
        scan-comma f2 r3 h2,
        scan-comma f3 r4 h3,
        scan-comma (decimal q ++ []) r5 (decimal-Plain q [] hq tt),
        atoi-decimal q [] hq tt,
        scan-end (decimal p ++ tail) pad (decimal-Plain p tail hp ht),
        atoi-decimal p tail hp stops,
        rsrp_of-small p hp,
      )
      refl
