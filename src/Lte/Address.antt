-- ===== src/Lte/Address.antt =====
-- `check_ipaddr` of src/main.c on any reply, by the fields between its commas.
use nrf.Base.{ℕ, ◌≡◌, refl, Bool, false, some, List, [], ◌∷◌, ◌++◌, not, ◌&&◌, arith, if◌then◌else◌}
use nrf.Base.Run.{Run, ok}
use nrf.Lte.Fields.{IsText}
use nrf.Lte.Cut.{fields, head?, tail, strsep-Ahead}
use nrf.Lte.Signal.{same, cgdcont_0, quoted_ip, quoted_empty, is_field, is_filled, check_ipaddr}

-- Four fields or more, and what they are.
abbrev pub has_address : List (List ℕ) → Bool
has_address (cid ∷ pdp ∷ apn ∷ ip ∷ _) =
    same cid cgdcont_0
    && (same pdp quoted_ip && (not (same apn quoted_empty) && not (same ip quoted_empty)))
has_address _ = false

-- What the fields decide, in the order of the tests.
abbrev decision : List (List ℕ) → Run ℕ
decision fs =
    if not (is_field cgdcont_0 (head? fs))
    then ok 0
    else if not (is_field quoted_ip (head? (tail fs)))
    then ok 0
    else if not (is_filled (head? (tail (tail fs))))
    then ok 0
    else if not (is_filled (head? (tail (tail (tail fs)))))
    then ok 0
    else ok 1

decided : (fs : List (List ℕ)) → decision fs ≡ ok (if has_address fs then 1 else 0)
decided [] = refl
decided (cid ∷ []) = ground arith
decided (cid ∷ (pdp ∷ [])) = ground arith
decided (cid ∷ (pdp ∷ (apn ∷ []))) = ground arith
decided (cid ∷ (pdp ∷ (apn ∷ (ip ∷ more)))) = ground arith

-- For a reply without a 0 in it, the result is 1 exactly if the reply has four fields or more between
-- its commas, the first is `+CGDCONT: 0`, the second is `IP` in quotes, and the third and the fourth
-- are not empty quotes; otherwise it is 0, and no reply makes it read beyond its end.
pub check_ipaddr-has_address :
    (s pad : List ℕ)
    → IsText s
    → check_ipaddr (s ++ 0 ∷ pad) ≡ ok (if has_address (fields s) then 1 else 0)
unfolding check_ipaddr
check_ipaddr-has_address s pad text =
    let (t0, e0, l0) = strsep-Ahead (some (s ++ 0 ∷ pad)) (fields s) (s, pad, refl, text, refl) in
    let (t1, e1, l1) = strsep-Ahead t0 (tail (fields s)) l0 in
    let (t2, e2, l2) = strsep-Ahead t1 (tail (tail (fields s))) l1 in
    let (t3, e3, l3) = strsep-Ahead t2 (tail (tail (tail (fields s)))) l2 in
    rw (e0, e1, e2, e3) (decided (fields s))
