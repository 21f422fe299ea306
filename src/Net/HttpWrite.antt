-- ===== src/Net/HttpWrite.antt =====
-- What the HTTP library writes through `httpc_write` of src/http.c, and what of it leaves the modem.
use nrf.Base.{
  ℕ, zero, suc, ◌+◌, ◌≤◌, ◌≡◌, ◌↔◌, refl, sym, ap, ap₂, ◌∙◌, List, [], ◌∷◌, ◌++◌, arith, length,
  length-append, take, length-take, take-length, if◌then◌else◌,
}
use nrf.Base.Int.{ℤ, pos, negsuc, is_zero}
use nrf.Net.Http.{httpc_write}

-- A call of `httpc_write`, with the result of its `nrf_send`.
pub data Write : Type 0 where
  put : (buf : List ℕ) (sent : ℤ) → Write

-- The bytes that leave: a send takes as many as it says, from the start.
unfoldable pub taken : List ℕ → ℤ → List ℕ
taken buf (pos n) = take n buf
taken buf (negsuc n) = []

unfoldable pub on_wire : List Write → List ℕ
on_wire [] = []
on_wire (put buf sent ∷ writes) = taken buf sent ++ on_wire writes

-- The bytes that the library is told have been written: those that `*length` counts after a call with
-- the result 0.
unfoldable pub credited : List ℕ → ℤ → List ℕ
credited buf sent =
    let (code, count) = httpc_write sent (length buf) in if is_zero code then take count buf else []

unfoldable pub acknowledged : List Write → List ℕ
acknowledged [] = []
acknowledged (put buf sent ∷ writes) = credited buf sent ++ acknowledged writes

-- No send takes more than it was given.
abbrev pub Fair : List Write → Type 0
Fair [] = Unit
Fair (put buf sent ∷ writes) = ((n : ℕ) → sent ≡ pos n → n ≤ length buf) × Fair writes

-- Each send that does not fail takes all.
abbrev pub Whole : List Write → Type 0
Whole [] = Unit
Whole (put buf sent ∷ writes) = ((n : ℕ) → sent ≡ pos n → n ≡ length buf) × Whole writes

credited-pos : (buf : List ℕ) (n : ℕ) → credited buf (pos n) ≡ buf
unfolding credited httpc_write
credited-pos buf zero = take-length buf
credited-pos buf (suc n) =
    let whole : httpc_write (pos (suc n)) (length buf) ≡ (pos 0, length buf) = ground arith in
    ap (λ ((code, count) : ℤ × ℕ). if is_zero code then take count buf else []) whole
    ∙ take-length buf

credited-negsuc : (buf : List ℕ) (n : ℕ) → credited buf (negsuc n) ≡ []
unfolding credited httpc_write
credited-negsuc buf n = refl

-- The lengths of both, for one write and the rest.
put-length :
    (buf : List ℕ) (n : ℕ) (writes : List Write)
    → n ≤ length buf
    → (length (on_wire (put buf (pos n) ∷ writes)) ≡ n + length (on_wire writes))
      × (length (acknowledged (put buf (pos n) ∷ writes))
          ≡ length buf + length (acknowledged writes))
unfolding on_wire acknowledged taken
put-length buf n writes fits = (
  length-append (take n buf) (on_wire writes)
      ∙ ap (λ m. m + length (on_wire writes)) (length-take n buf fits),
  length-append (credited buf (pos n)) (acknowledged writes)
      ∙ ap (λ xs. length xs + length (acknowledged writes)) (credited-pos buf n),
)

failed-same :
    (buf : List ℕ) (n : ℕ) (writes : List Write)
    → (on_wire (put buf (negsuc n) ∷ writes) ≡ on_wire writes)
      × (acknowledged (put buf (negsuc n) ∷ writes) ≡ acknowledged writes)
unfolding on_wire acknowledged taken
failed-same buf n writes = (refl, ap (λ xs. xs ++ acknowledged writes) (credited-negsuc buf n))

on_wire-shorter :
    (writes : List Write) → Fair writes → length (on_wire writes) ≤ length (acknowledged writes)
unfolding on_wire acknowledged
on_wire-shorter [] fair = omega arith
on_wire-shorter (put buf (pos n) ∷ writes) (fits, fair) =
    let fits' = fits n refl in
    omega (arith, put-length buf n writes fits', on_wire-shorter writes fair)
on_wire-shorter (put buf (negsuc n) ∷ writes) (fits, fair) =
    let (wire, told) = failed-same buf n writes in
    omega (arith, ap length wire, ap length told, on_wire-shorter writes fair)

same_length-Whole :
    (writes : List Write)
    → Fair writes
    → length (on_wire writes) ≡ length (acknowledged writes)
    → Whole writes
same_length-Whole [] fair e = tt
same_length-Whole (put buf (pos n) ∷ writes) (fits, fair) e =
    let (wire, told) = put-length buf n writes (fits n refl) in
    let le = fits n refl in
    let rest = on_wire-shorter writes fair in
    (
      λ m h. let same : n ≡ m = cc h in omega (arith, same, wire, told, e, le, rest),
      same_length-Whole writes fair (omega (arith, wire, told, e, le, rest)),
    )
same_length-Whole (put buf (negsuc n) ∷ writes) (fits, fair) e =
    let (wire, told) = failed-same buf n writes in
    (
      λ m h. absurd (cc h),
      same_length-Whole writes fair (sym (ap length wire) ∙ e ∙ ap length told),
    )

Whole-same : (writes : List Write) → Whole writes → on_wire writes ≡ acknowledged writes
unfolding on_wire acknowledged taken
Whole-same [] whole = refl
Whole-same (put buf (pos n) ∷ writes) (all, whole) =
    ap₂ (λ xs ys. xs ++ ys)
      (ap (λ m. take m buf) (all n refl) ∙ take-length buf ∙ sym (credited-pos buf n))
      (Whole-same writes whole)
Whole-same (put buf (negsuc n) ∷ writes) (all, whole) =
    Whole-same writes whole ∙ sym (ap (λ xs. xs ++ acknowledged writes) (credited-negsuc buf n))

-- Where no send takes more than it was given, the bytes that leave through `httpc_write` are never
-- more than those that the library is told have been written, and they are the same bytes exactly if
-- each send that does not fail takes all that it was given: a short send is not made up for.
pub on_wire-acknowledged :
    (writes : List Write)
    → Fair writes
    → (length (on_wire writes) ≤ length (acknowledged writes))
      × ((on_wire writes ≡ acknowledged writes) ↔ Whole writes)
on_wire-acknowledged writes fair = (
  on_wire-shorter writes fair,
  (λ e. same_length-Whole writes fair (ap length e), Whole-same writes),
)
