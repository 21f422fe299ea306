-- ===== src/Modem/System/Lists.antt =====
-- Membership, removal and links under the operations of the kernel's list.
use nrf.Base.{
  ◌==◌, ◌≡◌, refl, true, ◌&&◌, ◌||◌, not, false, List, [], ◌∷◌, ◌++◌, arith, Bool-cases, inl, inr,
}
use nrf.Modem.Kernel.{Ptr, has, Distinct, erase, Chain}

pub has-append_one : (a n : Ptr) (xs : List Ptr) → has a (xs ++ n ∷ []) ≡ (has a xs || (a == n))
has-append_one a n [] = ground arith
has-append_one a n (x ∷ xs) = ground (arith, has-append_one a n xs)

pub Distinct-append_one :
    (n : Ptr) (xs : List Ptr) → Distinct xs → has n xs ≡ false → Distinct (xs ++ n ∷ [])
Distinct-append_one n [] d h = (refl, tt)
Distinct-append_one n (x ∷ xs) (new, d) h =
    (ground (arith, has-append_one x n xs), Distinct-append_one n xs d (ground arith))

pub has-erase :
    (a n : Ptr) (xs : List Ptr) → Distinct xs → has a (erase n xs) ≡ (has a xs && not (a == n))
has-erase a n [] d = refl
has-erase a n (x ∷ xs) (new, d) = ground (arith, has-erase a n xs d)

pub Distinct-erase : (n : Ptr) (xs : List Ptr) → Distinct xs → Distinct (erase n xs)
Distinct-erase n [] d = tt
Distinct-erase n (x ∷ xs) (new, d) = elim (Bool-cases (n == x)) [
  | inl e ↦ rw e d
  | inr e ↦ rw e (ground (arith, has-erase x n xs d), Distinct-erase n xs d)
]

pub has-append : (a : Ptr) (xs ys : List Ptr) → has a (xs ++ ys) ≡ (has a xs || has a ys)
has-append a [] ys = refl
has-append a (x ∷ xs) ys = ground (arith, has-append a xs ys)

pub erase-append_left :
    (n : Ptr) (xs ys : List Ptr) → has n xs ≡ true → erase n (xs ++ ys) ≡ erase n xs ++ ys
erase-append_left n [] ys h = absurd (cc h)
erase-append_left n (x ∷ xs) ys h = ground (arith, erase-append_left n xs ys)

pub erase-append_right :
    (n : Ptr) (xs ys : List Ptr) → has n xs ≡ false → erase n (xs ++ ys) ≡ xs ++ erase n ys
erase-append_right n [] ys h = refl
erase-append_right n (x ∷ xs) ys h = ground (arith, erase-append_right n xs ys)

-- The links from an entry in the middle on.
pub Chain-append :
    (next : Ptr → Ptr) (head p a : Ptr) (xs ys : List Ptr)
    → Chain next head p (xs ++ a ∷ ys)
    → Chain next head a ys
Chain-append next head p a [] ys (e, ne, c) = c
Chain-append next head p a (x ∷ xs) ys (e, ne, c) = Chain-append next head x a xs ys c

pub has-of-erase : (a n : Ptr) (xs : List Ptr) → has a (erase n xs) ≡ true → has a xs ≡ true
has-of-erase a n [] h = h
has-of-erase a n (x ∷ xs) h = ground (arith, has-of-erase a n xs)
