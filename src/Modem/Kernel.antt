-- ===== src/Modem/Kernel.antt =====
-- What src/nrf_modem.c relies on in the kernel: semaphores, and the intrusive lists behind
-- `list_init`, `list_empty`, `list_append` and `list_remove`. An address is a number.
use nrf.Base.{ℕ, suc, ◌≡◌, ◌≢◌, ◌==◌, ◌||◌, Bool, true, false, List, [], ◌∷◌, ◌++◌, if◌then◌else◌}

abbrev pub Ptr : Type 0
Ptr = ℕ

abbrev pub has : Ptr → List Ptr → Bool
has a [] = false
has a (x ∷ xs) = (a == x) || has a xs

abbrev pub Distinct : List Ptr → Type 0
Distinct [] = Unit
Distinct (x ∷ xs) = (has x xs ≡ false) × Distinct xs

abbrev pub erase : Ptr → List Ptr → List Ptr
erase a [] = []
erase a (x ∷ xs) = if a == x then xs else x ∷ erase a xs

abbrev pub is_nil : List Ptr → Bool
is_nil [] = true
is_nil (x ∷ xs) = false

-- From `p` the links `next` lead through `xs` back to `head`.
abbrev pub Chain : (next : Ptr → Ptr) (head p : Ptr) → List Ptr → Type 0
Chain next head p [] = next p ≡ head
Chain next head p (x ∷ xs) = (next p ≡ x) × (x ≢ head) × Chain next head x xs

-- `Links` is the memory of the list entries, with the entry `head` for the list itself, and `nodes`
-- the entries that the list holds, in order.
pub record Kernel : Type 1 where
  pub Sem : Type 0
  pub sem_init : ℕ → Sem
  pub sem_post : Sem → Sem
  pub count : Sem → ℕ
  pub count-sem_init : (n : ℕ) → count (sem_init n) ≡ n
  pub count-sem_post : (s : Sem) → count (sem_post s) ≡ suc (count s)
  pub Links : Type 0
  pub head : Ptr
  pub nodes : Links → List Ptr
  pub next : Links → Ptr → Ptr
  pub list_init : Links
  pub list_empty : Links → Bool
  pub list_append : Links → Ptr → Links
  pub list_remove : Links → Ptr → Links
  pub nodes-init : nodes list_init ≡ []
  pub list_empty_lem : (l : Links) → list_empty l ≡ is_nil (nodes l)
  pub nodes-append :
      (l : Links) (n : Ptr)
      → has n (nodes l) ≡ false
      → n ≢ head
      → nodes (list_append l n) ≡ nodes l ++ n ∷ []
  pub nodes-remove :
      (l : Links) (n : Ptr) → has n (nodes l) ≡ true → nodes (list_remove l n) ≡ erase n (nodes l)
  pub chain :
      (l : Links)
      → Distinct (nodes l)
      → has head (nodes l) ≡ false
      → Chain (next l) head head (nodes l)
