-- ===== src/Modem/Pool.antt =====
-- `nrf_modem_os_sem_init` and `nrf_modem_os_mutex_init`: handles from a static array.
use nrf.Base.{
  ℕ, zero, suc, ◌+◌, ◌≤◌, ◌<◌, ◌==◌, ◌≡◌, refl, ap, ◌∙◌, ◌≢◌, Bool-cases, ==_iff, ltb→lt, inl, inr,
  Option, none, some, List, [], ◌∷◌, arith, leb, ltb, u8, if◌then◌else◌,
}
use nrf.Modem.Kernel.{Ptr}

-- The array, as the value of each element, and the counter `sem_used` or `mutex_used`.
pub record Pool (A : Type 0) : Type 0 where
  pub used : ℕ
  pub cell : ℕ → A

abbrev pub write : {A : Type 0} → ℕ → A → Pool A → ℕ → A
write i v p j = if j == i then v else p.cell j

-- The loop `for (i = 0; i < MAX; i++)` with its `goto reinit`; `slot i` is the address of element `i`.
unfoldable pub find_slot : (slot : ℕ → Ptr) (rounds i : ℕ) → Ptr → Option ℕ
find_slot slot zero i arg = none
find_slot slot (suc rounds) i arg =
    let rest = find_slot slot rounds (i + 1) arg in if slot i == arg then some i else rest

-- `max` is the length of the array: the number that the modem library requires.
module _ {A : Type 0} (slot : ℕ → Ptr) (max : ℕ) where
  -- What the two functions have in common: `arg` is `*arg` before the call, the result has it after
  -- the call, and `initial` is the value that the element is given. `none` is the failed KASSERT.
  unfoldable pub os_init : (initial : A) → Ptr → Pool A → Option (Pool A × Ptr)
  os_init initial arg p = elim (find_slot slot max 0 arg) [
    | some i ↦ some (record p { cell = write i initial p }, arg)
    | none ↦
        if ltb p.used max
        then some (record p { used = u8 (p.used + 1); cell = write p.used initial p }, slot p.used)
        else none
  ]

  -- `n` first initialisations, each with an `*arg` that is `blank`: the handles in order.
  unfoldable pub init_many : (n : ℕ) (initial : A) (blank : Ptr) → Pool A → Option (List Ptr)
  init_many zero initial blank p = some []
  init_many (suc n) initial blank p = elim (os_init initial blank p) [
    | none ↦ none
    | some (p', h) ↦ elim (init_many n initial blank p') [ none ↦ none | some hs ↦ some (h ∷ hs) ]
  ]

-- The two functions: `sem_init` and `mutex_init` are the kernel's, and `limit` is not used.
unfoldable pub nrf_modem_os_sem_init :
    {Sem : Type 0} (sem_init : ℕ → Sem) (slot : ℕ → Ptr) (max : ℕ) (arg : Ptr)
    (initial_count limit : ℕ)
    → Pool Sem
    → Option (Pool Sem × Ptr)
nrf_modem_os_sem_init sem_init slot max arg initial_count limit p =
    os_init slot max (sem_init initial_count) arg p

unfoldable pub nrf_modem_os_mutex_init :
    {Mtx : Type 0} (mutex_init : Mtx) (slot : ℕ → Ptr) (max : ℕ) (arg : Ptr)
    → Pool Mtx
    → Option (Pool Mtx × Ptr)
nrf_modem_os_mutex_init mutex_init slot max arg p = os_init slot max mutex_init arg p

-- The addresses of the elements `i`, `i + 1`, and so on.
pub slots : (slot : ℕ → Ptr) (n i : ℕ) → List Ptr
slots slot zero i = []
slots slot (suc n) i = slot i ∷ slots slot n (i + 1)

module _ (slot : ℕ → Ptr) where
  find_slot-none :
      (rounds i : ℕ) (arg : Ptr) → ((j : ℕ) → slot j ≢ arg) → find_slot slot rounds i arg ≡ none
  unfolding find_slot
  find_slot-none zero i arg h = refl
  find_slot-none (suc rounds) i arg h = ground (arith, h i, find_slot-none rounds (i + 1) arg h)

  pub find_slot-some :
      ((i j : ℕ) → slot i ≡ slot j → i ≡ j)
      → (rounds i j : ℕ) → i ≤ j
      → j < i + rounds
      → find_slot slot rounds i (slot j) ≡ some j
  unfolding find_slot
  find_slot-some inj zero i j le lt = absurd (omega arith)
  find_slot-some inj (suc rounds) i j le lt = elim (Bool-cases (slot i == slot j)) [
    | inl e ↦ rw e (ap some (inj i j ((==_iff (slot i) (slot j)).0 e)))
    | inr e ↦
        let ne : i ≢ j = λ q. cc (e, (==_iff (slot i) (slot j)).1 (ap slot q)) in
        rw e (find_slot-some inj rounds (i + 1) j (omega arith) (omega arith))
  ]

  module _ {A : Type 0} (max : ℕ) (initial : A) (p : Pool A) where
    -- If the elements have different addresses, the handle of an element of the array is
    -- initialised again in place: the same handle comes back, its element has the new value, and
    -- neither the counter nor another element changes.
    pub os_init-again :
        (j : ℕ)
        → ((i j : ℕ) → slot i ≡ slot j → i ≡ j)
        → j < max
        → os_init slot max initial (slot j) p ≡ some (record p { cell = write j initial p }, slot j)
    unfolding os_init
    os_init-again j inj lt = rw (find_slot-some inj max 0 j (omega arith) (omega arith), os_init)

  module _ {A : Type 0} (max : ℕ) (initial : A) (blank : Ptr)
      (fresh : (j : ℕ) → slot j ≢ blank) where
    os_init-fresh :
        (p : Pool A)
        → max < 256
        → os_init slot max initial blank p ≡ (
            if ltb p.used max
            then some (record { used = p.used + 1; cell = write p.used initial p }, slot p.used)
            else none)
    unfolding os_init
    os_init-fresh p small =
        rw (find_slot-none max 0 blank fresh, os_init)
          (elim (Bool-cases (ltb p.used max)) [
            | inl e ↦
                let exact : u8 (p.used + 1) ≡ p.used + 1 = omega (arith, ltb→lt p.used max e) in
                rw (e, exact)
            | inr e ↦ rw e
          ])

    -- With an array of fewer than 256 elements, of which `p.used` are given out, and a blank handle
    -- that is no element's address, `n` first initialisations hand out the next `n` elements in
    -- order if there are so many, and otherwise one of them fails the assertion.
    pub init_many-slots :
        (n : ℕ) (p : Pool A)
        → max < 256
        → p.used ≤ max
        → init_many slot max n initial blank p
          ≡ (if leb (p.used + n) max then some (slots slot n p.used) else none)
    unfolding init_many slots
    init_many-slots zero p small le = ground arith
    init_many-slots (suc n) p small le = elim (Bool-cases (ltb p.used max)) [
      | inl e ↦
          let q : Pool A = record { used = p.used + 1; cell = write p.used initial p } in
          let got : os_init slot max initial blank p ≡ some (q, slot p.used) =
            os_init-fresh p small ∙ rw e in
          let shift : p.used + suc n ≡ p.used + 1 + n = omega arith in
          rw (got, init_many)
            (rw (init_many-slots n q small (omega (arith, ltb→lt p.used max e)), shift)
              (ground arith))
      | inr e ↦
          let got : os_init slot max initial blank p ≡ none = os_init-fresh p small ∙ rw e in
          rw (got, init_many) (ground arith)
    ]
