-- ===== src/Modem/Exclusion/Pooled.antt =====
-- Threads that share the mutexes of `nrf_modem_os_mutexes` in src/nrf_modem.c: the handles come from
-- `nrf_modem_os_mutex_init`, and each mutex is locked and unlocked as in Modem/Exclusion.antt.
use nrf.Base.{
  ℕ, zero, suc, ◌+◌, ◌≤◌, ◌<◌, ◌==◌, ==_iff, ◌≡◌, ◌≢◌, refl, sym, subst, ap, ◌∙◌, Bool, Bool-cases,
  true, false, inl, inr, ◌⊎◌, Option, none, some, arith, ltb, ltb→lt, u8, if◌then◌else◌,
}
use nrf.Modem.Kernel.{Ptr}
use nrf.Modem.Pool.{Pool, write, find_slot, os_init, nrf_modem_os_mutex_init}
use nrf.Modem.Exclusion.{Mutexes, Shared, Turn, Exclusive, Turn-Exclusive}

module _ (k : Mutexes) (slot : ℕ → Ptr) (max : ℕ) where
  -- The array with its counter, and which threads were told that they have which element and have
  -- not unlocked it since.
  pub record Guarded : Type 0 where
    pub pool : Pool k.Mtx
    pub has : ℕ → ℕ → Bool

  abbrev pub seen : Guarded → ℕ → Shared k
  seen g j = record { mtx = g.pool.cell j; holds = λ i. g.has i j }

  abbrev pub put : Guarded → ℕ → Shared k → Guarded
  put g j s = record {
    pool = record g.pool { cell = write j s.mtx g.pool };
    has = λ i j'. if j' == j then s.holds i else g.has i j';
  }

  -- An initialisation, which no thread makes through the handle of a mutex that one has, and a turn
  -- at a mutex that has been handed out.
  pub data Deed (g : Guarded) : Guarded → Type 0 where
    inits :
        (arg : Ptr) {h : Ptr} {p : Pool k.Mtx}
        → ((j : ℕ) → slot j ≡ arg → (i : ℕ) → g.has i j ≡ false)
        → nrf_modem_os_mutex_init k.mutex_init slot max arg g.pool ≡ some (p, h)
        → Deed g (record g { pool = p })
    turns : (j : ℕ) {s : Shared k} → j < g.pool.used → Turn k true (seen g j) s → Deed g (put g j s)

  pub data Deeds : Guarded → Type 0 where
    begins :
        (cell : ℕ → k.Mtx)
        → Deeds (record { pool = record { used = 0; cell = cell }; has = λ i j. false })
    goes_on : {g g' : Guarded} → Deeds g → Deed g g' → Deeds g'

  record IsSound (g : Guarded) : Type 0 where
    above : (i j : ℕ) → g.pool.used ≤ j → g.has i j ≡ false
    below : (j : ℕ) → j < g.pool.used → Exclusive k (seen g j)

  -- A mutex that no thread has can be given its first value.
  reset-Exclusive :
      (b : Bool) (m : k.Mtx) (holds : ℕ → Bool)
      → (b ≡ true → (i : ℕ) → holds i ≡ false)
      → (b ≡ false → Exclusive k (record { mtx = m; holds = holds }))
      → Exclusive k (record { mtx = if b then k.mutex_init else m; holds = holds })
  reset-Exclusive false m holds idle old = old refl
  reset-Exclusive true m holds idle old = record {
    one = λ i j x y. absurd (cc (x, idle refl i));
    none_free = λ i free. idle refl i;
    held = λ now. absurd (cc (now, k.is_locked-init));
  }

  put-Exclusive :
      (b : Bool) (s old : Shared k)
      → Exclusive k s
      → (b ≡ false → Exclusive k old)
      → Exclusive k (record {
        mtx = if b then s.mtx else old.mtx;
        holds = λ i. if b then s.holds i else old.holds i;
      })
  put-Exclusive false s old e e' = e' refl
  put-Exclusive true s old e e' = e

  find_slot-found :
      (rounds i : ℕ) (arg : Ptr) (j : ℕ) → find_slot slot rounds i arg ≡ some j → slot j ≡ arg
  unfolding find_slot
  find_slot-found zero i arg j e = absurd (cc e)
  find_slot-found (suc rounds) i arg j e = elim (Bool-cases (slot i == arg)) [
    | inl same ↦
        let got : some i ≡ some j =
          ap (λ b. if b then some i else find_slot slot rounds (i + 1) arg) (sym same) ∙ e in
        ap slot (sym (cc got)) ∙ (==_iff (slot i) arg).0 same
    | inr other ↦
        let got : find_slot slot rounds (i + 1) arg ≡ some j =
          ap (λ b. if b then some i else find_slot slot rounds (i + 1) arg) (sym other) ∙ e in
        find_slot-found rounds (i + 1) arg j got
  ]

  -- An initialisation gives one element its first value: one whose handle was given, or the next.
  record Given (arg : Ptr) (p q : Pool k.Mtx) : Type 0 where
    at : ℕ
    cell_at : q.cell ≡ write at k.mutex_init p
    which : ((slot at ≡ arg) × (q.used ≡ p.used)) ⊎ ((at ≡ p.used) × (q.used ≡ p.used + 1))

  found-Given :
      (found : Option ℕ) (arg h : Ptr) (p q : Pool k.Mtx)
      → max < 256
      → find_slot slot max 0 arg ≡ found
      → nrf_modem_os_mutex_init k.mutex_init slot max arg p ≡ some (q, h)
      → Given arg p q
  unfolding nrf_modem_os_mutex_init os_init
  found-Given (some j) arg h p q small found e =
      let got : os_init slot max k.mutex_init arg p
          ≡ some (record p { cell = write j k.mutex_init p }, arg) =
        rw (found, os_init) refl in
      let same : record p { cell = write j k.mutex_init p } ≡ q = cc (got, e) in
      record {
        at = j;
        cell_at = sym (ap (λ r. r.cell) same);
        which = inl (find_slot-found max 0 arg j found, sym (ap (λ r. r.used) same));
      }
  found-Given none arg h p q small found e = elim (Bool-cases (ltb p.used max)) [
    | inl room ↦
        let next : Pool k.Mtx = record {
          used = u8 (p.used + 1);
          cell = write p.used k.mutex_init p;
        } in
        let got : os_init slot max k.mutex_init arg p ≡ some (next, slot p.used) =
          rw (found, os_init) (rw room refl) in
        let same : next ≡ q = cc (got, e) in
        let exact : u8 (p.used + 1) ≡ p.used + 1 = omega (arith, ltb→lt p.used max room) in
        record {
          at = p.used;
          cell_at = sym (ap (λ r. r.cell) same);
          which = inr (refl, sym (ap (λ r. r.used) same) ∙ exact);
        }
    | inr full ↦
        let got : os_init slot max k.mutex_init arg p ≡ none = rw (found, os_init) (rw full refl) in
        absurd (cc (got, e))
  ]

  Given-IsSound :
      (g : Guarded) (arg : Ptr) (q : Pool k.Mtx)
      → ((j : ℕ) → slot j ≡ arg → (i : ℕ) → g.has i j ≡ false)
      → Given arg g.pool q
      → IsSound g
      → IsSound (record g { pool = q })
  Given-IsSound g arg q idle given sound =
      let nobody : (i : ℕ) → g.has i given.at ≡ false = λ i. elim given.which [
        | inl again ↦ idle given.at again.0 i
        | inr next ↦ sound.above i given.at (omega (arith, next.0))
      ] in
      let grown : g.pool.used ≤ q.used = elim given.which [
        | inl again ↦ omega (arith, again.1)
        | inr next ↦ omega (arith, next.1)
      ] in
      let older : (j : ℕ) → j < q.used → (j == given.at) ≡ false → j < g.pool.used = λ j lt other.
        elim given.which [
          | inl again ↦ omega (arith, again.1)
          | inr next ↦
              let apart : j ≢ given.at = λ e. cc (other, (==_iff j given.at).1 e) in
              omega (arith, next.0, next.1, apart)
        ] in
      record {
        above = λ i j le. sound.above i j (omega arith);
        below = λ j lt.
            subst (λ cell. Exclusive k (record { mtx = cell j; holds = λ i. g.has i j }))
              (sym given.cell_at)
              (reset-Exclusive (j == given.at) (g.pool.cell j) (λ i. g.has i j)
                (λ e i. ap (g.has i) ((==_iff j given.at).0 e) ∙ nobody i)
                (λ other. sound.below j (older j lt other)));
      }

  Deed-IsSound : max < 256 → {g g' : Guarded} → Deed g g' → IsSound g → IsSound g'
  Deed-IsSound small {g} (inits arg {h} {p} idle e) sound =
      Given-IsSound g arg p idle
        (found-Given (find_slot slot max 0 arg) arg h g.pool p small refl e) sound
  Deed-IsSound small {g} (turns j {s} lt turn) sound = record {
    above = λ i j' le.
        let other : (j' == j) ≡ false = ground (arith, lt, le) in
        ap (λ b. if b then s.holds i else g.has i j') other ∙ sound.above i j' le;
    below = λ j' lt'.
        put-Exclusive (j' == j) s (seen g j') (Turn-Exclusive k turn (sound.below j lt))
          (λ e. sound.below j' lt');
  }

  Deeds-IsSound : max < 256 → {g : Guarded} → Deeds g → IsSound g
  Deeds-IsSound small (begins cell) = record {
    above = λ i j le. refl;
    below = λ j lt. absurd (omega (arith, lt));
  }
  Deeds-IsSound small (goes_on deeds deed) = Deed-IsSound small deed (Deeds-IsSound small deeds)

  -- The array has fewer than 256 mutexes and none is handed out yet. Threads initialise mutexes, fresh
  -- ones or, through its handle, one that no thread has; lock and unlock those that are handed out;
  -- each unlocks one only when it has been told that it has it; and no timed lock's time is over
  -- before the mutex is free. Then, of every mutex handed out, at most one thread has been told that it
  -- has it, none while it is free, and one while it is locked; and no thread has any other.
  pub Deeds-Exclusive :
      max < 256
      → (g : Guarded) → Deeds g
      → ((j : ℕ) → j < g.pool.used → Exclusive k (seen g j))
        × ((i j : ℕ) → g.pool.used ≤ j → g.has i j ≡ false)
  Deeds-Exclusive small g deeds =
      let sound = Deeds-IsSound small deeds in (sound.below, sound.above)
