-- ===== src/Modem/Handles.antt =====
-- The semaphores of src/nrf_modem.c behind their handles: `nrf_modem_os_sem_init`,
-- `nrf_modem_os_sem_give` and `nrf_modem_os_sem_take` in any order, beside counters with no array, no
-- addresses and no kernel.
use nrf.Base.{
  ℕ, zero, suc, ◌+◌, ◌<◌, ◌==◌, ◌≡◌, refl, sym, ap, ap₂, Bool-cases, inl, inr, ◌≤◌, ◌*◌, ◌∙◌, none,
  some, List, [], ◌∷◌, arith, if◌then◌else◌,
}
use nrf.Base.Int.{ℤ, pos, negsuc}
use nrf.Base.Run.{Run, ok, undefined, out_of_fuel, ◌>>=◌}
use nrf.Modem.Kernel.{Ptr}
use nrf.Modem.Timedwait.{Code, success, again}
use nrf.Modem.Pool.{Pool, write, find_slot, find_slot-some, os_init-again, nrf_modem_os_sem_init}
use nrf.Modem.Service.{milliseconds, take_timeout, nrf_modem_os_sem_take}
use nrf.Modem.Semaphore.{Semaphores, nrf_modem_os_sem_give}

pub data Call : Type 0 where
  make : (initial limit : ℕ) → Call
  give : Call
  take : (timeout : ℤ) → Call

-- What a call does to the counter of its semaphore, with its result. Without a permit a take whose
-- timeout is 0 or -1 waits forever, and `out_of_fuel` says so.
unfoldable pub count_call : Call → ℕ → Run (ℕ × Code)
count_call (make initial limit) n = ok (initial, success)
count_call give n = ok (suc n, success)
count_call (take t) (suc n) = ok (n, success)
count_call (take (pos zero)) zero = out_of_fuel
count_call (take (pos (suc m))) zero = ok (zero, again)
count_call (take (negsuc m)) zero = out_of_fuel

-- Calls one after the other, each with the number of its semaphore: only that one's counter changes.
unfoldable pub count_calls : List (ℕ × Call) → (ℕ → ℕ) → Run ((ℕ → ℕ) × List Code)
count_calls [] t = ok (t, [])
count_calls ((j, call) ∷ calls) t = count_call call (t j) >>= λ r.
    count_calls calls (λ i. if i == j then r.0 else t i) >>= λ rest. ok (rest.0, r.1 ∷ rest.1)

-- Both runs return, with related values, or neither does.
abbrev pub Matches : {A B : Type 0} → (A → B → Type 0) → Run A → Run B → Type 0
Matches P (ok a) (ok b) = P a b
Matches P out_of_fuel out_of_fuel = Unit
Matches P _ _ = ⊥

Matches-bind :
    {A B C D : Type 0} (P : A → B → Type 0) (Q : C → D → Type 0) (x : Run A) (y : Run B)
    (f : A → Run C) (g : B → Run D)
    → Matches P x y
    → ((a : A) (b : B) → P a b → Matches Q (f a) (g b))
    → Matches Q (x >>= f) (y >>= g)
Matches-bind P Q (ok a) (ok b) f g h next = next a b h
Matches-bind P Q (ok a) undefined f g h next = absurd h
Matches-bind P Q (ok a) out_of_fuel f g h next = absurd h
Matches-bind P Q undefined y f g h next = absurd h
Matches-bind P Q out_of_fuel (ok b) f g h next = absurd h
Matches-bind P Q out_of_fuel undefined f g h next = absurd h
Matches-bind P Q out_of_fuel out_of_fuel f g h next = tt

Matches-map :
    {A B C : Type 0} (P : A → B → Type 0) (Q : C → B → Type 0) (x : Run A) (y : Run B) (f : A → C)
    → Matches P x y
    → ((a : A) (b : B) → P a b → Q (f a) b)
    → Matches Q (x >>= λ a. ok (f a)) y
Matches-map P Q (ok a) (ok b) f h next = next a b h
Matches-map P Q (ok a) undefined f h next = absurd h
Matches-map P Q (ok a) out_of_fuel f h next = absurd h
Matches-map P Q undefined y f h next = absurd h
Matches-map P Q out_of_fuel (ok b) f h next = absurd h
Matches-map P Q out_of_fuel undefined f h next = absurd h
Matches-map P Q out_of_fuel out_of_fuel f h next = tt

-- The timeouts of the modem library, with no overflow in microseconds: -1, 0, and milliseconds.
abbrev pub IsTimeout : ℤ → Type 0
IsTimeout (pos n) = n ≤ 2147483
IsTimeout (negsuc zero) = Unit
IsTimeout (negsuc (suc n)) = ⊥

module _ (k : Semaphores) (slot : ℕ → Ptr) (max : ℕ) where
  open k use {Sem, count, sem_init, sem_post, timedwait}

  -- A handle is followed to its element; one that is none's is undefined.
  unfoldable pub element : Ptr → Run ℕ
  element arg = elim (find_slot slot max 0 arg) [ none ↦ undefined | some j ↦ ok j ]

  unfoldable pub serve_call : Ptr → Call → Pool Sem → Run (Pool Sem × Code)
  serve_call arg (make initial limit) p =
      elim (nrf_modem_os_sem_init sem_init slot max arg initial limit p) [
        | none ↦ undefined
        | some (p', arg') ↦ ok (p', success)
      ]
  serve_call arg give p = element arg >>= λ j.
      ok (record p { cell = write j (nrf_modem_os_sem_give k (p.cell j)) p }, success)
  serve_call arg (take t) p = element arg >>= λ j.
      nrf_modem_os_sem_take timedwait (p.cell j) t >>= λ r.
      ok (record p { cell = write j r.0 p }, r.1)

  unfoldable pub serve_calls : List (ℕ × Call) → Pool Sem → Run (Pool Sem × List Code)
  serve_calls [] p = ok (p, [])
  serve_calls ((j, call) ∷ calls) p = serve_call (slot j) call p >>= λ r.
      serve_calls calls r.0 >>= λ rest. ok (rest.0, r.1 ∷ rest.1)

  abbrev pub counters : Pool Sem → ℕ → ℕ
  counters p j = count (p.cell j)

  -- The handle of an element, and a timeout.
  abbrev pub IsValid : ℕ → Call → Type 0
  IsValid j (take t) = (j < max) × IsTimeout t
  IsValid j _ = j < max

  abbrev pub AllValid : List (ℕ × Call) → Type 0
  AllValid [] = Unit
  AllValid ((j, call) ∷ calls) = IsValid j call × AllValid calls

  take_timeout-pos : (n : ℕ) → n ≤ 2147483 → take_timeout (pos n) ≡ ok (pos (n * 1000))
  unfolding take_timeout milliseconds
  take_timeout-pos n le = ground arith

  -- One take.
  sem_take-Matches :
      (s : Sem) (t : ℤ) (n : ℕ)
      → IsTimeout t
      → count s ≡ n
      → Matches
          (λ r b. (count r.0 ≡ b.0) × (r.1 ≡ b.1))
          (nrf_modem_os_sem_take timedwait s t)
          (count_call (take t) n)
  unfolding nrf_modem_os_sem_take take_timeout count_call
  sem_take-Matches s (pos zero) zero fit e = rw (take_timeout-pos 0 fit, k.timedwait-forever s e) tt
  sem_take-Matches s (pos (suc m)) zero fit e =
      let (r, over, left, late) = k.timedwait-over s (m * 1000 + 999) e in
      let same : suc m * 1000 ≡ suc (m * 1000 + 999) = omega arith in
      let long = take_timeout-pos (suc m) fit ∙ ap (λ x. ok (pos x)) same in
      rw (long, over, late) (left, refl)
  sem_take-Matches s (pos m) (suc n) fit e =
      let (r, waited, left, got) = k.timedwait-permit s (pos (m * 1000)) n e in
      rw (take_timeout-pos m fit, waited, got) (left, refl)
  sem_take-Matches s (negsuc zero) zero fit e = rw (k.timedwait-forever s e) tt
  sem_take-Matches s (negsuc zero) (suc n) fit e =
      let (r, waited, left, got) = k.timedwait-permit s (pos 0) n e in rw (waited, got) (left, refl)
  sem_take-Matches s (negsuc (suc m)) n fit e = absurd fit

  -- A new value in one element, beside that of its counter.
  Written : ℕ → Pool Sem → Pool Sem × Code → ℕ × Code → Type 0
  Written j p r b =
      ((i : ℕ) → counters r.0 i ≡ (if i == j then b.0 else counters p i)) × (r.1 ≡ b.1)

  write-Written :
      (j n : ℕ) (code : Code) (p : Pool Sem) (v : Sem)
      → count v ≡ n
      → Written j p (record p { cell = write j v p }, code) (n, code)
  unfolding Written
  write-Written j n code p v e = (
    λ i. elim (Bool-cases (i == j)) [
      | inl same ↦
          ap (λ b. count (if b then v else p.cell i)) same
          ∙ e
          ∙ sym (ap (λ b. if b then n else counters p i) same)
      | inr other ↦
          ap (λ b. count (if b then v else p.cell i)) other
          ∙ sym (ap (λ b. if b then n else counters p i) other)
    ],
    refl,
  )

  take_Written :
      (j : ℕ) (p : Pool Sem) (r : Sem × Code) (b : ℕ × Code)
      → (count r.0 ≡ b.0) × (r.1 ≡ b.1)
      → Written j p (record p { cell = write j r.0 p }, r.1) b
  unfolding Written
  take_Written j p r b (left, same) = ((write-Written j b.0 b.1 p r.0 left).0, same)

  module _ (inj : (i j : ℕ) → slot i ≡ slot j → i ≡ j) where
    own_element : (j : ℕ) → j < max → element (slot j) ≡ ok j
    unfolding element
    own_element j lt =
        rw (find_slot-some slot inj max 0 j (omega arith) (omega arith), element) refl

    serve_call-Matches :
        (j n : ℕ) (call : Call) (p : Pool Sem)
        → IsValid j call
        → counters p j ≡ n
        → Matches (Written j p) (serve_call (slot j) call p) (count_call call n)
    unfolding serve_call count_call nrf_modem_os_sem_init nrf_modem_os_sem_give
    serve_call-Matches j n (make initial limit) p lt e =
        rw (os_init-again slot max (sem_init initial) p j inj lt, serve_call, nrf_modem_os_sem_init)
          (write-Written j initial success p (sem_init initial) (k.count-sem_init initial))
    serve_call-Matches j n give p lt e =
        rw (own_element j lt, serve_call)
          (write-Written j (suc n) success p (sem_post (p.cell j))
            (k.count-sem_post (p.cell j) ∙ ap suc e))
    serve_call-Matches j n (take t) p (lt, fit) e =
        rw (own_element j lt, serve_call)
          (Matches-map (λ r b. (count r.0 ≡ b.0) × (r.1 ≡ b.1)) (Written j p)
            (nrf_modem_os_sem_take timedwait (p.cell j) t) (count_call (take t) n)
            (λ r. (record p { cell = write j r.0 p }, r.1)) (sem_take-Matches (p.cell j) t n fit e)
            (λ r b h. take_Written j p r b h))

    -- Calls of the three services on handles of the array, in any order, do what calls on independent
    -- counters do, with the same results, and they wait forever exactly if those do: at the first take
    -- without a permit whose timeout is -1, and also at one whose timeout is 0, which should not wait.
    -- The elements have different addresses, and the timeouts are -1, 0 and positive ones that do not
    -- overflow in microseconds.
    pub serve_calls-count_calls :
        (calls : List (ℕ × Call)) (p : Pool Sem) (t : ℕ → ℕ)
        → AllValid calls
        → ((i : ℕ) → counters p i ≡ t i)
        → Matches
            (λ r b. ((i : ℕ) → counters r.0 i ≡ b.0 i) × (r.1 ≡ b.1))
            (serve_calls calls p)
            (count_calls calls t)
    unfolding serve_calls count_calls Written
    serve_calls-count_calls [] p t valid same = (same, refl)
    serve_calls-count_calls ((j, call) ∷ calls) p t (now, later) same =
        Matches-bind (Written j p) _ _ _ _ _ (serve_call-Matches j (t j) call p now (same j))
          (λ r b w.
            Matches-bind
              (λ (q : Pool Sem × List Code) (c : (ℕ → ℕ) × List Code).
                ((i : ℕ) → counters q.0 i ≡ c.0 i) × (q.1 ≡ c.1))
              _ _ _ _ _
              (serve_calls-count_calls calls r.0 (λ i. if i == j then b.0 else t i) later
                (λ i. w.0 i ∙ ap (λ x. if i == j then b.0 else x) (same i)))
              (λ q c e. (e.0, ap₂ (λ x xs. x ∷ xs) w.1 e.1)))
