-- ===== src/Modem/Exclusion.antt =====
-- Threads that share a mutex by `nrf_modem_os_mutex_lock` and `nrf_modem_os_mutex_unlock` of
-- src/nrf_modem.c.
pub mod Pooled
mod Examples
use nrf.Base.{
  ltb, ◌^◌, zero, suc, ℕ, ◌*◌, ◌≤◌, ◌==◌, ==_iff, ◌≡◌, ◌≢◌, refl, sym, ap, ◌∙◌, Bool, Bool-cases,
  true, false, inl, inr, ◌⊎◌, ◌||◌, arith, if◌then◌else◌,
}
use nrf.Base.Int.{ℤ, pos, negsuc}
use nrf.Base.Run.{Run, ok, undefined, out_of_fuel, ◌>>=◌}
use nrf.Modem.Timedwait.{Code, success, again, invalid, shut_down}
use nrf.Modem.Service.{milliseconds, nrf_modem_os_mutex_lock}
use nrf.Modem.Semaphore.{nrf_modem_os_mutex_unlock}

-- The kernel's mutex. A call of `lock` returns when the mutex is free; `timedlock` on a mutex that is
-- locked leaves it as it is when the time is over.
pub record Mutexes : Type 1 where
  pub Mtx : Type 0
  pub mutex_init : Mtx
  pub lock : Mtx → Mtx
  pub timedlock : Mtx → ℤ → Mtx × ℤ
  pub unlock : Mtx → Mtx
  pub is_locked : Mtx → Bool
  pub is_locked-init : is_locked mutex_init ≡ false
  pub is_locked-lock : (m : Mtx) → is_locked m ≡ false → is_locked (lock m) ≡ true
  pub is_locked-timedlock :
      (m : Mtx) (timeout : ℤ) → is_locked m ≡ false → is_locked (timedlock m timeout).0 ≡ true
  pub timedlock-refused : (m : Mtx) (timeout : ℤ) → is_locked m ≡ true → (timedlock m timeout).0 ≡ m
  pub is_locked-unlock : (m : Mtx) → is_locked (unlock m) ≡ false

-- What a caller makes of the result.
abbrev pub is_success : Code → Bool
is_success success = true
is_success _ = false

module _ (k : Mutexes) where
  open k use {Mtx, lock, timedlock, unlock, is_locked}

  -- The mutex, and which threads were told that they have it and have not unlocked it since.
  pub record Shared : Type 0 where
    pub mtx : Mtx
    pub holds : ℕ → Bool

  abbrev pub start : Shared
  start = record { mtx = k.mutex_init; holds = λ i. false }

  abbrev pub told : ℕ → Bool → (ℕ → Bool) → ℕ → Bool
  told i b holds j = if j == i then b else holds j

  -- A lock that the mutex is free for, a timed lock whose time is over, which patient threads never
  -- come to, and an unlock.
  pub data Turn (patient : Bool) (s : Shared) : Shared → Type 0 where
    locks :
        (i : ℕ) (timeout : ℤ) {m : Mtx} {code : Code}
        → is_locked s.mtx ≡ false
        → nrf_modem_os_mutex_lock lock timedlock s.mtx timeout ≡ ok (m, code)
        → Turn patient s (record { mtx = m; holds = told i (is_success code) s.holds })
    times_out :
        (i : ℕ) (timeout : ℤ) {m : Mtx} {code : Code}
        → patient ≡ false
        → is_locked s.mtx ≡ true
        → timeout ≢ negsuc 0
        → nrf_modem_os_mutex_lock lock timedlock s.mtx timeout ≡ ok (m, code)
        → Turn patient s (record { mtx = m; holds = told i (is_success code) s.holds })
    unlocks :
        (i : ℕ)
        → s.holds i ≡ true
        → Turn patient s (record {
          mtx = (nrf_modem_os_mutex_unlock unlock s.mtx).0;
          holds = told i false s.holds;
        })

  pub data Turns (patient : Bool) : Shared → Type 0 where
    fresh : Turns patient start
    more : {s t : Shared} → Turns patient s → Turn patient s t → Turns patient t

  -- At most one thread has the mutex, none if it is free, and one if it is locked.
  pub record Exclusive (s : Shared) : Type 0 where
    pub one : (i j : ℕ) → s.holds i ≡ true → s.holds j ≡ true → i ≡ j
    pub none_free : (i : ℕ) → is_locked s.mtx ≡ false → s.holds i ≡ false
    pub held : is_locked s.mtx ≡ true → (i : ℕ) × (s.holds i ≡ true)

  told_success : (code : Code) → success ≡ code → is_success code ≡ true
  told_success code e = ap is_success (sym e)

  told_self : (i : ℕ) (b : Bool) (holds : ℕ → Bool) → b ≡ true → told i b holds i ≡ true
  told_self i b holds h = ground (arith, h)

  -- A lock on a free mutex leaves it locked, and reports a success.
  timed-is_locked :
      (mtx : Mtx) (wait : Run ℤ) (m : Mtx) (code : Code)
      → is_locked mtx ≡ false
      → ◌>>=◌ {B = Mtx × Code} wait (λ tmout. ok ((timedlock mtx tmout).0, success)) ≡ ok (m, code)
      → (is_locked m ≡ true) × (is_success code ≡ true)
  timed-is_locked mtx (ok tmout) m code free h =
      let same : (timedlock mtx tmout).0 ≡ m = cc h in
      (ap is_locked (sym same) ∙ k.is_locked-timedlock mtx tmout free, told_success code (cc h))
  timed-is_locked mtx undefined m code free h = absurd (cc h)
  timed-is_locked mtx out_of_fuel m code free h = absurd (cc h)

  lock-is_locked :
      (mtx : Mtx) (timeout : ℤ) (m : Mtx) (code : Code)
      → is_locked mtx ≡ false
      → nrf_modem_os_mutex_lock lock timedlock mtx timeout ≡ ok (m, code)
      → (is_locked m ≡ true) × (is_success code ≡ true)
  unfolding nrf_modem_os_mutex_lock
  lock-is_locked mtx (negsuc zero) m code free h =
      let same : lock mtx ≡ m = cc h in
      (ap is_locked (sym same) ∙ k.is_locked-lock mtx free, told_success code (cc h))
  lock-is_locked mtx (negsuc (suc n)) m code free h =
      timed-is_locked mtx (milliseconds (negsuc (suc n))) m code free h
  lock-is_locked mtx (pos n) m code free h =
      timed-is_locked mtx (milliseconds (pos n)) m code free h

  told_one :
      (i : ℕ) (b : Bool) (holds : ℕ → Bool) (j : ℕ)
      → holds j ≡ false
      → told i b holds j ≡ true
      → j ≡ i
  told_one i b holds j before after = ground (arith, before, after)

  told_other :
      (i : ℕ) (holds : ℕ → Bool) (j : ℕ) → told i false holds j ≡ true → (holds j ≡ true) × (j ≢ i)
  told_other i holds j after = (ground (arith, after), ground (arith, after))

  pub Turn-Exclusive : {s t : Shared} → Turn true s t → Exclusive s → Exclusive t
  unfolding nrf_modem_os_mutex_unlock
  Turn-Exclusive {s} (locks i timeout {m} {code} free h) e = record {
    one = λ j j' x x'.
        told_one i (is_success code) s.holds j (e.none_free j free) x
        ∙ sym (told_one i (is_success code) s.holds j' (e.none_free j' free) x');
    none_free = λ j now.
        let taken = lock-is_locked s.mtx timeout m code free h in absurd (cc (now, taken.0));
    held = λ now.
        (i, told_self i (is_success code) s.holds (lock-is_locked s.mtx timeout m code free h).1);
  }
  Turn-Exclusive {s} (times_out i timeout patient taken timed h) e = absurd (cc patient)
  Turn-Exclusive {s} (unlocks i here) e = record {
    one = λ j j' x x'. e.one j j' (told_other i s.holds j x).0 (told_other i s.holds j' x').0;
    none_free = λ j free. elim (Bool-cases (told i false s.holds j)) [
      | inl held ↦
          let (before, other) = told_other i s.holds j held in
          absurd (other (e.one j i before here))
      | inr not_held ↦ not_held
    ];
    held = λ now. absurd (cc (now, k.is_locked-unlock s.mtx));
  }

  -- Threads share a mutex that has just been initialised; each unlocks it only when it has been told
  -- that it has it; and no timed lock's time is over before the mutex is free. Then at most one thread
  -- has been told that it has the mutex, none while it is free, and one while it is locked.
  pub Turns-Exclusive : (s : Shared) → Turns true s → Exclusive s
  Turns-Exclusive s fresh = record {
    one = λ i j x y. absurd (cc x);
    none_free = λ i free. refl;
    held = λ now. absurd (cc (now, k.is_locked-init));
  }
  Turns-Exclusive s (more turns turn) = Turn-Exclusive turn (Turns-Exclusive _ turns)

  any_Turn : {s t : Shared} → Turn true s t → Turn false s t
  any_Turn (locks i timeout free h) = locks i timeout free h
  any_Turn (times_out i timeout patient taken timed h) = absurd (cc patient)
  any_Turn (unlocks i here) = unlocks i here

  any_Turns : {s : Shared} → Turns true s → Turns false s
  any_Turns fresh = fresh
  any_Turns (more turns turn) = more (any_Turns turns) (any_Turn turn)

  -- Threads share a mutex that has just been initialised; each has unlocked it only when it had been
  -- told that it has it; and no timed lock's time has been over before the mutex was free. If one has
  -- now been told that it has the mutex, then any other's lock with a timeout of at most 2147483
  -- milliseconds, which is over at once, is a step that can follow: it returns 0 and leaves the mutex
  -- as it is, locked. After that step the two threads, and no others, have been told that they have it.
  pub Turns-both :
      (s : Shared) (i j n : ℕ)
      → Turns true s
      → i ≢ j
      → s.holds i ≡ true
      → n ≤ 2147483
      → let t : Shared = record { mtx = s.mtx; holds = told j true s.holds } in
        (nrf_modem_os_mutex_lock lock timedlock s.mtx (pos n) ≡ ok (s.mtx, success))
        × Turn false s t
        × (is_locked t.mtx ≡ true)
        × ((m : ℕ) → t.holds m ≡ ((m == i) || (m == j)))
  unfolding nrf_modem_os_mutex_lock milliseconds
  Turns-both s i j n turns other here small = elim (Bool-cases (is_locked s.mtx)) [
    | inl taken ↦
        let fits : ltb (n * 1000) (2 ^ 31) ≡ true = ground arith in
        let h : nrf_modem_os_mutex_lock lock timedlock s.mtx (pos n) ≡ ok (s.mtx, success) =
          rw (fits, k.timedlock-refused s.mtx (pos (n * 1000)) taken) refl in
        (
          h,
          times_out j (pos n) refl taken (λ e. absurd (cc e)) h,
          taken,
          λ m. both m (Bool-cases (s.holds m)),
        )
    | inr free ↦ absurd (let e = (Turns-Exclusive s turns).none_free i free in cc (e, here))
  ]
    where
      both :
          (m : ℕ)
          → (s.holds m ≡ true) ⊎ (s.holds m ≡ false)
          → told j true s.holds m ≡ ((m == i) || (m == j))
      both m (inl has) =
          let same : m ≡ i = (Turns-Exclusive s turns).one m i has here in ground (arith, has, same)
      both m (inr not) =
          let apart : m ≢ i = λ e. cc (not, ap s.holds e, here) in ground (arith, not, apart)
