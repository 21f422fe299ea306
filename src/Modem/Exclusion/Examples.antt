-- ===== src/Modem/Exclusion/Examples.antt =====
-- Threads that share a mutex of src/nrf_modem.c, and the theorems about them at these.
use nrf.Base.{
  ◌==◌, ◌||◌, ℕ, ◌+◌, ◌*◌, ◌<◌, ◌≤◌, sym, ◌≡◌, refl, Bool, true, false, arith, if◌then◌else◌,
}
use nrf.Base.Int.{pos, negsuc}
use nrf.Base.Run.{ok}
use nrf.Modem.Timedwait.{success}
use nrf.Modem.Service.{nrf_modem_os_mutex_lock}
use nrf.Modem.Exclusion.Pooled.{
  Guarded, seen, put, inits, turns, begins, goes_on, Deeds, Deeds-Exclusive,
}
use nrf.Modem.Pool.{write, find_slot, os_init, nrf_modem_os_mutex_init}
use nrf.Modem.Exclusion.{
  Mutexes, Shared, told, locks, fresh, more, Turn, Turns, Exclusive, Turns-both,
}

-- A mutex that is a flag.
abbrev flags : Mutexes
flags = record {
  Mtx = Bool;
  mutex_init = false;
  lock = λ m. true;
  timedlock = λ m timeout. (true, if m then pos 0 else pos 1);
  unlock = λ m. false;
  is_locked = λ m. m;
  is_locked-init = refl;
  is_locked-lock = λ m h. refl;
  is_locked-timedlock = λ m timeout h. refl;
  timedlock-refused = λ m timeout h. sym h;
  is_locked-unlock = λ m. refl;
}

-- The thread 4 has the mutex.
abbrev fourth : Shared flags
fourth = record { mtx = true; holds = told flags 4 true (λ i. false) }

fourth-Turns : Turns flags true fourth
unfolding nrf_modem_os_mutex_lock
fourth-Turns = more fresh (locks 4 (negsuc 0) refl refl)

Turns-both_example :
    let t : Shared flags = record { mtx = true; holds = told flags 5 true fourth.holds } in
    (nrf_modem_os_mutex_lock flags.lock flags.timedlock true (pos 20) ≡ ok (true, success))
    × Turn flags false fourth t
    × (true ≡ true)
    × ((m : ℕ) → t.holds m ≡ ((m == 4) || (m == 5)))
Turns-both_example =
    Turns-both flags fourth 4 5 20 fourth-Turns (λ e. absurd (cc e)) refl (omega arith)

abbrev slot : ℕ → ℕ
slot i = 4096 + i * 4

-- No mutex is handed out.
abbrev unused : Guarded flags slot 3
unused = record { pool = record { used = 0; cell = λ i. true }; has = λ i j. false }

-- The first mutex is handed out, and then the thread 4 takes it.
abbrev handed : Guarded flags slot 3
handed = record unused { pool = record { used = 1; cell = write 0 false unused.pool } }

abbrev first_taken : Guarded flags slot 3
first_taken =
    put flags slot 3 handed 0 (record { mtx = true; holds = told flags 4 true (λ i. false) })

-- The thread 5 initialises a second one.
abbrev second_handed : Guarded flags slot 3
second_handed = record first_taken {
  pool = record { used = 2; cell = write 1 false first_taken.pool };
}

second_handed-Deeds : Deeds flags slot 3 second_handed
unfolding nrf_modem_os_mutex_init os_init find_slot nrf_modem_os_mutex_lock
second_handed-Deeds =
    goes_on
      (goes_on (goes_on (begins (λ i. true)) (inits 0 (λ j e i. refl) refl))
        (turns 0 (omega arith) (locks 4 (negsuc 0) refl refl)))
      (inits 0 (λ j e. absurd (omega (arith, e))) refl)

Deeds-Exclusive_example :
    ((j : ℕ) → j < 2 → Exclusive flags (seen flags slot 3 second_handed j))
    × ((i j : ℕ) → 2 ≤ j → second_handed.has i j ≡ false)
Deeds-Exclusive_example =
    Deeds-Exclusive flags slot 3 (omega arith) second_handed second_handed-Deeds
