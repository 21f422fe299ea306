-- ===== src/Modem/Walk/Finish.antt =====
-- Where the loop of `nrf_modem_os_shutdown` stands, and what it has done at its end.
use nrf.Base.{
  ℕ, zero, suc, ◌≡◌, refl, sym, subst, ap, ◌∙◌, Bool, true, Option, none, some, List, [], ◌∷◌, ◌++◌,
  arith,
}
use nrf.Base.Int.{ℤ}
use nrf.Base.Run.{ok}
use nrf.Modem.Kernel.{Ptr, Kernel, has}
use nrf.Modem.Waiters.{Os, td_next, post, shutdown_loop, nrf_modem_os_shutdown}
use nrf.Modem.Notify.{entry}
use nrf.Modem.System.{asleep, waits, System, Reach}
use nrf.Modem.System.Lists.{has-append}
use nrf.Modem.System.Invariant.{Frames, Reach-Inv}
use nrf.Modem.System.Progress.{Exits, posted-Exits}
use nrf.Modem.Walk.{
  Walk, begin, visited, Move, visit, other, Moves, stay, then, Rounds, no_round, round,
}
use nrf.Modem.Walk.Cut.{Cut, begin-Cut, visit-Cut}
use nrf.Modem.Walk.Cover.{Step-Cut}

module _ (k : Kernel) (frame : ℕ → Ptr) where
  open k use {nodes, count, sem_init, count-sem_init}

  abbrev Covered : Walk k frame → Type 0
  Covered w = (passed : List Ptr) × (ahead : List Ptr) × Cut k frame w.sys w.td passed ahead

  -- The entry that the loop stands at is the first of those before it.
  at_entry :
      (s : System k) (td : Option Ptr) (a : Ptr) (passed ahead : List Ptr)
      → Cut k frame s td passed ahead
      → td ≡ some a
      → (rest : List Ptr) × Cut k frame s (some a) passed (a ∷ rest)
  at_entry s td a passed [] c e = absurd (cc (c.here, e))
  at_entry s td a passed (x ∷ rest) c e =
      let q : x ≡ a = cc (c.here, e) in
      (
        rest,
        subst (λ (y : Ptr). Cut k frame s (some a) passed (y ∷ rest)) q
            (subst (λ (t : Option Ptr). Cut k frame s t passed (x ∷ rest)) e c),
      )

  none_ahead : (ahead : List Ptr) → entry k ahead ≡ none → ahead ≡ []
  none_ahead [] e = refl
  none_ahead (x ∷ ahead) e = absurd (cc e)

  module _ (fr : Frames k frame) where
    Move-Covered : {w v : Walk k frame} → Move k frame w v → Covered w → Covered v
    Move-Covered {w} (visit a e) (passed, ahead, c) =
        let (rest, c') = at_entry w.sys w.td a passed ahead c e in
        (passed ++ a ∷ [], rest, visit-Cut k frame w.sys a passed rest c')
    Move-Covered {w} (other a {t} st e keep) (passed, ahead, c) =
        let (rest, c') = at_entry w.sys w.td a passed ahead c e in
        let (passed', rest', c'') = Step-Cut k frame fr w.sys a passed rest c' st keep in
        (
          passed',
          a ∷ rest',
          subst (λ (td : Option Ptr). Cut k frame t td passed' (a ∷ rest')) (sym e) c'',
        )

    Moves-Covered : {w v : Walk k frame} → Moves k frame w v → Covered w → Covered v
    Moves-Covered (stay w) c = c
    Moves-Covered (then m ms) c = Moves-Covered ms (Move-Covered m c)

    Reach-Covered :
        {s : System k} {w : Walk k frame}
        → Reach k frame s
        → Moves k frame (begin k frame s) w
        → Covered w
    Reach-Covered {s} r ms =
        Moves-Covered ms ([], nodes s.os.links, begin-Cut k frame s (Reach-Inv k frame fr r))

  -- Rounds with nothing between them.
  rounds :
      (ahead : List Ptr) (passed : List Ptr) (w : Walk k frame)
      → Cut k frame w.sys w.td passed ahead
      → (u : Walk k frame) × Rounds k frame w u × (u.td ≡ none)
  rounds [] passed w c = (w, no_round w, c.here)
  rounds (a ∷ ahead) passed w c =
      let c' = subst (λ (t : Option Ptr). Cut k frame w.sys t passed (a ∷ ahead)) c.here c in
      let (u, ms, e) =
        rounds ahead (passed ++ a ∷ []) (visited k frame w a)
          (visit-Cut k frame w.sys a passed ahead c') in
      (u, round a c.here ms, e)

  -- The loop as one step of the system is a sequence of its rounds.
  shutdown_loop-Moves :
      (fuel : ℕ) (td : Option Ptr) (s : System k) (os' : Os k)
      → shutdown_loop k fuel td s.os ≡ ok os'
      → Moves k frame
          (record { sys = s; td = td })
          (record { sys = record s { os = os' }; td = none })
  unfolding shutdown_loop
  shutdown_loop-Moves zero td s os' h = absurd (cc h)
  shutdown_loop-Moves (suc fuel) none s os' h =
      subst
        (λ (o : Os k).
          Moves k frame (record { sys = s; td = none })
            (record { sys = record s { os = o }; td = none }))
        (cc h) (stay (record { sys = s; td = none }))
  shutdown_loop-Moves (suc fuel) (some a) s os' h = then (visit a refl) (
      shutdown_loop-Moves fuel (td_next k (post k a s.os) a) (record s { os = post k a s.os }) os'
        h)

  pub nrf_modem_os_shutdown-Moves :
      (fuel : ℕ) (s : System k) (os' : Os k)
      → nrf_modem_os_shutdown k fuel s.os ≡ ok os'
      → Moves k frame (begin k frame s) (record { sys = record s { os = os' }; td = none })
  unfolding nrf_modem_os_shutdown
  nrf_modem_os_shutdown-Moves fuel s os' h = shutdown_loop-Moves fuel (begin k frame s).td s os' h

  module _ (fr : Frames k frame) (s : System k) (r : Reach k frame s) (w : Walk k frame)
      (ms : Moves k frame (begin k frame s) w) where
    -- A shutdown starts in a state that can be reached, where the threads' records have addresses of
    -- their own, and its rounds alternate in any way with steps of threads and of interrupts, but no
    -- thread leaves while the loop stands at its record. Then the record that the loop reads next is
    -- on the list, and rounds alone can follow that bring the loop to its end.
    pub Moves-has :
        (a : Ptr)
        → w.td ≡ some a
        → (has a (nodes w.sys.os.links) ≡ true)
          × (u : Walk k frame) × Rounds k frame w u
          × (u.td ≡ none)
    Moves-has a e =
        let (passed, ahead, c) = Reach-Covered fr r ms in
        let (rest, c') = at_entry w.sys w.td a passed ahead c e in
        let (u, more, done) = rounds ahead passed w c in
        (
          ground (arith, c'.split, ap (has a) c'.split, has-append a passed (a ∷ rest)),
          u,
          more,
          done,
        )

    -- A shutdown starts in a state that can be reached, where the threads' records have addresses of
    -- their own, and its rounds alternate in any way with steps of threads and of interrupts, but no
    -- thread leaves while the loop stands at its record. When the loop has come to its end, the
    -- semaphore of every thread that then sleeps has a permit, also of one that fell asleep meanwhile.
    -- Two steps can follow: its wait takes the permit, with no need for its time to be over, and the
    -- thread leaves. Then it is outside of `nrf_modem_os_timedwait` and off the list, with the result
    -- -NRF_ESHUTDOWN if the modem library says that it is not initialized any more, and 0 if it is.
    pub Moves-Exits :
        (initialized : Bool) (i c : ℕ) (val : ℤ)
        → w.td ≡ none
        → w.sys.pc i ≡ asleep c val
        → Exits k frame initialized i val w.sys
    Moves-Exits initialized i c val e here =
        let (passed, ahead, cut) = Reach-Covered fr r ms in
        let all : nodes w.sys.os.links ≡ passed ++ [] =
          cut.split ∙ ap (λ l. passed ++ l) (none_ahead ahead (sym cut.here ∙ e)) in
        let behind : has (frame i) passed ≡ true = ground (
          arith,
          ap (has (frame i)) all,
          has-append (frame i) passed [],
          cut.inv.listed i,
          ap waits here,
        ) in
        posted-Exits k frame fr initialized w.sys i c val cut.inv here
          (cut.rung i c val here behind)
