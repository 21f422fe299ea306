-- ===== src/Modem/System/Refine.antt =====
-- The threads and the list of src/nrf_modem.c beside the room that they stand for.
use nrf.Base.{
  ℕ, suc, ◌==◌, ==_iff, ◌≡◌, refl, sym, subst, ap, ◌∙◌, Bool, true, false, Bool-cases, inl, inr,
  arith, not, ◌||◌, if◌then◌else◌, length,
}
use nrf.Base.Int.{ℤ, pos, is_zero}
use nrf.Modem.Kernel.{Ptr, Kernel}
use nrf.Modem.Waiters.{Os, is_addressed}
use nrf.Modem.Notify.{Posted, nrf_modem_os_event_notify-Posted, nrf_modem_os_shutdown-Posted}
use nrf.Modem.Timedwait.{enqueue, timedwait_leave}
use nrf.Modem.System.{
  Pc, outside, asleep, leaving, System, moved, Step, enter, wake, expire, leave, notify, shutdown,
  Reach, start, later,
}
use nrf.Modem.System.Invariant.{Frames, Inv, same, sleeps-enqueue, leave-os, Reach-Inv}
use nrf.Modem.System.Room.{
  Status, away, waiting, returning, signalled, Only, Event, Turn, arrive, take, tire, depart,
  signal, Visit, empty, turn,
}

module _ (k : Kernel) (frame : ℕ → Ptr) where
  open k use {Sem, nodes, count, sem_post, count-sem_init, count-sem_post}

  -- A wait that returned non-zero took the semaphore.
  abbrev pub view_at : Pc → Sem → Status
  view_at outside sem = away
  view_at (asleep c val) sem = waiting c (count sem)
  view_at (leaving val err) sem = returning (not (is_zero err))

  abbrev pub view : System k → ℕ → Status
  view s i = view_at (s.pc i) (s.os.sem (frame i))

  -- A move of one thread that leaves the other threads' semaphores alone.
  Only-moved :
      (s : System k) (os' : Os k) (i : ℕ) (p : Pc) (status : Status)
      → ((j : ℕ) → (j == i) ≡ false → os'.sem (frame j) ≡ s.os.sem (frame j))
      → view_at p (os'.sem (frame i)) ≡ status
      → Only i status (view s) (view (moved k s os' i p))
  Only-moved s os' i p status others own j = elim (Bool-cases (j == i)) [
    | inl e ↦ let q : j ≡ i = (==_iff j i).0 e in rw e ((rw q own))
    | inr e ↦ rw e (rw (others j e) refl)
  ]

  module _ (fr : Frames k frame) (s : System k) (inv : Inv k frame s) where
    -- One thread under a walk that posts to the entries that `chosen` picks.
    Posted-signalled :
        (c : ℕ) (chosen : Ptr → Bool) (os' : Os k)
        → ((j d : ℕ) (v : ℤ) → s.pc j ≡ asleep d v → chosen (frame j) ≡ ((d == c) || (c == 0)))
        → Posted k chosen (nodes s.os.links) s.os os'
        → (j : ℕ) (p : Pc) → s.pc j ≡ p
        → view_at p (os'.sem (frame j)) ≡ signalled c (view_at p (s.os.sem (frame j)))
    Posted-signalled c chosen os' picks post j outside e = refl
    Posted-signalled c chosen os' picks post j (leaving v err) e = refl
    Posted-signalled c chosen os' picks post j (asleep d v) e =
        rw (post.sem (frame j), inv.listed j, e, picks j d v e)
          (ground (arith, count-sem_post (s.os.sem (frame j))))

    Posted-Turn :
        (c : ℕ) (chosen : Ptr → Bool) (os' : Os k)
        → ((j d : ℕ) (v : ℤ) → s.pc j ≡ asleep d v → chosen (frame j) ≡ ((d == c) || (c == 0)))
        → Posted k chosen (nodes s.os.links) s.os os'
        → Turn (signal c) (view s) (view (record s { os = os' }))
    Posted-Turn c chosen os' picks post =
        (λ j. Posted-signalled c chosen os' picks post j (s.pc j) refl)

    entered-Turn :
        (i c : ℕ) (val : ℤ)
        → s.pc i ≡ outside
        → Turn
            (arrive i c)
            (view s)
            (view (moved k s (enqueue k c (frame i) s.os) i (asleep c val)))
    entered-Turn i c val out = (
      ap (λ p. view_at p (s.os.sem (frame i))) out,
      Only-moved s (enqueue k c (frame i) s.os) i (asleep c val) (waiting c 0)
          (λ j e. rw (same k frame fr s inv i j ∙ e))
          (rw ((==_iff (frame i) (frame i)).1 refl) (ap (waiting c) (count-sem_init 0))),
    )

  -- A step, as the room sees it: a notification signals its own context, and a shutdown the context 0,
  -- on which every thread is reached.
  abbrev pub event : {s t : System k} → Step k frame s t → Event
  event (enter i c tmout val b out h) = arrive i c
  event (wake i c val taken here h) = take i
  event (expire i c val here) = tire i
  event (leave i val err b here) = depart i
  event (notify c h) = signal c
  event (shutdown h) = signal 0

  module _ (fr : Frames k frame) where
    Inv-Turn :
        {s t : System k}
        → Inv k frame s
        → (st : Step k frame s t) → Turn (event st) (view s) (view t)
    Inv-Turn {s} inv (enter i c tmout val b {os'} out h) =
        subst (λ o. Turn (arrive i c) (view s) (view (moved k s o i (asleep c val))))
          (sym (sleeps-enqueue k frame b c val (frame i) s.os tmout os' h))
          (entered-Turn fr s inv i c val out)
    Inv-Turn {s} inv (wake i c val taken here h) = (
      c,
      count taken,
      ap (λ p. view_at p (s.os.sem (frame i))) here ∙ ap (waiting c) (sym h),
      Only-moved s (record s.os { sem = λ a. if a == frame i then taken else s.os.sem a }) i
          (leaving val (pos 1)) (returning true) (λ j e. rw (same k frame fr s inv i j ∙ e)) refl,
    )
    Inv-Turn {s} inv (expire i c val here) = (
      c,
      count (s.os.sem (frame i)),
      ap (λ p. view_at p (s.os.sem (frame i))) here,
      Only-moved s s.os i (leaving val (pos 0)) (returning false) (λ j e. refl) refl,
    )
    Inv-Turn {s} inv (leave i val err b here) = (
      not (is_zero err),
      ap (λ p. view_at p (s.os.sem (frame i))) here,
      Only-moved s (timedwait_leave k b val err (frame i) s.os).0 i outside away
          (λ j e. ap (λ (o : Os k). o.sem (frame j)) (leave-os k frame b val err (frame i) s.os))
          refl,
    )
    Inv-Turn {s} inv (notify c {os'} h) =
        Posted-Turn fr s inv c (is_addressed k c s.os) os' (λ j d v e. rw (inv.context j d v e))
          (rw h at (
            nrf_modem_os_event_notify-Posted k c (suc (length (nodes s.os.links))) s.os
              (omega arith) inv.well))
    Inv-Turn {s} inv (shutdown {os'} h) =
        Posted-Turn fr s inv 0 (λ a. true) os' (λ j d v e. ground arith)
          (rw h at (
            nrf_modem_os_shutdown-Posted k (suc (length (nodes s.os.links))) s.os (omega arith)
              inv.well))

    Reach-Visit : {s : System k} → Reach k frame s → Visit (view s)
    Reach-Visit (start s e out) =
        empty (view s) (λ i. ap (λ p. view_at p (s.os.sem (frame i))) (out i))
    Reach-Visit (later r st) =
        turn (event st) (Reach-Visit r) (Inv-Turn (Reach-Inv k frame fr r) st)

    -- Threads have their records at different addresses, none of them the list head. From a state
    -- that can be reached, every step of a thread or of a walk over the list changes the room as the
    -- event of the step does: the thread arrives on its context, takes a permit, tires or departs, or
    -- the walk signals exactly the threads that wait on the context it was called with, all of them if
    -- that is 0 or the walk is a shutdown. The room that results is one that events alone reach from an
    -- empty room.
    pub Step-Turn :
        {s t : System k}
        → Reach k frame s
        → (st : Step k frame s t) → Turn (event st) (view s) (view t) × Visit (view t)
    Step-Turn r st = (Inv-Turn (Reach-Inv k frame fr r) st, Reach-Visit (later r st))
