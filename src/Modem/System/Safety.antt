-- ===== src/Modem/System/Safety.antt =====
-- What holds in every state that threads, notifications and timeouts can lead to.
use nrf.Base.{ℕ, suc, ◌<◌, ◌≡◌, ◌↔◌, ap, ◌∙◌, ◌⊎◌, true, false, arith, length}
use nrf.Base.Int.{ℤ}
use nrf.Base.Run.{Returns, Returns-mono}
use nrf.Modem.Kernel.{Ptr, Kernel, has}
use nrf.Modem.Waiters.{Os, is_addressed, nrf_modem_os_event_notify}
use nrf.Modem.Notify.{Posted, nrf_modem_os_event_notify-Posted}
use nrf.Modem.System.{outside, asleep, waits, System, Reach}
use nrf.Modem.System.Invariant.{Frames, Inv, Reach-Inv}

module _ (k : Kernel) (frame : ℕ → Ptr) (fr : Frames k frame) (s : System k)
    (r : Reach k frame s) where
  open k use {nodes, count, sem_post, count-sem_post}

  inv : Inv k frame s
  inv = Reach-Inv k frame fr r

  -- In every state that can be reached, where the threads' records have addresses of their own, an
  -- address is on the list exactly if it is that of the record of a thread that is inside
  -- `nrf_modem_os_timedwait`: no record of a thread that has returned is left.
  pub no_dangling_entry :
      (a : Ptr)
      → (has a (nodes s.os.links) ≡ true) ↔ ((i : ℕ) × (a ≡ frame i) × (waits (s.pc i) ≡ true))
  no_dangling_entry a =
      (inv.live a, λ (i, e, w). ap (λ b. has b (nodes s.os.links)) e ∙ inv.listed i ∙ w)

  -- The semaphore of thread `i` is posted, and those of threads outside are as before.
  abbrev pub Woken : ℕ → Os k → Type 0
  Woken i os' =
      (0 < count (os'.sem (frame i)))
      × ((j : ℕ) → s.pc j ≡ outside → os'.sem (frame j) ≡ s.os.sem (frame j))

  Posted-Woken :
      (i c context : ℕ) (val : ℤ) (os' : Os k)
      → s.pc i ≡ asleep c val
      → (c ≡ context) ⊎ (context ≡ 0)
      → Posted k (is_addressed k context s.os) (nodes s.os.links) s.os os'
      → Woken i os'
  Posted-Woken i c context val os' here hit p =
      (awake, λ j out. still j (inv.listed j ∙ ap waits out))
    where
      awake : 0 < count (os'.sem (frame i))
      awake =
          let listed : has (frame i) (nodes s.os.links) ≡ true = inv.listed i ∙ ap waits here in
          let own : s.os.context (frame i) ≡ c = inv.context i c val here in
          let chosen : is_addressed k context s.os (frame i) ≡ true = ground arith in
          let posted : os'.sem (frame i) ≡ sem_post (s.os.sem (frame i)) =
            p.sem (frame i) ∙ (rw (listed, chosen)) in
          rw posted (omega (arith, count-sem_post (s.os.sem (frame i))))

      still :
          (j : ℕ)
          → has (frame j) (nodes s.os.links) ≡ false
          → os'.sem (frame j) ≡ s.os.sem (frame j)
      still j off = p.sem (frame j) ∙ rw off

  -- No wakeup is lost. In every state that can be reached, where the threads' records have
  -- addresses of their own, a notification on the context of a sleeping thread, or on the context
  -- 0, ends with fuel for one round more than the list has entries. After it the semaphore of that
  -- thread is posted, and those of threads outside of the function are as before.
  pub no_lost_wakeup :
      (i c context : ℕ) (val : ℤ)
      → s.pc i ≡ asleep c val
      → (c ≡ context) ⊎ (context ≡ 0)
      → Returns
          (Woken i)
          (nrf_modem_os_event_notify k (suc (length (nodes s.os.links))) context s.os)
  no_lost_wakeup i c context val here hit =
      Returns-mono _ (Woken i) _
        (nrf_modem_os_event_notify-Posted k context (suc (length (nodes s.os.links))) s.os
          (omega arith) inv.well)
        (λ os' p. Posted-Woken i c context val os' here hit p)
