-- ===== src/Modem/System/Progress.antt =====
-- The steps of a sleeping thread of src/nrf_modem.c after a notification.
use nrf.Base.{
  ℕ, suc, ◌-◌, ◌<◌, ◌==◌, ◌≡◌, refl, sym, ap, ◌∙◌, ◌⊎◌, ==_iff, Bool, true, false, arith, length,
  if◌then◌else◌,
}
use nrf.Base.Int.{ℤ, pos}
use nrf.Base.Run.{Returns, Returns-mono}
use nrf.Modem.Kernel.{Ptr, Kernel, has}
use nrf.Modem.Waiters.{Os, is_addressed, nrf_modem_os_event_notify, nrf_modem_os_shutdown}
use nrf.Modem.Notify.{Posted, nrf_modem_os_event_notify-Posted, nrf_modem_os_shutdown-Posted}
use nrf.Modem.Timedwait.{Code, success, shut_down, timedwait_leave}
use nrf.Modem.System.{Pc, outside, asleep, leaving, waits, System, Step, wake, leave, Reach, moved}
use nrf.Modem.System.Invariant.{Frames, Inv, Posted-Inv, Step-Inv, Reach-Inv}

module _ (k : Kernel) (frame : ℕ → Ptr) where
  open k use {Sem, nodes, count, sem_init, sem_post, count-sem_init, count-sem_post}

  at_own : (s : System k) (os : Os k) (i : ℕ) (p : Pc) → (moved k s os i p).pc i ≡ p
  at_own s os i p = ground (arith, (==_iff i i).1 refl)

  -- What a thread that took its semaphore returns, for every timeout.
  abbrev pub code : (initialized : Bool) → Code
  code initialized = if initialized then success else shut_down

  leave-code :
      (initialized : Bool) (val : ℤ) (td : Ptr) (os : Os k)
      → (timedwait_leave k initialized val (pos 1) td os).1 ≡ code initialized
  unfolding timedwait_leave
  leave-code true val td os = refl
  leave-code false val td os = refl

  -- Thread `i` after its wait has taken a permit and left `taken` in its semaphore, and after the rest
  -- of the function.
  abbrev pub woken : (i : ℕ) (val : ℤ) (taken : Sem) → System k → System k
  woken i val taken s =
      moved k s (record s.os { sem = λ a. if a == frame i then taken else s.os.sem a }) i
        (leaving val (pos 1))

  abbrev pub gone : (initialized : Bool) (i : ℕ) (val : ℤ) → System k → System k
  gone initialized i val t =
      moved k t (timedwait_leave k initialized val (pos 1) (frame i) t.os).0 i outside

  -- The semaphore of thread `i` has a permit. Its wait can take it, and the thread can then leave with
  -- what the function returns after a wait that took its semaphore: it is outside, and its record is
  -- off the list.
  abbrev pub Exits : (initialized : Bool) (i : ℕ) (val : ℤ) → System k → Type 0
  Exits initialized i val s =
      (taken : Sem) × (suc (count taken) ≡ count (s.os.sem (frame i)))
      × Step k frame s (woken i val taken s)
      × Step k frame (woken i val taken s) (gone initialized i val (woken i val taken s))
      × ((gone initialized i val (woken i val taken s)).pc i ≡ outside)
      × ((timedwait_leave k initialized val (pos 1) (frame i) (woken i val taken s).os).1
          ≡ code initialized)
      × (has (frame i) (nodes (gone initialized i val (woken i val taken s)).os.links) ≡ false)

  abbrev pub Returning : (i : ℕ) (val : ℤ) → System k → Type 0
  Returning i val s = Exits true i val s

  -- A sleeping thread whose semaphore has a permit returns, wherever the walks stand.
  permit-Exits :
      (fr : Frames k frame) (initialized : Bool) (s : System k) (i c : ℕ) (val : ℤ) (taken : Sem)
      → Inv k frame s
      → s.pc i ≡ asleep c val
      → suc (count taken) ≡ count (s.os.sem (frame i))
      → Exits initialized i val s
  permit-Exits fr initialized s i c val taken inv here permit =
      let t : System k = woken i val taken s in
      let awake : Step k frame s t = wake i c val taken here permit in
      let left : Step k frame t (gone initialized i val t) =
        leave i val (pos 1) initialized (at_own s t.os i (leaving val (pos 1))) in
      let out = at_own t (gone initialized i val t).os i outside in
      (
        taken,
        permit,
        awake,
        left,
        out,
        leave-code initialized val (frame i) t.os,
        (Step-Inv k frame fr left (Step-Inv k frame fr awake inv)).listed i ∙ ap waits out,
      )

  permit-Returning :
      (fr : Frames k frame) (s : System k) (i c : ℕ) (val : ℤ) (taken : Sem)
      → Inv k frame s
      → s.pc i ≡ asleep c val
      → suc (count taken) ≡ count (s.os.sem (frame i))
      → Returning i val s
  permit-Returning fr s i c val taken inv here permit =
      permit-Exits fr true s i c val taken inv here permit

  pub posted-Exits :
      (fr : Frames k frame) (initialized : Bool) (s : System k) (i c : ℕ) (val : ℤ)
      → Inv k frame s
      → s.pc i ≡ asleep c val
      → 0 < count (s.os.sem (frame i))
      → Exits initialized i val s
  posted-Exits fr initialized s i c val inv here permits =
      permit-Exits fr initialized s i c val (sem_init (count (s.os.sem (frame i)) - 1)) inv here
        (omega (arith, permits, count-sem_init (count (s.os.sem (frame i)) - 1)))

  module _ (fr : Frames k frame) (s : System k) (r : Reach k frame s) where
    Posted-Returning :
        (i c context : ℕ) (val : ℤ) (os' : Os k)
        → s.pc i ≡ asleep c val
        → (c ≡ context) ⊎ (context ≡ 0)
        → Posted k (is_addressed k context s.os) (nodes s.os.links) s.os os'
        → Returning i val (record s { os = os' })
    Posted-Returning i c context val os' here hit p =
        let inv = Reach-Inv k frame fr r in
        let own : s.os.context (frame i) ≡ c = inv.context i c val here in
        let chosen : is_addressed k context s.os (frame i) ≡ true = ground arith in
        let posted : os'.sem (frame i) ≡ sem_post (s.os.sem (frame i)) =
          p.sem (frame i) ∙ (rw (inv.listed i, here, chosen)) in
        permit-Returning fr (record s { os = os' }) i c val (s.os.sem (frame i))
          (Posted-Inv k frame s _ _ os' inv p) here
          (sym (ap count posted ∙ count-sem_post (s.os.sem (frame i))))

    -- In every state that can be reached, where the threads' records have addresses of their own, a
    -- notification on the context of a sleeping thread, or on the context 0, ends with fuel for one
    -- round more than the list has entries. After it the thread's semaphore has a permit, and two steps
    -- can follow: its wait takes the permit, with no need for its time to be over, and the thread
    -- leaves. Then it is outside of `nrf_modem_os_timedwait` and off the list, and the function's
    -- result after such a wait is 0, for every timeout.
    pub nrf_modem_os_event_notify-Returning :
        (i c context : ℕ) (val : ℤ)
        → s.pc i ≡ asleep c val
        → (c ≡ context) ⊎ (context ≡ 0)
        → Returns
            (λ os'. Returning i val (record s { os = os' }))
            (nrf_modem_os_event_notify k (suc (length (nodes s.os.links))) context s.os)
    nrf_modem_os_event_notify-Returning i c context val here hit =
        let inv = Reach-Inv k frame fr r in
        Returns-mono _ _ _
          (nrf_modem_os_event_notify-Posted k context (suc (length (nodes s.os.links))) s.os
            (omega arith) inv.well)
          (λ os' p. Posted-Returning i c context val os' here hit p)

    Posted-Exits :
        (i c : ℕ) (val : ℤ) (os' : Os k)
        → s.pc i ≡ asleep c val
        → Posted k (λ a. true) (nodes s.os.links) s.os os'
        → Exits false i val (record s { os = os' })
    Posted-Exits i c val os' here p =
        let inv = Reach-Inv k frame fr r in
        let posted : os'.sem (frame i) ≡ sem_post (s.os.sem (frame i)) =
          p.sem (frame i) ∙ (rw (inv.listed i, here) refl) in
        permit-Exits fr false (record s { os = os' }) i c val (s.os.sem (frame i))
          (Posted-Inv k frame s _ _ os' inv p) here
          (sym (ap count posted ∙ count-sem_post (s.os.sem (frame i))))

    -- In every state that can be reached, where the threads' records have addresses of their own, a
    -- shutdown ends with fuel for one round more than the list has entries. After it the semaphore of
    -- any thread that slept has a permit, and two steps can follow, in which its wait takes the permit
    -- and the thread leaves: it is off the list and outside of `nrf_modem_os_timedwait`, with the result
    -- -NRF_ESHUTDOWN if the modem library says that it is not initialized any more.
    pub nrf_modem_os_shutdown-Exits :
        (i c : ℕ) (val : ℤ)
        → s.pc i ≡ asleep c val
        → Returns
            (λ os'. Exits false i val (record s { os = os' }))
            (nrf_modem_os_shutdown k (suc (length (nodes s.os.links))) s.os)
    nrf_modem_os_shutdown-Exits i c val here =
        let inv = Reach-Inv k frame fr r in
        Returns-mono _ _ _
          (nrf_modem_os_shutdown-Posted k (suc (length (nodes s.os.links))) s.os (omega arith)
            inv.well)
          (λ os' p. Posted-Exits i c val os' here p)
