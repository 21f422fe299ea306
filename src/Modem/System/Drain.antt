-- ===== src/Modem/System/Drain.antt =====
-- The way out for the sleeping threads of src/nrf_modem.c when no notification comes.
use nrf.Base.{ℕ, ==_iff, ◌≡◌, Bool, refl, sym, ap, ◌∙◌, true, false, List, [], ◌∷◌, arith}
use nrf.Base.Int.{ℤ, pos}
use nrf.Modem.Kernel.{Ptr, Kernel, has, erase}
use nrf.Modem.Timedwait.{timedwait_leave}
use nrf.Modem.System.{
  Pc, outside, asleep, leaving, waits, System, moved, expire, leave, Reach, later,
}
use nrf.Modem.System.Invariant.{Frames, Reach-Inv, leave-os}

module _ (k : Kernel) (frame : ℕ → Ptr) where
  open k use {nodes, list_remove, nodes-remove}

  -- Steps of threads only: times that are over, and ways out.
  pub data Exodus : System k → System k → Type 0 where
    stay : (s : System k) → Exodus s s
    timeout :
        {s u : System k} (i c : ℕ) (val : ℤ)
        → s.pc i ≡ asleep c val
        → Exodus (moved k s s.os i (leaving val (pos 0))) u
        → Exodus s u
    exit :
        {s u : System k} (i : ℕ) (val err : ℤ) (initialized : Bool)
        → s.pc i ≡ leaving val err
        → Exodus (moved k s (timedwait_leave k initialized val err (frame i) s.os).0 i outside) u
        → Exodus s u

  module _ (fr : Frames k frame) where
    -- The list without its first entry, whose thread was about to leave.
    left_lem :
        (s : System k) (i : ℕ) (val err : ℤ) (xs : List Ptr)
        → nodes s.os.links ≡ frame i ∷ xs
        → nodes (timedwait_leave k true val err (frame i) s.os).0.links ≡ xs
    left_lem s i val err xs e =
        let here : has (frame i) (nodes s.os.links) ≡ true =
          rw e (ground (arith, (==_iff (frame i) (frame i)).1 refl)) in
        rw (leave-os k frame true val err (frame i) s.os) (
          nodes-remove s.os.links (frame i) here
          ∙ ap (erase (frame i)) e
          ∙ (rw ((==_iff (frame i) (frame i)).1 refl) refl))

    abbrev Empties : System k → Type 0
    Empties s = (t : System k) × Exodus s t × Reach k frame t × (nodes t.os.links ≡ [])

    -- The first thread of the list goes, and what follows is given.
    module _ (xs : List Ptr)
        (rest : (u : System k) → Reach k frame u → nodes u.os.links ≡ xs → Empties u) where
      out_of :
          (s : System k) (i : ℕ) (val err : ℤ)
          → Reach k frame s
          → nodes s.os.links ≡ frame i ∷ xs
          → s.pc i ≡ leaving val err
          → Empties s
      out_of s i val err r e here =
          let u = moved k s (timedwait_leave k true val err (frame i) s.os).0 i outside in
          let (t, way, reach, done) =
            rest u (later r (leave i val err true here)) (left_lem s i val err xs e) in
          (t, exit i val err true here way, reach, done)

      first :
          (s : System k) (i : ℕ)
          → Reach k frame s
          → nodes s.os.links ≡ frame i ∷ xs
          → waits (s.pc i) ≡ true
          → (p : Pc) → s.pc i ≡ p
          → Empties s
      first s i r e w outside here = absurd (cc (w, ap waits here))
      first s i r e w (leaving val err) here = out_of s i val err r e here
      first s i r e w (asleep c val) here =
          let u = moved k s s.os i (leaving val (pos 0)) in
          let now : u.pc i ≡ leaving val (pos 0) = rw ((==_iff i i).1 refl) refl in
          let (t, way, reach, done) =
            out_of u i val (pos 0) (later r (expire i c val here)) e now in
          (t, timeout i c val here way, reach, done)

    drain : (xs : List Ptr) (s : System k) → Reach k frame s → nodes s.os.links ≡ xs → Empties s
    drain [] s r e = (s, stay s, r, e)
    drain (x ∷ xs) s r e =
        let (i, at, w) =
          (Reach-Inv k frame fr r).live x (rw e (ground (arith, (==_iff x x).1 refl))) in
        first xs (drain xs) s i r (e ∙ ap (λ a. a ∷ xs) at) w (s.pc i) refl

    -- From every state that can be reached, timeouts and ways out alone lead to a state that can be
    -- reached, in which the list is empty and no thread is inside `nrf_modem_os_timedwait`. The
    -- threads' records have addresses of their own.
    pub Reach-Exodus :
        (s : System k)
        → Reach k frame s
        → (t : System k) × Exodus s t × (nodes t.os.links ≡ []) × ((i : ℕ) → waits (t.pc i) ≡ false)
    Reach-Exodus s r =
        let (t, way, reach, done) = drain (nodes s.os.links) s r refl in
        (t, way, done, λ i. sym ((Reach-Inv k frame fr reach).listed i) ∙ rw done refl)
