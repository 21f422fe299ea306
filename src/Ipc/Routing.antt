-- ===== src/Ipc/Routing.antt =====
-- What the driver is left with after `nrfx_ipc_config_load` and `nrfx_ipc_uninit`: the last value
-- that each channel was given.
use nrf.Base.{
  ℕ, zero, suc, ◌+◌, ◌==◌, ◌≡◌, refl, ap, ◌∙◌, ◌&&◌, Bool, true, false, Option, none, some, List,
  [], ◌∷◌, ◌++◌, arith, leb, ltb, if◌then◌else◌,
}
use nrf.Ipc.Driver.{
  Config, Call, Calls, configure_send, configure_recv, inten, inten_chanmask, send_loop, recv_loop,
  nrfx_ipc_config_load, nrfx_ipc_uninit,
}

-- The routing of one channel: the value of its send and of its receive configuration, whether a
-- callback is installed, and the last mask written with its direction.
pub record Route : Type 0 where
  pub send : Option ℕ
  pub recv : Option (ℕ × Bool)
  pub mask : Option (ℕ × Bool)

abbrev pub route : Option ℕ → Option (ℕ × Bool) → Option (ℕ × Bool) → Route
route s r m = record { send = s; recv = r; mask = m }

-- The routing of channel `j` after the calls, from the routing before them.
pub routed : (j : ℕ) → List Call → Route → Route
routed j [] r = r
routed j (configure_send i v ∷ calls) r =
    routed j calls (if i == j then route (some v) r.recv r.mask else r)
routed j (configure_recv i v c ∷ calls) r =
    routed j calls (if i == j then route r.send (some (v, c)) r.mask else r)
routed j (inten i on ∷ calls) r = routed j calls r
routed j (inten_chanmask m on ∷ calls) r = routed j calls (route r.send r.recv (some (m, on)))

routed-append :
    (j : ℕ) (xs ys : List Call) (r : Route) → routed j (xs ++ ys) r ≡ routed j ys (routed j xs r)
unfolding routed
routed-append j [] ys r = refl
routed-append j (configure_send i v ∷ xs) ys r = routed-append j xs ys _
routed-append j (configure_recv i v c ∷ xs) ys r = routed-append j xs ys _
routed-append j (inten i on ∷ xs) ys r = routed-append j xs ys r
routed-append j (inten_chanmask m on ∷ xs) ys r = routed-append j xs ys _

module _ (j : ℕ) (f : ℕ → ℕ) where
  routed-send_loop :
      (n i : ℕ) (rest : List Call) (r : Route)
      → routed j (send_loop n i f ++ rest) r
        ≡ routed j rest (if leb i j && ltb j (i + n) then route (some (f j)) r.recv r.mask else r)
  unfolding routed send_loop
  routed-send_loop zero i rest r = ap (routed j rest) (ground arith)
  routed-send_loop (suc n) i rest r =
      routed-send_loop n (i + 1) rest _ ∙ ap (routed j rest) (ground arith)

  routed-recv_loop :
      (c : Bool) (n i : ℕ) (rest : List Call) (r : Route)
      → routed j (recv_loop n i f c ++ rest) r
        ≡ routed j rest
            (if leb i j && ltb j (i + n) then route r.send (some (f j, c)) r.mask else r)
  unfolding routed recv_loop
  routed-recv_loop c zero i rest r = ap (routed j rest) (ground arith)
  routed-recv_loop c (suc n) i rest r =
      routed-recv_loop c n (i + 1) rest _ ∙ ap (routed j rest) (ground arith)

-- The routing after the calls of a function. With NULL for the device the driver is asked for what
-- nothing is known of: `none`.
pub driven : (j : ℕ) → Calls → Route → Option Route
driven j c r = if c.dev == 0 then none else some (routed j c.calls r)

pub driven-nrfx_ipc_config_load :
    (dev : ℕ) (c : Config) (j : ℕ) (r : Route)
    → driven j (nrfx_ipc_config_load dev c) r ≡ (
        if dev == 0
        then none
        else if ltb j 8
        then some (
            route
              (some (c.send_task_config j))
              (some (c.receive_event_config j, true))
              (some (c.receive_events_enabled, true)))
        else some (route r.send r.recv (some (c.receive_events_enabled, true))))
unfolding nrfx_ipc_config_load routed driven
driven-nrfx_ipc_config_load dev c j r =
    let found =
      routed-send_loop j c.send_task_config 8 0
        (recv_loop 8 0 c.receive_event_config true
          ++ inten_chanmask c.receive_events_enabled true ∷ [])
        r
      ∙ routed-recv_loop j c.receive_event_config true 8 0 _ _ in
    ap (λ q. if dev == 0 then none else some q) found ∙ ground arith

uninit_route :
    (dev j : ℕ) (r : Route)
    → routed j (nrfx_ipc_uninit dev).calls r ≡ (
        if ltb j 8
        then route (some 0) (some (0, false)) (some (0xffffffff, false))
        else route r.send r.recv (some (0xffffffff, false)))
unfolding nrfx_ipc_uninit routed
uninit_route dev j r =
    routed-send_loop j (λ i. 0) 8 0 _ r ∙ routed-recv_loop j (λ i. 0) false 8 0 _ _ ∙ ground arith

-- `nrfx_ipc_uninit` undoes any configuration of a device that is found: each of the eight channels is
-- left with both values 0 and no callback, and the interrupts of all 32 channels have been disabled.
pub routed-nrfx_ipc_uninit :
    (dev : ℕ) (c : Config) (j : ℕ) (r : Route)
    → ltb j 8 ≡ true
    → routed j ((nrfx_ipc_config_load dev c).calls ++ (nrfx_ipc_uninit dev).calls) r
      ≡ route (some 0) (some (0, false)) (some (0xffffffff, false))
routed-nrfx_ipc_uninit dev c j r low =
    routed-append j (nrfx_ipc_config_load dev c).calls (nrfx_ipc_uninit dev).calls r
    ∙ (rw low at (uninit_route dev j (routed j (nrfx_ipc_config_load dev c).calls r)))
