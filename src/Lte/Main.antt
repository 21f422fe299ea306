-- ===== src/Lte/Main.antt =====
-- `main` of src/main.c: the order of the parts, from the start to the endless loop.
use nrf.Base.{
  ◌⊎◌, ◌<◌, Option, some, ℕ, ◌≡◌, refl, Bool, true, false, Bool-cases, inl, inr, List, [], ◌∷◌,
  ◌++◌, map, not, ◌&&◌, arith, ◌==◌, if◌then◌else◌,
}
use nrf.Base.Int.{ℤ, is_zero}
use nrf.Base.Run.{Run, ok, undefined, ◌>>=◌, Returns, Ends-cases}
use nrf.Gps.Start.{GnssCall, Gnss, gps_init}
use nrf.Lte.Wait.{lte_wait, Settles, lte_wait-Settles}
use nrf.Lte.Connect.{
  Action, flight, normal, lte_disable, gps_enable, server, http, connect_actions, lte_connect,
  Radio, after, is_allowed, accepted,
}
use nrf.Math.Decompose.{math_test}
use nrf.Math.Search.{math_test-Ends}
use nrf.Net.Calls.{Modem}
use nrf.Net.Http.{Outcome, panicked, returned}
use nrf.Net.Server.{connect_to_server}

pub data Event : Type 0 where
  register_callback modem_init notif_handler clear_input factor : Event
  lte : Action → Event
  gnss : GnssCall → Event

-- The program stops in a panic, or is in its last loop.
pub data End : Type 0 where
  panics idles : End

abbrev has_panicked : Outcome → Bool
has_panicked panicked = true
has_panicked (returned r) = false

-- The actions up to one that panics, and whether there was none.
unfoldable pub perform : (server_panics http_panics : Bool) → List Action → Bool × List Action
perform s h [] = (true, [])
perform s h (server ∷ later) =
    if s then (false, server ∷ []) else (let r = perform s h later in (r.0, server ∷ r.1))
perform s h (http ∷ later) =
    if h then (false, http ∷ []) else (let r = perform s h later in (r.0, http ∷ r.1))
perform s h (a ∷ later) = let r = perform s h later in (r.0, a ∷ r.1)

-- `main` from the handler on, with the actions of `lte_connect`.
unfoldable pub main_body :
    (psm_disabled gga_mask : ℕ) (server_panics http_panics : Bool) (rand : ℕ → ℕ) (g : Gnss)
    → List Action
    → Run (End × List Event)
main_body psm_disabled gga_mask server_panics http_panics rand g actions =
    let done = perform server_panics http_panics actions in
    let events = register_callback ∷ modem_init ∷ notif_handler ∷ clear_input ∷ map lte done.1 in
    if not done.0
    then ok (panics, events)
    else (math_test rand >>= λ r.
        ok (idles, events ++ factor ∷ map gnss (gps_init psm_disabled gga_mask g).1))

-- `uart` is the result of the device lookup, `init_error` that of `nrf_modem_init`, and `polls` are
-- the answers to `lte_wait`, of which it takes at most `fuel`; `m` has the modem's answers to
-- `connect_to_server`, `http_panics` says whether `httpc_main` stops the system, and `g` has the
-- answers to `gps_init`.
unfoldable pub main :
    (psm_disabled gga_mask : ℕ) (uart : ℕ) (init_error : ℤ) (polls : ℕ → Option ℕ) (fuel : ℕ)
    (m : Modem) (http_panics : Bool) (rand : ℕ → ℕ) (g : Gnss)
    → Run (End × List Event)
main psm_disabled gga_mask uart init_error polls fuel m http_panics rand g =
    if uart == 0
    then ok (panics, [])
    else if not (is_zero init_error)
    then ok (panics, register_callback ∷ modem_init ∷ [])
    else (lte_connect (lte_wait polls fuel)
        >>= main_body psm_disabled gga_mask (has_panicked (connect_to_server m).outcome) http_panics
            rand g)

-- The radio after an event, and whether the event finds it as it needs it: the satellite receiver is
-- started while LTE is off and the receiver is on.
abbrev radio_after : (answer : Action → ℤ) → Event → Radio → Radio
radio_after answer (lte a) r = after answer a r
radio_after answer _ r = r

abbrev is_ready : Event → Radio → Bool
is_ready (lte a) r = is_allowed a r
is_ready (gnss GnssCall.start) r = not r.lte && r.gnss
is_ready _ r = true

unfoldable pub all_ready : (answer : Action → ℤ) → List Event → Radio → Bool
all_ready answer [] r = true
all_ready answer (e ∷ events) r = is_ready e r && all_ready answer events (radio_after answer e r)

unfoldable pub starts_gnss : List Event → Bool
starts_gnss [] = false
starts_gnss (gnss GnssCall.start ∷ events) = true
starts_gnss (_ ∷ events) = starts_gnss events

-- What a run of `main` comes to.
pub record Good (answer : Action → ℤ) (radio : Radio) (reaches accepts : Bool)
    (r : End × List Event) : Type 0 where
  pub end : r.0 ≡ (if reaches then idles else panics)
  pub ready : all_ready answer r.1 radio ≡ true
  pub started : starts_gnss r.1 ≡ (reaches && accepts)

-- Whether all of the receiver's settings are accepted.
abbrev pub accepts : Gnss → Bool
accepts g =
    is_zero g.power_mode_result
    && (is_zero g.fix_retry_result && (is_zero g.fix_interval_result && is_zero g.nmea_mask_result))

abbrev pub reaches_gps : (uart : ℕ) (init_error : ℤ) (r : ℕ) (m : Modem) (http_panics : Bool) → Bool
reaches_gps uart init_error r m http_panics =
    not (uart == 0)
    && (is_zero init_error
        && (not ((r == 0) && has_panicked (connect_to_server m).outcome) && not http_panics))

-- The modem accepts the commands that switch its parts.
abbrev pub Obeys : (answer : Action → ℤ) → Type 0
Obeys answer =
    (accepted answer flight ≡ true)
    × (accepted answer normal ≡ true)
    × (accepted answer lte_disable ≡ true)
    × (accepted answer gps_enable ≡ true)

module _ (psm_disabled gga_mask : ℕ) (g : Gnss) (answer : Action → ℤ) where
  gps_events :
      (all_ready answer
          (map gnss (gps_init psm_disabled gga_mask g).1)
          (record { lte = false; gnss = true })
        ≡ true)
      × (starts_gnss (map gnss (gps_init psm_disabled gga_mask g).1) ≡ accepts g)
  unfolding gps_init all_ready starts_gnss
  gps_events = (ground arith, ground arith)

  -- Unless it panics before, it ends as `math_test` does.
  body-Good :
      (registered s h : Bool) (rand : ℕ → ℕ) (radio : Radio)
      → Obeys answer
      → Returns
          (Good answer radio (not (registered && s) && not h) (accepts g))
          (main_body psm_disabled gga_mask s h rand g (connect_actions registered))
        ⊎ (math_test rand ≡ undefined)
  unfolding main_body perform all_ready starts_gnss
  body-Good true true h rand radio (a, b, c, d) =
      inl record { end = refl; ready = ground arith; started = refl }
  body-Good true false true rand radio (a, b, c, d) =
      inl record { end = refl; ready = ground arith; started = refl }
  body-Good false s true rand radio (a, b, c, d) =
      inl record { end = ground arith; ready = ground arith; started = ground arith }
  body-Good true false false rand radio (a, b, c, d) =
      elim (Ends-cases _ (math_test rand) (math_test-Ends rand)) [
        | inl (r, e) ↦ inl (
            rw e
              (record { end = refl; ready = rw (a, b, c, d) gps_events.0; started = gps_events.1 }))
        | inr e ↦ inr e
      ]
  body-Good false s false rand radio (a, b, c, d) =
      elim (Ends-cases _ (math_test rand) (math_test-Ends rand)) [
        | inl (r, e) ↦ inl (
            rw e
              (record { end = refl; ready = rw (a, b, c, d) gps_events.0; started = gps_events.1 }))
        | inr e ↦ inr e
      ]

-- For every modem that accepts the commands which switch its parts, and whose answer number `k` is the
-- first that settles the wait for a network, with a first answer that can be scanned and fuel for
-- all these: `main` comes to its end, unless `math_test` is undefined for the random numbers. It idles
-- exactly if the serial port is found, the modem library starts, the server can
-- be connected to if there is a network, and the HTTP transfer does not panic; otherwise it panics.
-- The satellite receiver is started exactly if it idles and the receiver's settings are accepted. At
-- each of its steps the radio is in the state that the step needs: the system mode is set with LTE
-- off, the network is used with LTE on, and the receiver is started with LTE off and its part on.
pub main-Good :
    (psm_disabled gga_mask uart : ℕ) (init_error : ℤ) (polls : ℕ → Option ℕ) (k fuel first t r : ℕ)
    (m : Modem) (http_panics : Bool) (rand : ℕ → ℕ) (g : Gnss) (answer : Action → ℤ) (radio : Radio)
    → Obeys answer
    → polls 0 ≡ some first
    → ((j : ℕ) → j < k → (u : ℕ) → polls j ≡ some u → (q : ℕ) → ¬ Settles u q)
    → polls k ≡ some t
    → Settles t r
    → k < fuel
    → Returns
        (Good answer radio (reaches_gps uart init_error r m http_panics) (accepts g))
        (main psm_disabled gga_mask uart init_error polls fuel m http_panics rand g)
      ⊎ (math_test rand ≡ undefined)
unfolding main lte_connect all_ready starts_gnss
main-Good psm_disabled gga_mask uart init_error polls k fuel first t r m http_panics rand g answer
      radio obeys start before at settled enough =
    let s = has_panicked (connect_to_server m).outcome in
    let rest = body-Good psm_disabled gga_mask g answer (r == 0) s http_panics rand radio obeys in
    let waited : lte_wait polls fuel ≡ ok r =
      lte_wait-Settles polls k fuel first t r start before at settled enough in
    elim (Bool-cases (uart == 0)) [
      | inl e ↦ rw (e, main) (inl record { end = refl; ready = refl; started = refl })
      | inr e ↦ elim (Bool-cases (is_zero init_error)) [
        | inl f ↦ rw (e, f, waited, main) rest
        | inr f ↦ rw (e, f, main) (inl record { end = refl; ready = refl; started = refl })
      ]
    ]
