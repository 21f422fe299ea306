-- ===== src/Lte/Examples.antt =====
-- Runs of the serial input and of the wait for a network, and the theorems about them at inputs.
use nrf.Base.{
  replicate, ◌⊎◌, ℕ, zero, suc, ◌<◌, ◌≡◌, refl, Option, none, some, true, false, ◌++◌, List, [],
  ◌∷◌, inl, inr, arith,
}
use nrf.Base.Int.{ℤ, pos, negsuc}
use nrf.Base.Run.{ok, undefined, out_of_fuel, Returns}
use nrf.Lte.Text.{strncpy, scan, signed, skip_spaces, digits, is_plain-Plain}
use nrf.Lte.Signal.{
  rsrp_of, lte_signal_quality_decode, lte_signal_quality_decode-reply, same, check_ipaddr,
  check_ipaddr-fields, reply, cgdcont_0, quoted_ip, quoted_empty,
}
use nrf.Lte.Fields.{IsText, is_text-IsText, lte_signal_quality_decode-undefined}
use nrf.Lte.Connect.{
  Action, lte_disable, Radio, lte_connect, all_allowed, final, uses_ntp, uses_http,
  lte_connect-final, lte_connect-allowed, lte_connect-unregistered,
}
use nrf.Lte.Main.{main, Good, main-Good}
use nrf.Gps.Start.{Gnss}
use nrf.Math.Decompose.{math_test}
use nrf.Net.Calls.{Modem}
use nrf.Lte.Input.{nrf_input, inputs, kept, get, cleared, inputs-cleared, has_return}
use nrf.Lte.Wait.{
  Settles, on_status, wait_loop, lte_wait, lte_wait-Settles, lte_wait-unscanned, lte_wait-forever,
}
use nrf.Lte.Cut.{cut}
use nrf.Lte.Address.{check_ipaddr-has_address}
use nrf.Lte.Quality.{lte_signal_quality_decode-fields, lte_signal_quality_decode-overrun}

program : Unit {0}
unfolding rsrp_of nrf_input inputs kept get has_return on_status wait_loop lte_wait strncpy scan
    signed skip_spaces digits lte_signal_quality_decode same check_ipaddr lte_connect all_allowed
    final uses_ntp uses_http
program = tt

-- "AT", a carriage return, and "I" with a higher byte that is dropped.
abbrev line : List ℕ
line = 65 ∷ 84 ∷ 13 ∷ 329 ∷ []

abbrev empty : ℕ → ℕ
empty i = 0

line_read : (inputs line (cleared empty)).buffer 2 ≡ 73
unfolding program
line_read = refl

inputs-cleared_example :
    ((inputs line (cleared empty)).buffer_fill ≡ 3)
    × ((inputs line (cleared empty)).buffer 2 ≡ 73)
    × ((inputs line (cleared empty)).ready_to_send ≡ true)
unfolding program
inputs-cleared_example = inputs-cleared line empty 2

-- Not registered, an answer that cannot be scanned, searching, and roaming from then on.
abbrev polls : ℕ → Option ℕ
polls zero = some 0
polls (suc zero) = none
polls (suc (suc zero)) = some 2
polls (suc (suc (suc i))) = some 5

early : (j : ℕ) → j < 3 → (t : ℕ) → polls j ≡ some t → (q : ℕ) → ¬ Settles t q
early zero lt t eq q h = ground arith
early (suc zero) lt t eq q h = ground arith
early (suc (suc zero)) lt t eq q h = ground arith
early (suc (suc (suc j))) lt t eq q h = absurd (omega arith)

lte_wait-Settles_example : lte_wait polls 10 ≡ ok 0
lte_wait-Settles_example =
    lte_wait-Settles polls 3 10 0 5 0 refl early refl (inl (refl, inr refl)) (omega arith)

unscanned_first : lte_wait (λ i. none) 10 ≡ undefined
unscanned_first = lte_wait-unscanned (λ i. none) 9 refl

-- "+C" and five fields, the last of them followed by a line's end.
abbrev cesq : List ℕ
cesq = reply (43 ∷ 67 ∷ []) (57 ∷ []) [] (50 ∷ []) 21 60 (13 ∷ [])

lte_signal_quality_decode-reply_example : lte_signal_quality_decode cesq ≡ ok (pos 10, pos 81)
lte_signal_quality_decode-reply_example =
    lte_signal_quality_decode-reply (43 ∷ 67 ∷ []) (57 ∷ []) [] (50 ∷ []) 21 60 (13 ∷ [])
      (is_plain-Plain (43 ∷ 67 ∷ []) refl) (is_plain-Plain (57 ∷ []) refl) (is_plain-Plain [] refl)
      (is_plain-Plain (50 ∷ []) refl) (omega arith) (omega arith) (is_plain-Plain (13 ∷ []) refl)
      refl (omega arith)

-- A reply with too few fields is followed through a null pointer.
no_fields : lte_signal_quality_decode (69 ∷ []) ≡ undefined
unfolding program
no_fields = refl

-- "ERROR" has one field.
abbrev error_reply : List ℕ
error_reply = 69 ∷ 82 ∷ 82 ∷ 79 ∷ 82 ∷ []

a_field_missing : lte_signal_quality_decode error_reply ≡ undefined
unfolding IsText
a_field_missing =
    lte_signal_quality_decode-undefined error_reply
      (omega arith, (omega arith, (omega arith, (omega arith, (omega arith, tt))))) (omega arith)
      (omega arith)

no_address :
    check_ipaddr
      (cgdcont_0 ++ 44 ∷ (quoted_ip ++ 44 ∷ (quoted_empty ++ 44 ∷ (quoted_empty ++ 0 ∷ []))))
    ≡ ok 0
unfolding same
no_address =
    check_ipaddr-fields cgdcont_0 quoted_ip quoted_empty quoted_empty
      (is_plain-Plain cgdcont_0 refl) (is_plain-Plain quoted_ip refl)
      (is_plain-Plain quoted_empty refl) (is_plain-Plain quoted_empty refl)

-- The fifth number is negative, and a seventh field follows.
abbrev seven : List ℕ
seven = 44 ∷ 44 ∷ 44 ∷ 44 ∷ 45 ∷ 51 ∷ 44 ∷ 54 ∷ 48 ∷ 44 ∷ 120 ∷ []

lte_signal_quality_decode-fields_example : lte_signal_quality_decode seven ≡ ok (pos 21, pos 81)
unfolding cut program
lte_signal_quality_decode-fields_example =
    lte_signal_quality_decode-fields seven (is_text-IsText seven refl) (omega arith)

-- A reply of 128 letters and more.
abbrev letters : List ℕ
letters = replicate 128 120

lte_signal_quality_decode-overrun_example :
    lte_signal_quality_decode (letters ++ 44 ∷ 120 ∷ []) ≡ undefined
lte_signal_quality_decode-overrun_example =
    lte_signal_quality_decode-overrun letters (44 ∷ 120 ∷ []) (is_text-IsText letters refl) refl
      (omega arith)

-- A context with an address, and a fifth field.
abbrev with_address : List ℕ
with_address =
    cgdcont_0
    ++ 44 ∷ (quoted_ip ++ 44 ∷ (34 ∷ 105 ∷ 34 ∷ [] ++ 44 ∷ (34 ∷ 49 ∷ 34 ∷ [] ++ 44 ∷ 48 ∷ [])))

check_ipaddr-has_address_example : check_ipaddr (with_address ++ 0 ∷ 0 ∷ []) ≡ ok 1
unfolding cut same
check_ipaddr-has_address_example =
    check_ipaddr-has_address with_address (0 ∷ []) (is_text-IsText with_address refl)

abbrev off : Radio
off = record { lte = false; gnss = false }

-- A modem that refuses to switch LTE off.
abbrev keeps_lte : Action → ℤ
keeps_lte lte_disable = negsuc 0
keeps_lte a = pos 0

lte_connect-final_example :
    Returns
      (λ actions. final keeps_lte actions off ≡ record { lte = true; gnss = true })
      (lte_connect (ok 1))
lte_connect-final_example = lte_connect-final 1 keeps_lte off

allowed_at_once : Returns (λ actions. all_allowed keeps_lte actions off ≡ true) (lte_connect (ok 0))
allowed_at_once = lte_connect-allowed 0 keeps_lte off refl refl

-- No LTE and no server, but the modem's other answers are good.
abbrev unplugged : Modem
unplugged = record {
  getaddrinfo_result = negsuc 0;
  socket_result = pos 1;
  bind_to_pdn_result = pos 0;
  send_timeout_result = pos 0;
  recv_timeout_result = pos 0;
  bind_result = pos 0;
  connect_result = pos 0;
  send_result = pos 0;
  recv_result = pos 0;
}

abbrev receiver : Gnss
receiver = record {
  power_mode_result = pos 0;
  fix_retry_result = pos 0;
  fix_interval_result = pos 0;
  nmea_mask_result = pos 0;
}

-- Denied at the third poll, so the server is not asked for; then the receiver is started.
abbrev denied : ℕ → Option ℕ
denied zero = some 2
denied (suc zero) = none
denied (suc (suc j)) = some 3

before_denied : (j : ℕ) → j < 2 → (t : ℕ) → denied j ≡ some t → (q : ℕ) → ¬ Settles t q
before_denied zero lt t eq q h = ground arith
before_denied (suc zero) lt t eq q h = ground arith
before_denied (suc (suc j)) lt t eq q h = absurd (omega arith)

main-Good_example :
    Returns
      (Good (λ a. pos 0) off true true)
      (main 0 1 9 (pos 0) denied 3 unplugged false (λ i. 7) receiver)
    ⊎ (math_test (λ i. 7) ≡ undefined)
unfolding program
main-Good_example =
    main-Good 0 1 9 (pos 0) denied 2 3 2 3 1 unplugged false (λ i. 7) receiver (λ a. pos 0) off
      (refl, refl, refl, refl) refl before_denied refl (inr (refl, inl refl)) (omega arith)

page_after_denial :
    Returns
      (λ actions. (uses_ntp actions ≡ false) × (uses_http actions ≡ true))
      (lte_connect (ok 1))
page_after_denial = lte_connect-unregistered 1

searching : (j t : ℕ) → some 2 ≡ some t → (q : ℕ) → ¬ Settles t q
searching j t eq q h = ground arith

never_settled : lte_wait (λ i. some 2) 1000 ≡ out_of_fuel
never_settled = lte_wait-forever (λ i. some 2) 1000 2 refl searching
