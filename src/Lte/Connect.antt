-- ===== src/Lte/Connect.antt =====
-- `lte_connect` of src/main.c: the order of the modem's commands and of what uses the network.
use nrf.Base.{
  ℕ, ◌≡◌, Bool, true, false, List, [], ◌∷◌, ◌++◌, not, ◌&&◌, ◌||◌, arith, ◌==◌, if◌then◌else◌,
}
use nrf.Base.Int.{ℤ, pos, negsuc, is_zero}
use nrf.Base.Run.{Run, ok, ◌>>=◌, Returns}

-- What `lte_connect` does. A command is named for its variable in the source, and
-- `data_profile` for its text; the results of the commands are not looked at.
pub data Action : Type 0 where
  flight systm_mode catm1_gps magpio coex0 psm_req cind edrx_req data_profile lock_bands subscribe
        normal :
      Action
  lte_disable edrx_disable gps_enable : Action
  wait signal ntp server http : Action
  pause : (usec : ℕ) → Action

abbrev preparation : List Action
preparation =
    flight ∷ systm_mode ∷ catm1_gps ∷ magpio ∷ coex0 ∷ psm_req ∷ cind ∷ edrx_req ∷ data_profile
    ∷ lock_bands ∷ subscribe ∷ normal ∷ wait ∷ []

-- What `lte_connect` does when the wait has ended with 0, or with another result.
abbrev pub connect_actions : (registered : Bool) → List Action
connect_actions registered =
    preparation
    ++ ((if registered then signal ∷ ntp ∷ server ∷ [] else [])
        ++ (http
            ∷ pause 500000
            ∷ lte_disable
            ∷ pause 500000
            ∷ edrx_disable
            ∷ pause 500000
            ∷ gps_enable
            ∷ pause 500000
            ∷ []))

-- With the result of `lte_wait`.
unfoldable pub lte_connect : Run ℕ → Run (List Action)
lte_connect waited = waited >>= λ r. ok (connect_actions (r == 0))

-- Whether the modem's LTE part and its satellite receiver are on.
pub record Radio : Type 0 where
  pub lte : Bool
  pub gnss : Bool

-- `lte_at`: the result is that of `nrf_modem_at_printf`, and whether a line is printed. `lte_signal`
-- likewise for `nrf_modem_at_cmd_async`.
abbrev pub lte_at : (err : ℤ) → ℤ × Bool
lte_at err = (err, not (is_zero err))

abbrev pub lte_signal : (err : ℤ) → ℤ
lte_signal err = if is_zero err then pos 0 else negsuc 0

-- AT+CFUN=4 switches both off, 1 both on, 20 switches LTE off and 31 the receiver on, where the modem
-- accepts the command: `answer` is its result.
abbrev pub after : (answer : Action → ℤ) → Action → Radio → Radio
after answer flight r =
    if is_zero (lte_at (answer flight)).0 then record { lte = false; gnss = false } else r
after answer normal r =
    if is_zero (lte_at (answer normal)).0 then record { lte = true; gnss = true } else r
after answer lte_disable r =
    if is_zero (lte_at (answer lte_disable)).0 then record r { lte = false } else r
after answer gps_enable r =
    if is_zero (lte_at (answer gps_enable)).0 then record r { gnss = true } else r
after answer _ r = r

-- The commands that the modem takes only while LTE is off are sent then, and the network is used
-- only while LTE is on.
abbrev pub is_allowed : Action → Radio → Bool
is_allowed catm1_gps r = not r.lte
is_allowed wait r = r.lte
is_allowed signal r = r.lte
is_allowed ntp r = r.lte
is_allowed server r = r.lte
is_allowed http r = r.lte
is_allowed _ r = true

unfoldable pub all_allowed : (answer : Action → ℤ) → List Action → Radio → Bool
all_allowed answer [] r = true
all_allowed answer (a ∷ later) r = is_allowed a r && all_allowed answer later (after answer a r)

unfoldable pub final : (answer : Action → ℤ) → List Action → Radio → Radio
final answer [] r = r
final answer (a ∷ later) r = final answer later (after answer a r)

-- Whether the modem accepts a command.
abbrev pub accepted : (answer : Action → ℤ) → Action → Bool
accepted answer a = is_zero (answer a)

abbrev pub lte_end : (answer : Action → ℤ) → Radio → Bool
lte_end answer r =
    not (accepted answer lte_disable)
    && (accepted answer normal || (not (accepted answer flight) && r.lte))

abbrev pub gnss_end : (answer : Action → ℤ) → Radio → Bool
gnss_end answer r =
    accepted answer gps_enable
    || (accepted answer normal || (not (accepted answer flight) && r.gnss))

-- From any state of the radio, for any result of the wait and any answers of the modem, LTE is off at
-- the end unless the command that switches it off was refused, and then it is on if it was switched
-- on or had not been switched off; the satellite receiver is on if its command or the switch to the
-- normal mode was accepted, and otherwise as before if it had not been switched off.
pub lte_connect-final :
    (r : ℕ) (answer : Action → ℤ) (radio : Radio)
    → Returns
        (λ actions.
          final answer actions radio
          ≡ record { lte = lte_end answer radio; gnss = gnss_end answer radio })
        (lte_connect (ok r))
unfolding lte_connect final
lte_connect-final r answer radio = ground arith

-- If the modem accepts the switches to flight mode and to normal mode, then for any result of the wait
-- the system mode is set while LTE is off, and what uses the network runs while LTE is on.
pub lte_connect-allowed :
    (r : ℕ) (answer : Action → ℤ) (radio : Radio)
    → accepted answer flight ≡ true
    → accepted answer normal ≡ true
    → Returns (λ actions. all_allowed answer actions radio ≡ true) (lte_connect (ok r))
unfolding lte_connect all_allowed
lte_connect-allowed r answer radio f n = ground arith

-- Whether an action stands in a sequence.
unfoldable pub uses_ntp : List Action → Bool
uses_ntp [] = false
uses_ntp (ntp ∷ later) = true
uses_ntp (_ ∷ later) = uses_ntp later

unfoldable pub uses_http : List Action → Bool
uses_http [] = false
uses_http (http ∷ later) = true
uses_http (_ ∷ later) = uses_http later

-- The time is asked for exactly if the result of the wait is 0, but the HTTP transfer is started
-- for every result.
pub lte_connect-unregistered :
    (r : ℕ)
    → Returns
        (λ actions. (uses_ntp actions ≡ (r == 0)) × (uses_http actions ≡ true))
        (lte_connect (ok r))
unfolding lte_connect uses_ntp uses_http
lte_connect-unregistered r = ground arith
