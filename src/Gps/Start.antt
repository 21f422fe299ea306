-- ===== src/Gps/Start.antt =====
-- `gps_init` of src/gps.c.
use nrf.Base.{ℕ, ◌≡◌, Bool, true, false, List, [], ◌∷◌, not, ◌&&◌, arith, if◌then◌else◌}
use nrf.Base.Int.{ℤ, pos, negsuc, is_zero}

pub data GnssCall : Type 0 where
  event_handler_set : GnssCall
  power_mode_set fix_retry_set fix_interval_set nmea_mask_set : (value : ℕ) → GnssCall
  start : GnssCall

-- The library's answers in one run; the result of the start is not looked at.
pub record Gnss : Type 0 where
  pub power_mode_result : ℤ
  pub fix_retry_result : ℤ
  pub fix_interval_result : ℤ
  pub nmea_mask_result : ℤ

-- The result and the calls; `psm_disabled` and `gga_mask` are NRF_MODEM_GNSS_PSM_DISABLED and
-- NRF_MODEM_GNSS_NMEA_GGA_MASK.
unfoldable pub gps_init : (psm_disabled gga_mask : ℕ) → Gnss → ℤ × List GnssCall
gps_init psm_disabled gga_mask g =
    let set = power_mode_set psm_disabled in
    if not (is_zero g.power_mode_result)
    then (negsuc 0, event_handler_set ∷ set ∷ [])
    else if not (is_zero g.fix_retry_result)
    then (negsuc 0, event_handler_set ∷ set ∷ fix_retry_set 0 ∷ [])
    else if not (is_zero g.fix_interval_result)
    then (negsuc 0, event_handler_set ∷ set ∷ fix_retry_set 0 ∷ fix_interval_set 1 ∷ [])
    else if not (is_zero g.nmea_mask_result)
    then (
      negsuc 0,
      event_handler_set ∷ set ∷ fix_retry_set 0 ∷ fix_interval_set 1 ∷ nmea_mask_set gga_mask ∷ [],
    )
    else (
      pos 0,
      event_handler_set
          ∷ set
          ∷ fix_retry_set 0
          ∷ fix_interval_set 1
          ∷ nmea_mask_set gga_mask
          ∷ start
          ∷ [],
    )

-- The receiver's settings as calls make them; a failed call makes none.
pub record Settings : Type 0 where
  pub handled : Bool
  pub started : Bool

abbrev after : GnssCall → Settings → Settings
after event_handler_set s = record s { handled = true }
after start s = record s { started = true }
after _ s = s

unfoldable pub settings : List GnssCall → Settings → Settings
settings [] s = s
settings (c ∷ calls) s = settings calls (after c s)

abbrev pub reset : Settings
reset = record { handled = false; started = false }

-- `gps_init` returns 0 if each of the four settings was accepted and -1 otherwise. The receiver is
-- started exactly where it returns 0, and the event handler is in place in either case.
pub gps_init-started :
    (psm_disabled gga_mask : ℕ) (g : Gnss)
    → let accepted =
        is_zero g.power_mode_result
        && (is_zero g.fix_retry_result
            && (is_zero g.fix_interval_result && is_zero g.nmea_mask_result)) in
      ((gps_init psm_disabled gga_mask g).0 ≡ (if accepted then pos 0 else negsuc 0))
      × ((settings (gps_init psm_disabled gga_mask g).1 reset).started ≡ accepted)
      × ((settings (gps_init psm_disabled gga_mask g).1 reset).handled ≡ true)
unfolding gps_init settings
gps_init-started psm_disabled gga_mask g = (ground arith, ground arith, ground arith)
