-- ===== src/Dect.antt =====
-- src/dect.c: the start of the DECT radio, as its calls of the modem library and its lines.
mod Examples
use nrf.Base.{List, [], ◌∷◌}
use nrf.Base.Int.{ℤ, pos}

module _ (E : Type 0) where
  pub data EventLine : Type 0 where
    handled : (event : E) → EventLine

  pub data DectCall : Type 0 where
    event_handler_set : (handler : E → List EventLine) → DectCall
    phy_init : DectCall
    init_return : (error : ℤ) → DectCall

  abbrev pub dect_handler : (event : E) → List EventLine
  dect_handler event = handled event ∷ []

  -- `error` is the result of `nrf_modem_dect_phy_init`.
  abbrev pub dect_main : (error : ℤ) → ℤ × List DectCall
  dect_main error = (pos 0, event_handler_set dect_handler ∷ phy_init ∷ init_return error ∷ [])
