-- ===== src/Lte/Handlers.antt =====
-- The handlers that src/main.c gives to the modem library, as the lines that they print.
use nrf.Base.{ℕ, List, [], ◌∷◌}

pub data HandlerLine (Text : Type 0) : Type 0 where
  fault : (reason program_counter : ℕ) → HandlerLine Text
  implement_me : HandlerLine Text
  notification : (notif : Text) → HandlerLine Text

-- The fields of `struct nrf_modem_fault_info` that are read.
pub record FaultInfo : Type 0 where
  pub reason : ℕ
  pub program_counter : ℕ

module _ {Text : Type 0} where
  abbrev pub nrf_modem_fault_handler : FaultInfo → List (HandlerLine Text)
  nrf_modem_fault_handler fault_info = fault fault_info.reason fault_info.program_counter ∷ []

  abbrev pub nrf_modem_lib_dfu_handler : (dfu_res : ℕ) → List (HandlerLine Text)
  nrf_modem_lib_dfu_handler dfu_res = implement_me ∷ []

  abbrev pub callback : (notif : Text) → List (HandlerLine Text)
  callback notif = notification notif ∷ []
