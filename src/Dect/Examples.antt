-- ===== src/Dect/Examples.antt =====
-- A start of src/dect.c that fails.
use nrf.Base.{ℕ, ◌≡◌, refl}
use nrf.Base.Int.{pos, negsuc}
use nrf.Dect.{dect_main}

failure_dropped : (dect_main ℕ (negsuc 4)).0 ≡ pos 0
failure_dropped = refl
