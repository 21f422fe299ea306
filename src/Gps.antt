-- ===== src/Gps.antt =====
-- The satellite receiver, src/gps.c: its start and its events. NRF_MODEM_GNSS_... are the modem
-- library's and parameters here.
mod Examples
pub mod Events
pub mod Fpu
pub mod Start
