-- ===== src/Wifi.antt =====
-- src/wifi/nrf_wifi.c: the operating system's side of the WiFi library.
pub mod Care
pub mod Client
pub mod Shim
mod Examples
