-- ===== src/Net.antt =====
-- The socket code: src/ntp.c, src/http.c and `connect_to_server` of src/main.c.
pub mod Calls
pub mod Ntp
pub mod NtpSession
pub mod Http
pub mod HttpSession
pub mod HttpWrite
pub mod Server
mod Examples
