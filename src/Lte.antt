-- ===== src/Lte.antt =====
-- The program's own part of src/main.c: the serial input, the wait for a network, the parsers of the
-- modem's answers, and the order of the commands.
pub mod Input
pub mod Main
pub mod Fields
pub mod Handlers
pub mod Address
pub mod Connect
pub mod Cut
pub mod Quality
pub mod Signal
pub mod Text
pub mod Wait
mod Examples
