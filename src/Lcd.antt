-- ===== src/Lcd.antt =====
-- src/lcd.c: a memory display on six GPIO pins, written bit by bit.
pub mod Driver
pub mod Panel
pub mod Frames
pub mod Start
mod Examples
