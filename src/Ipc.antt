-- ===== src/Ipc.antt =====
-- src/nrfx_ipc.c: the glue between the modem library and the IPC driver.
pub mod Driver
pub mod Interrupt
pub mod Routing
mod Examples
