-- ===== src/Modem.antt =====
-- src/nrf_modem.c: the services that the modem library asks of the operating system.
pub mod Delivery
pub mod Interrupts
pub mod Kernel
pub mod Memory
pub mod Waiters
pub mod Notify
pub mod Timedwait
pub mod System
pub mod Exclusion
pub mod Walk
pub mod Preempt
pub mod Pool
pub mod Semaphore
pub mod Handles
pub mod Service
mod ListKernel
mod Examples
mod ServiceExamples
