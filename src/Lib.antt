-- ===== src/Lib.antt =====
-- A model of the firmware in src/: an application for the nRF9160, which brings up the LTE modem,
-- asks for the time, fetches a page and a file, and then follows the satellite receiver.
--
-- The parts. The modem library calls back into src/nrf_modem.c for threads that sleep, semaphores
-- and mutexes, and into src/nrfx_ipc.c for the interrupts between the two processors. src/main.c
-- reads serial input, sends the modem its commands, waits for a network, and calls src/ntp.c,
-- src/http.c, src/math.c and src/gps.c in turn. src/board.c starts the devices and keeps the
-- memory for the modem. src/lcd.c drives a display, src/wifi answers a library for WiFi, and
-- src/dect.c starts the DECT radio; these stand alone.
--
-- The files.
--   Base: tests, lists, words, bits and signed integers, and the end of a computation, `Run`: a
--     value, undefined behaviour, or no end: fuel that ran out, or a wait that does not return.
--   Board: src/board.c and the regions of src/ldscript and of `init_params` in src/main.c.
--     FreeList is the interface to the kernel's allocators, Start has the functions, and Blocks
--     the blocks that requests of the modem library leave.
--   Modem: src/nrf_modem.c. Kernel is the interface to the kernel's semaphores and intrusive
--     lists, with the laws that the code relies on; Waiters has `td_first`, `td_next`,
--     `nrf_modem_os_event_notify`, `nrf_modem_os_shutdown` and `nrf_modem_os_init`; Timedwait
--     has `nrf_modem_os_timedwait` before and after its sleep; System interleaves the pieces as
--     steps of threads and of notifications, with Invariant, Safety, Spurious, Progress and
--     Drain below it, and Room and Refine for what the threads look like without a list.
--     Preempt has `nrf_modem_os_timedwait` action by action, with other steps in between,
--     beside its single steps in System; Walk has the loop of `nrf_modem_os_shutdown` entry by
--     entry between the steps of threads, in Cut, Cover and Finish. Pool has
--     `nrf_modem_os_sem_init` and `nrf_modem_os_mutex_init`, Semaphore `nrf_modem_os_sem_give`
--     beside the takes, Handles both together behind their handles, Service the timed services,
--     Exclusion threads that share one mutex, with Exclusion/Pooled for all those that are
--     handed out, Memory the services that use Board, Interrupts the way from the interrupt
--     controller to src/nrfx_ipc.c, and Delivery the way on, through the modem library's
--     handler, to the threads.
--   Ipc: src/nrfx_ipc.c. A call of the driver or an access to a register is an item of a list.
--   Lcd: src/lcd.c. Driver has its functions as lists of pin operations, Panel a display that
--     reads the wires.
--   Math: src/math.c. The loop `while (b)` of `decompose_64bit` is `product`, the loop on `j`
--     is `walk`, one round of the loop on `i` is `round`, and the loop itself `search_divisor`.
--     Small has numbers that it can split at once. Random has `rand`, whose results are a
--     sequence of numbers in the other modules.
--   Net: src/ntp.c, src/http.c and `connect_to_server` of src/main.c. The results of the
--     modem's socket calls are a record, and each function gives the calls that it makes.
--     HttpSession has the table of callbacks, with the requests of the HTTP library as a list,
--     and HttpWrite the bytes of its writes.
--   Lte: src/main.c. Input is `nrf_input`, Wait is `lte_wait`, Text has the string functions of
--     C that the parsers in Signal use, with their results on any reply in Fields, Quality and
--     Address, Connect is the order of `lte_connect`, Handlers has the handlers that only
--     print, and Main puts `main` together from it, src/math.c and src/gps.c.
--   Dect: src/dect.c.
--   Gps: src/gps.c. The modem library's constants are parameters. Fpu is the test of floating
--     point, with a `float` as a number of units of 2^-27, Fpu/Bounds how far its sums are off,
--     Fpu/Lead the critical sections action by action, and Fpu/Mix both threads at the same
--     time.
--   Wifi: src/wifi/nrf_wifi.c. Shim has its callbacks over a memory of bytes, and the members
--     of the table that stay NULL; Client has the start of the WiFi library, which is any
--     machine that calls members and reads and writes memory, and need not end; Care has what a
--     careful one leaves behind.
--   Examples, in each folder, and Modem/ServiceExamples: runs on small inputs; Modem/ListKernel
--     is a kernel for them.
--
-- Numbers are natural numbers, and the wrap of a word is written out; where C leaves an overflow,
-- a shift, a division or a null pointer undefined, so does the model, or it returns `none`.
--
-- Fuel. `gcd` and `product` recur on a number that falls. `walk` has its number of rounds from
-- `lim`. `search_divisor` has 14 rounds, since the round 13 is undefined. The walks over the list
-- of sleepers have one round more than the list has entries. `excess` has 131 rounds, which are
-- enough for every number below the largest `float`. The loops of `test_thr` and `fpu_test` do
-- not end; the model has any number of their rounds. `lte_wait` has no bound: it ends when the
-- modem answers.
--
-- What is taken as given: the kernel's semaphores, mutexes, lists and allocators behave as
-- Kernel, Semaphore, Exclusion and FreeList say; a wait for a semaphore with the time 0 does not
-- return without a permit; the kernel's start asks the heap for anything and gives back only what
-- it has; a random number is any number; `htobe32` and `gmtime_r` are parameters; the contexts
-- that the modem library's handler notifies are any lists; otherwise the modem library and the
-- drivers are results and lists of calls. A walk over the list of sleepers is one step of System,
-- as a notification runs in an interrupt; for a shutdown, which need not, Walk takes the rounds
-- apart, and Progress says what follows where the thread that is woken leaves at once.
--
-- Not modelled: `nrf_modem_os_errno_set` and `nrf_modem_os_log`, which only print; the entries of
-- the WiFi table that are compiled out twice, for low power; what happens inside the HTTP
-- library, the modem library and the kernel; the build.
pub mod Base
pub mod Board
pub mod Dect
pub mod Gps
pub mod Ipc
pub mod Lcd
pub mod Lte
pub mod Math
pub mod Modem
pub mod Net
pub mod Wifi
