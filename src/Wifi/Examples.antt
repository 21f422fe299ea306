-- ===== src/Wifi/Examples.antt =====
-- Runs of the callbacks in src/wifi/nrf_wifi.c, and the theorem about them at inputs.
use nrf.Base.{◌+◌, ◌%◌, ℕ, zero, suc, List, true, ◌≡◌, refl, ◌↔◌, Option, none, some}
use nrf.Base.Run.{undefined}
use nrf.Base.Int.{pos, negsuc}
use nrf.Wifi.Shim.{
  Memory, OsalOps, log_err, nrf_wifi_os_mdx_ops, mdx_shim_mem_cpy, mdx_shim_mem_set,
  mdx_shim_mem_cmp, Equal, mem_cmp_iff, mem_cmp-mem_cpy,
}
use nrf.Wifi.Care.{within}
use nrf.Wifi.Client.{Request, World, answer, answers, mdx_nrf_wifi_init}

program : Unit {0}
unfolding mdx_shim_mem_cpy mdx_shim_mem_set mdx_shim_mem_cmp
program = tt

-- Each byte holds its address, and the bus has no state.
abbrev addresses : Memory
addresses a = a

abbrev ops : OsalOps Unit
ops = nrf_wifi_os_mdx_ops Unit

overlapping : ops.mem_cpy 10 12 4 addresses ≡ none
unfolding program
overlapping = refl

filled : ops.mem_set 10 (negsuc 0) 4 addresses 13 ≡ 255
unfolding program
filled = refl

smaller : ops.mem_cmp 10 20 4 addresses ≡ negsuc 0
unfolding program
smaller = refl

-- A register reads as 0 also after a write.
write_lost : ops.qspi_read_reg32 4 (ops.qspi_write_reg32 4 7 tt) ≡ 0
write_lost = refl

same_bytes : (ops.mem_cmp 3 3 2 addresses ≡ pos 0) ↔ Equal 3 3 2 addresses
same_bytes = mem_cmp_iff 3 3 2 addresses

copied_bytes :
    (m' : Memory) × (ops.mem_cpy 10 20 4 addresses ≡ some m')
    × (ops.mem_cmp 10 20 4 m' ≡ pos 0)
    × (m' 14 ≡ addresses 14)
copied_bytes = mem_cmp-mem_cpy Unit 10 20 4 14 addresses refl refl

-- A library that clears a block of its own, asks for another one, fills it if it gets it, and reads a
-- register for ever if not.
abbrev request : ℕ → Request ℕ (Option ℕ)
request zero = Request.mem_set 100 (pos 0) 8 1
request (suc zero) = Request.mem_zalloc 16 (λ buf. elim buf [ none ↦ 2 | some p ↦ 3 + p ])
request (suc (suc zero)) = Request.qspi_read_reg32 4 (λ val. 2)
request (suc (suc (suc p))) = Request.finish (some p)

abbrev Blocks : List (ℕ × ℕ) → ℕ → Type 0
Blocks own s = within own 100 8 ≡ true

abbrev world : World Unit
world = record { bus = tt; memory = λ a. a % 256 }

-- A library that logs an error when it gets no memory calls NULL.
abbrev logging : ℕ → Request ℕ (Option ℕ)
logging zero = Request.mem_zalloc 16 (λ buf. elim buf [ none ↦ 1 | some p ↦ 2 ])
logging (suc n) = Request.call_unset log_err n

logging_faults :
    mdx_nrf_wifi_init {L = OsalOps Unit} (λ t. t) (λ t. t) logging 0 2 world ≡ undefined
unfolding mdx_nrf_wifi_init answers answer
logging_faults = refl
