-- ===== src/Wifi/Client.antt =====
-- `mdx_nrf_wifi_init` of src/wifi/nrf_wifi.c. The WiFi library, which it starts, is any
-- machine that makes requests to the table of callbacks and reads and writes memory; each answer decides
-- what follows, and it need not end.
use nrf.Base.{ℕ, zero, suc, ◌%◌, Option, none, some, if◌then◌else◌}
use nrf.Base.Int.{ℤ}
use nrf.Base.Run.{Run, ok, undefined, ◌>>=◌}
use nrf.Wifi.Shim.{Memory, in_range, Unset, OsalOps, nrf_wifi_os_mdx_ops}

-- What the library does next in a state `S`, and the states that follow: it ends with an `A`, calls a
-- member of the table, or reads or writes a byte itself.
pub data Request (S A : Type 0) : Type 0 where
  finish : A → Request S A
  mem_alloc mem_zalloc : (size : ℕ) (next : Option ℕ → S) → Request S A
  mem_free : (buf : ℕ) (next : S) → Request S A
  mem_cpy : (dest src count : ℕ) (next : S) → Request S A
  mem_set : (start : ℕ) (val : ℤ) (size : ℕ) (next : S) → Request S A
  mem_cmp : (addr1 addr2 size : ℕ) (next : ℤ → S) → Request S A
  qspi_read_reg32 : (addr : ℕ) (next : ℕ → S) → Request S A
  qspi_write_reg32 : (addr val : ℕ) (next : S) → Request S A
  qspi_cpy_from : (dest addr count : ℕ) (next : S) → Request S A
  qspi_cpy_to : (addr src count : ℕ) (next : S) → Request S A
  call_unset : (member : Unset) (next : S) → Request S A
  load : (a : ℕ) (next : ℕ → S) → Request S A
  store : (a val : ℕ) (next : S) → Request S A

-- The library goes on in a state, or has ended.
pub data Stage (S A : Type 0) : Type 0 where
  going : S → Stage S A
  ended : A → Stage S A

pub record World (Bus : Type 0) : Type 0 where
  pub bus : Bus
  pub memory : Memory

module _ {Bus S A : Type 0} (ops : OsalOps Bus) where
  -- One request. What a function behind a member that is not in this file does is not known; a call of
  -- NULL is undefined.
  unfoldable pub answer : Request S A → World Bus → Run (World Bus × Stage S A)
  answer (finish a) w = ok (w, ended a)
  answer (mem_alloc size next) w = ok (w, going (next (ops.mem_alloc size)))
  answer (mem_zalloc size next) w = ok (w, going (next (ops.mem_zalloc size)))
  answer (mem_free buf next) w = ok (record w { memory = ops.mem_free buf w.memory }, going next)
  answer (mem_cpy dest src count next) w = elim (ops.mem_cpy dest src count w.memory) [
    | none ↦ undefined
    | some m ↦ ok (record w { memory = m }, going next)
  ]
  answer (mem_set start val size next) w =
      ok (record w { memory = ops.mem_set start val size w.memory }, going next)
  answer (mem_cmp addr1 addr2 size next) w =
      ok (w, going (next (ops.mem_cmp addr1 addr2 size w.memory)))
  answer (qspi_read_reg32 addr next) w = ok (w, going (next (ops.qspi_read_reg32 addr w.bus)))
  answer (qspi_write_reg32 addr val next) w =
      ok (record w { bus = ops.qspi_write_reg32 addr val w.bus }, going next)
  answer (qspi_cpy_from dest addr count next) w =
      ok (record w { memory = ops.qspi_cpy_from dest addr count w.bus w.memory }, going next)
  answer (qspi_cpy_to addr src count next) w =
      ok (record w { bus = ops.qspi_cpy_to addr src count w.memory w.bus }, going next)
  answer (call_unset member next) w = undefined
  answer (load a next) w = ok (w, going (next (w.memory a)))
  answer (store a val next) w =
      ok (record w { memory = λ b. if in_range a 1 b then val % 256 else w.memory b }, going next)

  -- A number of requests, or fewer if the library ends before.
  unfoldable pub answers :
      (request : S → Request S A) (n : ℕ) → Stage S A → World Bus → Run (World Bus × Stage S A)
  answers request zero stage w = ok (w, stage)
  answers request (suc n) (ended a) w = ok (w, ended a)
  answers request (suc n) (going s) w = answer (request s) w >>= λ r. answers request n r.1 r.0

-- `nrf_wifi_osal_init` gives what the library keeps, in which `ops_of` finds the table; the start of
-- the library, `nrf_wifi_sys_fmac_init`, goes from the state `s` on as `request` says. The pointer
-- printed is the one with which it ends, and `n` is the number of requests that are looked at.
module _ {Bus L S : Type 0} (nrf_wifi_osal_init : OsalOps Bus → L) (ops_of : L → OsalOps Bus) where
  unfoldable pub mdx_nrf_wifi_init :
      (request : S → Request S (Option ℕ)) (s : S) (n : ℕ)
      → World Bus
      → Run (World Bus × Stage S (Option ℕ))
  mdx_nrf_wifi_init request s n w =
      let lib = nrf_wifi_osal_init (nrf_wifi_os_mdx_ops Bus) in
      answers (ops_of lib) request n (going s) w
