-- ===== src/Modem/Memory.antt =====
-- The memory services of src/nrf_modem.c, which pass their argument on to `malloc` and to src/board.c,
-- and the delay.
use nrf.Base.{ℕ, suc, ◌-◌, ◌^◌, Option, List, [], ◌∷◌, true, ◌≡◌}
use nrf.Base.Int.{ℤ, pos, negsuc}
use nrf.Board.FreeList.{FreeList, starts}
use nrf.Board.Start.{Board, shm_alloc, shm_free, udelay}

module _ (k : FreeList) where
  open k use {malloc, free, blocks}

  unfoldable pub nrf_modem_os_alloc : (bytes : ℕ) → Board k → Board k × Option ℕ
  nrf_modem_os_alloc bytes b = let r = malloc b.heap bytes in (record b { heap = r.0 }, r.1)

  unfoldable pub nrf_modem_os_free : (mem : ℕ) → Board k → Board k
  nrf_modem_os_free mem b = record b { heap = free b.heap mem }

  unfoldable pub nrf_modem_os_shm_tx_alloc : (bytes : ℕ) → Board k → Board k × Option ℕ
  nrf_modem_os_shm_tx_alloc bytes b = shm_alloc k bytes b

  unfoldable pub nrf_modem_os_shm_tx_free : (mem : ℕ) → Board k → Board k
  nrf_modem_os_shm_tx_free mem b = shm_free k mem b

  -- A negative `int32_t` becomes a large `uint32_t`.
  unfoldable pub nrf_modem_os_busywait : (usec : ℤ) → Board k → Option (ℕ × ℕ)
  nrf_modem_os_busywait (pos n) b = udelay k n b
  nrf_modem_os_busywait (negsuc n) b = udelay k (2 ^ 32 - suc n) b

  -- A sequence of calls by the modem library, with the blocks that it asks for and gives back.
  pub data Request : Type 0 where
    alloc shm_tx_alloc : (bytes : ℕ) → Request
    free_block shm_tx_free : (mem : ℕ) → Request

  unfoldable pub serve : Request → Board k → Board k
  serve (alloc n) b = (nrf_modem_os_alloc n b).0
  serve (shm_tx_alloc n) b = (nrf_modem_os_shm_tx_alloc n b).0
  serve (free_block p) b = nrf_modem_os_free p b
  serve (shm_tx_free p) b = nrf_modem_os_shm_tx_free p b

  unfoldable pub serve_all : List Request → Board k → Board k
  serve_all [] b = b
  serve_all (r ∷ rs) b = serve_all rs (serve r b)

  -- A request gives back only what was handed out and not given back since.
  abbrev pub Owned : Request → Board k → Type 0
  Owned (free_block p) b = starts p (blocks b.heap) ≡ true
  Owned (shm_tx_free p) b = starts p (blocks b.shm) ≡ true
  Owned _ b = Unit

  unfoldable pub AllOwned : List Request → Board k → Type 0
  AllOwned [] b = Unit
  AllOwned (r ∷ rs) b = Owned r b × AllOwned rs (serve r b)
