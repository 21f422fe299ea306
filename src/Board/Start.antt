-- ===== src/Board/Start.antt =====
-- The functions of src/board.c over the kernel's allocators. An address 0 is NULL, and `none` the
-- panic of `board_init` or a fault.
use nrf.Base.{ℕ, suc, ◌-◌, ◌==◌, Bool, true, Option, none, some, List, [], ◌∷◌, if◌then◌else◌}
use nrf.Board.Regions.{heap_region, shm_region, dtb_base}
use nrf.Board.FreeList.{FreeList}

-- What the kernel's start asks of the heap: memory, and blocks that it gives back.
pub data HeapCall : Type 0 where
  take : (size : ℕ) → HeapCall
  give : (ptr : ℕ) → HeapCall

-- The results of the device lookups in `board_init`.
pub record Devices : Type 0 where
  pub nrf_uarte : ℕ
  pub nrf_nvmc : ℕ
  pub nrf_timer : ℕ

module _ (k : FreeList) where
  open k use {Zone, init, add_region, malloc, free}

  -- The allocators' zones, the depth of the critical sections of the running thread, the address of
  -- the device tree, the console, whether the instruction cache is on, and `timer_sc`.
  pub record Board : Type 0 where
    pub heap : Zone
    pub shm : Zone
    pub critnest : ℕ
    pub dtbp : ℕ
    pub console : ℕ
    pub icache : Bool
    pub timer_sc : ℕ

  -- The kernel's `mi_startup`, as far as the heap goes.
  unfoldable pub mi_startup : List HeapCall → Zone → Zone
  mi_startup [] z = z
  mi_startup (take size ∷ calls) z = mi_startup calls (malloc z size).0
  mi_startup (give ptr ∷ calls) z = mi_startup calls (free z ptr)

  -- `softc` is what `mdx_device_get_softc` gives for a device, and `calls` what `mi_startup`, which is the
  -- kernel's, asks of the heap.
  unfoldable pub board_init : (softc : ℕ → ℕ) → List HeapCall → Devices → Board → Option Board
  board_init softc calls d b =
      let b1 = record b {
        heap = mi_startup calls (add_region init heap_region);
        shm = add_region init shm_region;
        dtbp = dtb_base;
      } in
      if d.nrf_uarte == 0
      then none
      else if d.nrf_nvmc == 0
      then none
      else if d.nrf_timer == 0
      then none
      else some (record b1 { console = d.nrf_uarte; icache = true; timer_sc = softc d.nrf_timer })

  -- `critical_enter` and `critical_exit` of the kernel count in `td_critnest`.
  abbrev pub critical_enter : Board → Board
  critical_enter b = record b { critnest = suc b.critnest }

  abbrev pub critical_exit : Board → Board
  critical_exit b = record b { critnest = b.critnest - 1 }

  unfoldable pub shm_alloc : (size : ℕ) → Board → Board × Option ℕ
  shm_alloc size b =
      let b1 = critical_enter b in
      let r = malloc b1.shm size in (critical_exit (record b1 { shm = r.0 }), r.1)

  unfoldable pub shm_free : (ptr : ℕ) → Board → Board
  shm_free ptr b = let b1 = critical_enter b in critical_exit (record b1 { shm = free b1.shm ptr })

  -- The argument of `nrf_timer_udelay`, beside the timer; without one it would read through NULL.
  unfoldable pub udelay : (usec : ℕ) → Board → Option (ℕ × ℕ)
  udelay usec b = if b.timer_sc == 0 then none else some (b.timer_sc, usec)
