-- ===== src/Board/Regions.antt =====
-- The regions of memory: those of src/ldscript, the modem's in `init_params` of src/main.c, and the
-- two that `board_init` of src/board.c gives to allocators.
use nrf.Base.{ℕ, ◌+◌, ◌-◌, ◌≤◌, ◌⊎◌, ◌&&◌, Bool, List, [], ◌∷◌, arith, ltb, leb, if◌then◌else◌}

pub record Region : Type 0 where
  pub base : ℕ
  pub size : ℕ

abbrev pub region : (base size : ℕ) → Region
region base size = record { base = base; size = size }

abbrev pub contains : Region → ℕ → Bool
contains r a = leb r.base a && ltb a (r.base + r.size)

-- How many regions of a list an address lies in.
abbrev pub owners : ℕ → List Region → ℕ
owners a [] = 0
owners a (r ∷ rs) = (if contains r a then 1 else 0) + owners a rs

abbrev pub Within : (inner outer : Region) → Type 0
Within inner outer = (outer.base ≤ inner.base) × (inner.base + inner.size ≤ outer.base + outer.size)

abbrev pub Apart : Region → Region → Type 0
Apart r s = (r.base + r.size ≤ s.base) ⊎ (s.base + s.size ≤ r.base)

abbrev pub All {ℓ} : {A : Type ℓ} → (A → Type 0) → List A → Type 0
All P [] = Unit
All P (x ∷ xs) = P x × All P xs

abbrev pub Pairwise : List Region → Type 0
Pairwise [] = Unit
Pairwise (r ∷ rs) = All (Apart r) rs × Pairwise rs

abbrev pub flash : Region
flash = region 0x00040000 (0x100000 - 0x40000 - 0x4000)

-- SRAM for the modem, for the data of this program, and for `malloc`.
abbrev pub sram1 : Region
sram1 = region 0x20010000 0x10000

abbrev pub sram2 : Region
sram2 = region 0x20020000 0x10000

abbrev pub sram3 : Region
sram3 = region 0x20030000 0x10000

-- The modem's control, transmit and receive memory, NRF_MODEM_OS_SHMEM_CTRL_ADDR and so on. The size
-- of the first is the modem library's.
abbrev pub shmem_ctrl : (ctrl_size : ℕ) → Region
shmem_ctrl ctrl_size = region 0x20010000 ctrl_size

abbrev pub shmem_tx : Region
shmem_tx = region 0x20011000 0x3800

abbrev pub shmem_rx : Region
shmem_rx = region 0x20018800 0x7800

-- `init_params.shmem`
abbrev pub init_params : (ctrl_size : ℕ) → List Region
init_params ctrl_size = shmem_ctrl ctrl_size ∷ shmem_tx ∷ shmem_rx ∷ []

-- The regions in `malloc_add_region` and `mdx_fl_add_region`.
abbrev pub heap_region : Region
heap_region = region 0x20030000 0x10000

abbrev pub shm_region : Region
shm_region = region 0x20014800 0x4000

-- Where the device tree is read from.
abbrev pub dtb_base : ℕ
dtb_base = 0xf8000

-- If the control memory has at most 0x1000 bytes, as main.c asserts, no address lies in two of the
-- modem's three regions, the shared allocator's, the program's data and the heap; and those of the
-- modem and the shared allocator's lie within the SRAM of the modem, the heap's in its own.
pub init_params_apart :
    (ctrl_size a : ℕ)
    → ctrl_size ≤ 0x1000
    → (owners a (shm_region ∷ sram2 ∷ heap_region ∷ init_params ctrl_size) ≤ 1)
      × All (λ r. Within r sram1) (shm_region ∷ init_params ctrl_size)
      × Within heap_region sram3
init_params_apart ctrl_size a small = (ground arith, omega arith, omega arith)
