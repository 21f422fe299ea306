-- ===== src/Board/Examples.antt =====
-- An allocator, runs of src/board.c over it, and the theorems about the memory at inputs.
use nrf.Base.{
  ℕ, ◌+◌, ◌≤◌, ◌≡◌, refl, ap, subst, Bool, Bool-cases, true, false, ◌&&◌, ◌||◌, Option, none, some,
  List, [], ◌∷◌, arith, leb, inl, inr, if◌then◌else◌,
}
use nrf.Base.Int.{negsuc}
use nrf.Board.Regions.{
  Region, region, contains, owners, Within, Apart, All, init_params, heap_region, shm_region, sram1,
  sram2, sram3, flash, dtb_base, init_params_apart,
}
use nrf.Board.FreeList.{FreeList, InSome, without}
use nrf.Board.Start.{
  HeapCall, take, give, mi_startup, Board, Devices, board_init, shm_alloc, shm_free, udelay,
}
use nrf.Board.Blocks.{Sound, serve_all-board_init}
use nrf.Modem.Memory.{
  nrf_modem_os_alloc, nrf_modem_os_free, nrf_modem_os_shm_tx_alloc, nrf_modem_os_shm_tx_free,
  nrf_modem_os_busywait, Request, alloc, shm_tx_alloc, shm_tx_free, serve, serve_all, AllOwned,
}

-- A block of `n` bytes at `p` can be cut from the region and meets no other block.
abbrev is_apart : Region → Region → Bool
is_apart r s = leb (r.base + r.size) s.base || leb (s.base + s.size) r.base

abbrev all_apart : Region → List Region → Bool
all_apart r [] = true
all_apart r (s ∷ ss) = is_apart r s && all_apart r ss

abbrev is_within : Region → Region → Bool
is_within r a = leb a.base r.base && leb (r.base + r.size) (a.base + a.size)

-- Behind the youngest block, or at the start of the region.
abbrev next_place : Region → List Region → ℕ
next_place a [] = a.base
next_place a (b ∷ bs) = b.base + b.size

abbrev place : ℕ → List Region → List Region → Option ℕ
place n [] bs = none
place n (a ∷ as') bs =
    let p = next_place a bs in
    if is_within (region p n) a && all_apart (region p n) bs then some p else none

abbrev keep : ℕ → List Region → Option ℕ → List Region
keep n bs none = bs
keep n bs (some p) = region p n ∷ bs

all_apart-All : (r : Region) (bs : List Region) → all_apart r bs ≡ true → All (Apart r) bs
all_apart-All r [] h = tt
all_apart-All r (s ∷ ss) h = let ih = all_apart-All r ss in (ground arith, ih (ground arith))

place_lem :
    (n : ℕ) (area bs : List Region) (p : ℕ)
    → place n area bs ≡ some p
    → InSome (region p n) area × All (Apart (region p n)) bs
place_lem n [] bs p h = absurd (cc h)
place_lem n (a ∷ as') bs p h =
    let q = next_place a bs in
    elim (Bool-cases (is_within (region q n) a && all_apart (region q n) bs)) [
      | inl e ↦
          let here : q ≡ p = cc (rw e at h) in
          let parts : (is_within (region q n) a ≡ true) × (all_apart (region q n) bs ≡ true) =
            (ground arith, ground arith) in
          subst (λ (m : ℕ). InSome (region m n) (a ∷ as') × All (Apart (region m n)) bs) here
            (inl (ground arith, ground arith), all_apart-All (region q n) bs parts.1)
      | inr e ↦ absurd (cc (rw e at h))
    ]

abbrev bump : FreeList
bump = record {
  Zone = List Region × List Region;
  area = λ z. z.0;
  blocks = λ z. z.1;
  init = ([], []);
  add_region = λ z r. (r ∷ z.0, z.1);
  malloc = λ z n. ((z.0, keep n z.1 (place n z.0 z.1)), place n z.0 z.1);
  free = λ z p. (z.0, without p z.1);
  area-init = refl;
  blocks-init = refl;
  area-add_region = λ z r. refl;
  blocks-add_region = λ z r. refl;
  area-malloc = λ z n. refl;
  malloc-none = λ z n e. ap (keep n z.1) e;
  malloc-some = λ z n p e. let (w, o) = place_lem n z.0 z.1 p e in (ap (keep n z.1) e, w, o);
  area-free = λ z p. refl;
  blocks-free = λ z p h. refl;
}

program : Unit {0}
unfolding board_init mi_startup shm_alloc shm_free udelay nrf_modem_os_alloc nrf_modem_os_free
    nrf_modem_os_shm_tx_alloc nrf_modem_os_shm_tx_free nrf_modem_os_busywait serve serve_all
    AllOwned
program = tt

abbrev devices : Devices
devices = record { nrf_uarte = 1; nrf_nvmc = 2; nrf_timer = 3 }

-- The kernel's start takes two blocks and gives the first back.
abbrev calls : List HeapCall
calls = take 0x40 ∷ take 0x100 ∷ give 0x20030000 ∷ []

abbrev before : Board bump
before = record {
  heap = ([], []);
  shm = ([], []);
  critnest = 0;
  dtbp = 0;
  console = 0;
  icache = false;
  timer_sc = 0;
}

abbrev started : Board bump
started = record {
  heap = (heap_region ∷ [], region 0x20030040 0x100 ∷ []);
  shm = (shm_region ∷ [], []);
  critnest = 0;
  dtbp = dtb_base;
  console = 1;
  icache = true;
  timer_sc = 13;
}

board_started : board_init bump (λ dev. dev + 10) calls devices before ≡ some started
unfolding program
board_started = refl

no_timer : board_init bump (λ dev. dev + 10) calls (record devices { nrf_timer = 0 }) before ≡ none
unfolding program
no_timer = refl

delay_before_start : udelay bump 5 before ≡ none
unfolding program
delay_before_start = refl

-- A delay of -1 microsecond lasts for more than an hour.
negative_delay : nrf_modem_os_busywait bump (negsuc 0) started ≡ some (13, 4294967295)
unfolding program
negative_delay = refl

-- Two blocks for the modem, of which the first is given back, and one of `malloc`.
abbrev requests : List (Request bump)
requests = shm_tx_alloc 100 ∷ shm_tx_alloc 0x3000 ∷ alloc 8 ∷ shm_tx_free 0x20014800 ∷ []

served : (serve_all bump requests started).shm.1 ≡ region 0x20014864 0x3000 ∷ []
unfolding program
served = refl

serve_all-board_init_example :
    Sound bump 0 (serve_all bump requests started)
    × All
        (λ r. All (Apart r) (sram2 ∷ heap_region ∷ init_params 0x4e8))
        ((serve_all bump requests started).shm.1)
unfolding program
serve_all-board_init_example =
    serve_all-board_init bump (λ dev. dev + 10) calls devices before started requests 0x4e8
      board_started (refl, tt) (tt, (tt, (tt, (refl, tt)))) (omega arith)

init_params_apart_example :
    (owners 0x20014800 (shm_region ∷ sram2 ∷ heap_region ∷ init_params 0x4e8) ≤ 1)
    × All (λ r. Within r sram1) (shm_region ∷ init_params 0x4e8)
    × Within heap_region sram3
init_params_apart_example = init_params_apart 0x4e8 0x20014800 (omega arith)

-- The device tree lies where src/ldscript lets the program grow.
dtb_in_flash : contains flash dtb_base ≡ true
dtb_in_flash = refl
