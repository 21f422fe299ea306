-- ===== src/Board/Blocks.antt =====
-- The blocks that src/nrf_modem.c hands to the modem library, from the allocators of src/board.c.
use nrf.Base.{
  ℕ, ◌≤◌, ◌==◌, ◌≡◌, refl, subst, ap, ◌∙◌, inl, inr, Bool-cases, true, Option, none, some, List, [],
  ◌∷◌, arith,
}
use nrf.Board.Regions.{
  Region, region, Within, Apart, All, Pairwise, init_params, heap_region, shm_region, sram2,
}
use nrf.Board.FreeList.{FreeList, starts, without}
use nrf.Board.Start.{
  HeapCall, take, give, mi_startup, Board, Devices, board_init, shm_alloc, shm_free,
}
use nrf.Modem.Memory.{
  nrf_modem_os_alloc, nrf_modem_os_free, nrf_modem_os_shm_tx_alloc, nrf_modem_os_shm_tx_free,
  Request, alloc, shm_tx_alloc, free_block, shm_tx_free, serve, serve_all, Owned, AllOwned,
}

All-mono :
    (P Q : Region → Type 0) (rs : List Region) → ((r : Region) → P r → Q r) → All P rs → All Q rs
All-mono P Q [] f h = tt
All-mono P Q (r ∷ rs) f (h, t) = (f r h, All-mono P Q rs f t)

All-without : (P : Region → Type 0) (p : ℕ) (rs : List Region) → All P rs → All P (without p rs)
All-without P p [] h = tt
All-without P p (r ∷ rs) (h, t) = elim (Bool-cases (r.base == p)) [
  | inl e ↦ rw e t
  | inr e ↦ rw e (h, All-without P p rs t)
]

Pairwise-without : (p : ℕ) (rs : List Region) → Pairwise rs → Pairwise (without p rs)
Pairwise-without p [] h = tt
Pairwise-without p (r ∷ rs) (h, t) = elim (Bool-cases (r.base == p)) [
  | inl e ↦ rw e t
  | inr e ↦ rw e (All-without (Apart r) p rs h, Pairwise-without p rs t)
]

module _ (k : FreeList) where
  open k use {Zone, area, blocks, init, add_region, malloc, free}

  -- A zone that allocates from one region: its blocks lie in it, and no two overlap.
  pub record Tidy (home : Region) (z : Zone) : Type 0 where
    pub area_one : area z ≡ home ∷ []
    pub inside : All (λ r. Within r home) (blocks z)
    pub apart : Pairwise (blocks z)

  fresh-Tidy : (home : Region) → Tidy home (add_region init home)
  fresh-Tidy home = record {
    area_one = k.area-add_region init home ∙ ap (λ rs. home ∷ rs) k.area-init;
    inside = rw (k.blocks-add_region init home, k.blocks-init) tt;
    apart = rw (k.blocks-add_region init home, k.blocks-init) tt;
  }

  malloc-Tidy : (home : Region) (z : Zone) (n : ℕ) → Tidy home z → Tidy home (malloc z n).0
  malloc-Tidy home z n h = go (malloc z n).1 refl
    where
      go : (result : Option ℕ) → (malloc z n).1 ≡ result → Tidy home (malloc z n).0
      go none e = record {
        area_one = k.area-malloc z n ∙ h.area_one;
        inside = rw (k.malloc-none z n e) h.inside;
        apart = rw (k.malloc-none z n e) h.apart;
      }
      go (some p) e =
          let (cut, place, alone) = k.malloc-some z n p e in
          let within : Within (region p n) home = elim (rw h.area_one at place) [
            | inl w ↦ w
            | inr w ↦ absurd w
          ] in
          record {
            area_one = k.area-malloc z n ∙ h.area_one;
            inside = rw cut (within, h.inside);
            apart = rw cut (alone, h.apart);
          }

  free-Tidy :
      (home : Region) (z : Zone) (p : ℕ)
      → starts p (blocks z) ≡ true
      → Tidy home z
      → Tidy home (free z p)
  free-Tidy home z p live h = record {
    area_one = k.area-free z p ∙ h.area_one;
    inside = rw (k.blocks-free z p live) (All-without _ p (blocks z) h.inside);
    apart = rw (k.blocks-free z p live) (Pairwise-without p (blocks z) h.apart);
  }

  -- Both allocators of the board, and no critical section left open.
  pub record Sound (nest : ℕ) (b : Board k) : Type 0 where
    pub heap : Tidy heap_region b.heap
    pub shm : Tidy shm_region b.shm
    pub critnest : b.critnest ≡ nest

  -- The kernel gives back only what it has.
  abbrev pub HeapOwned : List HeapCall → Zone → Type 0
  HeapOwned [] z = Unit
  HeapOwned (take size ∷ calls) z = HeapOwned calls (malloc z size).0
  HeapOwned (give ptr ∷ calls) z = (starts ptr (blocks z) ≡ true) × HeapOwned calls (free z ptr)

  mi_startup-Tidy :
      (calls : List HeapCall) (z : Zone)
      → HeapOwned calls z
      → Tidy heap_region z
      → Tidy heap_region (mi_startup k calls z)
  unfolding mi_startup
  mi_startup-Tidy [] z o h = h
  mi_startup-Tidy (take size ∷ calls) z o h =
      mi_startup-Tidy calls (malloc z size).0 o (malloc-Tidy heap_region z size h)
  mi_startup-Tidy (give ptr ∷ calls) z (live, o) h =
      mi_startup-Tidy calls (free z ptr) o (free-Tidy heap_region z ptr live h)

  board_init-Sound :
      (softc : ℕ → ℕ) (calls : List HeapCall) (d : Devices) (b b' : Board k)
      → board_init k softc calls d b ≡ some b'
      → HeapOwned calls (add_region init heap_region)
      → Sound b.critnest b'
  unfolding board_init
  board_init-Sound softc calls d b b' h owned =
      let parts : (mi_startup k calls (add_region init heap_region) ≡ b'.heap)
          × (add_region init shm_region ≡ b'.shm)
          × (b'.critnest ≡ b.critnest) =
        ground arith in
      record {
        heap =
            subst (Tidy heap_region) parts.0
              (mi_startup-Tidy calls (add_region init heap_region) owned (fresh-Tidy heap_region));
        shm = subst (Tidy shm_region) parts.1 (fresh-Tidy shm_region);
        critnest = parts.2;
      }

  serve-Sound :
      (nest : ℕ) (r : Request k) (b : Board k)
      → Owned k r b
      → Sound nest b
      → Sound nest (serve k r b)
  unfolding serve nrf_modem_os_alloc nrf_modem_os_free nrf_modem_os_shm_tx_alloc
      nrf_modem_os_shm_tx_free shm_alloc shm_free
  serve-Sound nest (alloc n) b o h = record {
    heap = malloc-Tidy heap_region b.heap n h.heap;
    shm = h.shm;
    critnest = h.critnest;
  }
  serve-Sound nest (shm_tx_alloc n) b o h = record {
    heap = h.heap;
    shm = malloc-Tidy shm_region b.shm n h.shm;
    critnest = omega (arith, h.critnest);
  }
  serve-Sound nest (free_block p) b o h = record {
    heap = free-Tidy heap_region b.heap p o h.heap;
    shm = h.shm;
    critnest = h.critnest;
  }
  serve-Sound nest (shm_tx_free p) b o h = record {
    heap = h.heap;
    shm = free-Tidy shm_region b.shm p o h.shm;
    critnest = omega (arith, h.critnest);
  }

  serve_all-Sound :
      (nest : ℕ) (rs : List (Request k)) (b : Board k)
      → AllOwned k rs b
      → Sound nest b
      → Sound nest (serve_all k rs b)
  unfolding serve_all AllOwned
  serve_all-Sound nest [] b o h = h
  serve_all-Sound nest (r ∷ rs) b (o, os) h =
      serve_all-Sound nest rs (serve k r b) os (serve-Sound nest r b o h)

  -- A block for the modem to read is apart from all the memory that others use.
  shm-Apart :
      (ctrl_size : ℕ)
      → ctrl_size ≤ 0x1000
      → (r : Region) → Within r shm_region
      → All (Apart r) (sram2 ∷ heap_region ∷ init_params ctrl_size)
  shm-Apart ctrl_size small r (lo, hi) = ground arith

  -- If `board_init` finds its devices, after a start of the kernel that takes memory from the heap and
  -- gives back only what it has, and the modem library then does the same with both allocators, in any
  -- order: no two blocks of the same allocator overlap; blocks for the modem
  -- lie in the region for them, those of `malloc` in the heap; no block for the modem overlaps the
  -- program's data, the heap or the modem's own regions, whose control memory has at most 0x1000
  -- bytes; and each critical section has been left.
  pub serve_all-board_init :
      (softc : ℕ → ℕ) (calls : List HeapCall) (d : Devices) (b b' : Board k) (rs : List (Request k))
      (ctrl_size : ℕ)
      → board_init k softc calls d b ≡ some b'
      → HeapOwned calls (add_region init heap_region)
      → AllOwned k rs b'
      → ctrl_size ≤ 0x1000
      → Sound b.critnest (serve_all k rs b')
        × All
            (λ r. All (Apart r) (sram2 ∷ heap_region ∷ init_params ctrl_size))
            (blocks (serve_all k rs b').shm)
  serve_all-board_init softc calls d b b' rs ctrl_size up given owned small =
      let sound =
        serve_all-Sound b.critnest rs b' owned (board_init-Sound softc calls d b b' up given) in
      (sound, All-mono _ _ _ (shm-Apart ctrl_size small) sound.shm.inside)
