-- ===== src/Board/FreeList.antt =====
-- What src/board.c and src/nrf_modem.c rely on in the kernel's allocators, `malloc` with its regions
-- and the zones of `mdx_fl_malloc`: blocks are cut from the regions that were added.
use nrf.Base.{
  ℕ, ◌≡◌, Option, none, some, List, [], ◌∷◌, ◌==◌, Bool, ◌||◌, true, false, ◌⊎◌, if◌then◌else◌,
}
use nrf.Board.Regions.{Region, region, Within, Apart, All}

abbrev pub InSome : Region → List Region → Type 0
InSome r [] = ⊥
InSome r (a ∷ as') = Within r a ⊎ InSome r as'

-- Whether a block starts at the address, and the blocks without it.
abbrev pub starts : ℕ → List Region → Bool
starts p [] = false
starts p (r ∷ rs) = (r.base == p) || starts p rs

abbrev pub without : ℕ → List Region → List Region
without p [] = []
without p (r ∷ rs) = if r.base == p then rs else r ∷ without p rs

-- `area` are the regions that were added, `blocks` the blocks that were allocated and not freed.
pub record FreeList : Type 1 where
  pub Zone : Type 0
  pub area : Zone → List Region
  pub blocks : Zone → List Region
  pub init : Zone
  pub add_region : Zone → Region → Zone
  pub malloc : Zone → ℕ → Zone × Option ℕ
  pub free : Zone → ℕ → Zone
  pub area-init : area init ≡ []
  pub blocks-init : blocks init ≡ []
  pub area-add_region : (z : Zone) (r : Region) → area (add_region z r) ≡ r ∷ area z
  pub blocks-add_region : (z : Zone) (r : Region) → blocks (add_region z r) ≡ blocks z
  pub area-malloc : (z : Zone) (n : ℕ) → area (malloc z n).0 ≡ area z
  pub malloc-none : (z : Zone) (n : ℕ) → (malloc z n).1 ≡ none → blocks (malloc z n).0 ≡ blocks z
  pub malloc-some :
      (z : Zone) (n p : ℕ)
      → (malloc z n).1 ≡ some p
      → (blocks (malloc z n).0 ≡ region p n ∷ blocks z)
        × InSome (region p n) (area z)
        × All (Apart (region p n)) (blocks z)
  pub area-free : (z : Zone) (p : ℕ) → area (free z p) ≡ area z
  pub blocks-free :
      (z : Zone) (p : ℕ) → starts p (blocks z) ≡ true → blocks (free z p) ≡ without p (blocks z)
