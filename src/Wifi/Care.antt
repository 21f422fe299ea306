-- ===== src/Wifi/Care.antt =====
-- What a careful WiFi library leaves behind when it runs over the table of src/wifi/nrf_wifi.c.
use nrf.Base.{ℕ, ◌+◌, ◌<◌, ◌≡◌, ◌&&◌, ◌||◌, Bool, true, false, not, none, some, List, [], ◌∷◌, leb}
use nrf.Base.Int.{ℤ}
use nrf.Wifi.Shim.{Memory, in_range, are_apart, OsalOps, nrf_wifi_os_mdx_ops}
use nrf.Wifi.Client.{
  Request, finish, mem_alloc, mem_zalloc, mem_free, mem_cpy, mem_set, mem_cmp, qspi_read_reg32,
  qspi_write_reg32, qspi_cpy_from, qspi_cpy_to, call_unset, load, store, Stage, going, ended, World,
}

-- Whether a range lies in one of the blocks `(start, size)`, and whether an address lies in none.
unfoldable pub within : List (ℕ × ℕ) → (start size : ℕ) → Bool
within [] start size = false
within ((p, n) ∷ own) start size =
    (leb p start && leb (start + size) (p + n)) || within own start size

unfoldable pub outside : List (ℕ × ℕ) → (a : ℕ) → Bool
outside [] a = true
outside ((p, n) ∷ own) a = not (in_range p n a) && outside own a

-- The library writes only to blocks of its own and to those that it is given, copies between ranges
-- that do not overlap, and calls no member that is NULL. `P own s` says that it goes on like this from
-- the state `s` with the blocks `own`.
module _ {S A : Type 0} (P : List (ℕ × ℕ) → S → Type 0) where
  abbrev pub Careful : List (ℕ × ℕ) → Request S A → Type 0
  Careful own (finish a) = Unit
  Careful own (mem_alloc size next) =
      P own (next none) × ((p : ℕ) → P ((p, size) ∷ own) (next (some p)))
  Careful own (mem_zalloc size next) =
      P own (next none) × ((p : ℕ) → P ((p, size) ∷ own) (next (some p)))
  Careful own (mem_free buf next) = P own next
  Careful own (mem_cpy dest src count next) =
      (within own dest count ≡ true) × (are_apart dest src count ≡ true) × P own next
  Careful own (mem_set start val size next) = (within own start size ≡ true) × P own next
  Careful own (mem_cmp addr1 addr2 size next) = (sign : ℤ) → P own (next sign)
  Careful own (qspi_read_reg32 addr next) = (val : ℕ) → P own (next val)
  Careful own (qspi_write_reg32 addr val next) = P own next
  Careful own (qspi_cpy_from dest addr count next) = (within own dest count ≡ true) × P own next
  Careful own (qspi_cpy_to addr src count next) = P own next
  Careful own (call_unset member next) = ⊥
  Careful own (load a next) = (val : ℕ) → P own (next val)
  Careful own (store a val next) = (within own a 1 ≡ true) × P own next

abbrev pub IsBytes : Memory → Type 0
IsBytes m = (a : ℕ) → m a < 256

-- A world that `w0` may become.
pub record Confined {Bus : Type 0} (own : List (ℕ × ℕ)) (w0 w : World Bus) : Type 0 where
  pub bus : w.bus ≡ w0.bus
  pub memory : (a : ℕ) → outside own a ≡ true → w.memory a ≡ w0.memory a
  pub bytes : IsBytes w.memory

module _ {Bus : Type 0} (w0 : World Bus) where
  abbrev ops : OsalOps Bus
  ops = nrf_wifi_os_mdx_ops Bus

  module _ {S A : Type 0} (P : List (ℕ × ℕ) → S → Type 0) where
    -- A state from which the library goes on with care, or the end.
    abbrev Fine : List (ℕ × ℕ) → Stage S A → Type 0
    Fine own (going s) = P own s
    Fine own (ended a) = Unit
