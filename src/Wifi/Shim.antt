-- ===== src/Wifi/Shim.antt =====
-- The callbacks of src/wifi/nrf_wifi.c and their table `nrf_wifi_os_mdx_ops`, over a memory of bytes.
use nrf.Base.{
  ℕ, zero, suc, ◌+◌, ◌-◌, ◌%◌, ◌<◌, ◌==◌, ==_iff, ◌≡◌, refl, ap, ◌∙◌, ◌&&◌, ◌||◌, ◌↔◌, Bool,
  Bool-cases, true, false, inl, inr, Option, none, some, arith, leb, ltb, if◌then◌else◌,
}
use nrf.Base.Int.{ℤ, pos, negsuc}

abbrev pub Memory : Type 0
Memory = ℕ → ℕ

abbrev pub in_range : (start size a : ℕ) → Bool
in_range start size a = leb start a && ltb a (start + size)

abbrev pub are_apart : (a b size : ℕ) → Bool
are_apart a b size = leb (a + size) b || leb (b + size) a

-- The conversion to `unsigned char`.
abbrev pub to_byte : ℤ → ℕ
to_byte (pos n) = n % 256
to_byte (negsuc n) = 255 - n % 256

-- NULL for every size.
abbrev pub mdx_shim_mem_alloc : (size : ℕ) → Option ℕ
mdx_shim_mem_alloc size = none

abbrev pub mdx_shim_mem_zalloc : (size : ℕ) → Option ℕ
mdx_shim_mem_zalloc size = none

abbrev pub mdx_shim_mem_free : (buf : ℕ) → Memory → Memory
mdx_shim_mem_free buf m = m

-- `memcpy` of ranges that overlap is undefined: `none`.
unfoldable pub mdx_shim_mem_cpy : (dest src count : ℕ) → Memory → Option Memory
mdx_shim_mem_cpy dest src count m =
    if count == 0 || are_apart dest src count
    then some (λ a. if in_range dest count a then m (src + (a - dest)) else m a)
    else none

unfoldable pub mdx_shim_mem_set : (start : ℕ) (val : ℤ) (size : ℕ) → Memory → Memory
mdx_shim_mem_set start val size m = λ a. if in_range start size a then to_byte val else m a

-- The sign of what `memcmp` returns, which is all that C says of it.
unfoldable pub mdx_shim_mem_cmp : (addr1 addr2 size : ℕ) → Memory → ℤ
mdx_shim_mem_cmp addr1 addr2 zero m = pos 0
mdx_shim_mem_cmp addr1 addr2 (suc size) m =
    let rest = mdx_shim_mem_cmp (addr1 + 1) (addr2 + 1) size m in
    if m addr1 == m addr2 then rest else if ltb (m addr1) (m addr2) then negsuc 0 else pos 1

-- The bus: these only print.
abbrev pub mdx_shim_qspi_read_reg32 : {Bus : Type 0} (addr : ℕ) → Bus → ℕ
mdx_shim_qspi_read_reg32 addr bus = 0

abbrev pub mdx_shim_qspi_write_reg32 : {Bus : Type 0} (addr val : ℕ) → Bus → Bus
mdx_shim_qspi_write_reg32 addr val bus = bus

abbrev pub mdx_shim_qspi_cpy_from : {Bus : Type 0} (dest addr count : ℕ) → Bus → Memory → Memory
mdx_shim_qspi_cpy_from dest addr count bus m = m

abbrev pub mdx_shim_qspi_cpy_to : {Bus : Type 0} (addr src count : ℕ) → Memory → Bus → Bus
mdx_shim_qspi_cpy_to addr src count m bus = bus

-- The members of `struct nrf_wifi_osal_ops` that stay NULL, as their lines are compiled out.
pub data Unset : Type 0 where
  spinlock_alloc spinlock_free spinlock_init spinlock_take : Unset
  spinlock_rel spinlock_irq_take spinlock_irq_rel : Unset
  log_dbg log_info log_err : Unset
  llist_node_alloc llist_node_free llist_node_data_get llist_node_data_set : Unset
  llist_alloc llist_free llist_init llist_add_node_tail : Unset
  llist_add_node_head llist_get_node_head llist_get_node_nxt llist_del_node : Unset
  llist_len : Unset
  nbuf_alloc nbuf_free nbuf_headroom_res nbuf_headroom_get : Unset
  nbuf_data_size nbuf_data_get nbuf_data_put nbuf_data_push : Unset
  nbuf_data_pull nbuf_get_priority nbuf_get_chksum_done nbuf_set_chksum_done : Unset
  tasklet_alloc tasklet_free tasklet_init tasklet_schedule : Unset
  tasklet_kill : Unset
  sleep_ms delay_us time_get_curr_us time_elapsed_us : Unset
  assert strlen : Unset
  bus_qspi_init bus_qspi_deinit bus_qspi_dev_add bus_qspi_dev_rem : Unset
  bus_qspi_dev_init bus_qspi_dev_deinit bus_qspi_dev_intr_reg bus_qspi_dev_intr_unreg : Unset
  bus_qspi_dev_host_map_get : Unset

-- `struct nrf_wifi_osal_ops`: the members that are set, and the addresses of the other functions, of
-- which 0 is NULL.
pub record OsalOps (Bus : Type 0) : Type 0 where
  pub mem_alloc : (size : ℕ) → Option ℕ
  pub mem_zalloc : (size : ℕ) → Option ℕ
  pub mem_free : (buf : ℕ) → Memory → Memory
  pub mem_cpy : (dest src count : ℕ) → Memory → Option Memory
  pub mem_set : (start : ℕ) (val : ℤ) (size : ℕ) → Memory → Memory
  pub mem_cmp : (addr1 addr2 size : ℕ) → Memory → ℤ
  pub qspi_read_reg32 : (addr : ℕ) → Bus → ℕ
  pub qspi_write_reg32 : (addr val : ℕ) → Bus → Bus
  pub qspi_cpy_from : (dest addr count : ℕ) → Bus → Memory → Memory
  pub qspi_cpy_to : (addr src count : ℕ) → Memory → Bus → Bus
  pub unset : Unset → ℕ

abbrev pub nrf_wifi_os_mdx_ops : (Bus : Type 0) → OsalOps Bus
nrf_wifi_os_mdx_ops Bus = record {
  mem_alloc = mdx_shim_mem_alloc;
  mem_zalloc = mdx_shim_mem_zalloc;
  mem_free = mdx_shim_mem_free;
  mem_cpy = mdx_shim_mem_cpy;
  mem_set = mdx_shim_mem_set;
  mem_cmp = mdx_shim_mem_cmp;
  qspi_read_reg32 = mdx_shim_qspi_read_reg32;
  qspi_write_reg32 = mdx_shim_qspi_write_reg32;
  qspi_cpy_from = mdx_shim_qspi_cpy_from;
  qspi_cpy_to = mdx_shim_qspi_cpy_to;
  unset = λ member. 0;
}

-- Two ranges with the same bytes.
abbrev pub Equal : (a b size : ℕ) → Memory → Type 0
Equal a b size m = (i : ℕ) → i < size → m (a + i) ≡ m (b + i)

Equal-tail : (a b n : ℕ) (m : Memory) → m a ≡ m b → Equal (a + 1) (b + 1) n m → Equal a b (suc n) m
Equal-tail a b n m e rest zero lt = ap m (omega arith) ∙ e ∙ ap m (omega arith)
Equal-tail a b n m e rest (suc i) lt =
    ap m (omega arith) ∙ rest i (omega arith) ∙ ap m (omega arith)

mem_cmp_zero : (a b n : ℕ) (m : Memory) → mdx_shim_mem_cmp a b n m ≡ pos 0 → Equal a b n m
unfolding mdx_shim_mem_cmp
mem_cmp_zero a b zero m h = λ i lt. absurd (omega arith)
mem_cmp_zero a b (suc n) m h = elim (Bool-cases (m a == m b)) [
  | inl e ↦
      Equal-tail a b n m ((==_iff (m a) (m b)).0 e) (mem_cmp_zero (a + 1) (b + 1) n m (rw e at h))
  | inr e ↦ absurd (ground arith)
]

mem_cmp-Equal : (a b n : ℕ) (m : Memory) → Equal a b n m → mdx_shim_mem_cmp a b n m ≡ pos 0
unfolding mdx_shim_mem_cmp
mem_cmp-Equal a b zero m h = refl
mem_cmp-Equal a b (suc n) m h =
    let e : (m a == m b) ≡ true =
      (==_iff (m a) (m b)).1 (ap m (omega arith) ∙ h 0 (omega arith) ∙ ap m (omega arith)) in
    rw e (
      mem_cmp-Equal (a + 1) (b + 1) n m
        (λ i lt. ap m (omega arith) ∙ h (suc i) (omega arith) ∙ ap m (omega arith)))

-- In every memory the comparison finds exactly those ranges equal whose bytes are the same.
pub mem_cmp_iff : (a b n : ℕ) (m : Memory) → (mdx_shim_mem_cmp a b n m ≡ pos 0) ↔ Equal a b n m
mem_cmp_iff a b n m = (mem_cmp_zero a b n m, mem_cmp-Equal a b n m)

-- For ranges that do not overlap, the copy in the table of callbacks succeeds; the comparison in it
-- then finds the two ranges equal; and a byte outside of the destination has not changed.
pub mem_cmp-mem_cpy :
    (Bus : Type 0) (dest src count a : ℕ) (m : Memory)
    → are_apart dest src count ≡ true
    → in_range dest count a ≡ false
    → (m' : Memory) × ((nrf_wifi_os_mdx_ops Bus).mem_cpy dest src count m ≡ some m')
      × ((nrf_wifi_os_mdx_ops Bus).mem_cmp dest src count m' ≡ pos 0)
      × (m' a ≡ m a)
unfolding mdx_shim_mem_cpy
mem_cmp-mem_cpy Bus dest src count a m apart out =
    let m' : Memory = λ b. if in_range dest count b then m (src + (b - dest)) else m b in
    let copied : Equal dest src count m' = λ i lt.
      let written : in_range dest count (dest + i) ≡ true = ground arith in
      let kept : in_range dest count (src + i) ≡ false = ground arith in
      let place : dest + i - dest ≡ i = omega arith in rw (written, kept, place) refl in
    (m', ground arith, mem_cmp-Equal dest src count m' copied, rw out refl)
