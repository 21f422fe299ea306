-- ===== src/Modem/Waiters.antt =====
-- The list of sleeping threads: `td_first`, `td_next`, and the walks that post to the threads.
use nrf.Base.{ℕ, zero, suc, ◌==◌, ◌||◌, Bool, Option, none, some, if◌then◌else◌}
use nrf.Base.Run.{Run, ok, out_of_fuel}
use nrf.Modem.Kernel.{Ptr, Kernel}

-- The interrupt routines of src/nrf_modem.c, and what the controller calls for each interrupt.
pub data Isr : Type 0 where
  ipc_intr : Isr

abbrev pub Vectors : Type 0
Vectors = ℕ → Option Isr

module _ (k : Kernel) where
  open k use {Sem, sem_init, sem_post, Links, head, next, list_init, list_empty}

  -- The list, and the members `sem` and `context` of the `struct sleeping_thread` at an address.
  pub record Os : Type 0 where
    pub links : Links
    pub sem : Ptr → Sem
    pub context : Ptr → ℕ

  -- `id_ipc` is ID_IPC of the processor's header, `nvic` what the lookup of the interrupt controller
  -- returns, and `none` the panic when it is NULL.
  unfoldable pub nrf_modem_os_init : (id_ipc nvic : ℕ) → Vectors → Os → Option (Os × Vectors)
  nrf_modem_os_init id_ipc nvic vectors os =
      if nvic == 0
      then none
      else some (
        record os { links = list_init },
        λ irq. if irq == id_ipc then some ipc_intr else vectors irq,
      )

  unfoldable pub td_first : Os → Option Ptr
  td_first os = if list_empty os.links then none else some (next os.links head)

  unfoldable pub td_next : Os → Ptr → Option Ptr
  td_next os td0 = if next os.links td0 == head then none else some (next os.links td0)

  abbrev pub post : Ptr → Os → Os
  post td os = record os { sem = λ a. if a == td then sem_post (os.sem a) else os.sem a }

  -- `(td->context == context) || (context == 0)`
  abbrev pub is_addressed : (context : ℕ) → Os → Ptr → Bool
  is_addressed context os td = (os.context td == context) || (context == 0)

  unfoldable pub notify_loop : (fuel context : ℕ) → Option Ptr → Os → Run Os
  notify_loop zero context td os = out_of_fuel
  notify_loop (suc fuel) context none os = ok os
  notify_loop (suc fuel) context (some td) os =
      let os' = if is_addressed context os td then post td os else os in
      notify_loop fuel context (td_next os' td) os'

  unfoldable pub nrf_modem_os_event_notify : (fuel context : ℕ) → Os → Run Os
  nrf_modem_os_event_notify fuel context os = notify_loop fuel context (td_first os) os

  unfoldable pub shutdown_loop : (fuel : ℕ) → Option Ptr → Os → Run Os
  shutdown_loop zero td os = out_of_fuel
  shutdown_loop (suc fuel) none os = ok os
  shutdown_loop (suc fuel) (some td) os = shutdown_loop fuel (td_next (post td os) td) (post td os)

  unfoldable pub nrf_modem_os_shutdown : (fuel : ℕ) → Os → Run Os
  nrf_modem_os_shutdown fuel os = shutdown_loop fuel (td_first os) os
