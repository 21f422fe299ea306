-- ===== src/Modem/System/Room.antt =====
-- What the sleeping threads of src/nrf_modem.c promise, with no list, no addresses and no records:
-- each thread is away, waits on a context with a number of permits, or is about to return.
use nrf.Base.{ℕ, suc, ◌==◌, ◌≡◌, ◌||◌, Bool, true, false, if◌then◌else◌}

pub data Status : Type 0 where
  away : Status
  waiting : (context permits : ℕ) → Status
  returning : (taken : Bool) → Status

-- One permit more for a thread that waits on the context, or on any if the context is 0.
abbrev pub signalled : (context : ℕ) → Status → Status
signalled context away = away
signalled context (waiting c n) =
    if (c == context) || (context == 0) then waiting c (suc n) else waiting c n
signalled context (returning taken) = returning taken

-- The threads as before, but thread `i`.
abbrev pub Only : (i : ℕ) (status : Status) (v w : ℕ → Status) → Type 0
Only i status v w = (j : ℕ) → w j ≡ (if j == i then status else v j)

-- What happens in the room.
pub data Event : Type 0 where
  arrive : (i context : ℕ) → Event
  take tire depart : (i : ℕ) → Event
  signal : (context : ℕ) → Event

-- How an event changes the room: all of it, for each thread.
abbrev pub Turn : Event → (v w : ℕ → Status) → Type 0
Turn (arrive i c) v w = (v i ≡ away) × Only i (waiting c 0) v w
Turn (take i) v w = (c : ℕ) × (n : ℕ) × (v i ≡ waiting c (suc n)) × Only i (returning true) v w
Turn (tire i) v w = (c : ℕ) × (n : ℕ) × (v i ≡ waiting c n) × Only i (returning false) v w
Turn (depart i) v w = (taken : Bool) × (v i ≡ returning taken) × Only i away v w
Turn (signal c) v w = (j : ℕ) → w j ≡ signalled c (v j)

-- From an empty room.
pub data Visit : (ℕ → Status) → Type 0 where
  empty : (v : ℕ → Status) → ((i : ℕ) → v i ≡ away) → Visit v
  turn : {v w : ℕ → Status} (e : Event) → Visit v → Turn e v w → Visit w
