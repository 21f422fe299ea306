-- ===== src/Lte/Input.antt =====
-- The serial input of src/main.c: `nrf_input`, its buffer and the flag.
use nrf.Base.{
  ℕ, zero, suc, ◌+◌, ◌-◌, ◌≤◌, ◌≡◌, Bool, true, false, List, [], ◌∷◌, ◌||◌, arith, u8, ltb, ◌==◌,
  if◌then◌else◌, length,
}

-- LC_MAX_READ_LENGTH
abbrev pub max_read_length : ℕ
max_read_length = 128

-- `buffer`, as a function of the index, `buffer_fill` and `ready_to_send`.
pub record Input : Type 0 where
  pub buffer : ℕ → ℕ
  pub buffer_fill : ℕ
  pub ready_to_send : Bool

abbrev store : (ℕ → ℕ) → ℕ → ℕ → ℕ → ℕ
store buffer i v j = if j == i then v else buffer j

unfoldable pub nrf_input : (c : ℕ) → Input → Input
nrf_input c s =
    if c == 13
    then record s { ready_to_send = true }
    else if ltb s.buffer_fill max_read_length
    then record s { buffer = store s.buffer s.buffer_fill (u8 c); buffer_fill = suc s.buffer_fill }
    else s

-- The interrupts of a line of input, one for each character.
unfoldable pub inputs : List ℕ → Input → Input
inputs [] s = s
inputs (c ∷ cs) s = inputs cs (nrf_input c s)

-- The characters but the carriage returns, as bytes.
unfoldable pub kept : List ℕ → List ℕ
kept [] = []
kept (c ∷ cs) = if c == 13 then kept cs else u8 c ∷ kept cs

unfoldable pub has_return : List ℕ → Bool
has_return [] = false
has_return (c ∷ cs) = (c == 13) || has_return cs

-- The element at an index, and a default from the end on.
unfoldable pub get : ℕ → List ℕ → ℕ → ℕ
get d [] i = d
get d (x ∷ xs) zero = x
get d (x ∷ xs) (suc i) = get d xs i

-- Cell `i` holds the character that belongs there: one of those that came while there was room, or
-- what it held before.
abbrev pub expected : List ℕ → Input → ℕ → ℕ
expected cs s i =
    if ltb i s.buffer_fill
    then s.buffer i
    else if ltb i max_read_length
    then get (s.buffer i) (kept cs) (i - s.buffer_fill)
    else s.buffer i

inputs-buffer_fill :
    (cs : List ℕ) (s : Input)
    → s.buffer_fill ≤ max_read_length
    → (inputs cs s).buffer_fill ≡ (
        if ltb (s.buffer_fill + length (kept cs)) max_read_length
        then s.buffer_fill + length (kept cs)
        else max_read_length)
unfolding inputs nrf_input kept
inputs-buffer_fill [] s room = ground arith
inputs-buffer_fill (c ∷ cs) s room =
    let ih = inputs-buffer_fill cs (nrf_input c s) in ground (arith, ih)

inputs-ready :
    (cs : List ℕ) (s : Input) → (inputs cs s).ready_to_send ≡ (s.ready_to_send || has_return cs)
unfolding inputs nrf_input has_return
inputs-ready [] s = ground arith
inputs-ready (c ∷ cs) s = let ih = inputs-ready cs (nrf_input c s) in ground (arith, ih)

inputs-buffer :
    (cs : List ℕ) (s : Input) (i : ℕ)
    → s.buffer_fill ≤ max_read_length
    → (inputs cs s).buffer i ≡ expected cs s i
unfolding inputs nrf_input kept get
inputs-buffer [] s i room = ground arith
inputs-buffer (c ∷ cs) s i room = let ih = inputs-buffer cs (nrf_input c s) i in ground (arith, ih)

-- The state in which `main` leaves the input before the first character.
abbrev pub cleared : (ℕ → ℕ) → Input
cleared buffer = record { buffer = buffer; buffer_fill = 0; ready_to_send = false }

-- After any characters on the cleared input, `buffer_fill` is the number of those that are no
-- carriage returns, but 128 at most; the cells below it hold the first of them, in order; no other
-- cell has changed, in particular none beyond the buffer's end; and the flag says whether there was
-- a carriage return.
pub inputs-cleared :
    (cs : List ℕ) (buffer : ℕ → ℕ) (i : ℕ)
    → ((inputs cs (cleared buffer)).buffer_fill
        ≡ (if ltb (length (kept cs)) max_read_length then length (kept cs) else max_read_length))
      × ((inputs cs (cleared buffer)).buffer i
          ≡ (if ltb i max_read_length then get (buffer i) (kept cs) i else buffer i))
      × ((inputs cs (cleared buffer)).ready_to_send ≡ has_return cs)
inputs-cleared cs buffer i =
    let fill = inputs-buffer_fill cs (cleared buffer) (omega arith) in
    let cell = inputs-buffer cs (cleared buffer) i (omega arith) in
    let ready = inputs-ready cs (cleared buffer) in
    (ground (arith, fill), ground (arith, cell), ground (arith, ready))
