-- ===== src/Net/HttpSession.antt =====
-- The rest of src/http.c: the table `a` of callbacks for the HTTP library, and `httpc_main`.
use nrf.Base.{ℕ, ◌+◌, ◌≡◌, refl, Option, none, List, [], ◌∷◌, ◌++◌, map, arith}
use nrf.Base.Int.{ℤ, pos}
use nrf.Base.Run.{Run}
use nrf.Net.Calls.{NetCall, send, recv, Modem, opened, closed}
use nrf.Net.Http.{returned, httpc_open, httpc_read, httpc_write, httpc_dump_cb, seconds}

-- The callbacks that only print. The allocator has no memory to give, and `httpc_time` leaves the
-- caller's variable as it was.
abbrev pub httpc_close : ℤ
httpc_close = pos 0

abbrev pub httpc_allocator : Option ℕ
httpc_allocator = none

abbrev pub httpc_sleep : (milliseconds : ℕ) → ℤ
httpc_sleep milliseconds = pos 0

abbrev pub httpc_time : (millisecond : Option ℕ) → ℤ × Option ℕ
httpc_time millisecond = (pos 0, millisecond)

abbrev pub httpc_logger : ℤ
httpc_logger = pos 0

-- What the library may ask for on an open socket, with what the modem answers.
pub data Ask : Type 0 where
  read : (received : ℤ) (length : ℕ) → Ask
  write : (sent : ℤ) (length : ℕ) → Ask
  sleep : (milliseconds : ℕ) → Ask
  close time logger allocator : Ask

-- The result that the library sees and the socket calls that are made.
unfoldable pub answer : Ask → ℤ × List NetCall
answer (read received length) = ((httpc_read received length).0, recv ∷ [])
answer (write sent length) = ((httpc_write sent length).0, send ∷ [])
answer (sleep milliseconds) = (httpc_sleep milliseconds, [])
answer close = (httpc_close, [])
answer time = ((httpc_time none).0, [])
answer logger = (httpc_logger, [])
answer allocator = (pos 0, [])

unfoldable pub answers : List Ask → List NetCall
answers [] = []
answers (a ∷ asks) = (answer a).1 ++ answers asks

-- A session of the library: it opens, and then asks what it likes.
abbrev pub session_calls : Modem → List Ask → List NetCall
session_calls m asks = (httpc_open m).calls ++ answers asks

-- `httpc_main`: the time when it starts, and then the library calls `httpc_dump_cb` for each piece,
-- at a time and a position. The speeds that are printed.
unfoldable pub httpc_main : (uptime : ℕ) (pieces : List (ℕ × ℕ)) → List (Run ℕ)
httpc_main uptime pieces =
    map (λ (now, position). httpc_dump_cb (seconds uptime) now position) pieces

answers-opened : (asks : List Ask) → (opened (answers asks) ≡ 0) × (closed (answers asks) ≡ 0)
unfolding answers answer opened closed
answers-opened [] = (refl, refl)
answers-opened (read received length ∷ asks) = answers-opened asks
answers-opened (write sent length ∷ asks) = answers-opened asks
answers-opened (sleep milliseconds ∷ asks) = answers-opened asks
answers-opened (close ∷ asks) = answers-opened asks
answers-opened (time ∷ asks) = answers-opened asks
answers-opened (logger ∷ asks) = answers-opened asks
answers-opened (allocator ∷ asks) = answers-opened asks

-- Whatever the library asks after a successful open, to close included, one socket more has been
-- opened than closed.
pub session_calls-opened :
    (m : Modem) (asks : List Ask) (fd : ℤ)
    → (httpc_open m).outcome ≡ returned fd
    → opened (session_calls m asks) ≡ closed (session_calls m asks) + 1
unfolding httpc_open opened closed
session_calls-opened m asks fd h = ground (arith, answers-opened asks)
