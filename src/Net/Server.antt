-- ===== src/Net/Server.antt =====
-- `connect_to_server` of src/main.c, beside `httpc_open` of src/http.c.
use nrf.Base.{◌≡◌, not, [], ◌∷◌, ◌++◌, arith, if◌then◌else◌}
use nrf.Base.Int.{pos, is_negative, is_positive, is_zero}
use nrf.Net.Calls.{
  getaddrinfo, socket, bind_to_pdn, bind, connect, send, close, Modem, opened, closed,
}
use nrf.Net.Http.{panicked, returned, Trace, trace, httpc_open}

unfoldable pub connect_to_server : Modem → Trace
connect_to_server m =
    if is_negative m.socket_result
    then trace panicked (socket ∷ [])
    else if not (is_zero m.getaddrinfo_result)
    then trace panicked (socket ∷ bind_to_pdn ∷ getaddrinfo ∷ [])
    else if not (is_zero m.bind_result)
    then trace panicked (socket ∷ bind_to_pdn ∷ getaddrinfo ∷ bind ∷ [])
    else if not (is_zero m.connect_result)
    then trace panicked (socket ∷ bind_to_pdn ∷ getaddrinfo ∷ bind ∷ connect ∷ [])
    else if not (is_positive m.send_result)
    then trace (returned m.send_result)
        (socket ∷ bind_to_pdn ∷ getaddrinfo ∷ bind ∷ connect ∷ send ∷ close ∷ [])
    else trace (returned (pos 0))
        (socket ∷ bind_to_pdn ∷ getaddrinfo ∷ bind ∷ connect ∷ send ∷ close ∷ [])

-- What follows the set-up: one request on the socket, which is then closed.
abbrev pub request : Modem → Trace → Trace
request m t = elim t.outcome [
  | panicked ↦ t
  | returned fd ↦
      trace (returned (if is_positive m.send_result then pos 0 else m.send_result))
        (t.calls ++ send ∷ close ∷ [])
]

-- A function that returns has closed as many sockets as it opened.
abbrev pub Balanced : Trace → Type 0
Balanced t = elim t.outcome [
  | panicked ↦ closed t.calls ≡ 0
  | returned r ↦ closed t.calls ≡ opened t.calls
]

-- `connect_to_server` is `httpc_open`, with the same calls and the same panics, and then a send and
-- a close; its result is 0 if something was sent, and the result of the send otherwise.
pub connect_to_server-httpc_open : (m : Modem) → connect_to_server m ≡ request m (httpc_open m)
unfolding connect_to_server httpc_open
connect_to_server-httpc_open m = ground arith

-- Where `connect_to_server` returns, an error included, it has closed as many sockets as it opened,
-- and where it panics it has closed none.
pub connect_to_server-Balanced : (m : Modem) → Balanced (connect_to_server m)
unfolding connect_to_server opened closed
connect_to_server-Balanced m = ground arith
