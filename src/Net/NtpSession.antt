-- ===== src/Net/NtpSession.antt =====
-- The flow of src/ntp.c: `ntp_connect`, `ntp_main` and `mdx_recv_timeout`.
use nrf.Base.{
  ℕ, ◌<◌, ◌^◌, ◌+◌, ◌≡◌, ◌&&◌, not, Bool, true, Option, none, some, List, [], ◌∷◌, ◌++◌, arith, ltb,
  ◌-◌, if◌then◌else◌,
}
use nrf.Base.Bits.{has_bits}
use nrf.Base.Int.{ℤ, pos, negsuc, is_negative, is_positive, is_zero}
use nrf.Net.Calls.{
  NetCall, getaddrinfo, socket, bind_to_pdn, send_timeout, recv_timeout, bind, connect, send, recv,
  close, Modem, closed,
}
use nrf.Net.Ntp.{NtpMsg, ntp_to_unixtime, Reverses, IsSentAt, ntp_to_unixtime-IsSentAt}

-- The result, what was stored through the argument `fd0`, and the calls.
pub record Connected : Type 0 where
  pub error : ℤ
  pub fd : Option ℤ
  pub calls : List NetCall

abbrev connected : ℤ → Option ℤ → List NetCall → Connected
connected error fd calls = record { error = error; fd = fd; calls = calls }

unfoldable pub ntp_connect : Modem → Connected
ntp_connect m =
    let fd = m.socket_result in
    if is_negative fd
    then connected (negsuc 0) none (socket ∷ [])
    else if not (is_zero m.bind_to_pdn_result)
    then connected m.bind_to_pdn_result (some fd) (socket ∷ bind_to_pdn ∷ [])
    else if not (is_zero m.send_timeout_result)
    then connected m.send_timeout_result (some fd) (socket ∷ bind_to_pdn ∷ send_timeout ∷ [])
    else if not (is_zero m.recv_timeout_result)
    then connected m.recv_timeout_result (some fd)
        (socket ∷ bind_to_pdn ∷ send_timeout ∷ recv_timeout ∷ [])
    else if not (is_zero m.bind_result)
    then connected m.bind_result (some fd)
        (socket ∷ bind_to_pdn ∷ send_timeout ∷ recv_timeout ∷ bind ∷ [])
    else if not (is_zero m.connect_result)
    then connected m.connect_result (some fd)
        (socket ∷ bind_to_pdn ∷ send_timeout ∷ recv_timeout ∷ bind ∷ connect ∷ [])
    else connected (pos 0) (some fd)
        (socket ∷ bind_to_pdn ∷ send_timeout ∷ recv_timeout ∷ bind ∷ connect ∷ [])

-- The result of `ntp_main`, its calls, and the time that it printed, with its parts.
pub record Session (Tm : Type 0) : Type 0 where
  pub error : ℤ
  pub calls : List NetCall
  pub printed : Option (ℤ × Tm)

abbrev session : {Tm : Type 0} → ℤ → List NetCall → Option (ℤ × Tm) → Session Tm
session error calls printed = record { error = error; calls = calls; printed = printed }

-- What `%d` prints for an `unsigned int`.
abbrev pub as_int : ℕ → ℤ
as_int n = if ltb n (2 ^ 31) then pos n else negsuc (2 ^ 32 - 1 - n)

-- `gmtime_r` is the C library's, called with the address of the 32-bit variable as that of a `time_t`:
-- the parts of the time that it reads there if the variable has the given value, or NULL. Whether it
-- reads that value depends on the library.
module _ {Tm : Type 0} (gmtime_r : ℕ → Option Tm) where
  -- The result, and what is printed.
  unfoldable pub print_time : (unixtime : ℕ) → ℤ × Option (ℤ × Tm)
  print_time unixtime = elim (gmtime_r unixtime) [
    | none ↦ (negsuc 0, none)
    | some t ↦ (pos 0, some (as_int unixtime, t))
  ]

  -- From the send on, with the calls made so far; `reply` is the buffer after `nrf_recvfrom`. The
  -- variable `error` is 0 here.
  unfoldable pub ntp_exchange :
      (htobe32 : ℕ → ℕ) → Modem → (reply : NtpMsg) → (error : ℤ) → List NetCall → Session Tm
  ntp_exchange htobe32 m reply error calls =
      if not (is_positive m.send_result)
      then session error (calls ++ send ∷ close ∷ []) none
      else if not (is_positive m.recv_result)
      then session error (calls ++ send ∷ recv ∷ close ∷ []) none
      else session (pos 0) (calls ++ send ∷ recv ∷ close ∷ [])
          (print_time (ntp_to_unixtime htobe32 reply).1).1

  unfoldable pub ntp_main : (htobe32 : ℕ → ℕ) → Modem → (reply : NtpMsg) → Session Tm
  ntp_main htobe32 m reply =
      let c = ntp_connect m in
      if not (is_zero m.getaddrinfo_result)
      then session m.getaddrinfo_result (getaddrinfo ∷ []) none
      else if not (is_zero c.error)
      then session c.error (getaddrinfo ∷ c.calls) none
      else ntp_exchange htobe32 m reply c.error (getaddrinfo ∷ c.calls)

-- `mdx_recv_timeout`: `poll` is what `nrf_poll` returns, with `revents` and NRF_POLLIN, and
-- `received` what `nrf_recv` returns. The result is -1 for a timeout and -2 for an error.
unfoldable pub mdx_recv_timeout : (poll : ℤ) (revents pollin : ℕ) (received : ℤ) → ℤ
mdx_recv_timeout poll revents pollin received =
    if is_zero poll
    then negsuc 0
    else if is_negative poll
    then negsuc 1
    else if has_bits revents pollin
    then received
    else pos 0

-- Whether the connection was set up.
abbrev pub is_up : Modem → Bool
is_up m = is_zero m.getaddrinfo_result && is_zero (ntp_connect m).error

ntp_connect-closed : (m : Modem) → closed (ntp_connect m).calls ≡ 0
unfolding ntp_connect closed
ntp_connect-closed m = ground arith

closed-append : (xs ys : List NetCall) → closed (xs ++ ys) ≡ closed xs + closed ys
unfolding closed
closed-append [] ys = omega arith
closed-append (getaddrinfo ∷ xs) ys = closed-append xs ys
closed-append (close ∷ xs) ys = omega (arith, closed-append xs ys)
closed-append (_ ∷ xs) ys = closed-append xs ys

module _ {Tm : Type 0} (gmtime_r : ℕ → Option Tm) (htobe32 : ℕ → ℕ) (m : Modem)
    (reply : NtpMsg) where
  -- `ntp_main` closes a socket once if the look-up and the set-up of the connection succeeded, and
  -- otherwise never.
  pub ntp_main-closed :
      closed (ntp_main gmtime_r htobe32 m reply).calls ≡ (if is_up m then 1 else 0)
  unfolding ntp_main ntp_exchange closed
  ntp_main-closed = ground (
    arith,
    ntp_connect-closed m,
    closed-append (ntp_connect m).calls (send ∷ close ∷ []),
    closed-append (ntp_connect m).calls (send ∷ recv ∷ close ∷ []),
  )

  -- The result of `ntp_main` is 0 exactly if the look-up and the set-up of the connection
  -- succeeded, whatever became of the exchange. A time can only be printed if both lengths of
  -- the exchange are positive too, and then it is what `print_time` prints for that of the reply.
  pub ntp_main-error :
      (is_zero (ntp_main gmtime_r htobe32 m reply).error ≡ is_up m)
      × ((ntp_main gmtime_r htobe32 m reply).printed ≡ (
          if is_up m && (is_positive m.send_result && is_positive m.recv_result)
          then (print_time gmtime_r (ntp_to_unixtime htobe32 reply).1).1
          else none))
  unfolding ntp_main ntp_exchange
  ntp_main-error = (ground arith, ground arith)

  -- If the look-up and the set-up of the connection succeed, something is sent, and a reply comes that
  -- carries a 32-bit Unix time in network byte order, then `ntp_main` prints this time as an `int`,
  -- which is the time itself up to `2 ^ 31 - 1`, in 2038, and negative, `2 ^ 32` less, from then on. With
  -- it come the parts that `gmtime_r` gives for the variable; the result is 0, and the socket has been
  -- closed at the end. The modem's `htobe32` reverses the bytes of a word, and `gmtime_r` does not
  -- return NULL.
  pub ntp_main-IsSentAt :
      Reverses htobe32
      → (t : ℕ) (tm : Tm) → t < 2 ^ 32
      → IsSentAt t reply
      → gmtime_r t ≡ some tm
      → is_up m ≡ true
      → is_positive m.send_result && is_positive m.recv_result ≡ true
      → ntp_main gmtime_r htobe32 m reply
        ≡ session
            (pos 0)
            (getaddrinfo ∷ (ntp_connect m).calls ++ send ∷ recv ∷ close ∷ [])
            (some (as_int t, tm))
  unfolding ntp_main ntp_exchange print_time
  ntp_main-IsSentAt rev t tm small sent parts up exchanged =
      let time : (ntp_to_unixtime htobe32 reply).1 ≡ t =
        ntp_to_unixtime-IsSentAt htobe32 rev t reply small sent in
      let off : is_zero m.getaddrinfo_result ≡ true = ground arith in
      let joined : is_zero (ntp_connect m).error ≡ true = ground arith in
      rw (off, joined) (ground (arith, time, parts))
