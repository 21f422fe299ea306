-- ===== src/Net/Http.antt =====
-- The callbacks of src/http.c that do something: `httpc_open`, `httpc_read`, `httpc_write` and
-- `httpc_dump_cb`.
use nrf.Base.{
  ℕ, ◌-◌, ◌*◌, ◌/◌, ◌%◌, ◌^◌, ◌≤◌, ◌<◌, ◌≡◌, refl, not, List, [], ◌∷◌, arith, u32, sub64, ◌==◌,
  if◌then◌else◌,
}
use nrf.Base.Int.{ℤ, pos, negsuc, is_negative, is_positive, is_zero}
use nrf.Base.Run.{Run, ok, undefined}
use nrf.Net.Calls.{NetCall, getaddrinfo, socket, bind_to_pdn, bind, connect, Modem}

-- A function that may stop the system instead of returning.
pub data Outcome : Type 0 where
  panicked : Outcome
  returned : ℤ → Outcome

-- What became of the function, and the calls it had made.
pub record Trace : Type 0 where
  pub outcome : Outcome
  pub calls : List NetCall

abbrev pub trace : Outcome → List NetCall → Trace
trace outcome calls = record { outcome = outcome; calls = calls }

-- `httpc_open`; what it returns here is what it stores through its argument `socket`, since its
-- result is 0 wherever it returns. The result of `nrf_setsockopt` is not looked at.
unfoldable pub httpc_open : Modem → Trace
httpc_open m =
    if is_negative m.socket_result
    then trace panicked (socket ∷ [])
    else if not (is_zero m.getaddrinfo_result)
    then trace panicked (socket ∷ bind_to_pdn ∷ getaddrinfo ∷ [])
    else if not (is_zero m.bind_result)
    then trace panicked (socket ∷ bind_to_pdn ∷ getaddrinfo ∷ bind ∷ [])
    else if not (is_zero m.connect_result)
    then trace panicked (socket ∷ bind_to_pdn ∷ getaddrinfo ∷ bind ∷ connect ∷ [])
    else trace (returned m.socket_result) (socket ∷ bind_to_pdn ∷ getaddrinfo ∷ bind ∷ connect ∷ [])

-- The result and the value of `*length` after the call; `received` is the result of `nrf_recv`.
unfoldable pub httpc_read : (received : ℤ) (length : ℕ) → ℤ × ℕ
httpc_read (pos n) length = (pos 0, n)
httpc_read (negsuc n) length = (negsuc n, length)

-- The same for `httpc_write` and `nrf_send`.
unfoldable pub httpc_write : (sent : ℤ) (length : ℕ) → ℤ × ℕ
httpc_write sent length = if is_positive sent then (pos 0, length) else (sent, length)

-- `httpc_main` sets `time_started`.
abbrev pub seconds : ℕ → ℕ
seconds uptime = uptime / 1000000

-- The speed that `httpc_dump_cb` prints; the processor's `size_t` has 32 bits.
unfoldable pub httpc_dump_cb : (time_started uptime position : ℕ) → Run ℕ
httpc_dump_cb time_started uptime position =
    let delta = u32 (sub64 (u32 (seconds uptime)) time_started) in
    let kbit = u32 (position * 8) / 1000 in if delta == 0 then undefined else ok (kbit / delta)

-- For a transfer that started not after now, on a system that is up for less than `2 ^ 32` seconds,
-- the speed is the position modulo `2 ^ 29`, in units of 1000 bits, per whole second since the
-- start. In the second of the start there is no result: the division is by 0.
pub httpc_dump_cb_lem :
    (start now position : ℕ)
    → start ≤ now
    → seconds now < 2 ^ 32
    → httpc_dump_cb (seconds start) now position ≡ (
        if seconds now == seconds start
        then undefined
        else ok ((position % 2 ^ 29 * 8) / 1000 / (seconds now - seconds start)))
unfolding httpc_dump_cb
httpc_dump_cb_lem start now position order small =
    let delta : u32 (sub64 (u32 (seconds now)) (seconds start)) ≡ seconds now - seconds start =
      omega arith in
    let kbit : u32 (position * 8) ≡ position % 2 ^ 29 * 8 = omega arith in
    rw delta (rw kbit (ground arith))

-- `httpc_write` gives the code that `httpc_read` gives for the same result of the modem, but never a
-- new length: a caller is not told how many of its bytes the modem took.
pub httpc_write-httpc_read :
    (r : ℤ) (length : ℕ) → httpc_write r length ≡ ((httpc_read r length).0, length)
unfolding httpc_read httpc_write
httpc_write-httpc_read (pos n) length = ground arith
httpc_write-httpc_read (negsuc n) length = refl
