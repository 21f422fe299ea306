-- ===== src/Net/Examples.antt =====
-- Runs of src/ntp.c, src/http.c and `connect_to_server`, and the theorems about them at inputs.
use nrf.Base.{
  ℕ, ◌+◌, ◌*◌, ◌/◌, ◌%◌, ◌≤◌, ◌≡◌, ◌↔◌, refl, Option, some, true, List, [], ◌∷◌, ◌++◌, arith,
  length,
}
use nrf.Base.Int.{pos, negsuc, is_zero}
use nrf.Base.Run.{ok}
use nrf.Net.Calls.{NetCall, getaddrinfo, send, recv, Modem, closed, opened}
use nrf.Net.Ntp.{NtpMsg, ntp_to_unixtime, Reverses, ntp_to_unixtime-IsSentAt}
use nrf.Net.NtpSession.{
  ntp_connect, print_time, ntp_exchange, ntp_main, ntp_main-closed, ntp_main-error,
  ntp_main-IsSentAt, mdx_recv_timeout,
}
use nrf.Net.HttpSession.{Ask, read, close, session_calls, session_calls-opened}
use nrf.Net.HttpWrite.{
  Write, put, on_wire, acknowledged, taken, credited, Whole, on_wire-acknowledged,
}
use nrf.Net.Http.{
  httpc_open, httpc_write, httpc_read, httpc_dump_cb, httpc_dump_cb_lem, httpc_write-httpc_read,
}
use nrf.Net.Server.{
  connect_to_server, request, connect_to_server-httpc_open, connect_to_server-Balanced,
}

program : Unit {0}
unfolding ntp_to_unixtime print_time ntp_connect ntp_exchange ntp_main mdx_recv_timeout closed
    opened httpc_open httpc_dump_cb connect_to_server
program = tt

abbrev swap : ℕ → ℕ
swap x = x % 256 * 16777216 + x / 256 % 256 * 65536 + x / 65536 % 256 * 256 + x / 16777216

swap-Reverses : Reverses swap
unfolding Reverses
swap-Reverses b0 b1 b2 b3 h0 h1 h2 h3 = omega arith

-- The reply of a server at Unix time 1700000000, 3908988800 seconds after 1900.
abbrev reply : NtpMsg
reply = record {
  flags = 28;
  stratum = 1;
  poll = 0;
  precision = 232;
  rootdelay = 0;
  rootdisp = 0;
  refid = 0;
  reftime_sec = 0;
  reftime_frac = 0;
  org_sec = 0;
  org_frac = 0;
  rec_sec = 0;
  rec_frac = 0;
  xmt_sec = swap 3908988800;
  xmt_frac = 0;
}

abbrev good : Modem
good = record {
  getaddrinfo_result = pos 0;
  socket_result = pos 1;
  bind_to_pdn_result = pos 0;
  send_timeout_result = pos 0;
  recv_timeout_result = pos 0;
  bind_result = pos 0;
  connect_result = pos 0;
  send_result = pos 48;
  recv_result = pos 48;
}

reply_time : (ntp_to_unixtime swap reply).1 ≡ 1700000000
reply_time = ntp_to_unixtime-IsSentAt swap swap-Reverses 1700000000 reply (omega arith) refl

-- The number of the day, for every time.
abbrev gmtime_r : ℕ → Option ℕ
gmtime_r t = some (t / 86400)

ntp_main-closed_example : closed (ntp_main gmtime_r swap good reply).calls ≡ 1
unfolding program
ntp_main-closed_example = ntp_main-closed gmtime_r swap good reply

ntp_main-IsSentAt_example : ntp_main gmtime_r swap good reply ≡ record {
  error = pos 0;
  calls = getaddrinfo ∷ (ntp_connect good).calls ++ send ∷ recv ∷ NetCall.close ∷ [];
  printed = some (pos 1700000000, 19675);
}
unfolding program
ntp_main-IsSentAt_example =
    ntp_main-IsSentAt gmtime_r swap good reply swap-Reverses 1700000000 19675 (omega arith) refl
      refl refl refl

abbrev one_read : List Ask
one_read = read (pos 10) 100 ∷ close ∷ []

-- One read and the library's close: the socket stays open.
open_still : opened (session_calls good one_read) ≡ closed (session_calls good one_read) + 1
unfolding program
open_still = session_calls-opened good one_read (pos 1) refl

-- A request that the modem takes only two bytes of, and another that fails.
abbrev short_send : List Write
short_send = put (71 ∷ 69 ∷ 84 ∷ []) (pos 2) ∷ put (13 ∷ []) (negsuc 4) ∷ []

on_wire-acknowledged_example :
    (length (on_wire short_send) ≤ length (acknowledged short_send))
    × ((on_wire short_send ≡ acknowledged short_send) ↔ Whole short_send)
on_wire-acknowledged_example =
    on_wire-acknowledged short_send
      ((λ n e. let two : 2 ≡ n = cc e in omega (arith, two)), ((λ n e. absurd (cc e)), tt))

short_send_lost :
    (on_wire short_send ≡ 71 ∷ 69 ∷ []) × (acknowledged short_send ≡ 71 ∷ 69 ∷ 84 ∷ [])
unfolding on_wire acknowledged taken credited httpc_write
short_send_lost = (refl, refl)

-- The socket is opened and never closed.
unconnected_leaks :
    closed (ntp_main gmtime_r swap (record good { connect_result = negsuc 0 }) reply).calls ≡ 0
unfolding program
unconnected_leaks = refl

ntp_main-error_example :
    (is_zero (ntp_main gmtime_r swap good reply).error ≡ true)
    × ((ntp_main gmtime_r swap good reply).printed ≡ some (pos 1700000000, 19675))
unfolding program
ntp_main-error_example = ntp_main-error gmtime_r swap good reply

a_second_left : httpc_dump_cb 5 9000000 1000000 ≡ ok 2000
a_second_left = httpc_dump_cb_lem 5000000 9000000 1000000 (omega arith) (omega arith)

short_write : httpc_write (pos 10) 100 ≡ (pos 0, 100)
unfolding httpc_read
short_write = httpc_write-httpc_read (pos 10) 100

same_calls : connect_to_server good ≡ request good (httpc_open good)
same_calls = connect_to_server-httpc_open good

connect_to_server-Balanced_example :
    closed (connect_to_server good).calls ≡ opened (connect_to_server good).calls
unfolding program
connect_to_server-Balanced_example = connect_to_server-Balanced good

-- A time that is over, and an event that is none of the awaited.
recv_timed_out : mdx_recv_timeout (pos 0) 0 1 (pos 48) ≡ negsuc 0
unfolding program
recv_timed_out = refl

recv_other_event : mdx_recv_timeout (pos 1) 8 1 (pos 48) ≡ pos 0
unfolding program
recv_other_event = refl
