-- ===== src/Net/Ntp.antt =====
-- The reply of src/ntp.c: `ntp_to_unixtime` and its byte order.
use nrf.Base.{ℕ, ◌+◌, ◌*◌, ◌/◌, ◌%◌, ◌^◌, ◌<◌, ◌≡◌, ap, ◌∙◌, arith, u32, sub64}

-- `struct ntp_msg`, as the processor reads its members.
pub record NtpMsg : Type 0 where
  pub flags : ℕ
  pub stratum : ℕ
  pub poll : ℕ
  pub precision : ℕ
  pub rootdelay : ℕ
  pub rootdisp : ℕ
  pub refid : ℕ
  pub reftime_sec : ℕ
  pub reftime_frac : ℕ
  pub org_sec : ℕ
  pub org_frac : ℕ
  pub rec_sec : ℕ
  pub rec_frac : ℕ
  pub xmt_sec : ℕ
  pub xmt_frac : ℕ

-- NTP_TO_UNIX: the subtraction is one of `unsigned long long`.
abbrev pub ntp_to_unix : ℕ → ℕ
ntp_to_unix x = sub64 x 2208988800

-- The word that the processor, which is little-endian, reads from four bytes in memory.
abbrev pub load_word : (b0 b1 b2 b3 : ℕ) → ℕ
load_word b0 b1 b2 b3 = b0 + 256 * b1 + 65536 * b2 + 16777216 * b3

-- The seconds from 1900 of a Unix time, as the protocol counts them modulo `2 ^ 32`.
abbrev pub ntp_seconds : ℕ → ℕ
ntp_seconds t = u32 (t + 2208988800)

-- A message whose transmit time stands in memory with the highest byte first.
abbrev pub IsSentAt : (t : ℕ) → NtpMsg → Type 0
IsSentAt t ntp =
    let s = ntp_seconds t in
    ntp.xmt_sec ≡ load_word (s / 16777216) (s / 65536 % 256) (s / 256 % 256) (s % 256)

module _ (htobe32 : ℕ → ℕ) where
  -- The message after the call, and the time.
  unfoldable pub ntp_to_unixtime : NtpMsg → NtpMsg × ℕ
  ntp_to_unixtime ntp =
      let ntp' = record ntp {
        org_frac = htobe32 ntp.org_frac;
        org_sec = htobe32 ntp.org_sec;
        reftime_frac = htobe32 ntp.reftime_frac;
        reftime_sec = htobe32 ntp.reftime_sec;
        rec_frac = htobe32 ntp.rec_frac;
        rec_sec = htobe32 ntp.rec_sec;
        xmt_frac = htobe32 ntp.xmt_frac;
        xmt_sec = htobe32 ntp.xmt_sec;
      } in
      (ntp', u32 (ntp_to_unix ntp'.xmt_sec))

  -- What the code relies on: on this processor `htobe32` reverses the bytes of a word.
  unfoldable pub Reverses : Type 0
  Reverses =
      (b0 b1 b2 b3 : ℕ)
      → b0 < 256
      → b1 < 256
      → b2 < 256
      → b3 < 256
      → htobe32 (load_word b0 b1 b2 b3) ≡ load_word b3 b2 b1 b0

  -- If `htobe32` reverses the bytes of a word, every 32-bit Unix time, also one after the NTP
  -- seconds have wrapped in 2036, comes back from a reply that carries it in network byte order.
  pub ntp_to_unixtime-IsSentAt :
      Reverses → (t : ℕ) (ntp : NtpMsg) → t < 2 ^ 32 → IsSentAt t ntp → (ntp_to_unixtime ntp).1 ≡ t
  unfolding ntp_to_unixtime Reverses
  ntp_to_unixtime-IsSentAt rev t ntp small sent =
      let s = ntp_seconds t in
      let swapped : htobe32 ntp.xmt_sec ≡ s =
        ap htobe32 sent
        ∙ rev (s / 16777216) (s / 65536 % 256) (s / 256 % 256) (s % 256) (omega arith) (omega arith)
            (omega arith) (omega arith)
        ∙ omega arith in
      rw swapped (omega arith)
