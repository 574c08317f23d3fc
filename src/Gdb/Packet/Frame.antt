-- ===== src/Gdb/Packet/Frame.antt =====
-- Receiving a framed packet (`gdb_recv_packet` of gdbstub.h).
use libretro_virtualxt.Base.{
  ℕ, zero, suc, ◌%◌, ◌/◌, ◌^◌, ◌≤◌, ◌<◌, ◌≡◌, refl, ◌≢◌, none, some, true, List, [], ◌∷◌, ◌++◌,
  length, All, arith, IsByte, ◌==◌, bit_and, if◌then◌else◌, append-nil,
}
use libretro_virtualxt.Gdb.Digits.{get_digit}
use libretro_virtualxt.Gdb.Digits.Laws.{get_digit_plain}
use libretro_virtualxt.Gdb.Codec.Hex.{nibbles, dec_hex-hex_digits}
use libretro_virtualxt.Gdb.Codec.{checksum, hex_digits}
use libretro_virtualxt.Gdb.Link.{GdbState, getc, putchar}
use libretro_virtualxt.Gdb.Packet.{
  read, wait_start, read_body, checksum_matches, finish_packet, recv_packet,
}

-- A byte that `gdb_sys_getc` can tell from the end of the connection, and that is not `c`.
abbrev pub IsOther : ℕ → ℕ → Type 0
IsOther c b = (b ≢ c) × (b ≢ 0xff)

wait_start-junk :
    (junk r : List ℕ) (fuel fd : ℕ) (s : GdbState)
    → s.client ≡ some fd
    → s.inbox ≡ junk ++ b'$' ∷ r
    → All (IsOther b'$') junk
    → length junk < fuel
    → wait_start fuel s ≡ some (true, record s { inbox = r })
unfolding wait_start getc
wait_start-junk junk r zero fd s c i a h = absurd (omega arith)
wait_start-junk [] r (suc fuel) fd s c i a h = ground arith
wait_start-junk (b ∷ junk) r (suc fuel) fd s c i a h =
    ground (arith, wait_start-junk junk r fuel fd (record s { inbox = junk ++ b'$' ∷ r }))

read_body-chars :
    (body r : List ℕ) (fuel left fd : ℕ) (s : GdbState)
    → s.client ≡ some fd
    → s.inbox ≡ body ++ b'#' ∷ r
    → All (IsOther b'#') body
    → length body < fuel
    → length body ≤ left
    → read_body fuel left s ≡ some (some body, record s { inbox = r })
unfolding read_body getc
read_body-chars body r zero left fd s c i a h fits = absurd (omega arith)
read_body-chars [] r (suc fuel) left fd s c i a h fits = ground arith
read_body-chars (b ∷ body) r (suc fuel) zero fd s c i a h fits = absurd (omega arith)
read_body-chars (b ∷ body) r (suc fuel) (suc left) fd s c i a h fits =
    ground (arith, read_body-chars body r fuel left fd (record s { inbox = body ++ b'#' ∷ r }))

-- The two characters of a checksum are no end of the connection.
abbrev IsPair : ℕ → List ℕ → Type 0
IsPair cs ds = (h : ℕ) × (l : ℕ) × (ds ≡ h ∷ l ∷ []) × (h ≢ 0xff) × (l ≢ 0xff)

hex_digits-IsPair : (cs : ℕ) → IsByte cs → IsPair cs (hex_digits (cs ∷ []))
unfolding hex_digits
hex_digits-IsPair cs h = (
  get_digit (bit_and (cs / 2 ^ 4) 15),
  get_digit (bit_and cs 15),
  refl,
  ground (arith, nibbles cs h, get_digit_plain (cs / 16)),
  ground (arith, nibbles cs h, get_digit_plain (cs % 16)),
)

read_pair :
    (s : GdbState) (fd cs : ℕ) (rest : List ℕ)
    → IsByte cs
    → s.client ≡ some fd
    → s.inbox ≡ hex_digits (cs ∷ []) ++ rest
    → read s 2 ≡ (some (hex_digits (cs ∷ [])), record s { inbox = rest })
unfolding read getc
read_pair s fd cs rest h c i = ground (arith, hex_digits-IsPair cs h)

matches_iff :
    (cs : ℕ) (body : List ℕ)
    → IsByte cs
    → checksum_matches (hex_digits (cs ∷ [])) body ≡ some (checksum body == cs)
unfolding checksum_matches
matches_iff cs body h =
    ground (arith, append-nil (hex_digits (cs ∷ [])), dec_hex-hex_digits (cs ∷ []) [] (h, tt))

-- A packet whose checksum field holds `cs` is taken with `+` if that is the checksum of its data,
-- and refused with `-` if it is not.
finish_packet-checksum :
    (s : GdbState) (fd cs room : ℕ) (body rest : List ℕ)
    → IsByte cs
    → s.client ≡ some fd
    → s.room ≡ suc room
    → s.inbox ≡ hex_digits (cs ∷ []) ++ rest
    → finish_packet s body ≡ (
        if checksum body == cs
        then (some body, record s { inbox = rest; room = room; sent = s.sent ++ (b'+' ∷ []) })
        else (none, record s { inbox = rest; room = room; sent = s.sent ++ (b'-' ∷ []) }))
unfolding finish_packet putchar
finish_packet-checksum s fd cs room body rest h c r i =
    ground (arith, read_pair s fd cs rest h c i, matches_iff cs body h)

module _ (s : GdbState) (fd room : ℕ) (junk body rest : List ℕ) (size fuel : ℕ) where
  -- The connection is open, can take the answer, and holds: characters before the packet, a
  -- packet whose checksum field is `cs`, and what follows.
  abbrev Holds : ℕ → Type 0
  Holds cs =
      (s.client ≡ some fd)
      × (s.room ≡ suc room)
      × (s.inbox ≡ junk ++ b'$' ∷ (body ++ b'#' ∷ (hex_digits (cs ∷ []) ++ rest)))

  -- The state after the packet has been answered by a character.
  abbrev pub answered : ℕ → GdbState
  answered c = record s { inbox = rest; room = room; sent = s.sent ++ (c ∷ []) }

  -- Over an open connection that can take the answer, `gdb_recv_packet` skips what stands before
  -- `$`, and takes the data of a packet that fits the buffer exactly if the two digits behind `#`
  -- are its checksum: then it answers `+`, else it answers `-` and gives `GDB_EOF`. In both cases
  -- it leaves what follows the packet. No data byte is `#`, no byte before is `$`, and none is
  -- 0xff.
  pub recv_packet-frame :
      (cs : ℕ)
      → IsByte cs
      → Holds cs
      → All (IsOther b'$') junk
      → All (IsOther b'#') body
      → length body ≤ size
      → length junk < fuel
      → length body < fuel
      → recv_packet fuel size s
        ≡ some (if checksum body == cs then (some body, answered b'+') else (none, answered b'-'))
  unfolding recv_packet
  recv_packet-frame cs cb h aj ab fits fj fb = ground (
    arith,
    wait_start-junk junk (body ++ b'#' ∷ (hex_digits (cs ∷ []) ++ rest)) fuel fd s h.0 h.2 aj fj,
    read_body-chars body (hex_digits (cs ∷ []) ++ rest) fuel size fd
        (record s { inbox = body ++ b'#' ∷ (hex_digits (cs ∷ []) ++ rest) }) h.0 refl ab fb fits,
    finish_packet-checksum (record s { inbox = hex_digits (cs ∷ []) ++ rest }) fd cs room body rest
        cb h.0 h.1 refl,
  )
