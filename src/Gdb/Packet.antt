-- ===== src/Gdb/Packet.antt =====
-- Packets of src/modules/gdb/gdbstub/gdbstub.h: `gdb_write`, `gdb_read`, `gdb_recv_ack`,
-- `gdb_send_packet`, `gdb_recv_packet` and the packets that are composed from these. The loops
-- that wait for a character take fuel; `none` is that it ran out, and Packet/Fuel.antt shows how
-- much is enough.
pub mod Send
pub mod Frame
pub mod Fuel
pub mod Prefix
use libretro_virtualxt.Base.{
  ℕ, zero, suc, ◌+◌, ◌-◌, Bool, true, false, ◌&&◌, Option, none, some, List, [], ◌∷◌, ◌++◌, length,
  ltb, get_or, ◌==◌, if◌then◌else◌, u8, take, drop,
}
use libretro_virtualxt.Gdb.Digits.{strlen, Access, ok, fault}
use libretro_virtualxt.Gdb.Codec.{checksum, enc_hex, hex_digits, Decoded, dec_hex}
use libretro_virtualxt.Gdb.Link.{GdbState, getc, putchar}

-- The loop of `gdb_write`: false is `GDB_EOF`.
unfoldable pub write : GdbState → List ℕ → Bool × GdbState
write s [] = (true, s)
write s (b ∷ buf) =
    let (sent, s') = putchar s b in elim sent [ false ↦ (false, s') | true ↦ write s' buf ]

-- `gdb_read` of `len` bytes into a buffer that holds them.
unfoldable pub read : GdbState → ℕ → Option (List ℕ) × GdbState
read s zero = (some [], s)
read s (suc len) =
    let (c, s') = getc s in
    elim c [
      | none ↦ (none, s')
      | some b ↦
          let (bs, s'') = read s' len in
          elim bs [ none ↦ (none, s'') | some bytes ↦ (some (b ∷ bytes), s'') ]
    ]

-- What a sent packet met: 0, 1 and `GDB_EOF`.
pub data Ack : Type 0 where
  acked nacked eof : Ack

-- `gdb_recv_ack`.
unfoldable pub recv_ack : GdbState → Ack × GdbState
recv_ack s =
    if s.noack
    then (acked, s)
    else let (response, s') = getc s in
      elim response [
        | none ↦ (eof, s')
        | some c ↦ ((if c == b'+' then acked else if c == b'-' then nacked else eof), s')
      ]

-- `#` and the two digits of the checksum; `gdb_enc_hex` has room for them.
unfoldable pub trailer : List ℕ → Option (List ℕ)
trailer pkt_data = elim (enc_hex 2 (checksum pkt_data ∷ [])) [
  | none ↦ none
  | some cs ↦ some (b'#' ∷ cs)
]

-- `gdb_send_packet`.
unfoldable pub send_packet : GdbState → List ℕ → Ack × GdbState
send_packet s pkt_data =
    let (started, s₁) = putchar s b'$' in
    elim started [
      | false ↦ (eof, s₁)
      | true ↦
          let (written, s₂) = write s₁ pkt_data in
          elim written [
            | false ↦ (eof, s₂)
            | true ↦ elim (trailer pkt_data) [
              | none ↦ (eof, s₂)
              | some end ↦
                  let (closed, s₃) = write s₂ end in
                  elim closed [ false ↦ (eof, s₃) | true ↦ recv_ack s₃ ]
            ]
          ]
    ]

-- The first loop of `gdb_recv_packet`: skip to `$`. The flag tells if it was found.
unfoldable pub wait_start : ℕ → GdbState → Option (Bool × GdbState)
wait_start zero s = none
wait_start (suc fuel) s =
    let (c, s') = getc s in
    elim c [
      | none ↦ some (false, s')
      | some b ↦ elim (b == b'$') [ true ↦ some (true, s') | false ↦ wait_start fuel s' ]
    ]

-- The second loop: the characters up to `#`, which must fit the buffer of `left` more. The inner
-- `none` is `GDB_EOF`.
unfoldable pub read_body : ℕ → ℕ → GdbState → Option (Option (List ℕ) × GdbState)
read_body zero left s = none
read_body (suc fuel) left s =
    let (c, s') = getc s in
    elim c [
      | none ↦ some (none, s')
      | some b ↦ elim (b == b'#') [
        | true ↦ some (some [], s')
        | false ↦ elim left [
          | zero ↦ some (none, s')
          | suc n ↦ elim (read_body fuel n s') [
            | none ↦ none
            | some (body, s'') ↦ some ((elim body [ none ↦ none | some bs ↦ some (b ∷ bs) ]), s'')
          ]
        ]
      ]
    ]

-- Whether the two characters are the checksum of the data; `none` if they are no digits.
unfoldable pub checksum_matches : List ℕ → List ℕ → Option Bool
checksum_matches digits pkt_data = elim (dec_hex digits 2 1) [
  | fault ↦ none
  | ok r ↦ elim r.done [
    | false ↦ none
    | true ↦ elim r.bytes [ [] ↦ none | expected ∷ more ↦ some (checksum pkt_data == expected) ]
  ]
]

-- The end of `gdb_recv_packet`: the checksum, and the answer to the packet.
unfoldable pub finish_packet : GdbState → List ℕ → Option (List ℕ) × GdbState
finish_packet s pkt_data =
    let (cs, s') = read s 2 in
    elim cs [
      | none ↦ (none, s')
      | some digits ↦ elim (checksum_matches digits pkt_data) [
        | none ↦ (none, s')
        | some good ↦ elim good [
          | false ↦ (none, (putchar s' b'-').1)
          | true ↦ (some pkt_data, (putchar s' b'+').1)
        ]
      ]
    ]

-- `gdb_recv_packet` with a buffer of `pkt_buf_len`: the outer `none` is that the fuel ran out,
-- the inner one `GDB_EOF`.
unfoldable pub recv_packet : ℕ → ℕ → GdbState → Option (Option (List ℕ) × GdbState)
recv_packet fuel pkt_buf_len s = elim (wait_start fuel s) [
  | none ↦ none
  | some (started, s₁) ↦ elim started [
    | false ↦ some (none, s₁)
    | true ↦ elim (read_body fuel pkt_buf_len s₁) [
      | none ↦ none
      | some (body, s₂) ↦ elim body [
        | none ↦ some (none, s₂)
        | some pkt_data ↦ some (finish_packet s₂ pkt_data)
      ]
    ]
  ]
]

-- The packet as it goes over the connection.
unfoldable pub frame : List ℕ → List ℕ
frame pkt_data = b'$' ∷ (pkt_data ++ b'#' ∷ hex_digits (checksum pkt_data ∷ []))

-- The loop of `gdb_pkt_prefix`, from the last of `sl` characters down.
unfoldable pub prefix_loop : List ℕ → List ℕ → ℕ → Bool
prefix_loop pkt str zero = true
prefix_loop pkt str (suc sl) = elim (get_or pkt sl 0 == get_or str sl 0) [
  | false ↦ false
  | true ↦ prefix_loop pkt str sl
]

-- `gdb_pkt_prefix`, for a `str` that is not empty.
unfoldable pub pkt_prefix : List ℕ → ℕ → List ℕ → Bool
unfolding prefix_loop strlen
pkt_prefix pkt len str = if ltb len (strlen str) then false else prefix_loop pkt str (strlen str)
