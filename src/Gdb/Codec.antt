-- ===== src/Gdb/Codec.antt =====
-- Data in packets, src/modules/gdb/gdbstub/gdbstub.h: `gdb_checksum`, `gdb_enc_hex`,
-- `gdb_dec_hex`, `gdb_enc_bin` and `gdb_dec_bin`. A decoder's `data` is the list of bytes that it
-- has written, also where it stops with an error.
pub mod Hex
pub mod Bin
use libretro_virtualxt.Base.{
  ℕ, zero, suc, ◌+◌, ◌-◌, ◌*◌, Bool, true, false, ◌||◌, Option, none, some, List, [], ◌∷◌, length,
  ltb, ◌==◌, if◌then◌else◌, u8, u32, bit_and, bit_or, bit_xor, ◌<<<◌, ◌>>>◌,
}
use libretro_virtualxt.Gdb.Digits.{get_digit, get_val, Access, ok, fault, ◌>>=◌}

-- The loop of `gdb_checksum`.
unfoldable pub checksum_from : ℕ → List ℕ → ℕ
checksum_from csum [] = csum
checksum_from csum (b ∷ buf) = checksum_from (u8 (csum + b)) buf

-- `gdb_checksum`.
unfoldable pub checksum : List ℕ → ℕ
unfolding checksum_from
checksum buf = checksum_from 0 buf

-- The loop of `gdb_enc_hex`.
unfoldable pub hex_digits : List ℕ → List ℕ
hex_digits [] = []
hex_digits (b ∷ bs) = get_digit (bit_and (b >>> 4) 0xf) ∷ get_digit (bit_and b 0xf) ∷ hex_digits bs

-- `gdb_enc_hex`: what it writes, or `GDB_EOF`. The returned count is the length of that.
unfoldable pub enc_hex : ℕ → List ℕ → Option (List ℕ)
unfolding hex_digits
enc_hex buf_len data_bytes =
    if ltb buf_len (u32 (length data_bytes * 2)) then none else some (hex_digits data_bytes)

-- Whether a decoder came to its end, and what it has written to `data`.
pub record Decoded : Type 0 where
  pub done : Bool
  pub bytes : List ℕ

abbrev pub put_byte : ℕ → Access Decoded → Access Decoded
put_byte b rest = rest >>= λ r. ok (record { done = r.done; bytes = b ∷ r.bytes })

abbrev stop : List ℕ → Access Decoded
stop bytes = ok (record { done = false; bytes = bytes })

abbrev finished : Access Decoded
finished = ok (record { done = true; bytes = [] })

-- The loop of `gdb_dec_hex`, with `data_len - pos` bytes left.
unfoldable pub dec_hex_loop : List ℕ → ℕ → Access Decoded
dec_hex_loop buf zero = finished
dec_hex_loop [] (suc left) = fault
dec_hex_loop (high ∷ []) (suc left) = elim (get_val high 16) [ none ↦ stop [] | some tmp ↦ fault ]
dec_hex_loop (high ∷ low ∷ buf) (suc left) = elim (get_val high 16) [
  | none ↦ stop []
  | some upper ↦ elim (get_val low 16) [
    | none ↦ stop (u8 (upper <<< 4) ∷ [])
    | some lower ↦ put_byte (bit_or (u8 (upper <<< 4)) lower) (dec_hex_loop buf left)
  ]
]

-- `gdb_dec_hex`: `buf` holds the characters from the pointer to the end of the buffer.
unfoldable pub dec_hex : List ℕ → ℕ → ℕ → Access Decoded
unfolding dec_hex_loop
dec_hex buf buf_len data_len =
    if buf_len == u32 (data_len * 2) then dec_hex_loop buf data_len else stop []

-- The bytes that mean something in a packet.
unfoldable pub is_special : ℕ → Bool
is_special b = b == b'$' || b == b'#' || b == b'}' || b == b'*'

abbrev put_char : ℕ → Option (List ℕ) → Option (List ℕ)
put_char b none = none
put_char b (some bs) = some (b ∷ bs)

-- The loop of `gdb_enc_bin`, with `buf_len - buf_pos` characters of room.
unfoldable pub enc_bin_loop : ℕ → List ℕ → Option (List ℕ)
unfolding is_special
enc_bin_loop room [] = some []
enc_bin_loop room (b ∷ bs) = elim (is_special b) [
  | true ↦ elim (ltb room 2) [
    | true ↦ none
    | false ↦ put_char b'}' (put_char (bit_xor b 0x20) (enc_bin_loop (room - 2) bs))
  ]
  | false ↦ elim (ltb room 1) [ true ↦ none | false ↦ put_char b (enc_bin_loop (room - 1) bs) ]
]

-- `gdb_enc_bin`: what it writes, or `GDB_EOF`. The returned count is the length of that.
unfoldable pub enc_bin : ℕ → List ℕ → Option (List ℕ)
unfolding enc_bin_loop
enc_bin buf_len data_bytes = enc_bin_loop buf_len data_bytes

-- The loop of `gdb_dec_bin`, with `buf_len - buf_pos` characters left, and room in `data`.
unfoldable pub dec_bin_loop : List ℕ → ℕ → ℕ → Access Decoded
dec_bin_loop buf zero room = finished
dec_bin_loop buf (suc left) zero = stop []
dec_bin_loop [] (suc left) (suc room) = fault
dec_bin_loop (c ∷ []) (suc left) (suc room) =
    if c == b'}'
    then if left == 0 then stop [] else fault
    else put_byte c (if left == 0 then finished else if room == 0 then stop [] else fault)
dec_bin_loop (c ∷ d ∷ buf) (suc left) (suc room) = elim (c == b'}') [
  | true ↦ elim (left == 0) [
    | true ↦ stop []
    | false ↦ put_byte (bit_xor d 0x20) (dec_bin_loop buf (left - 1) room)
  ]
  | false ↦ put_byte c (dec_bin_loop (d ∷ buf) left room)
]

-- `gdb_dec_bin`.
unfoldable pub dec_bin : List ℕ → ℕ → ℕ → Access Decoded
unfolding dec_bin_loop
dec_bin buf buf_len data_len = dec_bin_loop buf buf_len data_len
