-- ===== src/Gdb/Packet/Send.antt =====
-- Sending a packet (`gdb_send_packet` of gdbstub.h) over an open connection.
use libretro_virtualxt.Base.{
  ℕ, suc, ◌+◌, ◌≡◌, refl, some, true, List, [], ◌∷◌, ◌++◌, length, All, arith, IsByte, append_assoc,
  append-nil, u8, length-append,
}
use libretro_virtualxt.Gdb.Codec.{checksum, hex_digits, enc_hex}
use libretro_virtualxt.Gdb.Codec.Hex.{length-hex_digits, hex_digits-IsByte, checksum-IsByte}
use libretro_virtualxt.Gdb.Link.{GdbState, putchar}
use libretro_virtualxt.Gdb.Packet.{write, trailer, send_packet, recv_ack, frame}

putchar-sent :
    (c fd more : ℕ) (s : GdbState)
    → s.client ≡ some fd
    → s.room ≡ suc more
    → putchar s c ≡ (true, record s { room = more; sent = s.sent ++ (u8 c ∷ []) })
unfolding putchar
putchar-sent c fd more s e r = ground arith

write-sent :
    (buf : List ℕ) (fd more : ℕ) (s : GdbState)
    → s.client ≡ some fd
    → s.room ≡ length buf + more
    → All IsByte buf
    → write s buf ≡ (true, record s { room = more; sent = s.sent ++ buf })
unfolding write putchar
write-sent [] fd more s c r a = ground (arith, append-nil s.sent)
write-sent (b ∷ buf) fd more s c r a = ground (
  arith,
  write-sent buf fd more (record s { room = length buf + more; sent = s.sent ++ (b ∷ []) }),
  append_assoc s.sent (b ∷ []) buf,
)

trailer-digits : (body : List ℕ) → trailer body ≡ some (b'#' ∷ hex_digits (checksum body ∷ []))
unfolding trailer enc_hex
trailer-digits body = refl

trailer-bytes : (cs : ℕ) → IsByte cs → All IsByte (b'#' ∷ hex_digits (cs ∷ []))
trailer-bytes cs h = (omega arith, hex_digits-IsByte (cs ∷ []) (h, tt))

-- Over an open connection with room for it, `gdb_send_packet` sends exactly `$`, its data, `#`
-- and the two digits of the checksum, and then waits for the acknowledgment if acknowledgments
-- are on.
pub send_packet-frame :
    (body : List ℕ) (fd more : ℕ) (s : GdbState)
    → s.client ≡ some fd
    → s.room ≡ length (frame body) + more
    → All IsByte body
    → send_packet s body ≡ recv_ack (record s { room = more; sent = s.sent ++ frame body })
unfolding send_packet frame
send_packet-frame body fd more s c r a = ground (
  arith,
  putchar-sent b'$' fd (length body + (3 + more)) s,
  write-sent body fd (3 + more)
      (record s { room = length body + (3 + more); sent = s.sent ++ (b'$' ∷ []) }),
  write-sent (b'#' ∷ hex_digits (checksum body ∷ [])) fd more
      (record s { room = 3 + more; sent = (s.sent ++ (b'$' ∷ [])) ++ body }),
  trailer-digits body,
  trailer-bytes (checksum body) (checksum-IsByte body),
  length-hex_digits (checksum body ∷ []),
  length-append body (b'#' ∷ hex_digits (checksum body ∷ [])),
  append_assoc s.sent (b'$' ∷ []) body,
  append_assoc s.sent (b'$' ∷ body) (b'#' ∷ hex_digits (checksum body ∷ [])),
)
