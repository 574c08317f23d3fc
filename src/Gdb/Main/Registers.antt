-- ===== src/Gdb/Main/Registers.antt =====
-- The commands `g`, `G`, `p` and `P` of `gdb_main` (gdbstub.h): what they do to the registers.
use libretro_virtualxt.Base.{
  ℕ, ◌+◌, ◌%◌, ◌^◌, ◌≤◌, ◌<◌, ◌≡◌, refl, ap, ◌≢◌, none, List, [], ◌∷◌, ◌++◌, length, All, arith,
  drop, map, get_or, set, ltb, true, if◌then◌else◌, sub32, lt→ltb,
}
use libretro_virtualxt.Bus.{Bus}
use libretro_virtualxt.Gdb.Digits
use libretro_virtualxt.Gdb.Digits.{Access, get_digit, strtol, get_val}
use libretro_virtualxt.Gdb.Digits.Numbers.{hex_value, strtol-digits}
use libretro_virtualxt.Gdb.Codec.{hex_digits, dec_hex}
use libretro_virtualxt.Gdb.Codec.Hex.{dec_hex-hex_digits}
use libretro_virtualxt.Gdb.Command.{
  ok, expect_integer, expect_seperator, overlay, word_bytes, bytes_of, words_of, Target,
  send_ok_packet, skip, start_of,
}
use libretro_virtualxt.Gdb.Command.Registers.{
  IsWord, word_bytes-IsByte, words_of-bytes_of, length-bytes_of, bytes_of-IsByte,
}
use libretro_virtualxt.Gdb.Main.{
  again, handle, write_registers, write_register, with_registers, decoded, parsed, patch_register,
}

overlay-full : (xs ys : List ℕ) → length xs ≡ length ys → overlay xs ys ≡ xs
overlay-full [] [] h = refl
overlay-full [] (y ∷ ys) h = absurd (omega arith)
overlay-full (x ∷ xs) [] h = absurd (omega arith)
overlay-full (x ∷ xs) (y ∷ ys) h = ap (λ l. x ∷ l) (overlay-full xs ys (omega arith))

drop-map : (f : ℕ → ℕ) (xs rest : List ℕ) → drop (length xs) (map f xs ++ rest) ≡ rest
drop-map f [] rest = refl
drop-map f (x ∷ xs) rest = drop-map f xs rest

dec_registers :
    (ws rest : List ℕ)
    → length ws ≡ 16
    → dec_hex (hex_digits (bytes_of ws) ++ rest) 128 64
      ≡ Digits.ok (record { done = true; bytes = bytes_of ws })
dec_registers ws rest h =
    let size : length (bytes_of ws) ≡ 64 = omega (arith, length-bytes_of ws) in
    rw size at (dec_hex-hex_digits (bytes_of ws) rest (bytes_of-IsByte ws))

-- `expect_integer` behind the letter of a command, on a number that some other character ends.
expect_integer-digits :
    (letter d : ℕ) (ds : List ℕ) (c : ℕ) (rest : List ℕ) (n : ℕ)
    → All (λ e. e < 16) (d ∷ ds)
    → get_val c 16 ≡ none
    → c ≢ b'x'
    → c ≢ b'X'
    → length ds + 2 ≤ n
    → n < 2 ^ 32
    → expect_integer n (skip 1 (start_of (letter ∷ (map get_digit (d ∷ ds) ++ c ∷ rest))))
      ≡ ok (hex_value 0 (d ∷ ds) % 2 ^ 32, record { rest = c ∷ rest; pos = length ds + 2 })
unfolding expect_integer
expect_integer-digits letter d ds c rest n a g nx nX h small = ground (
  arith,
  strtol-digits d ds c rest (sub32 n 1) a g nx nX (omega arith),
  drop-map get_digit ds (c ∷ rest),
)

dec_word :
    (w : ℕ) (rest : List ℕ)
    → dec_hex (hex_digits (word_bytes w) ++ rest) 8 4
      ≡ Digits.ok (record { done = true; bytes = word_bytes w })
unfolding word_bytes
dec_word w rest = dec_hex-hex_digits (word_bytes w) rest (word_bytes-IsByte w)

four_bytes : (w : ℕ) → length (word_bytes w) ≡ 4
unfolding word_bytes
four_bytes w = refl

word :
    (w : ℕ) (old : List ℕ)
    → IsWord w
    → length old ≡ 4
    → get_or (words_of (overlay (word_bytes w) old)) 0 0 ≡ w
unfolding words_of word_bytes
word w old h k = ground (arith)

module _ {D : Type 0} (bus : Bus D) (stack : ℕ → ℕ) (t : Target D) where
  -- The command `G` with the digits of the bytes of 16 values of 32 bits sets all 16 registers to
  -- these values and answers `OK`, whatever the registers held and whatever stands behind the
  -- command in the buffer.
  pub handle-write_registers :
      (ws rest : List ℕ)
      → length ws ≡ 16
      → All IsWord ws
      → length t.gdb.registers ≡ 16
      → handle bus stack (b'G' ∷ (hex_digits (bytes_of ws) ++ rest)) 129 t
        ≡ again (b'G' ∷ (hex_digits (bytes_of ws) ++ rest)) (send_ok_packet (with_registers t ws))
  unfolding handle write_registers decoded
  handle-write_registers ws rest h a k =
      rw
        (
          dec_registers ws rest h,
          overlay-full (bytes_of ws) (bytes_of t.gdb.registers)
              (omega (arith, length-bytes_of ws, length-bytes_of t.gdb.registers)),
          words_of-bytes_of ws a,
        )
        refl

  -- The end of `P`, with the number of the register and `left` characters for its value.
  set_register :
      (buf : List ℕ) (addr w : ℕ) (rest : List ℕ) (left : ℕ)
      → addr < 16
      → IsWord w
      → left ≡ 8
      → (if ltb addr 16
          then decoded
              (dec_hex (hex_digits (word_bytes w) ++ rest) left 4)
              buf
              (patch_register t addr)
          else again buf (send_ok_packet t))
        ≡ again buf (send_ok_packet (with_registers t (set t.gdb.registers addr w)))
  unfolding decoded
  set_register buf addr w rest left small h e =
      rw
        (
          lt→ltb addr 16 small,
          e,
          dec_word w rest,
          word w (word_bytes (get_or t.gdb.registers addr 0)) h (four_bytes _),
        )
        refl

  -- The command `P n=r` with the hexadecimal number of a register below 16, of at most 200
  -- digits, and the eight digits of a 32-bit value, lowest byte first, sets exactly that register
  -- to the value, answers `OK`, and keeps the packet buffer, whatever stands behind the command
  -- in the buffer.
  pub handle-write_register :
      (d : ℕ) (ds : List ℕ) (w : ℕ) (rest : List ℕ)
      → All (λ e. e < 16) (d ∷ ds)
      → hex_value 0 (d ∷ ds) % 2 ^ 32 < 16
      → IsWord w
      → length ds < 200
      → handle bus stack
          (b'P' ∷ (map get_digit (d ∷ ds) ++ b'=' ∷ (hex_digits (word_bytes w) ++ rest)))
          (length ds + 11)
          t
        ≡ again (b'P' ∷ (map get_digit (d ∷ ds) ++ b'=' ∷ (hex_digits (word_bytes w) ++ rest))) (
            send_ok_packet
              (with_registers t (set t.gdb.registers (hex_value 0 (d ∷ ds) % 2 ^ 32) w)))
  unfolding handle write_register decoded parsed expect_seperator get_val
  handle-write_register d ds w rest a small h k =
      rw
        (expect_integer-digits b'P' d ds b'=' (hex_digits (word_bytes w) ++ rest) (length ds + 11) a
          refl (λ e. absurd (omega arith)) (λ e. absurd (omega arith)) (omega arith) (omega arith))
        (set_register
          (b'P' ∷ (map get_digit (d ∷ ds) ++ b'=' ∷ (hex_digits (word_bytes w) ++ rest)))
          (hex_value 0 (d ∷ ds) % 2 ^ 32) w rest (sub32 (length ds + 11) (length ds + 2 + 1)) small
          h (omega arith))
