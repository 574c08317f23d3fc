-- ===== src/Gdb/Command/Registers.antt =====
-- The registers as the commands `g` and `G` of gdbstub.h see them: as their bytes, lowest first.
use libretro_virtualxt.Base.{
  ℕ, ◌+◌, ◌*◌, ◌%◌, ◌/◌, ◌^◌, ◌<◌, ◌≡◌, refl, List, [], ◌∷◌, length, All, arith, IsByte,
}
use libretro_virtualxt.Gdb.Command.{word_bytes, bytes_of, words_of}

-- A register holds 32 bits.
abbrev pub IsWord : ℕ → Type 0
IsWord w = w < 2 ^ 32

pub word_bytes-IsByte : (w : ℕ) → All IsByte (word_bytes w)
unfolding word_bytes
word_bytes-IsByte w = (omega arith, (omega arith, (omega arith, (omega arith, tt))))

pub bytes_of-IsByte : (ws : List ℕ) → All IsByte (bytes_of ws)
unfolding bytes_of word_bytes
bytes_of-IsByte [] = tt
bytes_of-IsByte (w ∷ ws) =
    (omega arith, (omega arith, (omega arith, (omega arith, bytes_of-IsByte ws))))

pub length-bytes_of : (ws : List ℕ) → length (bytes_of ws) ≡ length ws * 4
unfolding bytes_of word_bytes
length-bytes_of [] = refl
length-bytes_of (w ∷ ws) = omega (arith, length-bytes_of ws)

word_value :
    (w : ℕ)
    → IsWord w
    → w % 2 ^ 8
        + w / 2 ^ 8 % 2 ^ 8 * 2 ^ 8
        + w / 2 ^ 16 % 2 ^ 8 * 2 ^ 16
        + w / 2 ^ 24 % 2 ^ 8 * 2 ^ 24
      ≡ w
word_value w h = omega arith

-- The bytes of the registers determine them.
pub words_of-bytes_of : (ws : List ℕ) → All IsWord ws → words_of (bytes_of ws) ≡ ws
unfolding words_of bytes_of word_bytes
words_of-bytes_of [] h = refl
words_of-bytes_of (w ∷ ws) h = cc (word_value w h.0, words_of-bytes_of ws h.1)
