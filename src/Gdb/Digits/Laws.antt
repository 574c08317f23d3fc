-- ===== src/Gdb/Digits/Laws.antt =====
-- Reading back the hexadecimal digit of a nibble (gdbstub.h).
use libretro_virtualxt.Base.{ℕ, ◌≡◌, ◌<◌, ◌≢◌, some, arith}
use libretro_virtualxt.Gdb.Digits.{get_digit, get_val}

pub get_val-get_digit : (n : ℕ) → n < 16 → get_val (get_digit n) 16 ≡ some n
unfolding get_val get_digit
get_val-get_digit n h = ground arith

-- The digit of a nibble is none of the characters that `gdb_strtol` and the packets treat apart.
pub get_digit_plain :
    (n : ℕ)
    → n < 16
    → (get_digit n ≢ 0)
      × (get_digit n ≢ b'-')
      × (get_digit n ≢ b'+')
      × (get_digit n ≢ b'x')
      × (get_digit n ≢ b'X')
      × (get_digit n < 128)
unfolding get_digit
get_digit_plain n h = ground arith
