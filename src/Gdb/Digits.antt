-- ===== src/Gdb/Digits.antt =====
-- Hexadecimal digits and integers of src/modules/gdb/gdbstub/gdbstub.h: `gdb_get_digit`,
-- `gdb_get_val`, `gdb_strlen` and `gdb_strtol`. A char is its byte; `GDB_EOF` is `none`. The laws
-- of the digits are in Digits/Laws.antt, those of integers in Digits/Numbers.antt.
pub mod Laws
pub mod Numbers
use libretro_virtualxt.Base.{
  ℕ, zero, suc, ◌+◌, ◌-◌, ◌*◌, ◌%◌, ◌^◌, ◌<◌, Bool, true, false, ◌&&◌, ◌||◌, Option, none, some,
  List, [], ◌∷◌, drop, get_or, ltb, leb, ◌==◌, if◌then◌else◌, u32,
}

-- `digits`.
abbrev pub digits : List ℕ
digits =
    b'0' ∷ b'1' ∷ b'2' ∷ b'3' ∷ b'4' ∷ b'5' ∷ b'6' ∷ b'7' ∷ b'8' ∷ b'9' ∷ b'a' ∷ b'b' ∷ b'c' ∷ b'd'
    ∷ b'e' ∷ b'f' ∷ []

-- `gdb_get_digit`; the char of `GDB_EOF` is 0xff.
unfoldable pub get_digit : ℕ → ℕ
get_digit val = if leb val 0xf then get_or digits val 0xff else 0xff

-- The value of a digit character in some base up to 16.
unfoldable pub digit_value : ℕ → Option ℕ
digit_value digit =
    if leb b'0' digit && leb digit b'9'
    then some (digit - b'0')
    else if leb b'a' digit && leb digit b'f'
    then some (digit - b'a' + 0xa)
    else if leb b'A' digit && leb digit b'F'
    then some (digit - b'A' + 0xa)
    else none

-- `gdb_get_val`.
unfoldable pub get_val : ℕ → ℕ → Option ℕ
unfolding digit_value
get_val digit base = elim (digit_value digit) [
  | none ↦ none
  | some value ↦ if ltb value base then some value else none
]

-- `gdb_strlen`: the characters before the first NUL.
unfoldable pub strlen : List ℕ → ℕ
strlen [] = 0
strlen (c ∷ cs) = if c == 0 then 0 else strlen cs + 1

-- What a read through a pointer gives: `fault` is a read past the end of the buffer.
pub data Access {ℓ} (A : Type ℓ) : Type ℓ where
  ok : A → Access A
  fault : Access A

infixl 5 ◌>>=◌
abbrev pub ◌>>=◌ {ℓ κ} : {A : Type ℓ} {B : Type κ} → Access A → (A → Access B) → Access B
ok a >>= f = f a
fault >>= f = fault

-- `str[pos]`.
unfoldable pub char_at : List ℕ → ℕ → Access ℕ
char_at [] pos = fault
char_at (c ∷ cs) zero = ok c
char_at (c ∷ cs) (suc pos) = char_at cs pos

-- The variables of the digit loop when it stops: `value`, `valid`, and the digits read.
pub record Scan : Type 0 where
  pub value : ℕ
  pub valid : Bool
  pub read : ℕ

-- The loop over the digits, with `len - pos` characters left. The `int` value is its 32-bit
-- pattern, and an overflow wraps.
unfoldable pub scan_digits : ℕ → List ℕ → ℕ → Scan → Access Scan
scan_digits base str zero s = ok s
scan_digits base [] (suc left) s = fault
scan_digits base (c ∷ cs) (suc left) s = elim (c == 0) [
  | true ↦ ok s
  | false ↦ elim (get_val c base) [
    | none ↦ ok s
    | some tmp ↦
        scan_digits base cs left
          (record { value = u32 (s.value * base + tmp); valid = true; read = s.read + 1 })
  ]
]

-- The returned `int`, as its 32-bit pattern, and `endptr` as an offset, `none` for NULL.
pub record Strtol : Type 0 where
  pub value : ℕ
  pub endptr : Option ℕ

abbrev no_number : Strtol
no_number = record { value = 0; endptr = none }

-- The characters that the sign takes.
unfoldable pub sign_size : ℕ → ℕ
sign_size c = if c == b'-' || c == b'+' then 1 else 0

is_hex_prefix : Access ℕ → Access ℕ → Access Bool
is_hex_prefix first second = do c ← first; d ← second; ok (c == b'0' && (d == b'x' || d == b'X'))

-- Whether the prefix `0x` follows at `pos`: the characters are read only inside `len`.
unfoldable pub hex_prefix : List ℕ → ℕ → ℕ → Access Bool
unfolding char_at is_hex_prefix
hex_prefix str len pos =
    if ltb (pos + 2) len then is_hex_prefix (char_at str pos) (char_at str (pos + 1)) else ok false

-- `gdb_strtol`: `str` holds the characters from the pointer to the end of the buffer.
unfoldable pub strtol : List ℕ → ℕ → ℕ → Access Strtol
strtol str len base = if ltb len 1 then ok no_number else do
  first ← char_at str 0
  prefix ← hex_prefix str len (sign_size first)
  let start = if prefix then sign_size first + 2 else sign_size first
  let radix = if prefix then 16 else if base == 0 then 10 else base
  scan ←
      scan_digits radix (drop start str) (len - start)
        (record { value = 0; valid = false; read = 0 })
  ok (
      if scan.valid
      then record {
        value = if first == b'-' then u32 (2 ^ 32 - scan.value) else scan.value;
        endptr = some (start + scan.read);
      }
      else no_number)
