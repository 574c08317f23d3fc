-- ===== src/Gdb/Codec/Hex.antt =====
-- The checksum and the hexadecimal coding of gdbstub.h: sums, round trips and refusals.
use libretro_virtualxt.Base.{
  ℕ, zero, suc, ◌+◌, ◌*◌, ◌/◌, ◌%◌, ◌^◌, ◌≤◌, ◌<◌, ◌≡◌, refl, ap, some, true, List, [], ◌∷◌, ◌++◌,
  length, All, arith, u8, u32, IsByte, bit_and, bit_or, Option-cases, inl, inr, Bool-cases, ◌==◌,
  ==_iff,
}
use mathlib.Core.Path.{subst, sym}
use libretro_virtualxt.Base.Bits.{bit_and_mask, bit_or_fields}
use libretro_virtualxt.Gdb.Digits.{get_val, Access, ok, fault}
use libretro_virtualxt.Gdb.Digits.Laws.{get_val-get_digit, get_digit_plain}
use libretro_virtualxt.Gdb.Codec.{
  checksum_from, checksum, hex_digits, enc_hex, Decoded, dec_hex_loop, dec_hex, put_byte,
}

-- The sum of the bytes.
abbrev sum : List ℕ → ℕ
sum [] = 0
sum (b ∷ bs) = b + sum bs

checksum_from-sum :
    (buf : List ℕ) (csum : ℕ) → csum < 256 → checksum_from csum buf ≡ (csum + sum buf) % 256
unfolding checksum_from
checksum_from-sum [] csum h = omega arith
checksum_from-sum (b ∷ buf) csum h =
    omega (arith, checksum_from-sum buf (u8 (csum + b)) (omega arith))

-- The checksum that wraps at every byte is the sum of all the bytes modulo 256.
checksum-sum : (buf : List ℕ) → checksum buf ≡ sum buf % 256
unfolding checksum
checksum-sum buf = omega (arith, checksum_from-sum buf 0 (omega arith))

pub checksum-IsByte : (body : List ℕ) → IsByte (checksum body)
checksum-IsByte body = omega (arith, checksum-sum body)

pub length-hex_digits : (bs : List ℕ) → length (hex_digits bs) ≡ length bs * 2
unfolding hex_digits
length-hex_digits [] = refl
length-hex_digits (b ∷ bs) = omega (arith, length-hex_digits bs)

-- The two nibbles of a byte.
pub nibbles : (b : ℕ) → b < 256 → (bit_and (b / 2 ^ 4) 15 ≡ b / 16) × (bit_and b 15 ≡ b % 16)
nibbles b h = omega (arith, bit_and_mask 4 (b / 16), bit_and_mask 4 b)

-- Hexadecimal digits are ASCII.
pub hex_digits-IsByte : (bs : List ℕ) → All IsByte bs → All IsByte (hex_digits bs)
unfolding hex_digits
hex_digits-IsByte [] h = tt
hex_digits-IsByte (b ∷ bs) h = (
  ground (arith, nibbles b h.0, get_digit_plain (b / 16)),
  (ground (arith, nibbles b h.0, get_digit_plain (b % 16)), hex_digits-IsByte bs h.1),
)

dec_hex_loop-hex_digits :
    (bs rest : List ℕ)
    → All IsByte bs
    → dec_hex_loop (hex_digits bs ++ rest) (length bs) ≡ ok (record { done = true; bytes = bs })
unfolding dec_hex_loop hex_digits
dec_hex_loop-hex_digits [] [] h = refl
dec_hex_loop-hex_digits [] (x ∷ rest) h = refl
dec_hex_loop-hex_digits (b ∷ bs) rest h = ground (
  arith,
  nibbles b h.0,
  get_val-get_digit (b / 16),
  get_val-get_digit (b % 16),
  bit_or_fields 4 (b / 16) (b % 16),
  dec_hex_loop-hex_digits bs rest h.1,
)

pub dec_hex-hex_digits :
    (bs rest : List ℕ)
    → All IsByte bs
    → dec_hex (hex_digits bs ++ rest) (u32 (length bs * 2)) (length bs)
      ≡ ok (record { done = true; bytes = bs })
unfolding dec_hex
dec_hex-hex_digits bs rest h = ground (arith, dec_hex_loop-hex_digits bs rest h)

-- With room for two digits for each byte, `gdb_enc_hex` succeeds, and `gdb_dec_hex` reads its
-- bytes back, whatever follows in the buffer.
dec_hex-enc_hex :
    (bs rest : List ℕ) (buf_len : ℕ)
    → All IsByte bs
    → length bs * 2 ≤ buf_len
    → buf_len < 2 ^ 32
    → (out : List ℕ) × (enc_hex buf_len bs ≡ some out)
      × (dec_hex (out ++ rest) (length out) (length bs) ≡ ok (record { done = true; bytes = bs }))
unfolding enc_hex dec_hex
dec_hex-enc_hex bs rest buf_len h fits small = (
  hex_digits bs,
  ground arith,
  ground (arith, length-hex_digits bs, dec_hex_loop-hex_digits bs rest h),
)

-- A character has a value in base 16 below 16.
get_val-lt : (c base n : ℕ) → get_val c base ≡ some n → n < base
unfolding get_val
get_val-lt c base n e = ground arith

-- The decoded bytes are bytes, as many as asked for.
abbrev IsFilled : ℕ → Access Decoded → Type 0
IsFilled n fault = Unit
IsFilled n (ok r) = (r.done ≡ true → length r.bytes ≡ n) × (length r.bytes ≤ n) × All IsByte r.bytes

put_byte-IsFilled :
    (b n : ℕ) (r : Access Decoded) → IsByte b → IsFilled n r → IsFilled (suc n) (put_byte b r)
put_byte-IsFilled b n fault h f = tt
put_byte-IsFilled b n (ok r) h f = ((λ e. ap suc (f.0 e)), omega arith, (h, f.2))

pair-IsByte :
    (c d v w : ℕ)
    → get_val c 16 ≡ some v
    → get_val d 16 ≡ some w
    → IsByte (bit_or (u8 (v * 2 ^ 4)) w)
pair-IsByte c d v w e f = ground (arith, get_val-lt c 16 v, get_val-lt d 16 w, bit_or_fields 4 v w)

pair_step :
    (c d v w : ℕ) (buf : List ℕ) (n : ℕ)
    → get_val c 16 ≡ some v
    → get_val d 16 ≡ some w
    → dec_hex_loop (c ∷ d ∷ buf) (suc n) ≡ put_byte (bit_or (u8 (v * 2 ^ 4)) w) (dec_hex_loop buf n)
unfolding dec_hex_loop
pair_step c d v w buf n e f = ground arith

dec_hex_loop-IsFilled : (buf : List ℕ) (n : ℕ) → IsFilled n (dec_hex_loop buf n)
unfolding dec_hex_loop
dec_hex_loop-IsFilled buf zero = ((λ e. refl), omega arith, tt)
dec_hex_loop-IsFilled [] (suc n) = tt
dec_hex_loop-IsFilled (c ∷ []) (suc n) = elim (Option-cases (get_val c 16)) [
  | inl junk ↦ rw (junk, IsFilled) ((λ e. cc), omega arith, tt)
  | inr (v, e) ↦ rw (e, IsFilled) tt
]
dec_hex_loop-IsFilled (c ∷ d ∷ buf) (suc n) = elim (Option-cases (get_val c 16)) [
  | inl junk ↦ rw (junk, IsFilled) ((λ e. cc), omega arith, tt)
  | inr (v, e) ↦ elim (Option-cases (get_val d 16)) [
    | inl junk ↦ rw (e, junk, IsFilled) ((λ f. cc), omega arith, (omega arith, tt))
    | inr (w, f) ↦
        subst (IsFilled (suc n)) (sym (pair_step c d v w buf n e f))
          (put_byte-IsFilled _ n _ (pair-IsByte c d v w e f) (dec_hex_loop-IsFilled buf n))
  ]
]

-- When `gdb_dec_hex` succeeds, its input has two digits for each byte that was asked for, modulo
-- 2 ^ 32, and it has written exactly so many bytes.
dec_hex_sound :
    (buf : List ℕ) (buf_len data_len : ℕ) (bytes : List ℕ)
    → dec_hex buf buf_len data_len ≡ ok (record { done = true; bytes = bytes })
    → (buf_len ≡ u32 (data_len * 2)) × (length bytes ≡ data_len) × All IsByte bytes
unfolding dec_hex
dec_hex_sound buf buf_len data_len bytes e = elim (Bool-cases (buf_len == u32 (data_len * 2))) [
  | inl same ↦
      let loop : dec_hex_loop buf data_len ≡ ok (record { done = true; bytes = bytes }) =
        rw same at e in
      let filled : IsFilled data_len (ok (record { done = true; bytes = bytes })) =
        rw loop at (dec_hex_loop-IsFilled buf data_len) in
      ((==_iff _ _).0 same, filled.0 refl, filled.2)
  | inr other ↦ absurd (cc (rw other at e))
]
