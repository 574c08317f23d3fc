-- ===== src/Gdb/Codec/Bin.antt =====
-- The escaped binary coding of gdbstub.h: round trip, size, and what never stands in a packet.
use libretro_virtualxt.Base.{
  ℕ, zero, suc, ◌+◌, ◌-◌, ◌≤◌, ◌<◌, ◌≡◌, refl, ◌≢◌, ◌∙◌, none, some, Bool, true, false, List, [],
  ◌∷◌, ◌++◌, length, All, arith, IsByte, ltb, bit_xor, Bool-cases, inl, inr, if◌then◌else◌, ◌==◌,
  not, ◌&&◌, ◌||◌, ==_iff,
}
use libretro_virtualxt.Base.Bits.{every_below, every_below-holds}
use libretro_virtualxt.Gdb.Digits.{ok}
use libretro_virtualxt.Gdb.Codec.{
  is_special, enc_bin_loop, enc_bin, dec_bin_loop, dec_bin, put_byte,
}

escape_table : every_below (λ b. bit_xor (bit_xor b 0x20) 0x20 == b) 256 ≡ true
unfolding every_below
escape_table = refl

escape_twice : (b : ℕ) → b < 256 → bit_xor (bit_xor b 0x20) 0x20 ≡ b
escape_twice b h = (==_iff _ b).0 (every_below-holds _ 256 b h escape_table)

-- The characters that the coding of a list takes.
unfoldable bin_size : List ℕ → ℕ
bin_size [] = 0
bin_size (b ∷ bs) = (if is_special b then 2 else 1) + bin_size bs

-- The coding of a list, without a limit on its size.
unfoldable bin_chars : List ℕ → List ℕ
bin_chars [] = []
bin_chars (b ∷ bs) = if is_special b then b'}' ∷ bit_xor b 0x20 ∷ bin_chars bs else b ∷ bin_chars bs

length-bin_chars : (bs : List ℕ) → length (bin_chars bs) ≡ bin_size bs
unfolding bin_chars bin_size
length-bin_chars [] = refl
length-bin_chars (b ∷ bs) = ground (arith, length-bin_chars bs)

-- `gdb_enc_bin` writes the whole coding of its bytes if the buffer has room for it, and gives
-- `GDB_EOF` if not.
enc_bin-bin_chars :
    (room : ℕ) (bs : List ℕ)
    → enc_bin room bs ≡ (if ltb room (bin_size bs) then none else some (bin_chars bs))
unfolding enc_bin enc_bin_loop bin_chars bin_size
enc_bin-bin_chars room [] = ground arith
enc_bin-bin_chars room (b ∷ bs) =
    ground (arith, enc_bin-bin_chars (room - 2) bs, enc_bin-bin_chars (room - 1) bs)

escape_step :
    (d : ℕ) (buf : List ℕ) (left room : ℕ)
    → dec_bin_loop (b'}' ∷ d ∷ buf) (suc (suc left)) (suc room)
      ≡ put_byte (bit_xor d 0x20) (dec_bin_loop buf left room)
unfolding dec_bin_loop
escape_step d buf left room = ground arith

plain_ne : (b : ℕ) → is_special b ≡ false → (b == b'}') ≡ false
unfolding is_special
plain_ne b h = ground arith

-- Whether a character may stand in a packet's data.
abbrev is_safe : ℕ → Bool
is_safe c = not (c == b'$') && (not (c == b'#') && not (c == b'*'))

escaped_table : every_below (λ b. not (is_special b) || is_safe (bit_xor b 0x20)) 256 ≡ true
unfolding every_below is_special
escaped_table = refl

escaped_safe :
    (b : ℕ)
    → b < 256
    → is_special b ≡ true
    → (bit_xor b 0x20 ≢ b'$') × (bit_xor b 0x20 ≢ b'#') × (bit_xor b 0x20 ≢ b'*')
escaped_safe b h e = ground (arith, every_below-holds _ 256 b h escaped_table)

plain_safe : (b : ℕ) → is_special b ≡ false → (b ≢ b'$') × (b ≢ b'#') × (b ≢ b'*')
unfolding is_special
plain_safe b e = ground arith

bin_chars_safe :
    (bs : List ℕ) → All IsByte bs → All (λ c. (c ≢ b'$') × (c ≢ b'#') × (c ≢ b'*')) (bin_chars bs)
unfolding bin_chars
bin_chars_safe [] h = tt
bin_chars_safe (b ∷ bs) h = elim (Bool-cases (is_special b)) [
  | inl e ↦ rw e (ground arith, (escaped_safe b h.0 e, bin_chars_safe bs h.1))
  | inr e ↦ rw e (plain_safe b e, bin_chars_safe bs h.1)
]

encoded : (bs out : List ℕ) (buf_len : ℕ) → enc_bin buf_len bs ≡ some out → out ≡ bin_chars bs
encoded bs out buf_len e = ground (arith, enc_bin-bin_chars buf_len bs)

plain_step :
    (c : ℕ) (buf : List ℕ) (left room : ℕ)
    → (c == b'}') ≡ false
    → dec_bin_loop (c ∷ buf) (suc left) (suc room) ≡ put_byte c (dec_bin_loop buf left room)
unfolding dec_bin_loop
plain_step c [] zero room e = rw e
plain_step c [] (suc left) zero e = ground arith
plain_step c [] (suc left) (suc room) e = ground arith
plain_step c (d ∷ buf) left room e = ground arith

dec_bin_loop-bin_chars :
    (bs rest : List ℕ) (room : ℕ)
    → All IsByte bs
    → length bs ≤ room
    → dec_bin_loop (bin_chars bs ++ rest) (length (bin_chars bs)) room
      ≡ ok (record { done = true; bytes = bs })
unfolding bin_chars
dec_bin_loop-bin_chars [] rest room h fits = unfold dec_bin_loop in refl
dec_bin_loop-bin_chars (b ∷ bs) rest zero h fits = absurd (omega arith)
dec_bin_loop-bin_chars (b ∷ bs) rest (suc room) h fits =
    let ih = dec_bin_loop-bin_chars bs rest room h.1 (omega arith) in
    elim (Bool-cases (is_special b)) [
      | inl special ↦ rw special (escape_step _ _ _ _ ∙ rw (escape_twice b h.0, ih))
      | inr plain ↦ rw plain (plain_step b _ _ room (plain_ne b plain) ∙ rw ih)
    ]

-- With room for the bytes, `gdb_dec_bin` reads back what `gdb_enc_bin` wrote, whatever follows in
-- the buffer.
pub dec_bin-enc_bin :
    (bs rest out : List ℕ) (buf_len data_len : ℕ)
    → All IsByte bs
    → length bs ≤ data_len
    → enc_bin buf_len bs ≡ some out
    → dec_bin (out ++ rest) (length out) data_len ≡ ok (record { done = true; bytes = bs })
unfolding dec_bin
dec_bin-enc_bin bs rest out buf_len data_len h fits e =
    rw (encoded bs out buf_len e) (dec_bin_loop-bin_chars bs rest data_len h fits)

-- No `$`, `#` or `*` stands in what `gdb_enc_bin` writes, so it can be the data of a packet.
enc_bin_safe :
    (bs out : List ℕ) (buf_len : ℕ)
    → All IsByte bs
    → enc_bin buf_len bs ≡ some out
    → All (λ c. (c ≢ b'$') × (c ≢ b'#') × (c ≢ b'*')) out
enc_bin_safe bs out buf_len h e = rw (encoded bs out buf_len e) (bin_chars_safe bs h)
