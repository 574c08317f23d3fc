-- ===== src/Gdb/Digits/Numbers.antt =====
-- What `gdb_strtol` reads of a number in hexadecimal digits (gdbstub.h).
use libretro_virtualxt.Base.{
  ltb, ℕ, zero, suc, ◌+◌, ◌*◌, ◌%◌, ◌^◌, ◌≤◌, ◌<◌, ◌≡◌, refl, ◌≢◌, none, some, true, false, List,
  [], ◌∷◌, ◌++◌, map, length, All, arith, u32,
}
use native.Mathlib.Nat.{sub-zero}
use libretro_virtualxt.Gdb.Digits.{
  get_digit, get_val, ok, Scan, scan_digits, hex_prefix, sign_size, char_at, strtol,
}
use libretro_virtualxt.Gdb.Digits.Laws.{get_val-get_digit, get_digit_plain}

-- The number that hexadecimal digits stand for, after `acc`.
abbrev pub hex_value : ℕ → List ℕ → ℕ
hex_value acc [] = acc
hex_value acc (d ∷ ds) = hex_value (acc * 16 + d) ds

-- The variables of the loop after it has read the digits.
after : Scan → List ℕ → Scan
after s [] = s
after s (d ∷ ds) =
    after (record { value = u32 (s.value * 16 + d); valid = true; read = s.read + 1 }) ds

scan_digits-after :
    (ds : List ℕ) (c : ℕ) (rest : List ℕ) (left : ℕ) (s : Scan)
    → All (λ d. d < 16) ds
    → get_val c 16 ≡ none
    → length ds ≤ left
    → scan_digits 16 (map get_digit ds ++ c ∷ rest) left s ≡ ok (after s ds)
unfolding scan_digits after
scan_digits-after [] c rest zero s a g h = refl
scan_digits-after [] c rest (suc left) s a g h = ground arith
scan_digits-after (d ∷ ds) c rest zero s a g h = absurd (omega arith)
scan_digits-after (d ∷ ds) c rest (suc left) s a g h = ground (
  arith,
  get_val-get_digit d,
  get_digit_plain d,
  scan_digits-after ds c rest left
      (record { value = u32 (s.value * 16 + d); valid = true; read = s.read + 1 }),
)

after-value :
    (ds : List ℕ) (s : Scan) (acc : ℕ)
    → s.value ≡ acc % 2 ^ 32
    → (after s ds).value ≡ hex_value acc ds % 2 ^ 32
unfolding after
after-value [] s acc e = e
after-value (d ∷ ds) s acc e =
    after-value ds (record { value = u32 (s.value * 16 + d); valid = true; read = s.read + 1 })
      (acc * 16 + d) (omega arith)

after-rest :
    (ds : List ℕ) (s : Scan)
    → s.valid ≡ true
    → ((after s ds).valid ≡ true) × ((after s ds).read ≡ s.read + length ds)
unfolding after
after-rest [] s v = (v, omega arith)
after-rest (d ∷ ds) s v =
    let ih =
      after-rest ds (record { value = u32 (s.value * 16 + d); valid = true; read = s.read + 1 })
        refl in
    (ih.0, omega arith)

after_some :
    (d : ℕ) (ds : List ℕ) (s : Scan)
    → ((after s (d ∷ ds)).valid ≡ true) × ((after s (d ∷ ds)).read ≡ s.read + length (d ∷ ds))
unfolding after
after_some d ds s =
    let rest =
      after-rest ds (record { value = u32 (s.value * 16 + d); valid = true; read = s.read + 1 })
        refl in
    (rest.0, omega arith)

abbrev start : Scan
start = record { value = 0; valid = false; read = 0 }

no_prefix :
    (d : ℕ) (ds : List ℕ) (c : ℕ) (rest : List ℕ) (len : ℕ)
    → All (λ n. n < 16) (d ∷ ds)
    → c ≢ b'x'
    → c ≢ b'X'
    → hex_prefix (map get_digit (d ∷ ds) ++ c ∷ rest) len 0 ≡ ok false
unfolding hex_prefix
no_prefix d [] c rest len a nx nX = ground arith
no_prefix d (e ∷ ds) c rest len a nx nX = ground (arith, get_digit_plain e)

no_sign : (d : ℕ) → d < 16 → sign_size (get_digit d) ≡ 0
unfolding sign_size
no_sign d h = ground (arith, get_digit_plain d)

first_char :
    (d : ℕ) (ds : List ℕ) (c : ℕ) (rest : List ℕ)
    → char_at (map get_digit (d ∷ ds) ++ c ∷ rest) 0 ≡ ok (get_digit d)
unfolding char_at
first_char d ds c rest = refl

enough_chars : {n : ℕ} (len : ℕ) → suc n ≤ len → ltb len 1 ≡ false
enough_chars len h = ground arith

-- `gdb_strtol` with base 16 reads a number of hexadecimal digits that some character other than a
-- digit or an `x` ends, inside the length: it gives the number modulo 2 ^ 32 and points behind
-- the digits.
pub strtol-digits :
    (d : ℕ) (ds : List ℕ) (c : ℕ) (rest : List ℕ) (len : ℕ)
    → All (λ n. n < 16) (d ∷ ds)
    → get_val c 16 ≡ none
    → c ≢ b'x'
    → c ≢ b'X'
    → length (d ∷ ds) ≤ len
    → strtol (map get_digit (d ∷ ds) ++ c ∷ rest) len 16
      ≡ ok (record { value = hex_value 0 (d ∷ ds) % 2 ^ 32; endptr = some (length (d ∷ ds)) })
unfolding strtol
strtol-digits d ds c rest len a g nx nX h =
    simp
      (
        enough_chars len h,
        first_char d ds c rest,
        no_sign d a.0,
        no_prefix d ds c rest len a nx nX,
        sub-zero,
        scan_digits-after (d ∷ ds) c rest len start a g h,
      )
      (ground (arith, get_digit_plain d, after-value (d ∷ ds) start 0 refl, after_some d ds start))
