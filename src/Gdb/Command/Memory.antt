-- ===== src/Gdb/Command/Memory.antt =====
-- `gdb_mem_write` and `gdb_mem_read` (gdbstub.h) against the memory of the machine.
use libretro_virtualxt.Base.{
  ℕ, zero, suc, ◌+◌, ◌*◌, ◌^◌, ◌≤◌, ◌<◌, ◌≡◌, refl, ap, append-nil, ◌∙◌, sym, some, List, [], ◌∷◌,
  ◌++◌, length, All, arith, IsByte, u32, length-append, true, false, ltb,
}
use mathlib.Core.Path.{subst}
use libretro_virtualxt.Bus.{Bus, IsMemory}
use libretro_virtualxt.Gdb.Digits
use libretro_virtualxt.Gdb.Digits.{Access}
use libretro_virtualxt.Gdb.Codec.{Decoded, hex_digits, enc_hex, dec_hex}
use libretro_virtualxt.Gdb.Codec.Hex.{dec_hex-hex_digits}
use libretro_virtualxt.Gdb.Command.{
  ok, Target, read_loop, mem_read, write_loop, mem_write, data_array,
}

-- What the stack holds at `n` bytes of the array `data`, from an index on.
abbrev stack_bytes : (ℕ → ℕ) → ℕ → ℕ → List ℕ
stack_bytes stack pos zero = []
stack_bytes stack pos (suc n) = stack pos ∷ stack_bytes stack (pos + 1) n

data_array-stack : (stack : ℕ → ℕ) (pos n : ℕ) → data_array stack pos [] n ≡ stack_bytes stack pos n
data_array-stack stack pos zero = refl
data_array-stack stack pos (suc n) = ap (λ l. stack pos ∷ l) (data_array-stack stack (pos + 1) n)

data_array-append :
    (stack : ℕ → ℕ) (pos : ℕ) (bs : List ℕ) (k n q : ℕ)
    → n ≡ length bs + k
    → q ≡ pos + length bs
    → data_array stack pos bs n ≡ bs ++ stack_bytes stack q k
data_array-append stack pos [] k n q e f =
    let e' : n ≡ k = omega arith in
    let f' : q ≡ pos = omega arith in rw (e', f') (data_array-stack stack pos k)
data_array-append stack pos (b ∷ bs) k zero q e f = absurd (omega arith)
data_array-append stack pos (b ∷ bs) k (suc n) q e f =
    ap (λ l. b ∷ l) (data_array-append stack (pos + 1) bs k n q (omega arith) (omega arith))

length-stack_bytes : (stack : ℕ → ℕ) (pos n : ℕ) → length (stack_bytes stack pos n) ≡ n
length-stack_bytes stack pos zero = refl
length-stack_bytes stack pos (suc n) = ap suc (length-stack_bytes stack (pos + 1) n)

module _ {D : Type 0} (bus : Bus D) (Inside : ℕ → Type 0) (m : IsMemory bus Inside) where
  -- The `n` bytes from an address on.
  abbrev pub peeks : D → ℕ → ℕ → List ℕ
  peeks d a zero = []
  peeks d a (suc n) = m.peek d a ∷ peeks d (a + 1) n

  -- The addresses from `a` to `a + n - 1` are all inside, and do not wrap.
  abbrev pub IsRange : ℕ → ℕ → Type 0
  IsRange a n = (a + n < 2 ^ 32) × ((i : ℕ) → a ≤ i → i < a + n → Inside i)

  read_loop-peeks :
      (t : Target D) (a n : ℕ) → IsRange a n → read_loop bus t a n ≡ (some (peeks t.mem a n), t)
  unfolding read_loop
  read_loop-peeks t a zero h = refl
  read_loop-peeks t a (suc n) h =
      let here : u32 (a + 1) ≡ a + 1 = omega (arith, h.0) in
      let ih =
        read_loop-peeks t (a + 1) n (omega arith, λ i l u. h.1 i (omega arith) (omega arith)) in
      ground (arith, here, ih, m.read_peek t.mem a (h.1 a (omega arith) (omega arith)))

  -- What stands at an address that the loop does not reach stays.
  write_loop-outside :
      (t : Target D) (a : ℕ) (bs : List ℕ) (b : ℕ)
      → IsRange a (length bs)
      → Inside b
      → b < a
      → m.peek (write_loop bus t a bs).1.mem b ≡ m.peek t.mem b
  unfolding write_loop
  write_loop-outside t a [] b r i l = refl
  write_loop-outside t a (x ∷ bs) b r i l =
      let next : u32 (a + 1) ≡ a + 1 = omega (arith, r.0) in
      rw
        (
          next,
          write_loop-outside (record t { mem = bus.write t.mem a x }) (a + 1) bs b
              (omega arith, λ j l' u. r.1 j (omega arith) (omega arith)) i (omega arith),
        )
        (m.write_other t.mem a b x (r.1 a (omega arith) (omega arith)) i (λ e. omega arith))

  write_loop-peeks :
      (t : Target D) (a : ℕ) (bs : List ℕ)
      → IsRange a (length bs)
      → All IsByte bs
      → peeks (write_loop bus t a bs).1.mem a (length bs) ≡ bs
  unfolding write_loop
  write_loop-peeks t a [] r h = refl
  write_loop-peeks t a (x ∷ bs) r h =
      let next : u32 (a + 1) ≡ a + 1 = omega (arith, r.0) in
      let t' = record t { mem = bus.write t.mem a x } in
      let r' : IsRange (a + 1) (length bs) =
        (omega arith, λ j l u. r.1 j (omega arith) (omega arith)) in
      ground (
        arith,
        next,
        write_loop-outside t' (a + 1) bs a r' (r.1 a (omega arith) (omega arith)) (omega arith),
        write_loop-peeks t' (a + 1) bs r' h.1,
        m.write_self t.mem a x (r.1 a (omega arith) (omega arith)) h.0,
      )

  write_loop-true : (t : Target D) (a : ℕ) (bs : List ℕ) → (write_loop bus t a bs).0 ≡ true
  unfolding write_loop
  write_loop-true t a [] = refl
  write_loop-true t a (x ∷ bs) =
      write_loop-true (record t { mem = bus.write t.mem a x }) (u32 (a + 1)) bs

  -- `gdb_mem_write` of at most 64 bytes with a decoder that succeeds stores the decoded bytes,
  -- and then, for every byte of the asked length that the decoder did not give, what the stack
  -- held in its place. The addresses are plain memory and do not wrap.
  pub mem_write-peeks :
      (stack : ℕ → ℕ) (dec : List ℕ → ℕ → ℕ → Access Decoded) (t : Target D) (buf : List ℕ)
      (n a len k : ℕ) (bs : List ℕ)
      → dec buf n len ≡ Digits.ok (record { done = true; bytes = bs })
      → len ≡ length bs + k
      → len ≤ 64
      → IsRange a len
      → All IsByte (bs ++ stack_bytes stack (length bs) k)
      → (t' : Target D) × (mem_write bus stack dec t buf n a len ≡ ok (true, t'))
        × (peeks t'.mem a len ≡ bs ++ stack_bytes stack (length bs) k)
  unfolding mem_write
  mem_write-peeks stack dec t buf n a len k bs e total small r h =
      let all = bs ++ stack_bytes stack (length bs) k in
      let size : length all ≡ len = omega (
        arith,
        length-append bs (stack_bytes stack (length bs) k),
        length-stack_bytes stack (length bs) k,
      ) in
      let big : ltb 64 len ≡ false = ground arith in
      let back : peeks (write_loop bus t a all).1.mem a len ≡ all =
        subst (λ l. peeks (write_loop bus t a all).1.mem a l ≡ all) size
          (write_loop-peeks t a all (subst (IsRange a) (sym size) r) h) in
      (
        (write_loop bus t a all).1,
        rw (big, e, data_array-append stack 0 bs k len (length bs) total (omega arith))
            (ap (λ w. ok (w, (write_loop bus t a all).1)) (write_loop-true t a all)),
        back,
      )

  length-peeks : (d : D) (a n : ℕ) → length (peeks d a n) ≡ n
  length-peeks d a zero = refl
  length-peeks d a (suc n) = ap suc (length-peeks d (a + 1) n)

  -- `gdb_mem_read` gives the bytes of the memory in hexadecimal, and changes nothing.
  mem_read-peeks :
      (t : Target D) (a n : ℕ)
      → n ≤ 64
      → IsRange a n
      → mem_read bus t 256 a n ≡ (some (hex_digits (peeks t.mem a n)), t)
  unfolding mem_read enc_hex
  mem_read-peeks t a n small r =
      let big : ltb 64 n ≡ false = ground arith in
      ground (arith, big, read_loop-peeks t a n r, length-peeks t.mem a n)

  -- What `M` writes to memory, `m` reads back: `gdb_mem_write` on the hexadecimal digits of at
  -- most 64 bytes succeeds, and `gdb_mem_read` at the same address and length then gives the same
  -- digits and changes nothing, if the addresses do not wrap and are plain memory.
  pub mem_write-mem_read :
      (stack : ℕ → ℕ) (t : Target D) (bs rest : List ℕ) (a : ℕ)
      → length bs ≤ 64
      → IsRange a (length bs)
      → All IsByte bs
      → (t' : Target D) × (mem_write bus stack dec_hex t
            (hex_digits bs ++ rest)
            (length bs * 2)
            a
            (length bs)
          ≡ ok (true, t'))
        × (mem_read bus t' 256 a (length bs) ≡ (some (hex_digits bs), t'))
  mem_write-mem_read stack t bs rest a small r h =
      let wrap : u32 (length bs * 2) ≡ length bs * 2 = omega arith in
      let (t', w, p) =
        mem_write-peeks stack dec_hex t (hex_digits bs ++ rest) (length bs * 2) a (length bs) 0 bs
          (rw wrap at (dec_hex-hex_digits bs rest h)) (omega arith) small r
          (rw (append-nil bs) h) in
      (
        t',
        w,
        mem_read-peeks t' a (length bs) small r
            ∙ ap (λ l. (some (hex_digits l), t')) (p ∙ append-nil bs),
      )
