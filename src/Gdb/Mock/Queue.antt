-- ===== src/Gdb/Mock/Queue.antt =====
-- The buffers of the mock system, gdb_buf_write and gdb_buf_read of gdbstub.h, against a queue.
use libretro_virtualxt.Base.{
  ℕ, zero, suc, ◌+◌, ◌-◌, ◌*◌, ◌^◌, ◌≡◌, ◌<◌, ◌≤◌, refl, sym, ap, ◌∙◌, arith, Option, none, some,
  List, [], ◌∷◌, ◌++◌, ◌==◌, if◌then◌else◌, leb, ltb, u8, u32, length, take, drop, set, get_or,
  length-set, length-append, length-take, Bool-cases, inl, inr,
}
use libretro_virtualxt.Gdb.Mock.{
  Buffer, malloc, realloc, make_room, store_char, buf_write, buf_read,
}

module _ {A : Type 0} where
  take-set :
      (xs : List A) (n : ℕ) (v : A)
      → n < length xs
      → take (suc n) (set xs n v) ≡ take n xs ++ (v ∷ [])
  take-set [] n v h = absurd (omega arith)
  take-set (x ∷ xs) zero v h = refl
  take-set (x ∷ xs) (suc n) v h = ap (λ t. x ∷ t) (take-set xs n v (omega arith))

  take_of-append : (n : ℕ) (xs ys : List A) → n ≤ length xs → take n (xs ++ ys) ≡ take n xs
  take_of-append zero xs ys h = refl
  take_of-append (suc n) [] ys h = absurd (omega arith)
  take_of-append (suc n) (x ∷ xs) ys h = ap (λ t. x ∷ t) (take_of-append n xs ys (omega arith))

  take_all : (n : ℕ) (xs : List A) → length xs ≤ n → take n xs ≡ xs
  take_all zero [] h = refl
  take_all zero (x ∷ xs) h = absurd (omega arith)
  take_all (suc n) [] h = refl
  take_all (suc n) (x ∷ xs) h = ap (λ t. x ∷ t) (take_all n xs (omega arith))

  drop_of-append : (r : ℕ) (xs ys : List A) → r ≤ length xs → drop r (xs ++ ys) ≡ drop r xs ++ ys
  drop_of-append zero xs ys h = refl
  drop_of-append (suc r) [] ys h = absurd (omega arith)
  drop_of-append (suc r) (x ∷ xs) ys h = drop_of-append r xs ys (omega arith)

  drop-take_next :
      (xs : List A) (r w : ℕ) (d : A)
      → r < w
      → w ≤ length xs
      → drop r (take w xs) ≡ get_or xs r d ∷ drop (suc r) (take w xs)
  drop-take_next xs r zero d h k = absurd (omega arith)
  drop-take_next [] r (suc w) d h k = absurd (omega arith)
  drop-take_next (x ∷ xs) zero (suc w) d h k = refl
  drop-take_next (x ∷ xs) (suc r) (suc w) d h k =
      drop-take_next xs r w d (omega arith) (omega arith)

  drop-take_none : (xs : List A) (r w : ℕ) → w ≤ r → drop r (take w xs) ≡ []
  drop-take_none xs zero zero h = refl
  drop-take_none xs (suc r) zero h = refl
  drop-take_none xs zero (suc w) h = absurd (omega arith)
  drop-take_none [] (suc r) (suc w) h = refl
  drop-take_none (x ∷ xs) (suc r) (suc w) h = drop-take_none xs r w (omega arith)

length-malloc : (fresh : ℕ → ℕ) (n : ℕ) → length (malloc fresh n) ≡ n
length-malloc fresh zero = refl
length-malloc fresh (suc n) = ap suc (length-malloc fresh n)

-- The bytes that are written and not yet read.
abbrev pub contents : Buffer → List ℕ
contents b = elim b.buf [ none ↦ [] | some bytes ↦ drop b.pos_read (take b.pos_write bytes) ]

-- The positions of a buffer that has memory: read up to written, written up to the size, which is
-- that of the memory and not 0.
abbrev pub IsBuffer : Buffer → Type 0
IsBuffer b = elim b.buf [
  | none ↦ Unit
  | some bytes ↦
      (b.pos_read ≤ b.pos_write) × (b.pos_write ≤ b.size) × (b.size ≡ length bytes) × (0 < b.size)
]

length-realloc : (fresh : ℕ → ℕ) (bytes : List ℕ) (n : ℕ) → length (realloc fresh bytes n) ≡ n
length-realloc fresh bytes n = omega (
  arith,
  length-append (take n bytes) (malloc fresh (n - length bytes)),
  length-take n bytes,
  length-malloc fresh (n - length bytes),
)

take-realloc :
    (fresh : ℕ → ℕ) (bytes : List ℕ) (n : ℕ)
    → length bytes ≤ n
    → take (length bytes) (realloc fresh bytes n) ≡ take (length bytes) bytes
take-realloc fresh bytes n h =
    rw (take_all n bytes h)
      (take_of-append (length bytes) bytes (malloc fresh (n - length bytes)) (omega arith))

drop-take-set :
    (bytes : List ℕ) (r w v : ℕ)
    → r ≤ w
    → w < length bytes
    → drop r (take (suc w) (set bytes w v)) ≡ drop r (take w bytes) ++ (v ∷ [])
drop-take-set bytes r w v h k =
    rw (take-set bytes w v k)
      (drop_of-append r (take w bytes) (v ∷ []) (omega (arith, length-take w bytes)))

-- Memory with room for one more byte behind the written ones.
HasRoom : Buffer → Type 0
HasRoom b = elim b.buf [
  | none ↦ ⊥
  | some bytes ↦ IsBuffer b × (b.pos_write < b.size) × (b.pos_write < 2 ^ 31)
]

make_room-lem :
    (fresh : ℕ → ℕ) (buf : Option (List ℕ)) (w r s : ℕ)
    → (let b : Buffer = record { buf = buf; pos_write = w; pos_read = r; size = s } in
        IsBuffer b
        → w < 2 ^ 31
        → HasRoom (make_room fresh b) × (contents (make_room fresh b) ≡ contents b))
unfolding make_room HasRoom
make_room-lem fresh none w r s h k =
    (((omega arith, omega arith, refl, omega arith), omega arith, omega arith), refl)
make_room-lem fresh (some bytes) w r s h k = elim (Bool-cases (leb s w)) [
  | inl full ↦
      let at_end : w ≡ length bytes = ground (arith, h.1, h.2) in
      let twice : u32 (s * 2) ≡ s * 2 = ground (arith, h.1) in
      rw (full, twice)
        (
          (
            (
              h.0,
              ground (arith, h.1),
              sym (length-realloc fresh bytes (s * 2)),
              omega (arith, h.3),
            ),
            omega (arith, h.1, h.3),
            k,
          ),
          rw at_end (ap (drop r) (take-realloc fresh bytes (s * 2) (omega (arith, h.2)))),
        )
  | inr room ↦ rw room ((h, ground (arith, h.1), k), refl)
]

store_parts :
    (buf : Option (List ℕ)) (w r s ch : ℕ)
    → (let b : Buffer = record { buf = buf; pos_write = w; pos_read = r; size = s } in
        HasRoom b
        → IsBuffer (store_char b ch) × (contents (store_char b ch) ≡ contents b ++ (u8 ch ∷ [])))
unfolding store_char HasRoom
store_parts none w r s ch h = absurd h
store_parts (some bytes) w r s ch h =
    let next : u32 (w + 1) ≡ suc w = omega (arith, h.2) in
    let all = h.0 in
    rw next (
      (omega (arith, all.0), omega (arith, h.1), all.2 ∙ sym (length-set bytes w (u8 ch)), all.3),
      drop-take-set bytes r w (u8 ch) all.0 (omega (arith, all.2, h.1)),
    )

-- The queue that a buffer stands for gives its oldest byte, or `EOF` if it is empty; the byte 0xff
-- is taken for `EOF` too.
abbrev dequeue : List ℕ → Option ℕ × List ℕ
dequeue [] = (none, [])
dequeue (c ∷ cs) = ((if c == 0xff then none else some c), cs)

-- On a well-formed buffer, `gdb_buf_write` appends the character, as a byte, to what is written
-- and not yet read, and keeps the buffer well-formed, whether it takes the first memory, doubles
-- it or has room, as long as fewer than 2 ^ 31 bytes have been written.
buf_write-contents :
    (fresh : ℕ → ℕ) (b : Buffer) (ch : ℕ)
    → IsBuffer b
    → b.pos_write < 2 ^ 31
    → IsBuffer (buf_write fresh b ch)
      × (contents (buf_write fresh b ch) ≡ contents b ++ (u8 ch ∷ []))
unfolding buf_write
buf_write-contents fresh b ch h k =
    let room = make_room-lem fresh b.buf b.pos_write b.pos_read b.size h k in
    let r = make_room fresh b in
    let written = store_parts r.buf r.pos_write r.pos_read r.size ch room.0 in
    (written.0, written.1 ∙ ap (λ t. t ++ (u8 ch ∷ [])) room.1)

read_parts :
    (buf : Option (List ℕ)) (w r s : ℕ)
    → (let b : Buffer = record { buf = buf; pos_write = w; pos_read = r; size = s } in
        IsBuffer b
        → w < 2 ^ 32
        → IsBuffer (buf_read b).1
          × (((buf_read b).0, contents (buf_read b).1) ≡ dequeue (contents b)))
unfolding buf_read
read_parts none w r s h k = (tt, refl)
read_parts (some bytes) w r s h k = elim (Bool-cases (ltb r w)) [
  | inl more ↦
      let next : u32 (r + 1) ≡ suc r = ground arith in
      rw (more, next, drop-take_next bytes r w 0 (ground arith) (omega (arith, h.1, h.2)))
        ((ground arith, h.1, h.2, h.3), refl)
  | inr done ↦ rw (done, drop-take_none bytes r w (ground arith)) (h, refl)
]

-- On a well-formed buffer whose write position is a number of 32 bits, `gdb_buf_read` takes the
-- oldest byte that is written and not yet read, or gives `EOF` if there is none, and keeps the
-- buffer well-formed; the byte 0xff is taken out and given as `EOF` too.
buf_read-contents :
    (b : Buffer)
    → IsBuffer b
    → b.pos_write < 2 ^ 32
    → IsBuffer (buf_read b).1 × (((buf_read b).0, contents (buf_read b).1) ≡ dequeue (contents b))
buf_read-contents b = read_parts b.buf b.pos_write b.pos_read b.size

-- On a well-formed buffer into which fewer than 2 ^ 31 bytes have been written, `gdb_buf_write`
-- appends the character, as a byte, to what is written and not yet read, whether it takes the
-- first memory, doubles it or has room; `gdb_buf_read` takes the oldest such byte, or gives `EOF`
-- if there is none, where the byte 0xff is taken out and given as `EOF` too. Both keep the buffer
-- well-formed.
pub buffer_queue :
    (fresh : ℕ → ℕ) (b : Buffer) (ch : ℕ)
    → IsBuffer b
    → b.pos_write < 2 ^ 31
    → (IsBuffer (buf_write fresh b ch)
        × (contents (buf_write fresh b ch) ≡ contents b ++ (u8 ch ∷ [])))
      × (IsBuffer (buf_read b).1
          × (((buf_read b).0, contents (buf_read b).1) ≡ dequeue (contents b)))
buffer_queue fresh b ch h k =
    (buf_write-contents fresh b ch h k, buf_read-contents b h (omega arith))
