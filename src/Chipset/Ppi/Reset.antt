-- ===== src/Chipset/Ppi/Reset.antt =====
-- The reset of the keyboard (src/modules/chipset/ppi.odin).
use libretro_virtualxt.Base.{
  ℕ, Bool, true, false, List, [], ◌∷◌, ◌≡◌, refl, ◌||◌, not, ◌==◌, ==_iff, Bool-cases, inl, inr,
  bit_and, truthy, arith,
}
use libretro_virtualxt.Chipset.Ppi.{Ppi, io_in, io_out, keyboard_callback, push_event, code_in}
use libretro_virtualxt.Chipset.Ppi.Keys.{scan_codes}

-- What happens until the program reads the keyboard: a key, or a write to port 0x61.
pub data Event : Type 0 where
  key : Bool → ℕ → Event
  write : ℕ → Event

abbrev pub after : Ppi → Event → Bool × Ppi
after p (key down code) = keyboard_callback down code p
after p (write byte) = io_out p 0x61 byte

-- The chip after the events, with whether any raised the interrupt.
abbrev pub after_all : Ppi → List Event → Bool × Ppi
after_all p [] = (false, p)
after_all p (e ∷ events) =
    let (raised, p') = after p e in
    let (others, p'') = after_all p' events in (raised || others, p'')

-- The keyboard has been reset, and the byte that says so is not read.
abbrev IsReset : Ppi → Type 0
IsReset p = (p.kb_reset ≡ true) × (p.data_port ≡ 0xAA)

after-IsReset : (p : Ppi) (e : Event) → IsReset p → ((after p e).0 ≡ false) × IsReset (after p e).1
unfolding keyboard_callback push_event io_out
after-IsReset p (key down code) (r, d) = elim (Bool-cases (code_in scan_codes code == 0)) [
  | inl unknown ↦ rw (keyboard_callback, unknown) (refl, (r, d))
  | inr known ↦ rw (keyboard_callback, push_event, known, r) (refl, (refl, d))
]
after-IsReset p (write byte) (r, d) = rw (io_out, r, d) (refl, (refl, refl))

after_all-IsReset :
    (p : Ppi) (events : List Event)
    → IsReset p
    → ((after_all p events).0 ≡ false) × IsReset (after_all p events).1
after_all-IsReset p [] h = (refl, h)
after_all-IsReset p (e ∷ events) h =
    let (q, h') = after-IsReset p e h in
    let (q', h'') = after_all-IsReset (after p e).1 events h' in (rw q q', h'')

io_out-IsReset :
    (p : Ppi) (byte : ℕ)
    → truthy (bit_and p.port_61 0xC0) ≡ false
    → truthy (bit_and byte 0xC0) ≡ true
    → ((io_out p 0x61 byte).0 ≡ not (p.data_port == 0xAA)) × IsReset (io_out p 0x61 byte).1
unfolding io_out
io_out-IsReset p byte off on =
    let now : (p.kb_reset || true) ≡ true = ground arith in
    elim (Bool-cases (p.data_port == 0xAA)) [
      | inl same ↦ rw (io_out, off, on, same, now) (refl, (refl, (==_iff p.data_port 0xAA).0 same))
      | inr other ↦ rw (io_out, off, on, other, now) (refl, (refl, refl))
    ]

-- A write to port 0x61 that sets one of the two high bits, where none was set, resets the
-- keyboard: it raises the interrupt unless the data port holds 0xAA already, and then, whatever
-- keys are pressed and whatever is written to the port, no interrupt is raised, the first read of
-- port 0x60 gives 0xAA, and the second gives 0.
pub keyboard_reset :
    (p : Ppi) (byte : ℕ) (events : List Event)
    → truthy (bit_and p.port_61 0xC0) ≡ false
    → truthy (bit_and byte 0xC0) ≡ true
    → (let (raised, p1) = io_out p 0x61 byte in
        let (others, p2) = after_all p1 events in
        let (first, p3) = io_in p2 0x60 in
        let (second, p4) = io_in p3 0x60 in
        (raised ≡ not (p.data_port == 0xAA)) × (others ≡ false) × (first ≡ 0xAA) × (second ≡ 0))
unfolding io_in
keyboard_reset p byte events off on =
    let (raised, h) = io_out-IsReset p byte off on in
    let (others, (r, d)) = after_all-IsReset (io_out p 0x61 byte).1 events h in
    (raised, others, d, rw r refl)
