-- ===== src/Gdb/X86/Serial.antt =====
-- The serial port of the x86 system of src/modules/gdb/gdbstub/gdbstub.h. The ports are a device
-- of which only the registers of the NS16550 matter; waiting takes fuel.
use libretro_virtualxt.Base.Bits.{bit_and_mask}
use libretro_virtualxt.Base.{
  ℕ, zero, suc, ◌+◌, ◌^◌, ◌<◌, ◌≡◌, ◌≢◌, refl, ap, ◌==◌, ==_ne, arith, Option, none, some,
  if◌then◌else◌, bit_and, u8,
}

-- `inb` and `outb`, on a device with the state `S`.
pub record Ports (S : Type 0) : Type 0 where
  pub in_8 : S → ℕ → ℕ × S
  pub out_8 : S → ℕ → ℕ → S

abbrev serial_port : ℕ
serial_port = 0x3f8

abbrev serial_thr : ℕ
serial_thr = 0

abbrev serial_rbr : ℕ
serial_rbr = 0

abbrev serial_lsr : ℕ
serial_lsr = 5

low_byte : (x : ℕ) → bit_and (u8 x) 0xff ≡ u8 x
low_byte x = omega (arith, bit_and_mask 8 (u8 x))

module _ {S : Type 0} (ports : Ports S) where
  -- `while ((gdb_x86_io_read_8(SERIAL_PORT + SERIAL_LSR) & mask) == 0);`
  unfoldable wait_for : ℕ → ℕ → S → Option S
  wait_for zero mask s = none
  wait_for (suc fuel) mask s =
      let (status, s') = ports.in_8 s (serial_port + serial_lsr) in
      let rest = wait_for fuel mask s' in if bit_and (u8 status) mask == 0 then rest else some s'

  -- `gdb_x86_serial_getc`, and `gdb_sys_getc`, which keeps its low byte.
  unfoldable serial_getc : ℕ → S → Option (ℕ × S)
  unfolding wait_for
  serial_getc fuel s = elim (wait_for fuel 1 s) [
    | none ↦ none
    | some s' ↦ let (ch, s'') = ports.in_8 s' (serial_port + serial_rbr) in some (u8 ch, s'')
  ]

  unfoldable pub sys_getc : ℕ → S → Option (ℕ × S)
  unfolding serial_getc
  sys_getc fuel s = elim (serial_getc fuel s) [
    | none ↦ none
    | some (ch, s') ↦ some (bit_and ch 0xff, s')
  ]

  -- `gdb_x86_serial_putchar`, and `gdb_sys_putchar`.
  unfoldable pub serial_putchar : ℕ → ℕ → S → Option (ℕ × S)
  unfolding wait_for
  serial_putchar fuel ch s = elim (wait_for fuel (2 ^ 5) s) [
    | none ↦ none
    | some s' ↦ some (ch, ports.out_8 s' (serial_port + serial_thr) (u8 ch))
  ]

  -- The device after its status was read `n` times, and the status that the next read gives.
  abbrev pub polled : ℕ → S → S
  polled zero s = s
  polled (suc n) s = polled n (ports.in_8 s (serial_port + serial_lsr)).1

  abbrev pub status : S → ℕ
  status s = u8 (ports.in_8 s (serial_port + serial_lsr)).0

  -- The bits of the status are there at the read number `n`, and at none before.
  abbrev pub ReadyAt : ℕ → ℕ → S → Type 0
  ReadyAt mask n s =
      ((k : ℕ) → k < n → bit_and (status (polled k s)) mask ≡ 0)
      × (bit_and (status (polled n s)) mask ≢ 0)

  wait_for-ready :
      (mask n fuel : ℕ) (s : S)
      → n < fuel
      → ReadyAt mask n s
      → wait_for fuel mask s ≡ some (polled (suc n) s)
  unfolding wait_for
  wait_for-ready mask n zero s h r = absurd (omega arith)
  wait_for-ready mask zero (suc fuel) s h r = rw (==_ne (bit_and (status s) mask) 0 r.1) refl
  wait_for-ready mask (suc n) (suc fuel) s h r = rw (r.0 0 (omega arith)) (
      wait_for-ready mask n fuel (polled 1 s) (omega arith)
        ((λ k l. r.0 (suc k) (omega arith)), r.1))

  -- If the status of the serial port shows data at some read, and room at some read, and at none
  -- before, then with more fuel than these reads `gdb_sys_getc` gives the byte that the port then
  -- has, and `gdb_sys_putchar` sends the low byte of the character once.
  pub serial-ready :
      (n m fuel ch : ℕ) (s : S)
      → n < fuel
      → m < fuel
      → ReadyAt 1 n s
      → ReadyAt (2 ^ 5) m s
      → (sys_getc fuel s
          ≡ (let (byte, s') = ports.in_8 (polled (suc n) s) serial_port in some (u8 byte, s')))
        × (serial_putchar fuel ch s ≡ some (ch, ports.out_8 (polled (suc m) s) serial_port (u8 ch)))
  unfolding sys_getc serial_putchar
  serial-ready n m fuel ch s h k r w = (
    rw (sys_getc, serial_getc, wait_for-ready 1 n fuel s h r)
        (ap (λ c. some (c, (ports.in_8 (polled (suc n) s) serial_port).1))
          (low_byte (ports.in_8 (polled (suc n) s) serial_port).0)),
    rw (serial_putchar, wait_for-ready (2 ^ 5) m fuel s k w) refl,
  )
