-- ===== src/Chipset/Dma/Transfer.antt =====
-- The transfers of the DMA controller, and what the mode register does not do
-- (src/modules/chipset/dma.odin).
use mathlib.Core.Path.{subst}
use libretro_virtualxt.Base.{
  ℕ, ◌+◌, ◌%◌, ◌^◌, ◌≡◌, refl, sym, inl, inr, Bool, true, false, Option, none, some, List, [], ◌∷◌,
  ltb, ◌==◌, sub32, ◌<◌, not, Option-cases, if◌then◌else◌, truthy, u32, ◌<<<◌, ◌>>>◌, bit_and, All,
  All-get_or, All-set, get_or-set_same, arith,
}
use libretro_virtualxt.Chipset.Dma.{
  Dma, Channel, channel, with_channel, zeroed_channel, masked_channel, io_in, io_out, page_channel,
  write_target, write_mode, mask_all, reset, step, update_count,
}

-- A channel whose mode is as a reset leaves it.
abbrev IsUnset : Channel → Type 0
IsUnset ch = (ch.operation ≡ 0) × (ch.mode ≡ 0) × (ch.auto_init ≡ false) × (ch.addr_step ≡ 0)

abbrev AllUnset : Dma → Type 0
AllUnset dma = All IsUnset dma.channels

-- What happens to the controller: a write or a read of a port, a transfer.
pub data Reachable : Dma → Type 0 where
  after_reset : (dma : Dma) → Reachable (reset dma)
  after_out : (dma : Dma) (port byte : ℕ) → Reachable dma → Reachable (io_out dma port byte)
  after_in : (dma : Dma) (port : ℕ) → Reachable dma → Reachable (io_in dma port).1
  after_transfer : (dma : Dma) (i : ℕ) → Reachable dma → Reachable (update_count dma i)

channel-IsUnset : (dma : Dma) (i : ℕ) → AllUnset dma → IsUnset (channel dma i)
channel-IsUnset dma i h =
    All-get_or IsUnset dma.channels i zeroed_channel h (refl, refl, refl, refl)

replaced :
    (dma : Dma) (i : ℕ) (ch : Channel)
    → AllUnset dma
    → IsUnset ch
    → AllUnset (with_channel dma i ch)
replaced dma i ch h k = All-set IsUnset dma.channels i ch h k

mask_all-IsUnset :
    (byte i : ℕ) (chs : List Channel) → All IsUnset chs → All IsUnset (mask_all byte i chs)
mask_all-IsUnset byte i [] h = tt
mask_all-IsUnset byte i (ch ∷ chs) h = (h.0, mask_all-IsUnset byte (i + 1) chs h.1)

if-AllUnset : (b : Bool) (x y : Dma) → AllUnset x → AllUnset y → AllUnset (if b then x else y)
if-AllUnset true x y h k = h
if-AllUnset false x y h k = k

if-IsUnset : (b : Bool) (x y : Channel) → IsUnset x → IsUnset y → IsUnset (if b then x else y)
if-IsUnset true x y h k = h
if-IsUnset false x y h k = k

write_target-AllUnset :
    (dma : Dma) (mp byte : ℕ) → AllUnset dma → AllUnset (write_target dma mp byte)
unfolding write_target
write_target-AllUnset dma mp byte h =
    let i = bit_and (mp >>> 1) 3 in
    let k = channel-IsUnset dma i h in
    replaced dma i _ h (if-IsUnset (truthy (bit_and mp 1)) _ _ k k)

step-IsUnset : (ch : Channel) → IsUnset ch → IsUnset (step ch)
unfolding step
step-IsUnset ch h = if-IsUnset _ _ _ h h

page-AllUnset :
    (dma : Dma) (o : Option ℕ) (byte : ℕ)
    → AllUnset dma
    → AllUnset (elim o [
      | none ↦ dma
      | some i ↦ with_channel dma i (record (channel dma i) { page = u32 (byte <<< 16) })
    ])
page-AllUnset dma none byte h = h
page-AllUnset dma (some i) byte h = replaced dma i _ h (channel-IsUnset dma i h)

reset-AllUnset : (dma : Dma) → AllUnset (reset dma)
unfolding reset
reset-AllUnset dma =
    let u : IsUnset masked_channel = (refl, refl, refl, refl) in (u, (u, (u, (u, tt))))

io_out-AllUnset : (dma : Dma) (port byte : ℕ) → AllUnset dma → AllUnset (io_out dma port byte)
unfolding io_out write_mode
io_out-AllUnset dma port byte h =
    let mp = bit_and port 0xf in
    let i = bit_and byte 3 in
    let k = channel-IsUnset dma i h in
    if-AllUnset (not (ltb port 0x80)) _ _ (page-AllUnset dma (page_channel port) byte h) (
      if-AllUnset (ltb mp 8) _ _ (write_target-AllUnset dma mp byte h) (
        if-AllUnset (mp == 0x8) _ _ h (
          if-AllUnset (mp == 0x9) _ _ (replaced dma i _ h k) (
            if-AllUnset (mp == 0xa) _ _ (replaced dma i _ h k) (
              if-AllUnset (mp == 0xb) _ _ h (
                if-AllUnset (mp == 0xc) _ _ h (
                  if-AllUnset (mp == 0xd) _ _ (reset-AllUnset dma)
                    (if-AllUnset (mp == 0xf) _ _ (mask_all-IsUnset byte 0 dma.channels h) h))))))))

io_in-channels : (dma : Dma) (port : ℕ) → (io_in dma port).1.channels ≡ dma.channels
unfolding io_in
io_in-channels dma port = elim (Option-cases (page_channel port)) [
  | inl e ↦ ground (arith, e)
  | inr (i, e) ↦ ground (arith, e)
]

update_count-AllUnset : (dma : Dma) (i : ℕ) → AllUnset dma → AllUnset (update_count dma i)
unfolding update_count
update_count-AllUnset dma i h =
    let j = bit_and i 3 in
    replaced dma j (step (channel dma j)) h (step-IsUnset (channel dma j) (channel-IsUnset dma j h))

-- From a reset on, whatever is written to and read from the ports, the mode registers included,
-- and whatever is transferred, no channel has an operation, a mode, automatic initialisation or a
-- step of its address.
modes_lost : (dma : Dma) → Reachable dma → AllUnset dma
modes_lost _ (after_reset dma) = reset-AllUnset dma
modes_lost _ (after_out dma port byte r) = io_out-AllUnset dma port byte (modes_lost dma r)
modes_lost _ (after_in dma port r) =
    subst (All IsUnset) (sym (io_in-channels dma port)) (modes_lost dma r)
modes_lost _ (after_transfer dma i r) = update_count-AllUnset dma i (modes_lost dma r)

step-addr : (ch : Channel) → IsUnset ch → (step ch).addr ≡ u32 ch.addr
unfolding step
step-addr ch h = ground (arith, h.2, h.3)

-- From a reset on, however the controller is programmed, a transfer leaves the address of every
-- channel as it was, modulo 2 ^ 32.
pub address_stays :
    (dma : Dma) (i j : ℕ)
    → Reachable dma
    → (channel (update_count dma i) j).addr % 2 ^ 32 ≡ (channel dma j).addr % 2 ^ 32
unfolding update_count
address_stays dma i j r =
    let k = bit_and i 3 in
    get_or-set_same (λ ch. ch.addr % 2 ^ 32) dma.channels k j (step (channel dma k)) zeroed_channel
      (omega (arith, step-addr (channel dma k) (channel-IsUnset dma k (modes_lost dma r))))

-- With a count of 16 bits, a transfer never reloads the count and the address: the count goes
-- down by one modulo 2 ^ 32, so that 0 becomes 0xffffffff and not 0xffff, and the address goes up
-- by its step, whatever automatic initialisation says.
pub never_reloads :
    (ch : Channel)
    → ch.count < 2 ^ 16
    → step ch ≡ record ch { count = sub32 ch.count 1; addr = u32 (ch.addr + ch.addr_step) }
unfolding step
never_reloads ch h =
    let other : (sub32 ch.count 1 == 0xffff) ≡ false = ground arith in rw other refl
