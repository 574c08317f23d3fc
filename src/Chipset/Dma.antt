-- ===== src/Chipset/Dma.antt =====
-- The DMA controller, src/modules/chipset/dma.odin. A `byte`, `u16` or `u32` is its number.
pub mod Ports
pub mod Transfer
use libretro_virtualxt.Base.{
  ℕ, zero, suc, ◌+◌, ◌-◌, ◌*◌, ◌/◌, ◌%◌, ◌^◌, Bool, true, false, ◌&&◌, Option, none, some, List, [],
  ◌∷◌, ltb, ◌==◌, not, map, if◌then◌else◌, truthy, get_or, set, u8, u32, sub32, ◌<<<◌, ◌>>>◌,
  bit_and, bit_or,
}
use libretro_virtualxt.Bus.{Bus}

-- An element of `channels`.
pub record Channel : Type 0 where
  pub masked : Bool
  pub auto_init : Bool
  pub request : Bool
  pub operation : ℕ
  pub mode : ℕ
  pub count : ℕ
  pub reload_count : ℕ
  pub addr : ℕ
  pub reload_addr : ℕ
  pub addr_step : ℕ
  pub page : ℕ

-- `DMA`.
pub record Dma : Type 0 where
  pub flip : Bool
  pub m2m : Bool
  pub channels : List Channel

abbrev pub zeroed_channel : Channel
zeroed_channel = record {
  masked = false;
  auto_init = false;
  request = false;
  operation = 0;
  mode = 0;
  count = 0;
  reload_count = 0;
  addr = 0;
  reload_addr = 0;
  addr_step = 0;
  page = 0;
}

abbrev pub masked_channel : Channel
masked_channel = record zeroed_channel { masked = true }

-- `dma_reset`.
unfoldable pub reset : Dma → Dma
reset dma = record {
  flip = false;
  m2m = false;
  channels = masked_channel ∷ masked_channel ∷ masked_channel ∷ masked_channel ∷ [];
}

-- `dma.channels[i]`, for an index that is in range.
abbrev pub channel : Dma → ℕ → Channel
channel dma i = get_or dma.channels i zeroed_channel

abbrev pub with_channel : Dma → ℕ → Channel → Dma
with_channel dma i ch = record dma { channels = set dma.channels i ch }

-- The channel of a page register.
unfoldable pub page_channel : ℕ → Option ℕ
page_channel port =
    let p = bit_and port 0xf in
    if p == 0x1
    then some 2
    else if p == 0x2
    then some 3
    else if p == 0x3
    then some 1
    else if p == 0x7
    then some 0
    else none

-- `dma_io_in`.
unfoldable pub io_in : Dma → ℕ → ℕ × Dma
unfolding page_channel
io_in dma port =
    let mp = bit_and port 0xf in
    let ch = channel dma (bit_and (mp >>> 1) 3) in
    let target = (if truthy (bit_and mp 1) then ch.count else ch.addr) in
    if not (ltb port 0x80)
    then elim (page_channel port) [
      | none ↦ (0xff, dma)
      | some i ↦ (u8 ((channel dma i).page >>> 16), dma)
    ]
    else if ltb mp 8
    then (u8 (target >>> (if dma.flip then 8 else 0)), record dma { flip = not dma.flip })
    else if mp == 8
    then (0xf, dma)
    else (0xff, dma)

-- `target` with a byte written to the half that the flip-flop names.
abbrev pub put_half : Bool → ℕ → ℕ → ℕ
put_half flip target byte =
    if flip
    then bit_or (bit_and target 0xff) (u32 (byte <<< 8))
    else bit_or (bit_and target 0xff00) byte

-- An address or count register.
unfoldable pub write_target : Dma → ℕ → ℕ → Dma
write_target dma mp byte =
    let i = bit_and (mp >>> 1) 3 in
    let ch = channel dma i in
    let new =
      (if truthy (bit_and mp 1)
        then record ch {
          count = put_half dma.flip ch.count byte;
          reload_count = put_half dma.flip ch.count byte;
        }
        else record ch {
          addr = put_half dma.flip ch.addr byte;
          reload_addr = put_half dma.flip ch.addr byte;
        }) in
    record (with_channel dma i new) { flip = not dma.flip }

-- The mode register: `channel` is a copy of the element, so what is assigned is lost.
unfoldable pub write_mode : Dma → ℕ → Dma
write_mode dma byte =
    let copy = channel dma (bit_and byte 3) in
    let assigned = record copy {
      operation = bit_and (byte >>> 2) 3;
      mode = bit_and (byte >>> 6) 3;
      auto_init = truthy (bit_and (byte >>> 4) 1);
      addr_step = (if truthy (bit_and byte 0x20) then 0xffffffff else 1);
    } in
    dma

-- The mask register, from the channel `i` on.
abbrev pub mask_all : ℕ → ℕ → List Channel → List Channel
mask_all byte i [] = []
mask_all byte i (ch ∷ chs) =
    record ch { masked = truthy (bit_and (byte >>> i) 1) } ∷ mask_all byte (i + 1) chs

-- `dma_io_out`.
unfoldable pub io_out : Dma → ℕ → ℕ → Dma
unfolding page_channel write_target write_mode reset
io_out dma port byte =
    let mp = bit_and port 0xf in
    let i = bit_and byte 3 in
    if not (ltb port 0x80)
    then elim (page_channel port) [
      | none ↦ dma
      | some i ↦ with_channel dma i (record (channel dma i) { page = u32 (byte <<< 16) })
    ]
    else if ltb mp 8
    then write_target dma mp byte
    else if mp == 0x8
    then record dma { m2m = truthy (bit_and byte 1) }
    else if mp == 0x9
    then with_channel dma i (record (channel dma i) { request = truthy (bit_and (byte >>> 2) 1) })
    else if mp == 0xa
    then with_channel dma i (record (channel dma i) { masked = truthy (bit_and (byte >>> 2) 1) })
    else if mp == 0xb
    then write_mode dma byte
    else if mp == 0xc
    then record dma { flip = false }
    else if mp == 0xd
    then reset dma
    else if mp == 0xf
    then record dma { channels = mask_all byte 0 dma.channels }
    else dma

-- A step of a channel.
unfoldable pub step : Channel → Channel
step ch =
    let addr = u32 (ch.addr + ch.addr_step) in
    let count = sub32 ch.count 1 in
    if (count == 0xffff) && ch.auto_init
    then record ch { count = ch.reload_count; addr = ch.reload_addr }
    else record ch { count = count; addr = addr }

-- `dma_update_count`.
unfoldable pub update_count : Dma → ℕ → Dma
unfolding step
update_count dma i = let j = bit_and i 3 in with_channel dma j (step (channel dma j))

module _ {D : Type 0} (bus : Bus D) where
  -- `dma_read`.
  unfoldable pub read : Dma → D → ℕ → ℕ × Dma × D
  unfolding update_count
  read dma d i =
      let ch = channel dma (bit_and i 3) in
      let (byte, d') = bus.read d (u32 (ch.page + ch.addr)) in (byte, update_count dma i, d')

  -- `dma_write`.
  unfoldable pub write : Dma → D → ℕ → ℕ → Dma × D
  unfolding update_count
  write dma d i byte =
      let ch = channel dma (bit_and i 3) in
      (update_count dma i, bus.write d (u32 (ch.page + ch.addr)) byte)
