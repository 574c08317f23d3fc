-- ===== src/Chipset/Pit.antt =====
-- The timer chip, src/modules/chipset/pit.odin. How many ticks the cycles of the processor are is
-- counted in floating point there; `timer` takes the number of ticks.
pub mod Latch
pub mod Period
use libretro_virtualxt.Base.{
  ℕ, zero, suc, ◌+◌, ◌-◌, ◌*◌, ◌/◌, ◌%◌, ◌^◌, Bool, true, false, ◌&&◌, ◌||◌, not, List, [], ◌∷◌,
  ◌==◌, if◌then◌else◌, get_or, set, bit_and, bit_or, ◌>>>◌, u8,
}
use libretro_virtualxt.Machine.{Manager, register_io_address_range}

-- `Channel_Mode`.
pub data Mode : Type 0 where
  latch_count : Mode
  low_byte : Mode
  high_byte : Mode
  toggling : Mode

-- `Channel`.
pub record Channel : Type 0 where
  pub enabled : Bool
  pub toggle : Bool
  pub counter : ℕ
  pub latch : ℕ
  pub chdata : ℕ
  pub mode : Mode

-- The channels of `PIT`.
pub record Pit : Type 0 where
  pub channels : List Channel

abbrev pub no_channel : Channel
no_channel = record {
  enabled = false;
  toggle = false;
  counter = 0;
  latch = 0;
  chdata = 0;
  mode = Mode.latch_count;
}

abbrev pub channel : Pit → ℕ → Channel
channel p i = get_or p.channels i no_channel

abbrev pub put_channel : Pit → ℕ → Channel → Pit
put_channel p i ch = record { channels = set p.channels i ch }

-- `Channel_Mode` of two bits.
abbrev mode_of : ℕ → Mode
mode_of n =
    if n == 0
    then Mode.latch_count
    else if n == 1
    then Mode.low_byte
    else if n == 2
    then Mode.high_byte
    else Mode.toggling

abbrev pub is_latch : Mode → Bool
is_latch Mode.latch_count = true
is_latch Mode.low_byte = false
is_latch Mode.high_byte = false
is_latch Mode.toggling = false

-- `flip`: the bytes take turns.
abbrev pub flips : Mode → Bool
flips Mode.latch_count = true
flips Mode.low_byte = false
flips Mode.high_byte = false
flips Mode.toggling = true

-- The two tests for the low and the high byte.
abbrev pub takes_low : Channel → Bool
takes_low ch = elim ch.mode [
  | latch_count ↦ not ch.toggle
  | low_byte ↦ true
  | high_byte ↦ false
  | toggling ↦ not ch.toggle
]

abbrev pub takes_high : Channel → Bool
takes_high ch = elim ch.mode [
  | latch_count ↦ ch.toggle
  | low_byte ↦ false
  | high_byte ↦ true
  | toggling ↦ ch.toggle
]

-- The channel of a port that is read, and the byte.
unfoldable pub read_channel : Channel → ℕ × Channel
read_channel ch =
    let latch = if is_latch ch.mode then ch.latch else ch.counter in
    let ret =
      if takes_low ch then bit_and latch 0xFF else if takes_high ch then u8 (latch >>> 8) else 0 in
    (ret, record ch { latch = latch; toggle = if flips ch.mode then not ch.toggle else ch.toggle })

-- `pit_io_in`.
unfoldable pub io_in : Pit → ℕ → ℕ × Pit
io_in p port =
    let i = bit_and port 3 in
    let (ret, ch) = read_channel (channel p i) in
    if port == 0x43 then (0, p) else (ret, put_channel p i ch)

-- The command that sets the mode of a channel.
unfoldable pub command : ℕ → Channel → Channel
command byte ch =
    let mode = mode_of (bit_and (byte >>> 4) 3) in
    record ch {
      toggle = false;
      mode = mode;
      latch = if is_latch mode then ch.counter else ch.latch;
    }

-- The channel of a port that is written.
unfoldable pub write_channel : ℕ → Channel → Channel
write_channel byte ch =
    let toggle = if flips ch.mode then not ch.toggle else ch.toggle in
    let high = bit_or (bit_and ch.chdata 0x00FF) (byte * 2 ^ 8) in
    if takes_low ch
    then record ch {
      chdata = bit_or (bit_and ch.chdata 0xFF00) byte;
      enabled = false;
      toggle = toggle;
    }
    else if takes_high ch
    then record ch { chdata = if high == 0 then 0xFFFF else high; enabled = true; toggle = toggle }
    else record ch { toggle = toggle }

-- `pit_io_out`.
unfoldable pub io_out : Pit → ℕ → ℕ → Pit
io_out p port byte =
    let i = bit_and (byte >>> 6) 3 in
    let j = bit_and port 3 in
    if port == 0x43
    then put_channel p i (command byte (channel p i))
    else put_channel p j (write_channel byte (channel p j))

-- One tick of a channel: whether it was reloaded.
unfoldable pub tick_channel : Channel → Bool × Channel
tick_channel ch =
    if ch.enabled
    then if ch.counter == 0
      then (true, record ch { counter = ch.chdata })
      else (false, record ch { counter = ch.counter - 1 })
    else (false, ch)

-- One tick of the first three channels: the number of interrupts 0 that it raises.
unfoldable pub tick : Pit → ℕ × Pit
tick p =
    let (timed, c0) = tick_channel (channel p 0) in
    let (r1, c1) = tick_channel (channel p 1) in
    let (r2, c2) = tick_channel (channel p 2) in
    (if timed then 1 else 0, put_channel (put_channel (put_channel p 0 c0) 1 c1) 2 c2)

-- The loop of `pit_timer` over the ticks.
unfoldable pub timer : ℕ → Pit → ℕ × Pit
timer zero p = (0, p)
timer (suc n) p =
    let (raised, p') = tick p in let (others, p'') = timer n p' in (raised + others, p'')

-- `pit_install`.
abbrev pub install : {S : Type 0} → Manager S → ℕ → Manager S
install m pidx = register_io_address_range m pidx 0x40 0x43
