-- ===== src/Chipset/Ppi.antt =====
-- The keyboard and speaker chip, src/modules/chipset/ppi.odin. The period of the square wave is
-- computed in floating point there; `generate_sample` takes its half.
pub mod Keys
pub mod Reset
use libretro_virtualxt.Base.{
  ℕ, zero, suc, ◌+◌, ◌-◌, ◌*◌, ◌/◌, ◌%◌, Bool, true, false, ◌&&◌, ◌||◌, not, List, [], ◌∷◌, ◌==◌,
  Option, none, some, if◌then◌else◌, bit_and, bit_or, bit_xor, ◌>>>◌, u8, truthy,
}
use libretro_virtualxt.Machine.{Manager, register_io_address_range}
use libretro_virtualxt.Chipset.Ppi.Keys.{scan_codes}

-- `PPI`, less its pointer to the timer chip.
pub record Ppi : Type 0 where
  pub data_port : ℕ
  pub port_61 : ℕ
  pub xt_switches : ℕ
  pub kb_reset : Bool
  pub spk_enabled : Bool
  pub spk_sample_index : ℕ
  pub audio_freq : ℕ

-- `ppi_io_in`.
unfoldable pub io_in : Ppi → ℕ → ℕ × Ppi
io_in p port =
    if port == 0x60
    then (p.data_port, if p.kb_reset then record p { kb_reset = false; data_port = 0 } else p)
    else if port == 0x61
    then (bit_xor p.port_61 0x10, record p { port_61 = bit_xor p.port_61 0x10 })
    else if port == 0x62
    then (
      if truthy (bit_and p.port_61 8) then p.xt_switches >>> 4 else bit_and p.xt_switches 0xF,
      p,
    )
    else (0, p)

-- The speaker in `ppi_io_out`.
abbrev speaker : Ppi → ℕ → Ppi
speaker p byte =
    let enable = bit_and byte 3 == 3 in
    if (enable && not p.spk_enabled) || (not enable && p.spk_enabled)
    then record p { spk_enabled = enable; spk_sample_index = 0 }
    else p

-- `ppi_io_out`, with whether it raises the interrupt 1.
unfoldable pub io_out : Ppi → ℕ → ℕ → Bool × Ppi
io_out p port byte =
    let reset =
      p.kb_reset || (not (truthy (bit_and p.port_61 0xC0)) && truthy (bit_and byte 0xC0)) in
    let fresh = reset && not (p.data_port == 0xAA) in
    if port == 0x61
    then (
      fresh,
      record (speaker p byte) {
        kb_reset = reset;
        data_port = if fresh then 0xAA else p.data_port;
        port_61 = byte;
      },
    )
    else (false, p)

-- What `ppi_generate_sample` gives.
pub data Sample : Type 0 where
  silence : Sample
  high : Sample
  low : Sample

-- `ppi_generate_sample`.
unfoldable generate_sample : Ppi → ℕ → Sample × Ppi
generate_sample p half_period =
    let index = p.spk_sample_index + 1 in
    if not p.spk_enabled || (half_period == 0) then (Sample.silence, p) else (
      if index / half_period % 2 == 0 then Sample.low else Sample.high,
      record p { spk_sample_index = index },
    )

-- `ppi_push_event`, with whether it raises the interrupt 1.
unfoldable pub push_event : Ppi → ℕ → Bool × Ppi
push_event p scan = if p.kb_reset then (false, p) else (true, record p { data_port = scan })

-- The scan code of a key, 0 for one that the keyboard does not have.
abbrev pub code_in : List (ℕ × ℕ) → ℕ → ℕ
code_in [] key = 0
code_in ((k, code) ∷ codes) key = if k == key then code else code_in codes key

-- `ppi_keyboard_callback`.
unfoldable pub keyboard_callback : Bool → ℕ → Ppi → Bool × Ppi
keyboard_callback down key p =
    let xt_key = code_in scan_codes key in
    if xt_key == 0 then (false, p) else push_event p (if down then xt_key else bit_or xt_key 0x80)

-- The messages of `ppi_config`.
pub data Setting : Type 0 where
  set_audio_frequency : ℕ → Setting
  set_switches : ℕ → Setting
  get_switches : Setting
  other : Setting

-- `ppi_config` of a message for the chipset: what it returns, and the byte that it writes, if it
-- writes one.
unfoldable pub config : Setting → Ppi → Bool × Option ℕ × Ppi
config (set_audio_frequency n) p = (true, none, record p { audio_freq = n })
config (set_switches n) p = (true, none, record p { xt_switches = n })
config get_switches p = (true, some p.xt_switches, p)
config other p = (false, none, p)

-- The ports that `ppi_install` registers.
abbrev pub install : {S : Type 0} → Manager S → ℕ → Manager S
install m pidx = register_io_address_range m pidx 0x60 0x63
