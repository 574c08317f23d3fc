-- ===== src/Chipset/Tests.antt =====
-- The controllers of the chipset at concrete inputs.
use libretro_virtualxt.Base.{
  ◌≡◌, ◌≤◌, ◌-◌, refl, true, false, some, [], ◌∷◌, arith, ◌+◌, ◌*◌, ◌%◌, ◌^◌,
}
use libretro_virtualxt.Chipset.Pic.{Pic, next, next_loop, io_out, command, end_interrupt}
use libretro_virtualxt.Chipset.Pic.Next.{Chooses, next_lem}
use libretro_virtualxt.Chipset.Pic.Eoi.{Ends, io_out-eoi}
use libretro_virtualxt.Chipset.Pit
use libretro_virtualxt.Chipset.Pit.Latch.{latched_count}
use libretro_virtualxt.Chipset.Pit.Period.{timer-period}
use libretro_virtualxt.Chipset.Ppi
use libretro_virtualxt.Chipset.Ppi.Reset.{Event, after_all, keyboard_reset}
use libretro_virtualxt.Chipset.Dma
use libretro_virtualxt.Chipset.Dma.{step, Channel, masked_channel, channel, reset, update_count}
use libretro_virtualxt.Chipset.Dma.Ports.{read_back, write_word, read_word, register}
use libretro_virtualxt.Chipset.Dma.Transfer.{
  never_reloads, Reachable, after_reset, after_out, address_stays,
}

-- The keyboard and the timer are requested, the timer is masked.
abbrev pic : Pic
pic = record {
  mask_reg = 1;
  request_reg = 3;
  service_reg = 0;
  icw_step = 5;
  read_mode = 0;
  icw = 0 ∷ 0x13 ∷ 8 ∷ 0 ∷ 9 ∷ [];
}

next_lem_example : Chooses pic (next pic)
next_lem_example = next_lem pic (omega arith)

chosen : (next pic).0 ≡ some 9
unfolding next next_loop
chosen = refl

abbrev busy : Pic
busy = record pic { service_reg = 0x82 }

io_out-eoi_example : Ends busy (io_out busy 0x20 0x20)
io_out-eoi_example = io_out-eoi busy

ended : (io_out busy 0x20 0x20).service_reg ≡ 0x80
unfolding io_out command end_interrupt
ended = refl

abbrev counts : Dma.Dma
counts =
    write_word
      (record {
        flip = true;
        m2m = false;
        channels = masked_channel ∷ masked_channel ∷ masked_channel ∷ masked_channel ∷ [];
      })
      5 0x34 0x12

read_back_example :
    (counts.flip ≡ false)
    × (register counts 5 ≡ 0x12 * 2 ^ 8 + 0x34)
    × ((read_word counts 5).0 ≡ 0x34)
    × ((read_word counts 5).1 ≡ 0x12)
read_back_example =
    read_back true false masked_channel masked_channel masked_channel masked_channel 5 0x34 0x12
      (omega arith) (omega arith) (omega arith)

-- The mode register of channel 2, single transfers from memory, address increment.
abbrev programmed : Dma.Dma → Dma.Dma
programmed dma = Dma.io_out (reset dma) 0xb 0x4a

programmed-Reachable : (dma : Dma.Dma) → Reachable (programmed dma)
programmed-Reachable dma = after_out (reset dma) 0xb 0x4a (after_reset dma)

address_stays_example :
    (channel (update_count (programmed counts) 2) 2).addr % 2 ^ 32
    ≡ (channel (programmed counts) 2).addr % 2 ^ 32
address_stays_example = address_stays (programmed counts) 2 2 (programmed-Reachable counts)

abbrev last_transfer : Channel
last_transfer = record masked_channel {
  auto_init = true;
  reload_count = 7;
  reload_addr = 9;
  addr_step = 1;
}

never_reloads_example : step last_transfer ≡ record last_transfer { count = 0xffffffff; addr = 1 }
never_reloads_example = never_reloads last_transfer (omega arith)

-- The first channel runs with the divisor 3 and is at 1; the second holds a count.
abbrev timers : Pit.Pit
timers = record {
  channels =
      record Pit.no_channel { enabled = true; counter = 1; chdata = 3; mode = Pit.Mode.toggling }
      ∷ record Pit.no_channel { counter = 0x1234; mode = Pit.Mode.toggling }
      ∷ Pit.no_channel
      ∷ Pit.no_channel
      ∷ [];
}

timer-period_example :
    let (raised, p') = Pit.timer 10 timers in
    (10 + (3 - 1) ≡ raised * (3 + 1) + (3 - (Pit.channel p' 0).counter))
    × ((Pit.channel p' 0).counter ≤ 3)
timer-period_example = timer-period 10 timers (omega arith) refl (omega arith)

raised_three : (Pit.timer 10 timers).0 ≡ 3
unfolding Pit.timer Pit.tick Pit.tick_channel
raised_three = refl

latched_count_example :
    let latched = Pit.io_out timers 0x43 (1 * 64 + 0) in
    let (first, p') = Pit.io_in (Pit.timer 7 latched).1 (0x40 + 1) in
    let (second, p'') = Pit.io_in (Pit.timer 5 p').1 (0x40 + 1) in second * 256 + first ≡ 0x1234
latched_count_example = latched_count timers 1 0 7 5 (omega arith) (omega arith) refl (omega arith)

-- The last key was let go, and its byte was read.
abbrev idle : Ppi.Ppi
idle = record {
  data_port = 0x9E;
  port_61 = 0x0C;
  xt_switches = 0x2E;
  kb_reset = false;
  spk_enabled = false;
  spk_sample_index = 0;
  audio_freq = 44100;
}

keyboard_reset_example :
    let (raised, p1) = Ppi.io_out idle 0x61 0xC8 in
    let (others, p2) = after_all p1 (Event.key true 97 ∷ Event.write 0x48 ∷ []) in
    let (first, p3) = Ppi.io_in p2 0x60 in
    let (second, p4) = Ppi.io_in p3 0x60 in
    (raised ≡ true) × (others ≡ false) × (first ≡ 0xAA) × (second ≡ 0)
keyboard_reset_example =
    keyboard_reset idle 0xC8 (Event.key true 97 ∷ Event.write 0x48 ∷ []) refl refl
