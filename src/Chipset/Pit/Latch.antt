-- ===== src/Chipset/Pit/Latch.antt =====
-- A latched count of the timer chip (pit_io_out and pit_io_in of src/modules/chipset/pit.odin).
use libretro_virtualxt.Base.{
  ℕ, zero, suc, ◌+◌, ◌*◌, ◌/◌, ◌%◌, ◌^◌, ◌<◌, ◌≡◌, refl, ap, ◌∙◌, arith, true, false, not, length,
  length-set, set, get_or-set_self, get_or-set_ne, if◌then◌else◌, ==_iff, Bool-cases, inl, inr,
  ◌==◌, bit_and, ◌>>>◌,
}
use libretro_virtualxt.Base.Bits.{bit_and_mask}
use libretro_virtualxt.Chipset.Pit.{
  Channel, Mode, Pit, channel, put_channel, no_channel, tick_channel, tick, timer, command,
  takes_low, takes_high, is_latch, flips, read_channel, io_in, io_out,
}

-- What a tick leaves of a channel.
abbrev Keeps : Channel → Channel → Type 0
Keeps ch ch' = (ch'.latch ≡ ch.latch) × (ch'.toggle ≡ ch.toggle) × (ch'.mode ≡ ch.mode)

tick_channel-Keeps : (ch : Channel) → Keeps ch (tick_channel ch).1
unfolding tick_channel
tick_channel-Keeps ch = elim (Bool-cases ch.enabled) [
  | inl on ↦ elim (Bool-cases (ch.counter == 0)) [
    | inl over ↦ rw (tick_channel, on, over) (refl, refl, refl)
    | inr later ↦ rw (tick_channel, on, later) (refl, refl, refl)
  ]
  | inr off ↦ rw (tick_channel, off) (refl, refl, refl)
]

put_channel-Keeps :
    (ch new : Channel) (q : Pit) (i j : ℕ)
    → i < length q.channels
    → (i ≡ j → Keeps ch new)
    → Keeps ch (channel q j)
    → Keeps ch (channel (put_channel q i new) j)
put_channel-Keeps ch new q i j l h k = elim (Bool-cases (i == j)) [
  | inl same ↦
      let e = (==_iff i j).0 same in rw (← e, get_or-set_self q.channels i new no_channel l) (h e)
  | inr other ↦ rw (get_or-set_ne q.channels i j new no_channel (λ e. ground (arith, e))) k
]

tick-Keeps :
    (p : Pit) (j : ℕ)
    → length p.channels ≡ 4
    → Keeps (channel p j) (channel (tick p).1 j) × (length (tick p).1.channels ≡ 4)
unfolding tick
tick-Keeps p j l =
    let c0 = (tick_channel (channel p 0)).1 in
    let c1 = (tick_channel (channel p 1)).1 in
    let c2 = (tick_channel (channel p 2)).1 in
    let l0 = length-set p.channels 0 c0 in
    let l1 = length-set (set p.channels 0 c0) 1 c1 in
    let from : (i : ℕ) → i ≡ j → Keeps (channel p j) (tick_channel (channel p i)).1 =
      λ i e. rw (← e) (tick_channel-Keeps (channel p i)) in
    (
      put_channel-Keeps (channel p j) c2 (put_channel (put_channel p 0 c0) 1 c1) 2 j
          (omega (arith, l, l0, l1)) (from 2)
          (put_channel-Keeps (channel p j) c1 (put_channel p 0 c0) 1 j (omega (arith, l, l0))
            (from 1)
            (put_channel-Keeps (channel p j) c0 p 0 j (omega (arith, l)) (from 0)
              (refl, refl, refl))),
      length-set (set (set p.channels 0 c0) 1 c1) 2 c2 ∙ l1 ∙ l0 ∙ l,
    )

timer-Keeps :
    (n : ℕ) (p : Pit) (j : ℕ)
    → length p.channels ≡ 4
    → Keeps (channel p j) (channel (timer n p).1 j) × (length (timer n p).1.channels ≡ 4)
unfolding timer
timer-Keeps zero p j l = ((refl, refl, refl), l)
timer-Keeps (suc n) p j l =
    let ((a, b, c), m) = tick-Keeps p j l in
    let ((d, e, f), k) = timer-Keeps n (tick p).1 j m in ((d ∙ a, e ∙ b, f ∙ c), k)

-- The latch command to a channel.
latch_command :
    (p : Pit) (c low : ℕ)
    → c < 3
    → low < 16
    → length p.channels ≡ 4
    → (let ch = channel p c in
        io_out p 0x43 (c * 64 + low)
        ≡ put_channel p c
            (record ch { toggle = false; mode = Mode.latch_count; latch = ch.counter }))
unfolding io_out command
latch_command p c low small few l =
    let which : bit_and ((c * 64 + low) >>> 6) 3 ≡ c =
      bit_and_mask 2 ((c * 64 + low) >>> 6) ∙ omega arith in
    let mode : bit_and ((c * 64 + low) >>> 4) 3 ≡ 0 =
      bit_and_mask 2 ((c * 64 + low) >>> 4) ∙ omega arith in
    rw (io_out, which, command, mode) refl

read_latched :
    (ch : Channel)
    → ch.mode ≡ Mode.latch_count
    → read_channel ch ≡ (
      if ch.toggle then ch.latch / 256 % 256 else ch.latch % 256,
      record ch { toggle = not ch.toggle },
    )
unfolding read_channel
read_latched ch latched =
    let low : takes_low ch ≡ not ch.toggle = rw latched refl in
    let high : takes_high ch ≡ ch.toggle = rw latched refl in
    let latch : is_latch ch.mode ≡ true = ap is_latch latched in
    let flip : flips ch.mode ≡ true = ap flips latched in
    elim (Bool-cases ch.toggle) [
      | inl second ↦ rw (read_channel, low, high, latch, flip, second) refl
      | inr first ↦ rw (read_channel, low, high, latch, flip, first, bit_and_mask 8 ch.latch) refl
    ]

-- A read of a channel whose count is latched.
latched_read :
    (p : Pit) (c : ℕ)
    → c < 3
    → length p.channels ≡ 4
    → (channel p c).mode ≡ Mode.latch_count
    → (let ch = channel p c in
        let (ret, p') = io_in p (0x40 + c) in
        (ret ≡ (if ch.toggle then ch.latch / 256 % 256 else ch.latch % 256))
        × (channel p' c ≡ record ch { toggle = not ch.toggle })
        × (length p'.channels ≡ 4))
unfolding io_in
latched_read p c small l latched =
    let which : bit_and (0x40 + c) 3 ≡ c = bit_and_mask 2 (0x40 + c) ∙ omega arith in
    let is_data : (0x40 + c == 0x43) ≡ false = ground arith in
    let ch = channel p c in
    let after : Channel = record ch { toggle = not ch.toggle } in
    rw (io_in, which, is_data, read_latched ch latched)
      (
        refl,
        get_or-set_self p.channels c after no_channel (omega (arith, l, small)),
        length-set p.channels c after ∙ l,
      )

-- After the latch command to one of the three channels of the timer chip, two reads of its port
-- give the low and the high byte of the count of 16 bits that it had at the command, however many
-- ticks pass before and between them.
pub latched_count :
    (p : Pit) (c low n m : ℕ)
    → c < 3
    → low < 16
    → length p.channels ≡ 4
    → (channel p c).counter < 2 ^ 16
    → (let latched = io_out p 0x43 (c * 64 + low) in
        let (first, p') = io_in (timer n latched).1 (0x40 + c) in
        let (second, p'') = io_in (timer m p').1 (0x40 + c) in
        second * 256 + first ≡ (channel p c).counter)
latched_count p c low n m small few l word =
    let ch = channel p c in
    let held : Channel = record ch {
      toggle = false;
      mode = Mode.latch_count;
      latch = ch.counter;
    } in
    let p1 = put_channel p c held in
    let here : channel p1 c ≡ held =
      get_or-set_self p.channels c held no_channel (omega (arith, l, small)) in
    let ((a, b, d), l1) = timer-Keeps n p1 c (length-set p.channels c held ∙ l) in
    let (ret, after, l2) = latched_read (timer n p1).1 c small l1 (d ∙ ap (λ t. t.mode) here) in
    let p3 = (io_in (timer n p1).1 (0x40 + c)).1 in
    let ((a', b', d'), l3) = timer-Keeps m p3 c l2 in
    let (ret', after', l4) =
      latched_read (timer m p3).1 c small l3
        (d' ∙ ap (λ t. t.mode) after ∙ d ∙ ap (λ t. t.mode) here) in
    let toggle : (channel (timer n p1).1 c).toggle ≡ false = b ∙ ap (λ t. t.toggle) here in
    let toggle' : (channel (timer m p3).1 c).toggle ≡ true =
      b' ∙ ap (λ t. t.toggle) after ∙ ap not toggle in
    let latch : (channel (timer n p1).1 c).latch ≡ ch.counter = a ∙ ap (λ t. t.latch) here in
    let latch' : (channel (timer m p3).1 c).latch ≡ ch.counter =
      a' ∙ ap (λ t. t.latch) after ∙ latch in
    let low_byte = rw (toggle, latch) at ret in
    let high_byte = rw (toggle', latch') at ret' in
    rw (latch_command p c low small few l) (omega (arith, low_byte, high_byte, word))
