-- ===== src/Chipset/Pit/Period.antt =====
-- The period of the timer chip's first channel (pit_timer of src/modules/chipset/pit.odin).
use libretro_virtualxt.Base.{
  ℕ, zero, suc, ◌+◌, ◌-◌, ◌*◌, ◌<◌, ◌≤◌, ◌≡◌, ◌≢◌, refl, ap, ◌∙◌, arith, true, length, length-set,
  set, get_or-set_self, get_or-set_ne, if◌then◌else◌, Bool-cases, inl, inr, ◌==◌,
}
use libretro_virtualxt.Chipset.Pit.{
  Channel, Pit, channel, put_channel, no_channel, tick_channel, tick, timer,
}

put_channel-same :
    (p : Pit) (i : ℕ) (ch : Channel) → i < length p.channels → channel (put_channel p i ch) i ≡ ch
put_channel-same p i ch l = get_or-set_self p.channels i ch no_channel l

put_channel-ne :
    (p : Pit) (i j : ℕ) (ch : Channel) → i ≢ j → channel (put_channel p i ch) j ≡ channel p j
put_channel-ne p i j ch ne = get_or-set_ne p.channels i j ch no_channel ne

-- A tick does to the first channel what a tick of that channel does, and its reload is the
-- interrupt.
tick_first :
    (p : Pit)
    → 0 < length p.channels
    → ((tick p).0 ≡ (if (tick_channel (channel p 0)).0 then 1 else 0))
      × (channel (tick p).1 0 ≡ (tick_channel (channel p 0)).1)
      × (length (tick p).1.channels ≡ length p.channels)
unfolding tick
tick_first p l =
    let c0 = (tick_channel (channel p 0)).1 in
    let c1 = (tick_channel (channel p 1)).1 in
    let c2 = (tick_channel (channel p 2)).1 in
    (
      refl,
      put_channel-ne (put_channel (put_channel p 0 c0) 1 c1) 2 0 c2 (omega arith)
          ∙ put_channel-ne (put_channel p 0 c0) 1 0 c1 (omega arith)
          ∙ put_channel-same p 0 c0 l,
      length-set (set (set p.channels 0 c0) 1 c1) 2 c2
          ∙ length-set (set p.channels 0 c0) 1 c1
          ∙ length-set p.channels 0 c0,
    )

-- One tick of a channel that runs, whose count is not above its start.
tick_channel-count :
    (ch : Channel)
    → ch.enabled ≡ true
    → ch.counter ≤ ch.chdata
    → (let (timed, ch') = tick_channel ch in
        (1 + (ch.chdata - ch.counter)
          ≡ (if timed then 1 else 0) * (ch.chdata + 1) + (ch.chdata - ch'.counter))
        × (ch'.counter ≤ ch.chdata)
        × (ch'.enabled ≡ true)
        × (ch'.chdata ≡ ch.chdata))
unfolding tick_channel
tick_channel-count ch on le = elim (Bool-cases (ch.counter == 0)) [
  | inl zero_now ↦ rw (tick_channel, on, zero_now) (ground arith, omega arith, refl, refl)
  | inr later ↦ rw (tick_channel, on, later) (ground arith, ground arith, refl, refl)
]

-- Two stretches of time, one after the other.
stretches :
    (n d c c1 c2 r1 r2 : ℕ)
    → 1 + (d - c) ≡ r1 * (d + 1) + (d - c1)
    → n + (d - c1) ≡ r2 * (d + 1) + (d - c2)
    → suc n + (d - c) ≡ (r1 + r2) * (d + 1) + (d - c2)
stretches n d c c1 c2 r1 r2 e f = ground (arith, e, f)

-- While the first channel of the timer chip runs, with a count that is not above its start, it
-- raises one interrupt for each number of ticks that is one more than the start: the ticks, and
-- the ones before since the last reload, are the interrupts times that period and the ticks since
-- the last one; the count stays at most the start.
pub timer-period :
    (n : ℕ) (p : Pit)
    → 0 < length p.channels
    → (channel p 0).enabled ≡ true
    → (channel p 0).counter ≤ (channel p 0).chdata
    → (let start = (channel p 0).chdata in
        let (raised, p') = timer n p in
        (n + (start - (channel p 0).counter)
          ≡ raised * (start + 1) + (start - (channel p' 0).counter))
        × ((channel p' 0).counter ≤ start))
unfolding timer
timer-period zero p l on le = (omega arith, le)
timer-period (suc n) p l on le =
    let (a, b, c) = tick_first p l in
    let (d, e, f, g) = tick_channel-count (channel p 0) on le in
    let same : (channel (tick p).1 0).chdata ≡ (channel p 0).chdata = ap (λ t. t.chdata) b ∙ g in
    let counter = ap (λ t. t.counter) b in
    let (h, i) =
      timer-period n (tick p).1 (omega (arith, c, l)) (ap (λ t. t.enabled) b ∙ f)
        (omega (arith, e, counter, same)) in
    let first = rw (← a, ← counter) at d in
    let rest = rw same at h in
    (
      stretches n (channel p 0).chdata (channel p 0).counter (channel (tick p).1 0).counter
          (channel (timer n (tick p).1).1 0).counter (tick p).0 (timer n (tick p).1).0 first rest,
      omega (arith, i, same),
    )
