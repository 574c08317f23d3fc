-- ===== src/Chipset/Dma/Ports.antt =====
-- The registers of the DMA controller through its ports, src/modules/chipset/dma.odin.
use libretro_virtualxt.Base.{
  ℕ, zero, suc, ◌+◌, ◌*◌, ◌/◌, ◌%◌, ◌^◌, ◌<◌, ◌≡◌, refl, ap, Bool, true, false, [], ◌∷◌, ◌==◌,
  if◌then◌else◌, u8, u32, ◌<<<◌, ◌>>>◌, bit_or, IsByte, arith,
}
use libretro_virtualxt.Base.Bits.{bit_or_comm, bit_and_shifted, bit_or_fields, bit_and_mask}
use libretro_virtualxt.Chipset.Dma.{Dma, Channel, channel, io_in, io_out, write_target, put_half}

-- The register behind a port below 8: `count` for an odd one, else `addr`.
abbrev pub register : Dma → ℕ → ℕ
register dma port =
    if port % 2 == 1 then (channel dma (port / 2)).count else (channel dma (port / 2)).addr

-- Port 0xc, then two writes to a port.
abbrev pub write_word : Dma → ℕ → ℕ → ℕ → Dma
write_word dma port lo hi = io_out (io_out (io_out dma 0xc 0) port lo) port hi

-- Two reads from a port.
abbrev pub read_word : Dma → ℕ → ℕ × ℕ
read_word dma port = ((io_in dma port).0, (io_in (io_in dma port).1 port).0)

put_low : (t b : ℕ) → IsByte b → put_half false t b ≡ t / 2 ^ 8 % 2 ^ 8 * 2 ^ 8 + b
put_low t b h =
    rw (bit_and_shifted 8 t 255, bit_and_mask 8 (t / 2 ^ 8))
      (bit_or_fields 8 (t / 2 ^ 8 % 2 ^ 8) b h)

wraps : (b : ℕ) → IsByte b → u32 (b <<< 8) ≡ b * 2 ^ 8
wraps b h = omega arith

put_high : (t b : ℕ) → IsByte b → put_half true t b ≡ b * 2 ^ 8 + t % 2 ^ 8
put_high t b h =
    rw (bit_and_mask 8 t, bit_or_comm (t % 2 ^ 8) (u32 (b <<< 8)))
      (omega (
        arith,
        bit_or_fields 8 b (t % 2 ^ 8) (omega arith),
        ap (λ x. bit_or x (t % 2 ^ 8)) (wraps b h),
      ))

both_halves :
    (t lo hi : ℕ) → IsByte lo → IsByte hi → put_half true (put_half false t lo) hi ≡ hi * 2 ^ 8 + lo
both_halves t lo hi h k = omega (arith, put_low t lo h, put_high (put_half false t lo) hi k)

low : (lo hi : ℕ) → IsByte lo → u8 ((hi * 2 ^ 8 + lo) >>> 0) ≡ lo
low lo hi h = omega arith

high : (lo hi : ℕ) → IsByte lo → IsByte hi → u8 ((hi * 2 ^ 8 + lo) >>> 8) ≡ hi
high lo hi h k = omega arith

halves_read :
    (t lo hi : ℕ)
    → IsByte lo
    → IsByte hi
    → (put_half true (put_half false t lo) hi ≡ hi * 2 ^ 8 + lo)
      × (u8 (put_half true (put_half false t lo) hi >>> 0) ≡ lo)
      × (u8 (put_half true (put_half false t lo) hi >>> 8) ≡ hi)
halves_read t lo hi h k =
    let both = both_halves t lo hi h k in (both, rw both (low lo hi h), rw both (high lo hi h k))

-- After the flip-flop is cleared, two writes to an address or count port store a 16-bit value,
-- low byte first, two reads give it back in the same order, and the flip-flop is clear in
-- between.
pub read_back :
    (flip m2m : Bool) (c₀ c₁ c₂ c₃ : Channel) (port lo hi : ℕ)
    → port < 8
    → IsByte lo
    → IsByte hi
    → (let dma =
          write_word
            (record { flip = flip; m2m = m2m; channels = c₀ ∷ c₁ ∷ c₂ ∷ c₃ ∷ [] })
            port
            lo
            hi in
        (dma.flip ≡ false)
        × (register dma port ≡ hi * 2 ^ 8 + lo)
        × ((read_word dma port).0 ≡ lo)
        × ((read_word dma port).1 ≡ hi))
unfolding io_in io_out write_target
read_back flip m2m c₀ c₁ c₂ c₃ zero lo hi small h k =
    let r = halves_read c₀.addr lo hi h k in (refl, r.0, r.1, r.2)
read_back flip m2m c₀ c₁ c₂ c₃ (suc zero) lo hi small h k =
    let r = halves_read c₀.count lo hi h k in (refl, r.0, r.1, r.2)
read_back flip m2m c₀ c₁ c₂ c₃ (suc (suc zero)) lo hi small h k =
    let r = halves_read c₁.addr lo hi h k in (refl, r.0, r.1, r.2)
read_back flip m2m c₀ c₁ c₂ c₃ (suc (suc (suc zero))) lo hi small h k =
    let r = halves_read c₁.count lo hi h k in (refl, r.0, r.1, r.2)
read_back flip m2m c₀ c₁ c₂ c₃ (suc (suc (suc (suc zero)))) lo hi small h k =
    let r = halves_read c₂.addr lo hi h k in (refl, r.0, r.1, r.2)
read_back flip m2m c₀ c₁ c₂ c₃ (suc (suc (suc (suc (suc zero))))) lo hi small h k =
    let r = halves_read c₂.count lo hi h k in (refl, r.0, r.1, r.2)
read_back flip m2m c₀ c₁ c₂ c₃ (suc (suc (suc (suc (suc (suc zero)))))) lo hi small h k =
    let r = halves_read c₃.addr lo hi h k in (refl, r.0, r.1, r.2)
read_back flip m2m c₀ c₁ c₂ c₃ (suc (suc (suc (suc (suc (suc (suc zero))))))) lo hi small h k =
    let r = halves_read c₃.count lo hi h k in (refl, r.0, r.1, r.2)
read_back flip m2m c₀ c₁ c₂ c₃ (suc (suc (suc (suc (suc (suc (suc (suc port)))))))) lo hi small h
      k =
    absurd (omega arith)
