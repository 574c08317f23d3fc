-- ===== src/Chipset/Pic/Eoi.antt =====
-- The end of an interrupt in src/modules/chipset/pic.odin, bit by bit.
use libretro_virtualxt.Base.{
  ℕ, zero, suc, ◌+◌, ◌^◌, ◌<◌, ◌≡◌, refl, inl, inr, ◌==◌, ==_iff, Bool-cases, if◌then◌else◌, truthy,
  ◌>>>◌, bit_and, bit_xor, arith,
}
use libretro_virtualxt.Base.Bits.{bit_at, bit_and_bit}
use libretro_virtualxt.Chipset.Pic.{Pic, io_out, command, end_interrupt}
use libretro_virtualxt.Chipset.Pic.Next.{mask_bit, flip_bit}

-- What an end of interrupt may lead to.
pub data Ends (p : Pic) : Pic → Type 0 where
  idle : ((k : ℕ) → k < 8 → bit_at p.service_reg k ≡ 0) → Ends p p
  lowest :
      (i r : ℕ)
      → i < 8
      → bit_at p.service_reg i ≡ 1
      → ((k : ℕ) → k < i → bit_at p.service_reg k ≡ 0)
      → ((k : ℕ) → k < 8 → bit_at r k ≡ (if k == i then 0 else bit_at p.service_reg k))
      → Ends p (record p { service_reg = r })

test_shifted : (a i : ℕ) → truthy (bit_and (a >>> i) 1) ≡ (bit_at a i == 1)
test_shifted a i = ground (arith, bit_and_bit 0 (a >>> i))

end_interrupt-Ends :
    (left i : ℕ) (p : Pic)
    → i + left ≡ 8
    → ((k : ℕ) → k < i → bit_at p.service_reg k ≡ 0)
    → Ends p (end_interrupt left i p)
unfolding end_interrupt
end_interrupt-Ends zero i p e before = idle (λ k l. before k (omega arith))
end_interrupt-Ends (suc left) i p e before = elim (Bool-cases (bit_at p.service_reg i == 1)) [
  | inl w ↦
      let set_here : bit_at p.service_reg i ≡ 1 = (==_iff (bit_at p.service_reg i) 1).0 w in
      rw (test_shifted p.service_reg i, w, mask_bit i (omega arith))
        (lowest i (bit_xor p.service_reg (2 ^ i)) (omega arith) set_here before
          (λ k l. flip_bit p.service_reg i k (omega arith) l set_here))
  | inr w ↦
      rw (test_shifted p.service_reg i, w)
        (end_interrupt-Ends left (i + 1) p (omega arith) (λ k l. elim (Bool-cases (k == i)) [
          | inl same ↦ rw ((==_iff k i).0 same) (ground arith)
          | inr other ↦ before k (ground arith)
        ]))
]

-- The command 0x20 to port 0x20 takes exactly the lowest interrupt in service out of service, and
-- changes nothing if none is in service.
pub io_out-eoi : (p : Pic) → Ends p (io_out p 0x20 0x20)
unfolding io_out command
io_out-eoi p = end_interrupt-Ends 8 0 p refl (λ k l. absurd (omega arith))
