-- ===== src/Chipset/Pic/Init.antt =====
-- The initialisation of the interrupt controller, src/modules/chipset/pic.odin.
use libretro_virtualxt.Base.{
  ℕ, ◌≡◌, refl, inl, inr, true, false, List, [], ◌∷◌, ◌++◌, get_or, Bool-cases, if◌then◌else◌,
  truthy, bit_and,
}
use libretro_virtualxt.Chipset.Pic.{Pic, io_out, command, data_word, put_icw}

-- Writes to port 0x21, in order.
abbrev pub write_all : Pic → List ℕ → Pic
write_all p [] = p
write_all p (w ∷ ws) = write_all (io_out p 0x21 w) ws

first_word :
    (p : Pic) (w : ℕ)
    → truthy (bit_and w 0x10) ≡ true
    → command p w ≡ put_icw w (record p { icw_step = 1; mask_reg = 0 })
unfolding command
first_word p w h = rw h refl

-- The third and the fourth word.
third_word :
    (p : Pic) (w : ℕ)
    → p.icw_step ≡ 3
    → truthy (bit_and (get_or p.icw 1 0) 2) ≡ false
    → data_word p w ≡ put_icw w p
unfolding data_word
third_word p w e k = rw (k, e) refl

skipped_word :
    (p : Pic) (w : ℕ)
    → p.icw_step ≡ 3
    → truthy (bit_and (get_or p.icw 1 0) 2) ≡ true
    → data_word p w ≡ put_icw w (record p { icw_step = 4 })
unfolding data_word
skipped_word p w e k = rw (k, e) refl

mask_word : (p : Pic) (w : ℕ) → p.icw_step ≡ 5 → data_word p w ≡ record p { mask_reg = w }
unfolding data_word
mask_word p w e = rw e refl

-- A first word with bit 4 starts the initialisation. Port 0x21 then takes the second word, the
-- third one unless bit 1 of the first says that there is a single controller, and the fourth;
-- what it takes after that is the mask. Requests and services are not changed.
initialise :
    (mask request service step mode old a b c d w₁ w₂ w₃ w₄ m : ℕ)
    → truthy (bit_and w₁ 0x10) ≡ true
    → write_all
        (io_out
          (record {
            mask_reg = mask;
            request_reg = request;
            service_reg = service;
            icw_step = step;
            read_mode = mode;
            icw = old ∷ a ∷ b ∷ c ∷ d ∷ [];
          })
          0x20
          w₁)
        (w₂ ∷ ((if truthy (bit_and w₁ 2) then [] else w₃ ∷ []) ++ w₄ ∷ m ∷ []))
      ≡ record {
        mask_reg = m;
        request_reg = request;
        service_reg = service;
        icw_step = 5;
        read_mode = mode;
        icw = old ∷ w₁ ∷ w₂ ∷ (if truthy (bit_and w₁ 2) then c else w₃) ∷ w₄ ∷ [];
      }
unfolding io_out
initialise mask request service step mode old a b c d w₁ w₂ w₃ w₄ m h =
    let p = put_icw w₂ (
      put_icw w₁ (record {
        mask_reg = 0;
        request_reg = request;
        service_reg = service;
        icw_step = 1;
        read_mode = mode;
        icw = old ∷ a ∷ b ∷ c ∷ d ∷ [];
      })) in
    elim (Bool-cases (truthy (bit_and w₁ 2))) [
      | inl k ↦
          rw (first_word _ w₁ h, k, skipped_word p w₄ refl k)
            (mask_word (put_icw w₄ (record p { icw_step = 4 })) m refl)
      | inr k ↦ rw (first_word _ w₁ h, k, third_word p w₃ refl k) refl
    ]
