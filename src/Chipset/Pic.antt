-- ===== src/Chipset/Pic.antt =====
-- The interrupt controller, src/modules/chipset/pic.odin. Every `byte` is its number. What
-- `pic_next` chooses is in Pic/Next.antt, what an end of interrupt does in Pic/Eoi.antt.
pub mod Next
pub mod Eoi
pub mod Init
use libretro_virtualxt.Base.{
  ℕ, zero, suc, ◌+◌, ◌*◌, ◌/◌, ◌%◌, ◌^◌, Bool, true, false, ◌&&◌, Option, none, some, List, [], ◌∷◌,
  ltb, ◌==◌, not, if◌then◌else◌, truthy, get_or, set, u8, ◌<<<◌, ◌>>>◌, not8, bit_and, bit_or,
  bit_xor,
}

-- `PIC`.
pub record Pic : Type 0 where
  pub mask_reg : ℕ
  pub request_reg : ℕ
  pub service_reg : ℕ
  pub icw_step : ℕ
  pub read_mode : ℕ
  pub icw : List ℕ

-- `PIC{}`, as it is allocated.
abbrev zeroed : Pic
zeroed = record {
  mask_reg = 0;
  request_reg = 0;
  service_reg = 0;
  icw_step = 0;
  read_mode = 0;
  icw = 0 ∷ 0 ∷ 0 ∷ 0 ∷ 0 ∷ [];
}

-- `pic_io_in`.
unfoldable pub io_in : Pic → ℕ → ℕ
io_in p port =
    if port == 0x20
    then if not (p.read_mode == 0) then p.service_reg else p.request_reg
    else if port == 0x21
    then p.mask_reg
    else 0

-- The loop of an end of interrupt, with `left` bits from `i` on: the lowest bit in service is
-- cleared.
unfoldable pub end_interrupt : ℕ → ℕ → Pic → Pic
end_interrupt zero i p = p
end_interrupt (suc left) i p =
    let rest = end_interrupt left (i + 1) p in
    if truthy (bit_and (p.service_reg >>> i) 1)
    then record p { service_reg = bit_xor p.service_reg (u8 (1 <<< i)) }
    else rest

-- The next initialisation word, stored at the step.
abbrev pub put_icw : ℕ → Pic → Pic
put_icw word p = record p { icw = set p.icw p.icw_step word; icw_step = u8 (p.icw_step + 1) }

-- Port 0x20.
unfoldable pub command : Pic → ℕ → Pic
unfolding end_interrupt
command p word =
    if truthy (bit_and word 0x10)
    then put_icw word (record p { icw_step = 1; mask_reg = 0 })
    else let p' =
        (if (bit_and word 0x98 == 8) && truthy (bit_and word 2)
          then record p { read_mode = bit_and word 2 }
          else p) in
      if truthy (bit_and word 0x20) then end_interrupt 8 0 p' else p'

-- Port 0x21.
unfoldable pub data_word : Pic → ℕ → Pic
data_word p word =
    let p' =
      (if (p.icw_step == 3) && truthy (bit_and (get_or p.icw 1 0) 2)
        then record p { icw_step = 4 }
        else p) in
    if ltb p'.icw_step 5 then put_icw word p' else record p' { mask_reg = word }

-- `pic_io_out`.
unfoldable pub io_out : Pic → ℕ → ℕ → Pic
unfolding command data_word
io_out p port word =
    if port == 0x20 then command p word else if port == 0x21 then data_word p word else p

-- An interrupt that `pic_next` delivers: the request is over, and the interrupt is in service,
-- which is set twice if the controller is not in automatic end of interrupt mode.
abbrev pub deliver : ℕ → Pic → Pic
deliver mask p =
    let p' = record p {
      request_reg = bit_xor p.request_reg mask;
      service_reg = bit_or p.service_reg mask;
    } in
    if not (truthy (bit_and (get_or p'.icw 4 0) 2))
    then record p' { service_reg = bit_or p'.service_reg mask }
    else p'

-- The loop of `pic_next`, with `left` bits from `i` on; -1 is `none`.
unfoldable pub next_loop : ℕ → ℕ → ℕ → Pic → Option ℕ × Pic
next_loop has zero i p = (none, p)
next_loop has (suc left) i p =
    let rest = next_loop has left (i + 1) p in
    let mask = u8 (1 <<< i) in
    if not (truthy (bit_and has mask))
    then rest
    else if truthy (bit_and p.request_reg mask) && not (truthy (bit_and p.service_reg mask))
    then (some (u8 (get_or p.icw 2 0 + i)), deliver mask p)
    else rest

-- `pic_next`.
unfoldable pub next : Pic → Option ℕ × Pic
unfolding next_loop
next p = next_loop (bit_and p.request_reg (not8 p.mask_reg)) 8 0 p

-- `pic_irq`: `byte(1 << n)` is 0 for an `n` past 7.
unfoldable irq : Pic → ℕ → Pic
irq p n = record p { request_reg = bit_or p.request_reg (u8 (1 <<< n)) }
