-- ===== src/Ems/Tests.antt =====
-- The EMS board at concrete inputs.
use libretro_virtualxt.Base.{◌≡◌, [], ◌∷◌, arith, ◌+◌, ◌*◌, ◌^◌}
use libretro_virtualxt.Ems.{Ems, read, write}
use libretro_virtualxt.Ems.Pages.{read-write}

abbrev board : Ems
board = record {
  mem = λ a. a;
  mem_base = 0xd0000;
  io_base = 0x260;
  page_selectors = 5 ∷ 6 ∷ 5 ∷ 200 ∷ [];
}

-- The windows 0 and 2 show the same page.
read-write_example :
    (read (write board (0xd0000 + 0 * 2 ^ 14 + 3) 9) (0xd0000 + 2 * 2 ^ 14 + 3) ≡ 9)
    × ((write board (0xd0000 + 0 * 2 ^ 14 + 3) 9).mem 7 ≡ 7)
read-write_example =
    read-write board 0 3 2 3 9 7 (omega arith) (omega arith) (omega arith) (omega arith)
      (omega arith) (omega arith) (omega arith)
