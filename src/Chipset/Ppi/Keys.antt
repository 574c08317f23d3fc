-- ===== src/Chipset/Ppi/Keys.antt =====
-- The keys of the keyboard (ppi_keyboard_callback of src/modules/chipset/ppi.odin): the number of a
-- key in libretro's enumeration, with its scan code.
use libretro_virtualxt.Base.{ℕ, List, [], ◌∷◌}

abbrev pub scan_codes : List (ℕ × ℕ)
scan_codes =
    (27, 0x01)
    ∷ (49, 0x02)
    ∷ (50, 0x03)
    ∷ (51, 0x04)
    ∷ (52, 0x05)
    ∷ (53, 0x06)
    ∷ (54, 0x07)
    ∷ (55, 0x08)
    ∷ (56, 0x09)
    ∷ (57, 0x0A)
    ∷ (48, 0x0B)
    ∷ (45, 0x0C)
    ∷ (61, 0x0D)
    ∷ (8, 0x0E)
    ∷ (9, 0x0F)
    ∷ (113, 0x10)
    ∷ (119, 0x11)
    ∷ (101, 0x12)
    ∷ (114, 0x13)
    ∷ (116, 0x14)
    ∷ (121, 0x15)
    ∷ (117, 0x16)
    ∷ (105, 0x17)
    ∷ (111, 0x18)
    ∷ (112, 0x19)
    ∷ (91, 0x1A)
    ∷ (93, 0x1B)
    ∷ (13, 0x1C)
    ∷ (306, 0x1D)
    ∷ (305, 0x1D)
    ∷ (97, 0x1E)
    ∷ (115, 0x1F)
    ∷ (100, 0x20)
    ∷ (102, 0x21)
    ∷ (103, 0x22)
    ∷ (104, 0x23)
    ∷ (106, 0x24)
    ∷ (107, 0x25)
    ∷ (108, 0x26)
    ∷ (59, 0x27)
    ∷ (39, 0x28)
    ∷ (96, 0x29)
    ∷ (304, 0x2A)
    ∷ (92, 0x2B)
    ∷ (122, 0x2C)
    ∷ (120, 0x2D)
    ∷ (99, 0x2E)
    ∷ (118, 0x2F)
    ∷ (98, 0x30)
    ∷ (110, 0x31)
    ∷ (109, 0x32)
    ∷ (44, 0x33)
    ∷ (46, 0x34)
    ∷ (47, 0x35)
    ∷ (303, 0x36)
    ∷ (316, 0x37)
    ∷ (308, 0x38)
    ∷ (307, 0x38)
    ∷ (32, 0x39)
    ∷ (301, 0x3A)
    ∷ (282, 0x3B)
    ∷ (283, 0x3C)
    ∷ (284, 0x3D)
    ∷ (285, 0x3E)
    ∷ (286, 0x3F)
    ∷ (287, 0x40)
    ∷ (288, 0x41)
    ∷ (289, 0x42)
    ∷ (290, 0x43)
    ∷ (291, 0x44)
    ∷ (300, 0x45)
    ∷ (302, 0x46)
    ∷ (263, 0x47)
    ∷ (278, 0x47)
    ∷ (264, 0x48)
    ∷ (273, 0x48)
    ∷ (265, 0x49)
    ∷ (280, 0x49)
    ∷ (269, 0x4A)
    ∷ (260, 0x4B)
    ∷ (276, 0x4B)
    ∷ (261, 0x4C)
    ∷ (262, 0x4D)
    ∷ (275, 0x4D)
    ∷ (270, 0x4E)
    ∷ (257, 0x4F)
    ∷ (279, 0x4F)
    ∷ (258, 0x50)
    ∷ (274, 0x50)
    ∷ (259, 0x51)
    ∷ (281, 0x51)
    ∷ (256, 0x52)
    ∷ (277, 0x52)
    ∷ (266, 0x53)
    ∷ (127, 0x53)
    ∷ []
