-- ===== src/Ems/Pages.antt =====
-- The EMS board (src/modules/ems/ems.odin) as pages and windows.
use libretro_virtualxt.Base.{
  ℕ, ◌+◌, ◌*◌, ◌^◌, ◌-◌, ◌<◌, ◌≡◌, refl, length, ltb, ◌==◌, ==_iff, ◌&&◌, ◌∙◌, Bool, lt→ltb,
  if◌then◌else◌, get_or, set, get_or-set_self, sub16, sub32, ◌>>>◌, bit_and, arith, Bool-cases, inl,
  inr,
}
use libretro_virtualxt.Base.Bits.{bit_and_mask}
use libretro_virtualxt.Ems.{Ems, physical_address, read, write, io_out, memory_size, store}

-- An address of a window: the window, and the offset in it.
pub physical_address_lem :
    (ems : Ems) (window offset : ℕ)
    → window < 4
    → offset < 2 ^ 14
    → ems.mem_base < 2 ^ 32 - 2 ^ 16
    → get_or ems.page_selectors window 0 < 2 ^ 8
    → physical_address ems (ems.mem_base + window * 2 ^ 14 + offset)
      ≡ get_or ems.page_selectors window 0 * 2 ^ 14 + offset
unfolding physical_address
physical_address_lem ems window offset h k base byte =
    let frame : sub32 (ems.mem_base + window * 2 ^ 14 + offset) ems.mem_base
        ≡ window * 2 ^ 14 + offset =
      omega arith in
    let low : bit_and (window * 2 ^ 14 + offset) 0x3fff ≡ offset =
      omega (arith, bit_and_mask 14 (window * 2 ^ 14 + offset)) in
    let top : bit_and ((window * 2 ^ 14 + offset) >>> 14) 3 ≡ window =
      omega (arith, bit_and_mask 2 ((window * 2 ^ 14 + offset) >>> 14)) in
    rw (frame, low, top) (omega arith)

-- What is stored does not move a window.
same_place :
    (ems : Ems) (m : ℕ → ℕ) (b : ℕ)
    → physical_address (record ems { mem = m }) b ≡ physical_address ems b
unfolding physical_address
same_place ems m b = refl

stored :
    (mem : ℕ → ℕ) (i j v : ℕ)
    → i < memory_size
    → (if ltb j memory_size then store mem i v j else 0xff)
      ≡ (if j == i then v else if ltb j memory_size then mem j else 0xff)
stored mem i j v h = elim (Bool-cases (j == i)) [
  | inl same ↦ rw (same, (==_iff j i).0 same, lt→ltb i memory_size h) refl
  | inr other ↦ rw other refl
]

-- Inside the 2 MB: 128 pages.
page_limit :
    (page offset : ℕ) → offset < 2 ^ 14 → ltb (page * 2 ^ 14 + offset) memory_size ≡ ltb page 128
page_limit page offset h = ground arith

-- What a write leaves in the memory and in the windows: it is dropped outside the 2 MB.
write_lem :
    (ems : Ems) (a v i : ℕ)
    → ((write ems a v).mem i ≡ (
        if ltb (physical_address ems a) memory_size && (i == physical_address ems a)
        then v
        else ems.mem i))
      × ((b : ℕ) → physical_address (write ems a v) b ≡ physical_address ems b)
unfolding write
write_lem ems a v i = elim (Bool-cases (ltb (physical_address ems a) memory_size)) [
  | inl inside ↦ rw inside (refl, λ b. same_place ems (store ems.mem (physical_address ems a) v) b)
  | inr outside ↦ rw outside (refl, λ b. refl)
]

-- Places of two pages are the same if the pages and the offsets are.
same_place_iff :
    (p o p' o' : ℕ)
    → o < 2 ^ 14
    → o' < 2 ^ 14
    → (p' * 2 ^ 14 + o' == p * 2 ^ 14 + o) ≡ ((p' == p) && (o' == o))
same_place_iff p o p' o' h k = ground arith

-- A page that shows the byte that was written is one of the 128, as the one it was written to.
shown :
    (page page' v u : ℕ) (same : Bool)
    → (if ltb page' 128 then if ltb page 128 && ((page' == page) && same) then v else u else 0xff)
      ≡ (if ltb page' 128 then if (page' == page) && same then v else u else 0xff)
shown page page' v u same = elim (Bool-cases (page' == page)) [
  | inl e ↦
      rw (e, (==_iff page' page).0 e)
        (elim (Bool-cases (ltb page 128)) [
          | inl inside ↦ rw inside refl
          | inr outside ↦ rw outside refl
        ])
  | inr e ↦ rw e (ground arith)
]

-- For a frame that does not wrap and page numbers of a byte, a byte that is written at an offset
-- of one of the four windows of 16 KB goes to that offset of the page that the window shows, if
-- it is one of the 128 pages of the 2 MB, and nowhere otherwise; a read at an offset of any
-- window then gives that byte if the window shows the same page and the offset is the same, else
-- the byte that the page had there, and 0xff for a page outside the 2 MB.
pub read-write :
    (ems : Ems) (w o w' o' v i : ℕ)
    → w < 4
    → o < 2 ^ 14
    → w' < 4
    → o' < 2 ^ 14
    → ems.mem_base < 2 ^ 32 - 2 ^ 16
    → get_or ems.page_selectors w 0 < 2 ^ 8
    → get_or ems.page_selectors w' 0 < 2 ^ 8
    → (let page = get_or ems.page_selectors w 0 in
        let page' = get_or ems.page_selectors w' 0 in
        let ems' = write ems (ems.mem_base + w * 2 ^ 14 + o) v in
        (read ems' (ems.mem_base + w' * 2 ^ 14 + o') ≡ (
          if ltb page' 128
          then if (page' == page) && (o' == o) then v else ems.mem (page' * 2 ^ 14 + o')
          else 0xff))
        × (ems'.mem i ≡ (if ltb page 128 && (i == page * 2 ^ 14 + o) then v else ems.mem i)))
unfolding read
read-write ems w o w' o' v i h k h' k' base byte byte' =
    let page = get_or ems.page_selectors w 0 in
    let page' = get_or ems.page_selectors w' 0 in
    let a = ems.mem_base + w * 2 ^ 14 + o in
    let b = ems.mem_base + w' * 2 ^ 14 + o' in
    let here = physical_address_lem ems w o h k base byte in
    let there = (write_lem ems a v i).1 b ∙ physical_address_lem ems w' o' h' k' base byte' in
    let put : (j : ℕ)
        → (write ems a v).mem j
          ≡ (if ltb page 128 && (j == page * 2 ^ 14 + o) then v else ems.mem j) =
      λ j. rw (here, page_limit page o k) at ((write_lem ems a v j).0) in
    (
      rw
          (
            read,
            there,
            page_limit page' o' k',
            put (page' * 2 ^ 14 + o'),
            same_place_iff page o page' o' k k',
          )
          (shown page page' v (ems.mem (page' * 2 ^ 14 + o')) (o' == o)),
      put i,
    )

-- After a page number is written to the port of a window, the window shows that page: its bytes
-- are those of the page if it is one of the 128 pages of the 2 MB, and 0xff otherwise. The
-- windows and the ports do not wrap around the address spaces.
select :
    (ems : Ems) (window offset page : ℕ)
    → window < 4
    → offset < 2 ^ 14
    → page < 2 ^ 8
    → length ems.page_selectors ≡ 4
    → ems.mem_base < 2 ^ 32 - 2 ^ 16
    → ems.io_base < 2 ^ 16 - 4
    → read (io_out ems (ems.io_base + window) page) (ems.mem_base + window * 2 ^ 14 + offset)
      ≡ (if ltb page 128 then ems.mem (page * 2 ^ 14 + offset) else 0xff)
unfolding read io_out
select ems window offset page h k small size base port =
    let sel : bit_and (sub16 (ems.io_base + window) ems.io_base) 3 ≡ window =
      omega (arith, bit_and_mask 2 (sub16 (ems.io_base + window) ems.io_base)) in
    let chosen : get_or (set ems.page_selectors window page) window 0 ≡ page =
      get_or-set_self ems.page_selectors window page 0 (omega arith) in
    let selected = record ems { page_selectors = set ems.page_selectors window page } in
    let place : physical_address selected (ems.mem_base + window * 2 ^ 14 + offset)
        ≡ page * 2 ^ 14 + offset =
      rw chosen at (physical_address_lem selected window offset h k base (omega (arith, chosen))) in
    rw (sel, place, page_limit page offset k) refl
