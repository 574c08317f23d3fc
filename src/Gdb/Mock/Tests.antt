-- ===== src/Gdb/Mock/Tests.antt =====
-- The buffers of the mock system at concrete inputs.
use libretro_virtualxt.Base.{ℕ, ◌≡◌, refl, arith, Option, none, some, List, [], ◌∷◌}
use libretro_virtualxt.Gdb.Mock.{Buffer, make_room, store_char, buf_write, buf_read}
use libretro_virtualxt.Gdb.Mock.Queue.{buffer_queue, contents, IsBuffer}

-- A full buffer of two bytes, one of them read.
abbrev full_buffer : Buffer
full_buffer = record { buf = some (65 ∷ 66 ∷ []); pos_write = 2; pos_read = 1; size = 2 }

abbrev zeros : ℕ → ℕ
zeros n = 0

buffer_queue_example :
    (IsBuffer (buf_write zeros full_buffer 0x143)
      × (contents (buf_write zeros full_buffer 0x143) ≡ 66 ∷ 0x43 ∷ []))
    × (IsBuffer (buf_read full_buffer).1
        × (◌≡◌ {A = Option ℕ × List ℕ}
            ((buf_read full_buffer).0, contents (buf_read full_buffer).1)
            (some 66, [])))
buffer_queue_example =
    buffer_queue zeros full_buffer 0x143 (omega arith, omega arith, refl, omega arith) (omega arith)

-- The first write takes memory, and 0xff is read as the end.
first_bytes : contents (buf_write zeros (record full_buffer { buf = none }) 0xff) ≡ 0xff ∷ []
unfolding buf_write store_char make_room
first_bytes = refl

read_end : (buf_read (record full_buffer { buf = some (65 ∷ 0xff ∷ []) })).0 ≡ none
unfolding buf_read
read_end = refl
