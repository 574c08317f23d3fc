-- ===== src/Machine/MainMemory/Laws.antt =====
-- The main memory (src/machine/machine.odin) behind the bus is memory.
use libretro_virtualxt.Base.{ℕ, ◌/◌, ◌^◌, ◌<◌, ◌≡◌, refl, sym, ==_self, ==_ne, lt→ltb}
use libretro_virtualxt.Bus.{IsMemory}
use libretro_virtualxt.Machine.{Manager, store, bus_of, peripheral, read_memory, write_memory}
use libretro_virtualxt.Machine.Routes.{read_memory_at, write_memory_at}
use libretro_virtualxt.Machine.MainMemory.{Devices, default_peripheral, main_memory_size}

-- The addresses below 1 MB that no other peripheral has registered.
abbrev pub IsPlain : {R : Type 0} → Manager (Devices R) → ℕ → Type 0
IsPlain m a = (a < 2 ^ 20) × (m.memory_map (a / 16) ≡ 0)

module _ {R : Type 0} (m : Manager (Devices R)) (d : peripheral m 0 ≡ default_peripheral) where
  plain_read : (s : Devices R) (a : ℕ) → IsPlain m a → read_memory m s a ≡ (s.memory a, s)
  plain_read s a (small, free) =
      rw (read_memory_at m s a small, free, d, lt→ltb a main_memory_size small) refl

  plain_write :
      (s : Devices R) (a v : ℕ)
      → IsPlain m a
      → write_memory m s a v ≡ record s { memory = store s.memory a v }
  plain_write s a v (small, free) =
      rw (write_memory_at m s a v small, free, d, lt→ltb a main_memory_size small) refl

  -- Where the machine has its main memory, the bus is a memory.
  pub main_memory-IsMemory : IsMemory (bus_of m) (IsPlain m)
  main_memory-IsMemory = record {
    peek = λ s a. s.memory a;
    read_peek = plain_read;
    write_self = λ s a v i b. rw (plain_write s a v i, ==_self a) refl;
    write_other = λ s a b v i j ne. rw (plain_write s a v i, ==_ne b a (λ e. ne (sym e))) refl;
  }

  pub main_memory-peek : (s : Devices R) (a : ℕ) → main_memory-IsMemory.peek s a ≡ s.memory a
  unfolding main_memory-IsMemory
  main_memory-peek s a = refl
