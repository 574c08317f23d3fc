-- ===== src/Bus.antt =====
-- The memory of the machine as its clients see it: the `read` and `write` of
-- `peripheral_interface` (src/machine/peripheral/interface.odin). A client takes a bus, and the
-- laws of the addresses that are plain memory where its theorems need them.
use libretro_virtualxt.Base.{ℕ, ◌≡◌, ◌≢◌, IsByte}

-- The operations on the devices behind the bus, whose state is `D`.
pub record Bus (D : Type 0) : Type 0 where
  pub read : D → ℕ → ℕ × D
  pub write : D → ℕ → ℕ → D

-- At the addresses inside, the bus is memory: a read has no effect and gives the byte that was
-- written last.
pub record IsMemory {D : Type 0} (bus : Bus D) (Inside : ℕ → Type 0) : Type 0 where
  pub peek : D → ℕ → ℕ
  pub read_peek : (d : D) (a : ℕ) → Inside a → bus.read d a ≡ (peek d a, d)
  pub write_self : (d : D) (a v : ℕ) → Inside a → IsByte v → peek (bus.write d a v) a ≡ v
  pub write_other :
      (d : D) (a b v : ℕ) → Inside a → Inside b → a ≢ b → peek (bus.write d a v) b ≡ peek d b
