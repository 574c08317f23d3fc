-- ===== src/Gdb/Main/Ends.antt =====
-- `gdb_main` (gdbstub.h) ends when the connection does: every packet takes characters from what
-- is to come, and no command puts any back.
use libretro_virtualxt.Base.{
  ℕ, zero, suc, ◌<◌, ◌≡◌, refl, ◌≢◌, Option, none, some, List, [], ◌∷◌, length, arith,
}
use native.Mathlib.Nat.{le_trans, lt_of_le_of_lt}
use libretro_virtualxt.Bus.{Bus}
use libretro_virtualxt.Gdb.Link.{GdbState}
use libretro_virtualxt.Gdb.Packet.Fuel.{pending, recv_packet-ne-none, recv_packet_bounds}
use libretro_virtualxt.Gdb.Command.{
  Target, send_letter_packet, send_signal_packet, send_error_packet, overlay,
}
use libretro_virtualxt.Gdb.Main.{
  Next, again, error, return, crash, Outcome, out_of_fuel, main_loop, gdb_main, after, turn,
}
use libretro_virtualxt.Gdb.Main.Fuel.{
  Within, on_again, on_error, to_come, send_letter-to_come, handle-Within,
}

module _ {D : Type 0} (bus : Bus D) (stack : ℕ → ℕ) where
  -- What it takes for the rest of the loop to end.
  abbrev Ends : (List ℕ → Target D → Outcome D) → ℕ → Type 0
  Ends loop m = (buf : List ℕ) (t : Target D) → to_come t < m → loop buf t ≢ out_of_fuel

  after-Ends :
      (loop : List ℕ → Target D → Outcome D) (m n : ℕ) (x : Next D)
      → Ends loop m
      → n < m
      → Within n x
      → after bus stack loop x ≢ out_of_fuel
  unfolding send_error_packet
  after-Ends loop m n (again buf t) h l (on_again k) = h buf t (lt_of_le_of_lt k l)
  after-Ends loop m n (error buf t) h l (on_error k) =
      h (send_letter_packet b'E' buf t 0).0 (send_letter_packet b'E' buf t 0).1
        (lt_of_le_of_lt (le_trans (send_letter-to_come b'E' buf t 0) k) l)
  after-Ends loop m n (return code t) h l k = λ e. absurd (cc)
  after-Ends loop m n crash h l k = λ e. absurd (cc)

  turn-Ends :
      (loop : List ℕ → Target D → Outcome D) (m : ℕ) (buf : List ℕ) (t : Target D)
      (o : Option (Option (List ℕ) × GdbState))
      → Ends loop m
      → o ≢ none
      → ((body : List ℕ) (g : GdbState) → o ≡ some (some body, g) → pending g < m)
      → turn bus stack loop buf t o ≢ out_of_fuel
  turn-Ends loop m buf t none h k b = absurd (k refl)
  turn-Ends loop m buf t (some (none, g)) h k b = λ e. absurd (cc)
  turn-Ends loop m buf t (some (some [], g)) h k b = h buf (record t { gdb = g }) (b [] g refl)
  turn-Ends loop m buf t (some (some (c ∷ cs), g)) h k b =
      after-Ends loop m (pending g) _ h (b (c ∷ cs) g refl)
        (handle-Within bus stack (overlay (c ∷ cs) buf) (length (c ∷ cs)) (record t { gdb = g }))

  main_loop-ends :
      (fuel : ℕ) (buf : List ℕ) (t : Target D)
      → to_come t < fuel
      → main_loop bus stack fuel buf t ≢ out_of_fuel
  unfolding main_loop
  main_loop-ends zero buf t h = absurd (omega arith)
  main_loop-ends (suc fuel) buf t h =
      turn-Ends (main_loop bus stack fuel) fuel buf t _ (main_loop-ends fuel)
        (recv_packet-ne-none (suc (to_come t)) 256 t.gdb (omega arith))
        λ body g e. let b = recv_packet_bounds (suc (to_come t)) 256 t.gdb body g e in omega arith

  -- However the client behaves, `gdb_main` ends: with more fuel than there are bytes still to
  -- come, it does not run out of fuel, so it returns, or it reads past the packet buffer. This
  -- holds for every bus, every content of the stack and of the packet buffer.
  pub gdb_main-ends :
      (fuel : ℕ) (buf : List ℕ) (t : Target D)
      → pending t.gdb < fuel
      → gdb_main bus stack fuel buf t ≢ out_of_fuel
  unfolding gdb_main send_signal_packet
  gdb_main-ends fuel buf t h =
      main_loop-ends fuel (send_letter_packet b'S' buf t t.gdb.signum).0
        (send_letter_packet b'S' buf t t.gdb.signum).1
        (lt_of_le_of_lt (send_letter-to_come b'S' buf t t.gdb.signum) h)
