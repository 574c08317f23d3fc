-- ===== src/Gdb/Main/Fuel.antt =====
-- The commands of `gdb_main` (gdbstub.h) put back no character: none leaves more of them to come.
use libretro_virtualxt.Base.{
  ℕ, zero, suc, ◌≤◌, ◌≡◌, refl, Option, none, some, Bool, true, false, List, [], ◌∷◌, arith, ◌==◌,
  get_or, Bool-cases, Option-cases, inl, inr, u8, ltb, if◌then◌else◌, ap,
}
use native.Mathlib.Nat.{le_refl, le_of_eq}
use libretro_virtualxt.Bus.{Bus}
use libretro_virtualxt.Gdb.Digits
use libretro_virtualxt.Gdb.Digits.{Access}
use libretro_virtualxt.Gdb.Codec.{Decoded, dec_hex, dec_bin, enc_hex}
use libretro_virtualxt.Gdb.Packet.{pkt_prefix}
use libretro_virtualxt.Gdb.Packet.Fuel.{pending, send_packet-pending}
use libretro_virtualxt.Gdb.Command.{
  Parse, ok, bad, fault, Target, send, send_ok_packet, send_letter_packet, send_signal_packet,
  read_loop, mem_read, write_loop, mem_write, store_decoded, remaining,
}
use libretro_virtualxt.Gdb.Main.{
  supported_answer, kill, supported, start_no_ack_mode, Next, again, error, return, crash,
  patch_register, answer, parsed, decoded, read_registers, write_registers, read_register,
  write_register, breakpoint, continue_with_signal, named_command, read_memory, write_memory,
  handle,
}

-- If the loop goes on after a command, at most `n` characters are still to come.
pub data Within {D : Type 0} (n : ℕ) : Next D → Type 0 where
  on_again : {buf : List ℕ} {t : Target D} → pending t.gdb ≤ n → Within n (again buf t)
  on_error : {buf : List ℕ} {t : Target D} → pending t.gdb ≤ n → Within n (error buf t)
  on_return : {code : ℕ} {t : Target D} → Within n (return code t)
  on_crash : Within n crash

module _ {D : Type 0} where
  abbrev pub to_come : Target D → ℕ
  to_come t = pending t.gdb

  send_ok-to_come : (t : Target D) → to_come (send_ok_packet t) ≤ to_come t
  unfolding send_ok_packet
  send_ok-to_come t = send_packet-pending t.gdb _

  pub send_letter-to_come :
      (c : ℕ) (buf : List ℕ) (t : Target D) (v : ℕ)
      → to_come (send_letter_packet c buf t v).1 ≤ to_come t
  unfolding send_letter_packet
  send_letter-to_come c buf t v = elim (Option-cases (enc_hex 255 (u8 v ∷ []))) [
    | inl e ↦ ground arith
    | inr (cs, e) ↦ ground (arith, send_packet-pending t.gdb (c ∷ cs))
  ]

  answer-Within :
      (o : Option (List ℕ)) (buf : List ℕ) (t : Target D) {n : ℕ}
      → to_come t ≤ n
      → Within n (answer o buf t)
  unfolding answer
  answer-Within none buf t h = on_error h
  answer-Within (some out) buf t h = on_again (omega (arith, send_packet-pending t.gdb out))

  parsed-Within :
      {A : Type 0} (p : Parse A) (buf : List ℕ) (t : Target D) (f : A → Next D) {n : ℕ}
      → to_come t ≤ n
      → ((a : A) → Within n (f a))
      → Within n (parsed p buf t f)
  unfolding parsed
  parsed-Within (ok a) buf t f k h = h a
  parsed-Within bad buf t f k h = on_error k
  parsed-Within fault buf t f k h = on_crash

  if-Within :
      (b : Bool) (x y : Next D) {n : ℕ} → Within n x → Within n y → Within n (if b then x else y)
  if-Within true x y h k = h
  if-Within false x y h k = k

  ok-Within :
      (buf : List ℕ) (t : Target D) {n : ℕ}
      → to_come t ≤ n
      → Within n (again buf (send_ok_packet t))
  ok-Within buf t h = on_again (omega (arith, send_ok-to_come t))

  decoded-Within :
      (r : Access Decoded) (buf : List ℕ) (store : List ℕ → Target D) {n : ℕ}
      → ((bs : List ℕ) → to_come (store bs) ≤ n)
      → Within n (decoded r buf store)
  unfolding decoded
  decoded-Within Digits.fault buf store h = on_crash
  decoded-Within (Digits.ok r) buf store h =
      if-Within r.done _ _ (ok-Within buf (store r.bytes) (h r.bytes)) (on_error (h r.bytes))

  read_registers-Within : (buf : List ℕ) (t : Target D) → Within (to_come t) (read_registers buf t)
  unfolding read_registers
  read_registers-Within buf t = answer-Within _ buf t (omega arith)

  write_registers-Within :
      (buf : List ℕ) (n : ℕ) (t : Target D) → Within (to_come t) (write_registers buf n t)
  unfolding write_registers
  write_registers-Within buf n t = decoded-Within _ buf _ (λ bs. omega arith)

  read_register-Within :
      (buf : List ℕ) (n : ℕ) (t : Target D) → Within (to_come t) (read_register buf n t)
  unfolding read_register
  read_register-Within buf n t =
      parsed-Within _ buf t _ (le_refl _)
        λ (addr, c). if-Within _ _ _ (answer-Within _ buf t (le_refl _)) (on_error (le_refl _))

  write_register-Within :
      (buf : List ℕ) (n : ℕ) (t : Target D) → Within (to_come t) (write_register buf n t)
  unfolding write_register
  write_register-Within buf n t = parsed-Within _ buf t _ (le_refl _) λ (addr, c).
      parsed-Within _ buf t _ (le_refl _) λ c₂.
        if-Within _ _ _ (decoded-Within _ buf (patch_register t addr) (λ bs. le_refl _))
          (ok-Within buf t (le_refl _))

  breakpoint-Within :
      (buf : List ℕ) (n : ℕ) (t : Target D) → Within (to_come t) (breakpoint buf n t)
  unfolding breakpoint
  breakpoint-Within buf n t =
      parsed-Within _ buf t _ (le_refl _) λ args. ok-Within buf t (le_refl _)

  continue_with_signal-Within :
      (buf : List ℕ) (n : ℕ) (t : Target D) → Within (to_come t) (continue_with_signal buf n t)
  unfolding continue_with_signal
  continue_with_signal-Within buf n t = parsed-Within _ buf t _ (le_refl _) λ args. on_return

  named_command-Within :
      (buf : List ℕ) (n : ℕ) (t : Target D) → Within (to_come t) (named_command buf n t)
  unfolding named_command
  named_command-Within buf n t = if-Within (pkt_prefix buf n kill) _ _ on_return (
      if-Within (pkt_prefix buf n supported) _ _
        (on_again {t = send t supported_answer} (send_packet-pending t.gdb _))
        (if-Within (pkt_prefix buf n start_no_ack_mode) _ _
          (ok-Within buf (record t { gdb = record t.gdb { noack = true } }) (le_refl _))
          (on_again {t = send t []} (send_packet-pending t.gdb _))))

  signal-Within :
      (buf : List ℕ) (t : Target D)
      → Within (to_come t) (let (buf', t') = send_signal_packet buf t t.gdb.signum in again buf' t')
  unfolding send_signal_packet
  signal-Within buf t = on_again (send_letter-to_come b'S' buf t _)

-- A write to memory leaves the server's own state alone.
abbrev Keeps : {D : Type 0} → Target D → Parse (Bool × Target D) → Type 0
Keeps t (ok (w, t')) = t'.gdb ≡ t.gdb
Keeps t bad = Unit
Keeps t fault = Unit

if-Keeps :
    {D : Type 0} (b : Bool) (t : Target D) (x y : Parse (Bool × Target D))
    → Keeps t x
    → Keeps t y
    → Keeps t (if b then x else y)
if-Keeps true t x y h k = h
if-Keeps false t x y h k = k

module _ {D : Type 0} (bus : Bus D) (stack : ℕ → ℕ) where
  read_loop-gdb : (t : Target D) (a n : ℕ) → (read_loop bus t a n).1.gdb ≡ t.gdb
  unfolding read_loop
  read_loop-gdb t a zero = refl
  read_loop-gdb t a (suc n) = read_loop-gdb (record t { mem = (bus.read t.mem a).1 }) _ n

  mem_read-gdb : (t : Target D) (l a n : ℕ) → (mem_read bus t l a n).1.gdb ≡ t.gdb
  unfolding mem_read
  mem_read-gdb t l a n = elim (Bool-cases (ltb 64 n)) [
    | inl e ↦ rw e
    | inr e ↦ rw e (read_loop-gdb t a n)
  ]

  write_loop-gdb : (t : Target D) (a : ℕ) (bs : List ℕ) → (write_loop bus t a bs).1.gdb ≡ t.gdb
  unfolding write_loop
  write_loop-gdb t a [] = refl
  write_loop-gdb t a (b ∷ bs) = write_loop-gdb (record t { mem = bus.write t.mem a b }) _ bs

  store_decoded-Keeps :
      (t : Target D) (a n : ℕ) (r : Access Decoded) → Keeps t (store_decoded bus stack t a n r)
  store_decoded-Keeps t a n Digits.fault = tt
  store_decoded-Keeps t a n (Digits.ok r) = elim (Bool-cases r.done) [
    | inl e ↦ rw e (write_loop-gdb t a _)
    | inr e ↦ rw e refl
  ]

  mem_write-Keeps :
      (dec : List ℕ → ℕ → ℕ → Access Decoded) (t : Target D) (buf : List ℕ) (l a n : ℕ)
      → Keeps t (mem_write bus stack dec t buf l a n)
  unfolding mem_write
  mem_write-Keeps dec t buf l a n =
      if-Keeps (ltb 64 n) t _ _ refl (store_decoded-Keeps t a n (dec buf l n))

  read_memory-Within :
      (buf : List ℕ) (n : ℕ) (t : Target D) → Within (to_come t) (read_memory bus stack buf n t)
  unfolding read_memory
  read_memory-Within buf n t = parsed-Within _ buf t _ (le_refl _) λ (addr, len, c).
      answer-Within _ buf (mem_read bus t 256 addr len).1
        (le_of_eq (ap pending (mem_read-gdb t 256 addr len)))

  -- The rest of a write to memory, for a state that has kept the server's own.
  stored-Within :
      (p : Parse (Bool × Target D)) (buf : List ℕ) (t : Target D)
      → Keeps t p
      → Within
          (to_come t)
          (parsed p buf t λ (w, t'). if w then again buf (send_ok_packet t') else error buf t')
  unfolding parsed
  stored-Within (ok (w, t')) buf t k =
      if-Within w _ _ (ok-Within buf t' (le_of_eq (ap pending k)))
        (on_error (le_of_eq (ap pending k)))
  stored-Within bad buf t k = on_error (le_refl _)
  stored-Within fault buf t k = on_crash

  write_memory-Within :
      (dec : List ℕ → ℕ → ℕ → Access Decoded) (buf : List ℕ) (n : ℕ) (t : Target D)
      → Within (to_come t) (write_memory bus stack dec buf n t)
  unfolding write_memory
  write_memory-Within dec buf n t = parsed-Within _ buf t _ (le_refl _) λ (addr, len, c).
      parsed-Within _ buf t _ (le_refl _)
        λ c₂. stored-Within _ buf t (mem_write-Keeps dec t c₂.rest (remaining n c₂) addr len)

  pub handle-Within :
      (buf : List ℕ) (n : ℕ) (t : Target D) → Within (to_come t) (handle bus stack buf n t)
  unfolding handle
  handle-Within buf n t =
      let c = get_or buf 0 0 in
      if-Within (c == b'g') _ _ (read_registers-Within buf t) (
        if-Within (c == b'G') _ _ (write_registers-Within buf n t) (
          if-Within (c == b'p') _ _ (read_register-Within buf n t) (
            if-Within (c == b'P') _ _ (write_register-Within buf n t) (
              if-Within (c == b'm') _ _ (read_memory-Within buf n t) (
                if-Within (c == b'M') _ _ (write_memory-Within dec_hex buf n t) (
                  if-Within (c == b'X') _ _ (write_memory-Within dec_bin buf n t) (
                    if-Within (c == b'Z') _ _ (breakpoint-Within buf n t) (
                      if-Within (c == b'z') _ _ (breakpoint-Within buf n t) (
                        if-Within (c == b'D') _ _ on_return (
                          if-Within (c == b'c') _ _ on_return (
                            if-Within (c == b'C') _ _ (continue_with_signal-Within buf n t) (
                              if-Within (c == b's') _ _ on_return (
                                if-Within (c == b'?') _ _ (signal-Within buf t)
                                  (named_command-Within buf n t))))))))))))))
