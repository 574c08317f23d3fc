-- ===== src/Gdb/Packet/Fuel.antt =====
-- The waiting loops of `gdb_recv_packet` (gdbstub.h) end: the connection delivers finitely many
-- bytes, so a little more fuel than these is enough.
use libretro_virtualxt.Base.{
  ℕ, zero, suc, ◌≤◌, ◌<◌, ◌≡◌, refl, ◌≢◌, Option, none, some, Bool, true, false, List, [], ◌∷◌,
  length, arith, Option-cases, inl, inr,
}
use libretro_virtualxt.Gdb.Link.{GdbState, getc, putchar}
use libretro_virtualxt.Gdb.Packet.{
  read, write, read, recv_ack, trailer, send_packet, wait_start, read_body, finish_packet,
  recv_packet,
}

-- What is left to receive.
abbrev pub pending : GdbState → ℕ
pending s = length s.inbox

getc-pending : (s : GdbState) → pending (getc s).1 ≤ pending s
unfolding getc
getc-pending s = ground arith

getc-some : (s : GdbState) (b : ℕ) → (getc s).0 ≡ some b → pending (getc s).1 < pending s
unfolding getc
getc-some s b e = ground arith

putchar-pending : (s : GdbState) (c : ℕ) → pending (putchar s c).1 ≡ pending s
unfolding putchar
putchar-pending s c = ground arith

read-pending : (s : GdbState) (n : ℕ) → pending (read s n).1 ≤ pending s
unfolding read
read-pending s zero = omega arith
read-pending s (suc n) = ground (arith, getc-pending s, read-pending (getc s).1 n)

finish_packet-pending :
    (s : GdbState) (body : List ℕ) → pending (finish_packet s body).1 ≤ pending s
unfolding finish_packet
finish_packet-pending s body =
    ground (
      arith,
      read-pending s 2,
      putchar-pending (read s 2).1 b'-',
      putchar-pending (read s 2).1 b'+',
    )

wait_start-ne-none : (fuel : ℕ) (s : GdbState) → pending s < fuel → wait_start fuel s ≢ none
unfolding wait_start
wait_start-ne-none zero s h = absurd (omega arith)
wait_start-ne-none (suc fuel) s h = elim (Option-cases (getc s).0) [
  | inl e ↦ ground arith
  | inr (b, e) ↦ ground (arith, getc-some s b e, wait_start-ne-none fuel (getc s).1)
]

wait_start-pending :
    (fuel : ℕ) (s : GdbState) (b : Bool) (t : GdbState)
    → wait_start fuel s ≡ some (b, t)
    → (pending t ≤ pending s) × (b ≡ true → pending t < pending s)
unfolding wait_start
wait_start-pending zero s b t h = absurd (cc)
wait_start-pending (suc fuel) s b t h = elim (Option-cases (getc s).0) [
  | inl e ↦ ground (arith, getc-pending s)
  | inr (c, e) ↦ ground (arith, getc-some s c e, wait_start-pending fuel (getc s).1 b t)
]

read_body-ne-none : (fuel left : ℕ) (s : GdbState) → pending s < fuel → read_body fuel left s ≢ none
unfolding read_body
read_body-ne-none zero left s h = absurd (omega arith)
read_body-ne-none (suc fuel) zero s h = ground arith
read_body-ne-none (suc fuel) (suc left) s h = elim (Option-cases (getc s).0) [
  | inl e ↦ ground arith
  | inr (b, e) ↦ ground (arith, getc-some s b e, read_body-ne-none fuel left (getc s).1)
]

read_body-pending :
    (fuel left : ℕ) (s : GdbState) (o : Option (List ℕ)) (t : GdbState)
    → read_body fuel left s ≡ some (o, t)
    → pending t ≤ pending s
unfolding read_body
read_body-pending zero left s o t h = absurd (cc)
read_body-pending (suc fuel) zero s o t h = ground (arith, getc-pending s)
read_body-pending (suc fuel) (suc left) s o t h =
    elim (Option-cases (read_body fuel left (getc s).1)) [
      | inl e ↦ ground (arith, getc-pending s)
      | inr ((o', t'), e) ↦
          ground (arith, getc-pending s, read_body-pending fuel left (getc s).1 o' t' e)
    ]

-- The packet buffer is never overrun: the data that `gdb_recv_packet` stores fits it.
read_body-fits :
    (fuel left : ℕ) (s : GdbState) (body : List ℕ) (t : GdbState)
    → read_body fuel left s ≡ some (some body, t)
    → length body ≤ left
unfolding read_body
read_body-fits zero left s body t h = absurd (cc)
read_body-fits (suc fuel) zero s body t h = ground arith
read_body-fits (suc fuel) (suc left) s body t h =
    elim (Option-cases (read_body fuel left (getc s).1)) [
      | inl e ↦ ground arith
      | inr ((some body', t'), e) ↦ ground (arith, read_body-fits fuel left (getc s).1 body' t' e)
      | inr ((none, t'), e) ↦ ground arith
    ]

finish_packet-data :
    (s : GdbState) (body out : List ℕ) → (finish_packet s body).0 ≡ some out → out ≡ body
unfolding finish_packet
finish_packet-data s body out e = ground arith

-- Receiving a packet ends: with more fuel than there are bytes still to come, `gdb_recv_packet`
-- does not run out of it.
pub recv_packet-ne-none :
    (fuel size : ℕ) (s : GdbState) → pending s < fuel → recv_packet fuel size s ≢ none
unfolding recv_packet
recv_packet-ne-none fuel size s h = elim (Option-cases (wait_start fuel s)) [
  | inl e ↦ absurd (wait_start-ne-none fuel s h e)
  | inr ((b, t), e) ↦ ground (arith, wait_start-pending fuel s b t e, read_body-ne-none fuel size t)
]

-- A packet that `gdb_recv_packet` takes fits the buffer, and bytes have been received for it.
pub recv_packet_bounds :
    (fuel size : ℕ) (s : GdbState) (body : List ℕ) (t : GdbState)
    → recv_packet fuel size s ≡ some (some body, t)
    → (length body ≤ size) × (pending t < pending s)
unfolding recv_packet
recv_packet_bounds fuel size s body t h = elim (Option-cases (wait_start fuel s)) [
  | inl e ↦ ground arith
  | inr ((false, t₁), e) ↦ ground arith
  | inr ((true, t₁), e) ↦ elim (Option-cases (read_body fuel size t₁)) [
    | inl f ↦ ground arith
    | inr ((none, t₂), f) ↦ ground arith
    | inr ((some body₁, t₂), f) ↦ ground (
      arith,
      wait_start-pending fuel s true t₁ e,
      read_body-pending fuel size t₁ (some body₁) t₂ f,
      read_body-fits fuel size t₁ body₁ t₂ f,
      finish_packet-data t₂ body₁ body,
      finish_packet-pending t₂ body₁,
    )
  ]
]

write-pending : (s : GdbState) (buf : List ℕ) → pending (write s buf).1 ≡ pending s
unfolding write
write-pending s [] = refl
write-pending s (b ∷ buf) = ground (arith, putchar-pending s b, write-pending (putchar s b).1 buf)

recv_ack-pending : (s : GdbState) → pending (recv_ack s).1 ≤ pending s
unfolding recv_ack
recv_ack-pending s = ground (arith, getc-pending s)

-- Sending takes nothing from what is to come but the acknowledgment.
pub send_packet-pending :
    (s : GdbState) (body : List ℕ) → pending (send_packet s body).1 ≤ pending s
unfolding send_packet
send_packet-pending s body = elim (Option-cases (trailer body)) [
  | inl e ↦ ground (arith, putchar-pending s b'$', write-pending (putchar s b'$').1 body)
  | inr (end, e) ↦ ground (
    arith,
    putchar-pending s b'$',
    write-pending (putchar s b'$').1 body,
    write-pending (write (putchar s b'$').1 body).1 end,
    recv_ack-pending (write (write (putchar s b'$').1 body).1 end).1,
  )
]
