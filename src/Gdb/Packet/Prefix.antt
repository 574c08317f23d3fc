-- ===== src/Gdb/Packet/Prefix.antt =====
-- The comparison of a packet with the name of a command (`gdb_pkt_prefix` of gdbstub.h).
use libretro_virtualxt.Base.{
  ℕ, zero, suc, ◌≤◌, ◌<◌, ◌≡◌, refl, ◌≢◌, ◌↔◌, true, List, [], ◌∷◌, ◌++◌, length, take, drop,
  take-append-drop, All, arith, ap, ◌∙◌, get_or, Bool-cases, inl, inr, ==_iff, ◌==◌,
}
use mathlib.Core.Path.{ap₂, sym, subst}
use libretro_virtualxt.Gdb.Digits.{strlen}
use libretro_virtualxt.Gdb.Packet.{prefix_loop, pkt_prefix}

strlen-length : (str : List ℕ) → All (λ c. c ≢ 0) str → strlen str ≡ length str
unfolding strlen
strlen-length [] h = refl
strlen-length (c ∷ str) h = ground (arith, strlen-length str h.1)

-- The loop compares each of the first characters.
loop_same :
    (n i : ℕ) (pkt str : List ℕ)
    → prefix_loop pkt str n ≡ true
    → i < n
    → get_or pkt i 0 ≡ get_or str i 0
unfolding prefix_loop
loop_same zero i pkt str h k = absurd (omega arith)
loop_same (suc n) i pkt str h k = elim (Bool-cases (i == n)) [
  | inl e ↦ rw ((==_iff i n).0 e) (ground arith)
  | inr e ↦ ground (arith, loop_same n i pkt str)
]

get_or-append :
    (str rest : List ℕ) (i : ℕ) → i < length str → get_or (str ++ rest) i 0 ≡ get_or str i 0
get_or-append [] rest i h = absurd (omega arith)
get_or-append (c ∷ str) rest zero h = refl
get_or-append (c ∷ str) rest (suc i) h = get_or-append str rest i (omega arith)

loop_append : (n : ℕ) (str rest : List ℕ) → n ≤ length str → prefix_loop (str ++ rest) str n ≡ true
unfolding prefix_loop
loop_append zero str rest h = refl
loop_append (suc n) str rest h = ground (arith, get_or-append str rest n, loop_append n str rest)

take_same :
    (str pkt : List ℕ)
    → length str ≤ length pkt
    → ((i : ℕ) → i < length str → get_or pkt i 0 ≡ get_or str i 0)
    → take (length str) pkt ≡ str
take_same [] pkt h f = refl
take_same (c ∷ str) [] h f = absurd (omega arith)
take_same (c ∷ str) (p ∷ pkt) h f =
    ap₂ ◌∷◌ (f 0 (omega arith)) (take_same str pkt (omega arith) (λ i k. f (suc i) (omega arith)))

-- `gdb_pkt_prefix` tells exactly whether the packet begins with the name, for a name with no NUL.
pkt_prefix_iff :
    (pkt str : List ℕ)
    → All (λ c. c ≢ 0) str
    → (pkt_prefix pkt (length pkt) str ≡ true)
      ↔ ((length str ≤ length pkt) × (take (length str) pkt ≡ str))
unfolding pkt_prefix
pkt_prefix_iff pkt str z = (λ h. begins h, λ h. matches h)
  where
    begins :
        pkt_prefix pkt (length pkt) str ≡ true
        → (length str ≤ length pkt) × (take (length str) pkt ≡ str)
    begins h =
        let fits : length str ≤ length pkt = ground (arith, strlen-length str z) in
        let loop : prefix_loop pkt str (length str) ≡ true = ground (arith, strlen-length str z) in
        (fits, take_same str pkt fits (λ i k. loop_same (length str) i pkt str loop k))

    matches :
        (length str ≤ length pkt) × (take (length str) pkt ≡ str)
        → pkt_prefix pkt (length pkt) str ≡ true
    matches h =
        let split : str ++ drop (length str) pkt ≡ pkt =
          ap (λ t. t ++ drop (length str) pkt) (sym h.1) ∙ take-append-drop (length str) pkt in
        let loop : prefix_loop pkt str (length str) ≡ true =
          subst (λ t. prefix_loop t str (length str) ≡ true) split
            (loop_append (length str) str (drop (length str) pkt) (omega arith)) in
        ground (arith, strlen-length str z)
