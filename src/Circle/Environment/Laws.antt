-- ===== src/Circle/Environment/Laws.antt =====
-- The lines of the log of tools/circle/kernel/kernel.cpp.
use libretro_virtualxt.Base.{
  ℕ, ◌==◌, ◌≡◌, ◌≢◌, ◌⊎◌, ◌≤◌, ◌↔◌, inl, inr, refl, ap, ◌∙◌, arith, none, some, List, [], ◌∷◌, ◌++◌,
  Bool-cases, Option-cases, ==_iff,
}
use libretro_virtualxt.Circle.Environment.{prefix, last, new_line, log_printf}

last-append : (xs : List ℕ) (x : ℕ) → last (xs ++ x ∷ []) ≡ some x
last-append [] x = refl
last-append (y ∷ []) x = refl
last-append (y ∷ z ∷ xs) x = last-append (z ∷ xs) x

last-none : (xs : List ℕ) → (last xs ≡ none) ↔ (xs ≡ [])
last-none [] = (λ h. refl, λ h. refl)
last-none (x ∷ []) = (λ h. cc, λ h. cc)
last-none (x ∷ y ∷ xs) = (λ h. absurd (not_nil y xs ((last-none (y ∷ xs)).0 h)), λ h. cc)
  where
    not_nil : (y : ℕ) (xs : List ℕ) → y ∷ xs ≢ []
    not_nil y xs h = cc

last-append_some : (xs ys : List ℕ) (c : ℕ) → last ys ≡ some c → last (xs ++ ys) ≡ some c
last-append_some [] ys c h = h
last-append_some (x ∷ []) [] c h = cc
last-append_some (x ∷ []) (y ∷ ys) c h = h
last-append_some (x ∷ z ∷ xs) ys c h = last-append_some (z ∷ xs) ys c h

prefix_nil : (level : ℕ) (msg : List ℕ) → prefix level ++ msg ≡ [] → (4 ≤ level) × (msg ≡ [])
unfolding prefix
prefix_nil level msg h = ground arith

log_printf-ends :
    (level : ℕ) (msg file : List ℕ) (c : ℕ)
    → last (prefix level ++ msg) ≡ some c
    → (r : List ℕ) × (log_printf level msg file ≡ some (file ++ r)) × (last r ≡ some new_line)
unfolding log_printf
log_printf-ends level msg file c h = elim (Bool-cases (c == new_line)) [
  | inl new ↦
      (prefix level ++ msg, rw (log_printf, h, new) refl, h ∙ ap some ((==_iff c new_line).0 new))
  | inr other ↦ (
    prefix level ++ msg ++ (new_line ∷ []),
    rw (log_printf, h, other) refl,
    last-append (prefix level ++ msg) new_line,
  )
]

log_printf-line :
    (level : ℕ) (msg file : List ℕ)
    → ((4 ≤ level) × (msg ≡ []) × (log_printf level msg file ≡ none))
      ⊎ ((r : List ℕ) × (log_printf level msg file ≡ some (file ++ r)) × (last r ≡ some new_line))
unfolding log_printf
log_printf-line level msg file = elim (Option-cases (last (prefix level ++ msg))) [
  | inl empty ↦
      let (bad, nil) = prefix_nil level msg ((last-none (prefix level ++ msg)).0 empty) in
      inl (bad, nil, rw (log_printf, empty) refl)
  | inr (c, e) ↦ inr (log_printf-ends level msg file c e)
]
