-- ===== src/Circle/Kernel/Input.antt =====
-- The keys that CKernel::Run (tools/circle/kernel/kernel.cpp) hands over.
use libretro_virtualxt.Base.{
  ℕ, zero, suc, ◌+◌, ◌≤◌, ◌<◌, ◌≡◌, refl, ap, ◌∙◌, arith, Bool, true, false, ◌&&◌, Option, none,
  some, List, ◌==◌, ==_iff, if◌then◌else◌, leb, ltb, length, length-set, get_or, set,
  get_or-set_self, get_or-set_ne, Bool-cases, inl, inr,
}
use libretro_virtualxt.Circle.Kernel.{
  Kernel, copy_keys, num_keys, take_keys, take_mouse, take_input,
}

copied :
    (states current : List Bool) (i j : ℕ)
    → i < length current
    → get_or (set current i (get_or states i false)) j false
      ≡ (if j == i then get_or states j false else get_or current j false)
copied states current i j h = elim (Bool-cases (j == i)) [
  | inl same ↦
      rw (same, (==_iff j i).0 same) (get_or-set_self current i (get_or states i false) false h)
  | inr other ↦
      rw other (get_or-set_ne current i j (get_or states i false) false (λ e. ground (arith, e)))
]

copy_keys-key :
    (left i : ℕ) (states current : List Bool) (j : ℕ)
    → i + left ≤ length current
    → get_or (copy_keys left i states current) j false
      ≡ (if leb i j && ltb j (i + left) then get_or states j false else get_or current j false)
unfolding copy_keys
copy_keys-key zero i states current j h = ground arith
copy_keys-key (suc left) i states current j h =
    copy_keys-key left (i + 1) states (set current i (get_or states i false)) j
      (omega (arith, length-set current i (get_or states i false)))
    ∙ rw (copied states current i j (omega arith)) (ground arith)

-- The mouse leaves the keys alone.
take_mouse-keys :
    (mouse : Option ℕ) (k : Kernel)
    → ((take_mouse mouse k).keyboard_updated ≡ k.keyboard_updated)
      × ((take_mouse mouse k).key_states_current ≡ k.key_states_current)
take_mouse-keys none k = (refl, refl)
take_mouse-keys (some p) k = (refl, refl)

-- After the keys are taken, every key is known as it is.
take_input-keys :
    (k : Kernel) (key : ℕ)
    → k.keyboard_updated ≡ true
    → length k.key_states_current ≡ num_keys
    → key < num_keys
    → ((take_input k).keyboard_updated ≡ false)
      × (get_or (take_input k).key_states_current key false ≡ get_or k.key_states key false)
unfolding take_input take_keys
take_input-keys k key fresh len h =
    let k' = take_keys k.keyboard_updated k in
    let (flag, keys) = take_mouse-keys k'.mouse k' in
    let inside : (leb 0 key && ltb key (0 + num_keys)) ≡ true = ground arith in
    (
      flag ∙ ap (λ u. (take_keys u k).keyboard_updated) fresh,
      ap (λ c. get_or c key false) (keys ∙ ap (λ u. (take_keys u k).key_states_current) fresh)
          ∙ copy_keys-key num_keys 0 k.key_states k.key_states_current key (omega (arith, len))
          ∙ ap
              (λ u.
                if u then get_or k.key_states key false else get_or k.key_states_current key false)
              inside,
    )
