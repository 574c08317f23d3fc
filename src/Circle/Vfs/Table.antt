-- ===== src/Circle/Vfs/Table.antt =====
-- The search of vfs_open (tools/circle/kernel/kernel.cpp) for a free handle, and what it leaves in
-- the table.
use libretro_virtualxt.Base.{
  ℕ, zero, suc, ◌+◌, ◌≤◌, ◌<◌, Bool, true, false, List, [], ◌∷◌, ◌≡◌, ◌≢◌, ◌⊎◌, inl, inr, refl, ap,
  sym, ◌∙◌, arith, Bool-cases, ◌==◌, ==_iff, get_or, set,
}
use mathlib.Core.Path.{subst}
use native.Mathlib.Decide.{ℕ_discrete}
use libretro_virtualxt.Circle.Vfs.{
  FatFs, KeepsObjects, Files, handle, num_handles, open_mode, answered, open_at, open_loop,
  vfs_open, vfs_close,
}

module _ {A : Type 0} where
  set-set : (xs : List A) (i : ℕ) (v w : A) → set (set xs i v) i w ≡ set xs i w
  set-set [] i v w = refl
  set-set (x ∷ xs) zero v w = refl
  set-set (x ∷ xs) (suc i) v w = ap (λ t. x ∷ t) (set-set xs i v w)

  set-get_or : (xs : List A) (i : ℕ) (d : A) → set xs i (get_or xs i d) ≡ xs
  set-get_or [] i d = refl
  set-get_or (x ∷ xs) zero d = refl
  set-get_or (x ∷ xs) (suc i) d = ap (λ t. x ∷ t) (set-get_or xs i d)

module _ (fs : FatFs) where
  open fs use {blank, is_blank, f_open}

  -- The handles from `i` to before `j` are in use.
  abbrev InUse : Files fs → ℕ → ℕ → Type 0
  InUse s i j = (k : ℕ) → i ≤ k → k < j → is_blank (handle fs s k) ≡ false

  -- What the search does: it finds none, or opens the file at the first free handle.
  abbrev Found : ℕ → ℕ → List ℕ → ℕ → Files fs → ℕ × Files fs → Type 0
  Found i j path mode s r =
      (InUse s i j × (r ≡ (0, s)))
      ⊎ ((k : ℕ) × (i ≤ k)
          × (k < j)
          × (is_blank (handle fs s k) ≡ true)
          × InUse s i k
          × (r ≡ open_at fs k path mode s))

  InUse-next :
      (s : Files fs) (i j : ℕ) → is_blank (handle fs s i) ≡ false → InUse s (i + 1) j → InUse s i j
  InUse-next s i j used rest k h l = elim (Bool-cases (i == k)) [
    | inl same ↦ rw (← (==_iff i k).0 same) used
    | inr other ↦ rest k (ground arith) l
  ]

  open_loop-Found :
      (left i : ℕ) (path : List ℕ) (mode : ℕ) (s : Files fs)
      → Found i (i + left) path mode s (open_loop fs left i path mode s)
  unfolding open_loop
  open_loop-Found zero i path mode s = inl ((λ k h l. absurd (omega arith)), refl)
  open_loop-Found (suc left) i path mode s = elim (Bool-cases (is_blank (handle fs s i))) [
    | inl free ↦
        inr (i, omega arith, omega arith, free, (λ k h l. absurd (omega arith)), rw free refl)
    | inr used ↦ rw used (elim (open_loop-Found left (i + 1) path mode s) [
      | inl (all, same) ↦
          inl (InUse-next s i (i + suc left) used (λ k h l. all k h (omega arith)), same)
      | inr (k, low, high, free, before, found) ↦
          inr (k, omega arith, omega arith, free, InUse-next s i k used before, found)
    ])
  ]

  -- The whole search of `vfs_open`.
  vfs_open-Found :
      (path : List ℕ) (mode hints : ℕ) (s : Files fs)
      → Found 1 num_handles path mode s (vfs_open fs path mode hints s)
  unfolding vfs_open
  vfs_open-Found path mode hints s = open_loop-Found 0xff 1 path mode s

  module _ (keeps : KeepsObjects fs) where
    blank_handle :
        (s : Files fs) (k : ℕ) → is_blank (handle fs s k) ≡ true → set s.handles k blank ≡ s.handles
    blank_handle s k free =
        rw (← (keeps.is_blank_iff (handle fs s k)).0 free) (set-get_or s.handles k blank)

    -- A file that cannot be opened leaves the handle blank, as it was.
    answered-zero :
        (k : ℕ) (s : Files fs) (r : Bool × fs.Fil × fs.Disk)
        → 0 < k
        → is_blank (handle fs s k) ≡ true
        → (answered fs k s r).0 ≡ 0
        → (answered fs k s r).1.handles ≡ s.handles
    answered-zero k s (true, f, d) pos free failed = absurd (omega arith)
    answered-zero k s (false, f, d) pos free failed = blank_handle s k free

    Found-zero :
        (path : List ℕ) (mode : ℕ) (s : Files fs) (r : ℕ × Files fs)
        → Found 1 num_handles path mode s r
        → r.0 ≡ 0
        → r.1.handles ≡ s.handles
    unfolding open_at
    Found-zero path mode s r (inl (all, e)) failed = rw e refl
    Found-zero path mode s r (inr (k, low, high, free, before, e)) failed = rw e (
        answered-zero k s (f_open s.disk (handle fs s k) path (open_mode fs mode)) low free
          (sym (ap (λ t. t.0) e) ∙ failed))

    pub vfs_open-zero :
        (path : List ℕ) (mode hints : ℕ) (s : Files fs)
        → (vfs_open fs path mode hints s).0 ≡ 0
        → (vfs_open fs path mode hints s).1.handles ≡ s.handles
    vfs_open-zero path mode hints s =
        Found-zero path mode s (vfs_open fs path mode hints s) (vfs_open-Found path mode hints s)

    -- A file that is opened takes the first free handle.
    abbrev Opened : Files fs → ℕ × Files fs → Type 0
    Opened s (k, t) =
        (0 < k)
        × (k < num_handles)
        × (is_blank (handle fs s k) ≡ true)
        × InUse s 1 k
        × ((f : fs.Fil) × (is_blank f ≡ false) × (t.handles ≡ set s.handles k f))

    answered-Opened :
        (k : ℕ) (path : List ℕ) (mode : ℕ) (s : Files fs) (d : fs.Disk) (g : fs.Fil)
        → 0 < k
        → k < num_handles
        → is_blank (handle fs s k) ≡ true
        → InUse s 1 k
        → (r : Bool × fs.Fil × fs.Disk) → f_open d g path mode ≡ r
        → (answered fs k s r).0 ≢ 0
        → Opened s (answered fs k s r)
    answered-Opened k path mode s d g pos high free before (true, f, d') e done = (
      pos,
      high,
      free,
      before,
      (f, subst (λ r. is_blank r.1 ≡ false) e (keeps.opened d g path mode (ap (λ t. t.0) e)), refl),
    )
    answered-Opened k path mode s d g pos high free before (false, f, d') e done =
        absurd (done refl)

    Found-Opened :
        (path : List ℕ) (mode : ℕ) (s : Files fs) (r : ℕ × Files fs)
        → Found 1 num_handles path mode s r
        → r.0 ≢ 0
        → Opened s r
    unfolding open_at
    Found-Opened path mode s r (inl (all, e)) done = absurd (done (ap (λ t. t.0) e))
    Found-Opened path mode s r (inr (k, low, high, free, before, e)) done = rw e (
        answered-Opened k path (open_mode fs mode) s s.disk (handle fs s k) low high free before
          (f_open s.disk (handle fs s k) path (open_mode fs mode)) refl
          (λ z. done (ap (λ t. t.0) e ∙ z)))

    pub vfs_open-Opened :
        (path : List ℕ) (mode hints : ℕ) (s : Files fs)
        → (vfs_open fs path mode hints s).0 ≢ 0
        → Opened s (vfs_open fs path mode hints s)
    vfs_open-Opened path mode hints s =
        Found-Opened path mode s (vfs_open fs path mode hints s) (vfs_open-Found path mode hints s)

    vfs_close-vfs_open :
        (path : List ℕ) (mode hints : ℕ) (s : Files fs)
        → (let (h, t) = vfs_open fs path mode hints s in
            h ≢ 0 → (vfs_close fs h t).handles ≡ s.handles)
    unfolding vfs_close
    vfs_close-vfs_open path mode hints s done =
        let (pos, high, free, before, (f, used, e)) = vfs_open-Opened path mode hints s done in
        let k = (vfs_open fs path mode hints s).0 in
        rw (e, set-set s.handles k f blank) (blank_handle s k free)

    -- If FatFs keeps its objects as documented, `vfs_open` either returns NULL and leaves the
    -- table of handles as it was, whether no handle is free or the file does not open, or it
    -- returns a handle, and closing that gives the table back.
    pub vfs_open-handles :
        (path : List ℕ) (mode hints : ℕ) (s : Files fs)
        → (let (h, t) = vfs_open fs path mode hints s in
            ((h ≡ 0) × (t.handles ≡ s.handles))
            ⊎ ((h ≢ 0) × ((vfs_close fs h t).handles ≡ s.handles)))
    vfs_open-handles path mode hints s = elim (ℕ_discrete (vfs_open fs path mode hints s).0 0) [
      | yes failed ↦ inl (failed, vfs_open-zero path mode hints s failed)
      | no done ↦ inr (done, vfs_close-vfs_open path mode hints s done)
    ]
