-- ===== src/Circle/Vfs/Owned.antt =====
-- Which handles of tools/circle/kernel/kernel.cpp are in use, whatever the core does with the
-- files that it has opened.
use libretro_virtualxt.Base.{
  ℕ, zero, suc, ◌<◌, Bool, true, false, not, List, ◌≡◌, ◌≢◌, inl, inr, refl, ap, sym, ◌∙◌, arith,
  Bool-cases, ◌==◌, ==_ne, ==_self, if◌then◌else◌, get_or, set, length, length-set, get_or-set_self,
  get_or-set_ne, replicate, length-replicate, take, u32,
}
use native.Mathlib.Decide.{ℕ_discrete}
use libretro_virtualxt.Circle.Vfs.{
  FatFs, KeepsObjects, Files, handle, put_handle, num_handles, no_files, vfs_open, vfs_close,
  vfs_flush, vfs_read, vfs_write, vfs_seek, seek_position_start,
}
use libretro_virtualxt.Circle.Vfs.Table.{vfs_open-zero, vfs_open-Opened}

-- The handles that the core holds, as a set.
abbrev pub Held : Type 0
Held = ℕ → Bool

abbrev pub with_handle : Held → ℕ → Bool → Held
with_handle held h v i = if i == h then v else held i

not-eq_true : (b : Bool) → not b ≡ true → b ≡ false
not-eq_true false h = refl
not-eq_true true h = cc

get_or-replicate : {A : Type 0} (n i : ℕ) (a : A) → get_or (replicate n a) i a ≡ a
get_or-replicate zero i a = refl
get_or-replicate (suc n) zero a = refl
get_or-replicate (suc n) (suc i) a = get_or-replicate n i a

module _ (fs : FatFs) where
  open fs use {blank, is_blank}

  -- What the core can do: it uses only handles that it got from `vfs_open` and has not closed.
  pub data Reachable : Held → Files fs → Type 0 where
    start : (d : fs.Disk) → Reachable (λ i. false) (no_files fs d)
    opened :
        {held : Held} {s : Files fs} (path : List ℕ) (mode hints : ℕ)
        → Reachable held s
        → (vfs_open fs path mode hints s).0 ≢ 0
        → Reachable
            (with_handle held (vfs_open fs path mode hints s).0 true)
            (vfs_open fs path mode hints s).1
    not_opened :
        {held : Held} {s : Files fs} (path : List ℕ) (mode hints : ℕ)
        → Reachable held s
        → (vfs_open fs path mode hints s).0 ≡ 0
        → Reachable held (vfs_open fs path mode hints s).1
    closed :
        {held : Held} {s : Files fs} (h : ℕ)
        → Reachable held s
        → held h ≡ true
        → Reachable (with_handle held h false) (vfs_close fs h s)
    flushed :
        {held : Held} {s : Files fs} (h : ℕ)
        → Reachable held s
        → held h ≡ true
        → Reachable held (vfs_flush fs h s)
    was_read :
        {held : Held} {s : Files fs} (h len : ℕ)
        → Reachable held s
        → held h ≡ true
        → Reachable held (vfs_read fs h len s).1
    written :
        {held : Held} {s : Files fs} (h : ℕ) (bytes : List ℕ) (len : ℕ)
        → Reachable held s
        → held h ≡ true
        → Reachable held (vfs_write fs h bytes len s).1
    sought :
        {held : Held} {s : Files fs} (h offset position : ℕ)
        → Reachable held s
        → held h ≡ true
        → Reachable held (vfs_seek fs h offset position s).1

  -- A handle is in use exactly if the core holds it; handle 0 is never one.
  pub record IsOwned (held : Held) (s : Files fs) : Type 0 where
    pub size : length s.handles ≡ num_handles
    pub inside : (h : ℕ) → held h ≡ true → (0 < h) × (h < num_handles)
    pub owned : (h : ℕ) → 0 < h → h < num_handles → is_blank (handle fs s h) ≡ not (held h)

  -- A handle gets an object, and is held exactly if that is not blank; no other changes.
  put-IsOwned :
      (held held' : Held) (s t : Files fs) (h : ℕ) (f : fs.Fil)
      → IsOwned held s
      → 0 < h
      → h < num_handles
      → is_blank f ≡ not (held' h)
      → ((i : ℕ) → i ≢ h → held' i ≡ held i)
      → t.handles ≡ set s.handles h f
      → IsOwned held' t
  put-IsOwned held held' s t h f o pos high blanked others e = record {
    size = rw e (length-set s.handles h f ∙ o.size);
    inside = λ i q. elim (ℕ_discrete i h) [
      | yes same ↦ rw same (pos, high)
      | no other ↦ o.inside i (sym (others i other) ∙ q)
    ];
    owned = λ i p l. elim (ℕ_discrete i h) [
      | yes same ↦ rw (e, same, get_or-set_self s.handles h f blank (omega (arith, o.size))) blanked
      | no other ↦
          rw (e, others i other, get_or-set_ne s.handles h i f blank (λ z. other (sym z)))
            (o.owned i p l)
    ];
  }

  with_handle_self : (held : Held) (h : ℕ) (v : Bool) → with_handle held h v h ≡ v
  with_handle_self held h v = rw (==_self h) refl

  with_handle_ne :
      (held : Held) (h : ℕ) (v : Bool) (i : ℕ) → i ≢ h → with_handle held h v i ≡ held i
  with_handle_ne held h v i other = rw (==_ne i h other) refl

  -- A use of a held handle leaves an object that is not blank.
  used-IsOwned :
      (held : Held) (s : Files fs) (h : ℕ) (f : fs.Fil) (d : fs.Disk)
      → IsOwned held s
      → held h ≡ true
      → (is_blank (handle fs s h) ≡ false → is_blank f ≡ false)
      → IsOwned held (put_handle fs s h f d)
  used-IsOwned held s h f d o mine kept =
      let (pos, high) = o.inside h mine in
      put-IsOwned held held s (put_handle fs s h f d) h f o pos high
        (kept (o.owned h pos high ∙ ap not mine) ∙ ap not (sym mine)) (λ i other. refl) refl

  no_files-IsOwned : (d : fs.Disk) → is_blank blank ≡ true → IsOwned (λ i. false) (no_files fs d)
  no_files-IsOwned d empty = record {
    size = length-replicate num_handles blank;
    inside = λ i q. cc;
    owned = λ i p l. ap is_blank (get_or-replicate num_handles i blank) ∙ empty;
  }

  module _ (keeps : KeepsObjects fs) where
    Reachable-IsOwned : {held : Held} {s : Files fs} → Reachable held s → IsOwned held s
    unfolding vfs_close vfs_flush vfs_read vfs_write vfs_seek
    Reachable-IsOwned (start d) = no_files-IsOwned d ((keeps.is_blank_iff blank).1 refl)
    Reachable-IsOwned (opened {held} {s} path mode hints r done) =
        let (pos, high, free, before, (f, used, e)) =
          vfs_open-Opened fs keeps path mode hints s done in
        let h = (vfs_open fs path mode hints s).0 in
        put-IsOwned held (with_handle held h true) s (vfs_open fs path mode hints s).1 h f
          (Reachable-IsOwned r) pos high (used ∙ ap not (sym (with_handle_self held h true)))
          (with_handle_ne held h true) e
    Reachable-IsOwned (not_opened {held} {s} path mode hints r failed) =
        let o = Reachable-IsOwned r in
        let e = vfs_open-zero fs keeps path mode hints s failed in
        record { size = rw e o.size; inside = o.inside; owned = rw e o.owned }
    Reachable-IsOwned (closed {held} {s} h r mine) =
        let o = Reachable-IsOwned r in
        let (pos, high) = o.inside h mine in
        put-IsOwned held (with_handle held h false) s (vfs_close fs h s) h blank o pos high
          ((keeps.is_blank_iff blank).1 refl ∙ ap not (sym (with_handle_self held h false)))
          (with_handle_ne held h false) refl
    Reachable-IsOwned (flushed {held} {s} h r mine) =
        used-IsOwned held s h (fs.f_sync s.disk (handle fs s h)).0
          (fs.f_sync s.disk (handle fs s h)).1 (Reachable-IsOwned r) mine
          (keeps.synced s.disk (handle fs s h))
    Reachable-IsOwned (was_read {held} {s} h len r mine) =
        let a = fs.f_read s.disk (handle fs s h) (u32 len) in
        used-IsOwned held s h a.2 a.3 (Reachable-IsOwned r) mine
          (keeps.after_read s.disk (handle fs s h) (u32 len))
    Reachable-IsOwned (written {held} {s} h bytes len r mine) =
        let a = fs.f_write s.disk (handle fs s h) (take (u32 len) bytes) in
        used-IsOwned held s h a.2 a.3 (Reachable-IsOwned r) mine
          (keeps.after_write s.disk (handle fs s h) (take (u32 len) bytes))
    Reachable-IsOwned (sought {held} {s} h offset position r mine) =
        elim (Bool-cases (position == seek_position_start)) [
          | inl begin ↦
              let a = fs.f_lseek s.disk (handle fs s h) offset in
              rw begin (
                used-IsOwned held s h a.1 a.2 (Reachable-IsOwned r) mine
                  (keeps.after_lseek s.disk (handle fs s h) offset))
          | inr other ↦ rw other (Reachable-IsOwned r)
        ]

    -- However the core has opened, used and closed files, if it uses only the handles that it
    -- holds and FatFs keeps its objects as documented, a handle that `vfs_open` gives is below
    -- 256 and is none that the core still holds.
    pub vfs_open-fresh :
        {held : Held} {s : Files fs} (path : List ℕ) (mode hints : ℕ)
        → Reachable held s
        → (vfs_open fs path mode hints s).0 ≢ 0
        → ((vfs_open fs path mode hints s).0 < num_handles)
          × (held (vfs_open fs path mode hints s).0 ≡ false)
    vfs_open-fresh {held} {s} path mode hints r done =
        let (pos, high, free, before, object) = vfs_open-Opened fs keeps path mode hints s done in
        let o = Reachable-IsOwned r in
        (
          high,
          not-eq_true (held (vfs_open fs path mode hints s).0)
              (sym (o.owned (vfs_open fs path mode hints s).0 pos high) ∙ free),
        )
