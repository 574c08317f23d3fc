-- ===== src/Circle/Lock/Exclusion.antt =====
-- Mutual exclusion of the cores of tools/circle/kernel.
use libretro_virtualxt.Base.{
  ℕ, Bool, true, false, not, ◌&&◌, Option, none, some, List, ◌∷◌, ◌==◌, ==_ne, ==_self, ◌≡◌, ◌≢◌,
  refl, ap, sym, ◌∙◌, arith,
}
use native.Mathlib.Decide.{ℕ_discrete}
use libretro_virtualxt.Circle.Cores.{
  Event, acquire, release, frame_time, retro_run, render, sample, input, sound_write,
}
use libretro_virtualxt.Circle.Lock.{
  Schedule, System, CanGo, next_holder, Step, step, Reach, here, next,
}
use libretro_virtualxt.Circle.Lock.Discipline.{protected, disciplined, run_core-disciplined}

and-left : (a b : Bool) → (a && b) ≡ true → a ≡ true
and-left true b h = refl
and-left false b h = h

and-right : (a b : Bool) → (a && b) ≡ true → b ≡ true
and-right true b h = h
and-right false b h = cc

abbrev holds : Option ℕ → ℕ → Bool
holds none core = false
holds (some h) core = h == core

-- Each core keeps to the discipline from where it is.
abbrev AllDisciplined : System → Type 0
AllDisciplined s = (core : ℕ) → disciplined (holds s.holder core) (s.todo core) ≡ true

-- What an event leaves of the discipline, for the core that does it.
after-disciplined :
    (holder : Option ℕ) (core : ℕ) (e : Event) (es : List Event)
    → CanGo e holder
    → disciplined (holds holder core) (e ∷ es) ≡ true
    → disciplined (holds (next_holder core e holder) core) es ≡ true
after-disciplined holder core acquire es g d =
    rw (==_self core) (and-right (not (holds holder core)) (disciplined true es) d)
after-disciplined holder core release es g d =
    and-right (holds holder core) (disciplined false es) d
after-disciplined holder core (sound_write n) es g d = d
after-disciplined holder core (frame_time n) es g d =
    and-right (holds holder core) (disciplined (holds holder core) es) d
after-disciplined holder core retro_run es g d =
    and-right (holds holder core) (disciplined (holds holder core) es) d
after-disciplined holder core render es g d =
    and-right (holds holder core) (disciplined (holds holder core) es) d
after-disciplined holder core sample es g d =
    and-right (holds holder core) (disciplined (holds holder core) es) d
after-disciplined holder core input es g d =
    and-right (holds holder core) (disciplined (holds holder core) es) d

-- An event of a core that keeps to the discipline changes nothing for the others.
others-hold :
    (holder : Option ℕ) (core other : ℕ) (e : Event) (es : List Event)
    → other ≢ core
    → CanGo e holder
    → disciplined (holds holder core) (e ∷ es) ≡ true
    → holds (next_holder core e holder) other ≡ holds holder other
others-hold holder core other acquire es ne g d = rw g (==_ne core other (λ e. ne (sym e)))
others-hold none core other release es ne g d = refl
others-hold (some h) core other release es ne g d =
    let mine = and-left (h == core) (disciplined false es) d in ground arith
others-hold holder core other (sound_write n) es ne g d = refl
others-hold holder core other (frame_time n) es ne g d = refl
others-hold holder core other retro_run es ne g d = refl
others-hold holder core other render es ne g d = refl
others-hold holder core other sample es ne g d = refl
others-hold holder core other input es ne g d = refl

Step-AllDisciplined : {s t : System} → Step s t → AllDisciplined s → AllDisciplined t
Step-AllDisciplined {s} (step core e es now can to) all i =
    let mine = ap (disciplined (holds s.holder core)) (sym now) ∙ all core in
    elim (ℕ_discrete i core) [
      | yes same ↦ rw (to, same, ==_self core) (after-disciplined s.holder core e es can mine)
      | no other ↦
          rw (to, ==_ne i core other, others-hold s.holder core i e es other can mine) (all i)
    ]

Reach-AllDisciplined : {w : Schedule} {s : System} → Reach w s → AllDisciplined s
Reach-AllDisciplined {w} here core = run_core-disciplined w core
Reach-AllDisciplined (next r st) core = Step-AllDisciplined st (Reach-AllDisciplined r) core

-- A core that is about to touch what the lock protects holds it.
protected-holds :
    (h : Bool) (e : Event) (es : List Event)
    → protected e ≡ true
    → disciplined h (e ∷ es) ≡ true
    → h ≡ true
protected-holds h acquire es p d = cc
protected-holds h release es p d = cc
protected-holds h (sound_write n) es p d = cc
protected-holds h (frame_time n) es p d = and-left h (disciplined h es) d
protected-holds h retro_run es p d = and-left h (disciplined h es) d
protected-holds h render es p d = and-left h (disciplined h es) d
protected-holds h sample es p d = and-left h (disciplined h es) d
protected-holds h input es p d = and-left h (disciplined h es) d

holds-same : (holder : Option ℕ) (i j : ℕ) → holds holder i ≡ true → holds holder j ≡ true → i ≡ j
holds-same none i j p q = cc
holds-same (some h) i j p q = ground arith

-- Mutual exclusion: whatever the clock, the sound device and the input devices do, and in
-- whatever order the four cores run, two cores are never both about to touch what the spin lock
-- protects: the frame time and the core, the picture, a sample, or the input.
pub mutual_exclusion :
    {w : Schedule} {s : System} (i j : ℕ) (e f : Event) (es fs : List Event)
    → Reach w s
    → s.todo i ≡ e ∷ es
    → s.todo j ≡ f ∷ fs
    → protected e ≡ true
    → protected f ≡ true
    → i ≡ j
mutual_exclusion {s} i j e f es fs r p q pe pf =
    let all = Reach-AllDisciplined r in
    holds-same s.holder i j
      (protected-holds (holds s.holder i) e es pe
        (ap (disciplined (holds s.holder i)) (sym p) ∙ all i))
      (protected-holds (holds s.holder j) f fs pf
        (ap (disciplined (holds s.holder j)) (sym q) ∙ all j))
