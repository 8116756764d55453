-- ===== src/Prelude/Trimmed.antt =====
-- Texts without white space at their ends, and trimming twice.
use Prim.Native.Nat.{ℕ}
use mathlib.Core.Path.{◌≡◌, refl, ap, ◌∙◌}
use mathlib.Core.Logic.{inl, inr}
use mathlib.Core.Bool.{Bool, true, false, not}
use mathlib.Core.List.{[], ◌∷◌}
use native.Mathlib.Omega.{arith}
use mima.Prelude.Tests.{Bool-cases}
use mima.Prelude.Lists.{List-cases, any}
use mima.Prelude.Texts.{Text, is_space, trim, trim_start, trim_end}

-- The text does not begin with a space.
abbrev pub begins_well : Text → Bool
begins_well [] = true
begins_well (c ∷ t) = not (is_space c)

pub begins_well-trim_start : (t : Text) → begins_well (trim_start t) ≡ true
unfolding trim_start
begins_well-trim_start [] = refl
begins_well-trim_start (c ∷ t) = elim (Bool-cases (is_space c)) [
  | inl e ↦ rw (e, trim_start) (begins_well-trim_start t)
  | inr e ↦ rw (e, trim_start) (rw e refl)
]

pub trim_start-well : (t : Text) → begins_well t ≡ true → trim_start t ≡ t
unfolding trim_start
trim_start-well [] h = refl
trim_start-well (c ∷ t) h = elim (Bool-cases (is_space c)) [
  | inl e ↦ cc (rw e at h)
  | inr e ↦ rw (e, trim_start)
]

pub begins_well-trim_end : (t : Text) → begins_well t ≡ true → begins_well (trim_end t) ≡ true
unfolding trim_end
begins_well-trim_end [] h = refl
begins_well-trim_end (c ∷ t) h = elim (List-cases (trim_end t)) [
  | inl e ↦ elim (Bool-cases (is_space c)) [
    | inl s ↦ cc (rw s at h)
    | inr s ↦ rw (e, s, trim_end) (rw s refl)
  ]
  | inr (d, r, e) ↦ rw (e, trim_end) h
]

pub trim_end_twice : (t : Text) → trim_end (trim_end t) ≡ trim_end t
unfolding trim_end
trim_end_twice [] = refl
trim_end_twice (c ∷ t) = elim (List-cases (trim_end t)) [
  | inl e ↦ elim (Bool-cases (is_space c)) [
    | inl s ↦ rw (e, s, trim_end) refl
    | inr s ↦ rw (e, s, trim_end) (rw (s, trim_end) refl)
  ]
  | inr (d, r, e) ↦
      let again : trim_end (d ∷ r) ≡ d ∷ r = rw e at (trim_end_twice t) in
      rw (e, trim_end) (rw (again, trim_end) refl)
]

pub trim_twice : (t : Text) → trim (trim t) ≡ trim t
unfolding trim
trim_twice t =
    ap trim_end (
      trim_start-well (trim_end (trim_start t))
        (begins_well-trim_end (trim_start t) (begins_well-trim_start t)))
    ∙ trim_end_twice (trim_start t)

-- What no unit of a text is, no unit of the trimmed text is.
pub any-trim_start : (p : ℕ → Bool) (t : Text) → any p t ≡ false → any p (trim_start t) ≡ false
unfolding trim_start
any-trim_start p [] h = refl
any-trim_start p (c ∷ t) h = elim (Bool-cases (is_space c)) [
  | inl e ↦ rw (trim_start, e) (any-trim_start p t (ground (arith, h)))
  | inr e ↦ rw (trim_start, e) h
]

pub any-trim_end : (p : ℕ → Bool) (t : Text) → any p t ≡ false → any p (trim_end t) ≡ false
unfolding trim_end
any-trim_end p [] h = refl
any-trim_end p (c ∷ t) h =
    let tail : any p t ≡ false = ground (arith, h) in
    let first : p c ≡ false = ground (arith, h) in
    let rest = any-trim_end p t tail in
    elim (List-cases (trim_end t)) [
      | inl e ↦ elim (Bool-cases (is_space c)) [
        | inl s ↦ rw (trim_end, e, s) refl
        | inr s ↦ rw (trim_end, e, s) (rw first refl)
      ]
      | inr (d, r, e) ↦ rw (trim_end, e) (rw first (rw e at rest))
    ]
