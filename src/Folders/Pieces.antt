-- ===== src/Folders/Pieces.antt =====
-- Segments, and the text that they make between slashes.
use mima.Prelude.{
  ℕ, Text, Bool, true, false, not, ◌||◌, List, [], ◌∷◌, ◌++◌, map, ◌==◌, nat_eq, any, all, trim,
  trim_start, trim_end, split_on, join_with, Bool-cases, List-cases, ◌≡◌, refl, ap, ap₂, ◌∙◌, inl,
  inr, arith,
}
use mima.Names.{is_empty}
use mima.Prelude.Trimmed.{
  any-trim_start, any-trim_end, begins_well, trim_start-well, begins_well-trim_start,
  begins_well-trim_end, trim_end_twice,
}
use mima.Folders.{to_slash, is_refused, segments_of}

-- A slash of either kind.
abbrev pub is_slash : ℕ → Bool
is_slash c = c == 47 || c == 92

-- A segment: not empty, without slashes, and trimmed.
pub record IsSegment (s : Text) : Type 0 where
  pub filled : is_empty s ≡ false
  pub slashless : any is_slash s ≡ false
  pub begins : begins_well s ≡ true
  pub ends : trim_end s ≡ s

abbrev pub AreSegments : List Text → Type 0
AreSegments [] = Unit
AreSegments (s ∷ ss) = IsSegment s × AreSegments ss

-- The first line of a split.
split_on-free :
    (t : Text)
    → any (λ c. c == 92) t ≡ false
    → all (λ s. not (any is_slash s)) (split_on 47 t) ≡ true
unfolding split_on
split_on-free [] h = refl
split_on-free (c ∷ t) h =
    let tail : any (λ c. c == 92) t ≡ false = ground (arith, h) in
    let rest = split_on-free t tail in
    elim (Bool-cases (c == 47)) [
      | inl e ↦ rw (split_on, e) rest
      | inr e ↦ elim (List-cases (split_on 47 t)) [
        | inl n ↦ rw (split_on, e, n) (ground (arith, h, e))
        | inr (line, lines, n) ↦ rw (split_on, e, n) (ground (arith, h, e, (rw n at rest)))
      ]
    ]

to_slash-free : (t : Text) → any (λ c. c == 92) (map to_slash t) ≡ false
to_slash-free [] = refl
to_slash-free (c ∷ t) = ground (arith, to_slash-free t)

pub to_slash-same : (t : Text) → any (λ c. c == 92) t ≡ false → map to_slash t ≡ t
to_slash-same [] h = refl
to_slash-same (c ∷ t) h =
    let first : to_slash c ≡ c = ground (arith, h) in
    let tail : any (λ c. c == 92) t ≡ false = ground (arith, h) in
    ap₂ (λ d u. d ∷ u) first (to_slash-same t tail)

trim-IsSegment :
    (s : Text) → any is_slash s ≡ false → is_empty (trim s) ≡ false → IsSegment (trim s)
unfolding trim
trim-IsSegment s h e = record {
  filled = e;
  slashless = any-trim_end is_slash (trim_start s) (any-trim_start is_slash s h);
  begins = begins_well-trim_end (trim_start s) (begins_well-trim_start s);
  ends = trim_end_twice (trim_start s);
}

is_refused-filled : (s : Text) → is_refused s ≡ false → is_empty s ≡ false
unfolding is_refused
is_refused-filled s h = ground (arith, h)

trimmed-AreSegments :
    (ss : List Text)
    → all (λ s. not (any is_slash s)) ss ≡ true
    → any is_refused (map trim ss) ≡ false
    → AreSegments (map trim ss)
trimmed-AreSegments [] h r = tt
trimmed-AreSegments (s ∷ ss) h r =
    let free : any is_slash s ≡ false = ground (arith, h) in
    let frees : all (λ s. not (any is_slash s)) ss ≡ true = ground (arith, h) in
    let good : is_refused (trim s) ≡ false = ground (arith, r) in
    let goods : any is_refused (map trim ss) ≡ false = ground (arith, r) in
    (trim-IsSegment s free (is_refused-filled (trim s) good), trimmed-AreSegments ss frees goods)

-- The segments of a path that is not refused.
pub segments_of-AreSegments :
    (t : Text) → any is_refused (segments_of t) ≡ false → AreSegments (segments_of t)
unfolding segments_of
segments_of-AreSegments t h =
    trimmed-AreSegments (split_on 47 (map to_slash t))
      (split_on-free (map to_slash t) (to_slash-free t)) h

pub split_on-cons : (t : Text) → (s : Text) × (ss : List Text) × (split_on 47 t ≡ s ∷ ss)
unfolding split_on
split_on-cons [] = ([], [], refl)
split_on-cons (c ∷ t) = elim (Bool-cases (c == 47)) [
  | inl e ↦ rw (split_on, e) ([], split_on 47 t, refl)
  | inr e ↦ let (s, ss, q) = split_on-cons t in rw (split_on, e, q) (c ∷ s, ss, refl)
]

pub segments_of-cons : (t : Text) → (s : Text) × (ss : List Text) × (segments_of t ≡ s ∷ ss)
unfolding segments_of
segments_of-cons t =
    let (s, ss, q) = split_on-cons (map to_slash t) in (trim s, map trim ss, ap (map trim) q)

split_on-segment : (s : Text) → any is_slash s ≡ false → split_on 47 s ≡ s ∷ []
unfolding split_on
split_on-segment [] h = refl
split_on-segment (c ∷ s) h =
    let first : (c == 47) ≡ false = ground (arith, h) in
    let tail : any is_slash s ≡ false = ground (arith, h) in
    rw (split_on, first, split_on-segment s tail) refl

split_on-append :
    (s u : Text) → any is_slash s ≡ false → split_on 47 (s ++ 47 ∷ u) ≡ s ∷ split_on 47 u
unfolding split_on
split_on-append [] u h = refl
split_on-append (c ∷ s) u h =
    let first : (c == 47) ≡ false = ground (arith, h) in
    let tail : any is_slash s ≡ false = ground (arith, h) in
    rw (split_on, first, split_on-append s u tail) refl

split_on-join_with :
    (s : Text) (ss : List Text)
    → AreSegments (s ∷ ss)
    → split_on 47 (join_with 47 (s ∷ ss)) ≡ s ∷ ss
unfolding join_with
split_on-join_with s [] h = split_on-segment s h.0.slashless
split_on-join_with s (u ∷ us) h =
    split_on-append s (join_with 47 (u ∷ us)) h.0.slashless
    ∙ ap (λ rest. s ∷ rest) (split_on-join_with u us h.1)

any-append :
    (p : ℕ → Bool) (s u : Text) → any p s ≡ false → any p u ≡ false → any p (s ++ u) ≡ false
any-append p [] u h k = k
any-append p (c ∷ s) u h k = ground (arith, h, any-append p s u)

no_backslash : (s : Text) → any is_slash s ≡ false → any (λ c. c == 92) s ≡ false
no_backslash [] h = refl
no_backslash (c ∷ s) h = ground (arith, h, no_backslash s)

join_with-no_backslash :
    (s : Text) (ss : List Text)
    → AreSegments (s ∷ ss)
    → any (λ c. c == 92) (join_with 47 (s ∷ ss)) ≡ false
unfolding join_with
join_with-no_backslash s [] h = no_backslash s h.0.slashless
join_with-no_backslash s (u ∷ us) h =
    any-append (λ c. c == 92) s (47 ∷ join_with 47 (u ∷ us)) (no_backslash s h.0.slashless)
      (join_with-no_backslash u us h.1)

is_empty-append : (s u : Text) → is_empty u ≡ false → is_empty (s ++ u) ≡ false
is_empty-append [] u h = h
is_empty-append (c ∷ s) u h = refl

trim_end-append : (s u : Text) → is_empty u ≡ false → trim_end u ≡ u → trim_end (s ++ u) ≡ s ++ u
unfolding trim_end
trim_end-append [] u e h = h
trim_end-append (c ∷ s) u e h = elim (List-cases (s ++ u)) [
  | inl n ↦ cc (rw n at (is_empty-append s u e))
  | inr (d, r, n) ↦
      let rest : trim_end (s ++ u) ≡ d ∷ r = trim_end-append s u e h ∙ n in
      rw (trim_end, rest, n) refl
]

is_empty-join_with :
    (s : Text) (ss : List Text) → AreSegments (s ∷ ss) → is_empty (join_with 47 (s ∷ ss)) ≡ false
unfolding join_with
is_empty-join_with s [] h = h.0.filled
is_empty-join_with s (u ∷ us) h = is_empty-append s (47 ∷ join_with 47 (u ∷ us)) refl

trim_end-join_with :
    (s : Text) (ss : List Text)
    → AreSegments (s ∷ ss)
    → trim_end (join_with 47 (s ∷ ss)) ≡ join_with 47 (s ∷ ss)
unfolding join_with
trim_end-join_with s [] h = h.0.ends
trim_end-join_with s (u ∷ us) h =
    let rest = join_with 47 (u ∷ us) in
    trim_end-append s (47 ∷ rest) refl
      (trim_end-append (47 ∷ []) rest (is_empty-join_with u us h.1) (trim_end-join_with u us h.1))

begins_well-append :
    (s u : Text) → is_empty s ≡ false → begins_well s ≡ true → begins_well (s ++ u) ≡ true
begins_well-append [] u e h = cc
begins_well-append (c ∷ s) u e h = h

begins_well-join_with :
    (s : Text) (ss : List Text) → AreSegments (s ∷ ss) → begins_well (join_with 47 (s ∷ ss)) ≡ true
unfolding join_with
begins_well-join_with s [] h = h.0.begins
begins_well-join_with s (u ∷ us) h =
    begins_well-append s (47 ∷ join_with 47 (u ∷ us)) h.0.filled h.0.begins

trim-well : (t : Text) → begins_well t ≡ true → trim_end t ≡ t → trim t ≡ t
unfolding trim
trim-well t b e = ap trim_end (trim_start-well t b) ∙ e

trim-segments : (ss : List Text) → AreSegments ss → map trim ss ≡ ss
trim-segments [] h = refl
trim-segments (s ∷ ss) h =
    ap₂ (λ x xs. x ∷ xs) (trim-well s h.0.begins h.0.ends) (trim-segments ss h.1)

-- What segments make between slashes is trimmed, not empty, and cut into the same segments.
pub segments_of-join_with :
    (s : Text) (ss : List Text)
    → AreSegments (s ∷ ss)
    → (trim (join_with 47 (s ∷ ss)) ≡ join_with 47 (s ∷ ss))
      × (is_empty (join_with 47 (s ∷ ss)) ≡ false)
      × (segments_of (join_with 47 (s ∷ ss)) ≡ s ∷ ss)
unfolding segments_of
segments_of-join_with s ss h = (
  trim-well (join_with 47 (s ∷ ss)) (begins_well-join_with s ss h) (trim_end-join_with s ss h),
  is_empty-join_with s ss h,
  ap (λ t. map trim (split_on 47 t))
        (to_slash-same (join_with 47 (s ∷ ss)) (join_with-no_backslash s ss h))
      ∙ ap (map trim) (split_on-join_with s ss h)
      ∙ trim-segments (s ∷ ss) h,
)
