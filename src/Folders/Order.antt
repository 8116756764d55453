-- ===== src/Folders/Order.antt =====
-- `folderContainsPath` of packages/domain/src/folder-path.ts is an order on the paths.
use mima.Prelude.{
  ℕ, ◌+◌, Text, List, ◌↔◌, split_on, join_with, append-nil, Bool, true, ◌||◌, Option, none, some,
  [], ◌∷◌, ◌++◌, ◌==◌, nat_eq, nat_beq_iff, starts_with, length, length-append, append_assoc,
  Bool-cases, and-eq-true, ◌≡◌, ◌⊎◌, refl, sym, ap, ap₂, ◌∙◌, inl, inr, arith,
}
use mima.Anchor.{same_text}
use mima.Audit.Chain.{same_text-eq, same_text_refl}
use mima.Folders.Pieces.{split_on-cons}
use mima.Folders.{is_within, normalize_folder_path, folder_contains_path}

starts_with-rest : (t p : Text) → starts_with t p ≡ true → (r : Text) × (t ≡ p ++ r)
unfolding starts_with
starts_with-rest t [] h = (t, refl)
starts_with-rest [] (x ∷ p) h = cc
starts_with-rest (c ∷ t) (x ∷ p) h =
    let parts = and-eq-true (c == x) (starts_with t p) h in
    let (r, e) = starts_with-rest t p parts.1 in
    (r, ap₂ (λ d u. d ∷ u) ((nat_beq_iff c x).0 parts.0) e)

starts_with-append : (p r : Text) → starts_with (p ++ r) p ≡ true
unfolding starts_with
starts_with-append [] r = refl
starts_with-append (x ∷ p) r = rw ((nat_beq_iff x x).1 refl) (starts_with-append p r)

-- The same path, or one below it.
IsBelow : Text → Text → Type 0
IsBelow folder item = (item ≡ folder) ⊎ ((r : Text) × (item ≡ (folder ++ 47 ∷ []) ++ r))

within-IsBelow :
    (folder item : Text) → is_within (some folder) (some item) ≡ true → IsBelow folder item
unfolding IsBelow
within-IsBelow folder item h = elim (Bool-cases (same_text item folder)) [
  | inl e ↦ inl (same_text-eq item folder e)
  | inr e ↦ inr (starts_with-rest item (folder ++ 47 ∷ []) (rw e at h))
]

or_true : (b : Bool) → (b || true) ≡ true
or_true b = ground arith

IsBelow-within :
    (folder item : Text) → IsBelow folder item → is_within (some folder) (some item) ≡ true
unfolding IsBelow
IsBelow-within folder item (inl e) = rw (e, same_text_refl folder) refl
IsBelow-within folder item (inr (r, e)) =
    let below : starts_with item (folder ++ 47 ∷ []) ≡ true =
      rw e (starts_with-append (folder ++ 47 ∷ []) r) in
    rw below (or_true (same_text item folder))

IsBelow-trans : (x y z : Text) → IsBelow x y → IsBelow y z → IsBelow x z
unfolding IsBelow
IsBelow-trans x y z (inl e) (inl f) = inl (f ∙ e)
IsBelow-trans x y z (inl e) (inr (s, f)) = inr (s, rw e at f)
IsBelow-trans x y z (inr (r, e)) (inl f) = inr (r, f ∙ e)
IsBelow-trans x y z (inr (r, e)) (inr (s, f)) = inr (
  r ++ 47 ∷ s,
  f
      ∙ ap (λ t. (t ++ 47 ∷ []) ++ s) e
      ∙ append_assoc ((x ++ 47 ∷ []) ++ r) (47 ∷ []) s
      ∙ append_assoc (x ++ 47 ∷ []) r (47 ∷ s),
)

longer : (x r : Text) → length ((x ++ 47 ∷ []) ++ r) ≡ length x + 1 + length r
longer x r = rw (length-append (x ++ 47 ∷ []) r, length-append x (47 ∷ [])) refl

IsBelow-antisym : (x y : Text) → IsBelow x y → IsBelow y x → x ≡ y
unfolding IsBelow
IsBelow-antisym x y (inl e) k = sym e
IsBelow-antisym x y (inr (r, e)) (inl f) = f
IsBelow-antisym x y (inr (r, e)) (inr (s, f)) =
    absurd (omega (arith, ap length e ∙ longer x r, ap length f ∙ longer y s))

-- The pieces of two texts between slashes, and of one that a slash joins.
split_on-glue : (x r : Text) → split_on 47 (x ++ 47 ∷ r) ≡ split_on 47 x ++ split_on 47 r
unfolding split_on
split_on-glue [] r = refl
split_on-glue (c ∷ t) r = elim (Bool-cases (c == 47)) [
  | inl e ↦ rw (split_on, e) (ap (λ ss. [] ∷ ss) (split_on-glue t r))
  | inr e ↦
      let (s, ss, q) = split_on-cons t in
      let whole : split_on 47 (t ++ 47 ∷ r) ≡ s ∷ ss ++ split_on 47 r =
        split_on-glue t r ∙ ap (λ us. us ++ split_on 47 r) q in
      rw (split_on, e, whole, q) refl
]

join_with-letter :
    (c : ℕ) (s : Text) (ss : List Text) → join_with 47 ((c ∷ s) ∷ ss) ≡ c ∷ join_with 47 (s ∷ ss)
unfolding join_with
join_with-letter c s [] = refl
join_with-letter c s (u ∷ us) = refl

join_with-split_on : (t : Text) → join_with 47 (split_on 47 t) ≡ t
unfolding split_on join_with
join_with-split_on [] = refl
join_with-split_on (c ∷ t) =
    let (s, ss, q) = split_on-cons t in
    let rest : join_with 47 (s ∷ ss) ≡ t = sym (ap (join_with 47) q) ∙ join_with-split_on t in
    elim (Bool-cases (c == 47)) [
      | inl e ↦ rw (split_on, e, q) (ap₂ (λ d u. d ∷ u) (sym ((nat_beq_iff c 47).0 e)) rest)
      | inr e ↦ rw (split_on, e, q) (join_with-letter c s ss ∙ ap (λ u. c ∷ u) rest)
    ]

join_with-glue :
    (s : Text) (ss : List Text) (u : Text) (us : List Text)
    → join_with 47 (s ∷ ss ++ u ∷ us) ≡ join_with 47 (s ∷ ss) ++ 47 ∷ join_with 47 (u ∷ us)
unfolding join_with
join_with-glue s [] u us = refl
join_with-glue s (v ∷ vs) u us =
    ap (λ t. s ++ 47 ∷ t) (join_with-glue v vs u us)
    ∙ sym (append_assoc s (47 ∷ join_with 47 (v ∷ vs)) (47 ∷ join_with 47 (u ∷ us)))

IsBelow-pieces :
    (x y : Text) → IsBelow x y → (rest : List Text) × (split_on 47 y ≡ split_on 47 x ++ rest)
unfolding IsBelow
IsBelow-pieces x y (inl e) = ([], ap (split_on 47) e ∙ sym (append-nil (split_on 47 x)))
IsBelow-pieces x y (inr (r, e)) =
    (split_on 47 r, ap (split_on 47) (e ∙ append_assoc x (47 ∷ []) r) ∙ split_on-glue x r)

pieces-IsBelow :
    (x y : Text) (rest : List Text) → split_on 47 y ≡ split_on 47 x ++ rest → IsBelow x y
unfolding IsBelow
pieces-IsBelow x y [] e = inl (
    sym (join_with-split_on y)
    ∙ ap (join_with 47) (e ∙ append-nil (split_on 47 x))
    ∙ join_with-split_on x)
pieces-IsBelow x y (u ∷ us) e =
    let (s, ss, q) = split_on-cons x in
    let whole : x ≡ join_with 47 (s ∷ ss) = sym (join_with-split_on x) ∙ ap (join_with 47) q in
    let glued : y ≡ x ++ 47 ∷ join_with 47 (u ∷ us) =
      sym (join_with-split_on y)
      ∙ ap (join_with 47) (e ∙ ap (λ ts. ts ++ u ∷ us) q)
      ∙ join_with-glue s ss u us
      ∙ ap (λ t. t ++ 47 ∷ join_with 47 (u ∷ us)) (sym whole) in
    inr (join_with 47 (u ∷ us), glued ∙ sym (append_assoc x (47 ∷ []) (join_with 47 (u ∷ us))))

within_trans :
    (x y z : Option Text) → is_within x y ≡ true → is_within y z ≡ true → is_within x z ≡ true
within_trans none y z h k = cc
within_trans (some x) none z h k = cc
within_trans (some x) (some y) none h k = cc
within_trans (some x) (some y) (some z) h k =
    IsBelow-within x z (IsBelow-trans x y z (within-IsBelow x y h) (within-IsBelow y z k))

within_antisym : (x y : Option Text) → is_within x y ≡ true → is_within y x ≡ true → x ≡ y
within_antisym none y h k = cc
within_antisym (some x) none h k = cc
within_antisym (some x) (some y) h k =
    ap some (IsBelow-antisym x y (within-IsBelow x y h) (within-IsBelow y x k))

-- The texts between the slashes of the item's normal path begin with those of the folder's.
pub IsAbove : Text → Option Text → Type 0
IsAbove folder item =
    (x y : Text) × (rest : List Text) × (normalize_folder_path (some folder) ≡ some x)
    × (normalize_folder_path item ≡ some y)
    × (split_on 47 y ≡ split_on 47 x ++ rest)

within-IsAbove :
    (folder : Text) (item x y : Option Text)
    → normalize_folder_path (some folder) ≡ x
    → normalize_folder_path item ≡ y
    → is_within x y ≡ true
    → IsAbove folder item
unfolding IsAbove
within-IsAbove folder item none y e f h = cc
within-IsAbove folder item (some x) none e f h = cc
within-IsAbove folder item (some x) (some y) e f h =
    let (rest, pieces) = IsBelow-pieces x y (within-IsBelow x y h) in (x, y, rest, e, f, pieces)

IsAbove-within :
    (folder : Text) (item : Option Text)
    → IsAbove folder item
    → is_within (normalize_folder_path (some folder)) (normalize_folder_path item) ≡ true
unfolding IsAbove
IsAbove-within folder item (x, y, rest, e, f, pieces) =
    rw (e, f) (IsBelow-within x y (pieces-IsBelow x y rest pieces))

within_refl : (x : Option Text) (y : Text) → x ≡ some y → is_within x x ≡ true
within_refl x y e = rw e (IsBelow-within y y (unfold IsBelow in inl refl))

-- A folder contains a path exactly if both are valid, and the segments of the normal path of the
-- folder are the first ones of the other's. This is an order on the valid paths: each contains itself,
-- what is in a folder that is in another one is in that one too, and two that contain each other have
-- the same normal path.
pub folder_contains_path-order :
    (a b c : Text) (item : Option Text)
    → (folder_contains_path a item ≡ true ↔ IsAbove a item)
      × ((x : Text)
          → normalize_folder_path (some a) ≡ some x
          → folder_contains_path a (some a) ≡ true)
      × (folder_contains_path a (some b) ≡ true
          → folder_contains_path b (some c) ≡ true
          → folder_contains_path a (some c) ≡ true)
      × (folder_contains_path a (some b) ≡ true
          → folder_contains_path b (some a) ≡ true
          → normalize_folder_path (some a) ≡ normalize_folder_path (some b))
unfolding folder_contains_path
folder_contains_path-order a b c item =
    let x = normalize_folder_path (some a) in
    let y = normalize_folder_path (some b) in
    (
      (within-IsAbove a item x (normalize_folder_path item) refl refl, IsAbove-within a item),
      within_refl x,
      within_trans x y (normalize_folder_path (some c)),
      within_antisym x y,
    )
