-- ===== src/Folders/Normal.antt =====
-- packages/domain/src/folder-path.ts: normal paths.
use mima.Prelude.{
  ◌≤◌, Text, false, ◌||◌, some, List, ◌∷◌, any, length, ltb, leb, join_with, trim, Bool-cases,
  some_eq, ◌≡◌, refl, sym, ap, ◌∙◌, inl, inr, arith,
}
use mima.Names.{is_empty}
use mima.Folders.{
  folder_path_max_depth, folder_path_max_length, is_refused, segments_of, checked_path,
  normalize_folder_path,
}
use mima.Folders.Pieces.{
  AreSegments, segments_of-AreSegments, segments_of-cons, segments_of-join_with,
}

-- What a path that is let through comes to.
checked_path-some :
    (ss : List Text) (path : Text)
    → checked_path ss ≡ some path
    → (any is_refused ss ≡ false)
      × (path ≡ join_with 47 ss)
      × (length ss ≤ folder_path_max_depth)
      × (length path ≤ folder_path_max_length)
unfolding checked_path
checked_path-some ss path h =
    elim (Bool-cases (ltb folder_path_max_depth (length ss) || any is_refused ss)) [
      | inl e ↦ cc (rw (checked_path, e) at h)
      | inr e ↦ elim (Bool-cases (leb (length (join_with 47 ss)) folder_path_max_length)) [
        | inl k ↦
            let same : join_with 47 ss ≡ path = some_eq (rw (checked_path, e, k) at h) in
            (ground (arith, e), sym same, ground (arith, e), rw (← same) (ground (arith, k)))
        | inr k ↦ cc (rw (checked_path, e, k) at h)
      ]
    ]

normal_of :
    (t path : Text) (s : Text) (ss : List Text)
    → segments_of t ≡ s ∷ ss
    → checked_path (segments_of t) ≡ some path
    → normalize_folder_path (some path) ≡ some path
unfolding normalize_folder_path
normal_of t path s ss q h =
    let (fine, same, depth, size) = checked_path-some (segments_of t) path h in
    let pieces : AreSegments (s ∷ ss) = rw q at (segments_of-AreSegments t fine) in
    let (trimmed, filled, again) = segments_of-join_with s ss pieces in
    let joined : path ≡ join_with 47 (s ∷ ss) = same ∙ ap (join_with 47) q in
    let whole : normalize_folder_path (some (join_with 47 (s ∷ ss))) ≡ checked_path (s ∷ ss) =
      rw (normalize_folder_path, trimmed, filled, again) refl in
    ap (λ p. normalize_folder_path (some p)) joined ∙ whole ∙ (ap checked_path (sym q) ∙ h)

-- A normalised path is normal: normalising it again gives it back. It has at most 200 units, and its
-- segments are those of the text that it comes from, five at most, trimmed, and none of them refused.
pub normalize_folder_path-normal :
    (value path : Text)
    → normalize_folder_path (some value) ≡ some path
    → (normalize_folder_path (some path) ≡ some path)
      × (length path ≤ folder_path_max_length)
      × (path ≡ join_with 47 (segments_of (trim value)))
      × (length (segments_of (trim value)) ≤ folder_path_max_depth)
      × (any is_refused (segments_of (trim value)) ≡ false)
unfolding normalize_folder_path
normalize_folder_path-normal value path h = elim (Bool-cases (is_empty (trim value))) [
  | inl e ↦ cc (rw (normalize_folder_path, e) at h)
  | inr e ↦
      let k : checked_path (segments_of (trim value)) ≡ some path =
        rw (normalize_folder_path, e) at h in
      let (s, ss, q) = segments_of-cons (trim value) in
      let (fine, same, depth, size) = checked_path-some (segments_of (trim value)) path k in
      (normal_of (trim value) path s ss q k, size, same, depth, fine)
]
