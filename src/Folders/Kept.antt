-- ===== src/Folders/Kept.antt =====
-- packages/domain/src/folder-path.ts: every change of the directories leaves the names apart.
use mima.Prelude.{
  Text, Bool, true, false, ◌&&◌, ◌||◌, not, Option, none, some, List, [], ◌∷◌, ◌++◌, map, any, keep,
  ltb, In, Bool-cases, if◌then◌else◌, starts_with, ◌≡◌, inl, inr,
}
use mima.Names.{is_empty}
use mima.Anchor.{same_text}
use mima.Folders.{normalize_folder_path}
use mima.Folders.Directories.{
  VaultDirectoryEntry, has_text, and_then, normalize_vault_directories,
  resolve_vault_directory_path, add_item_folders, materialize_vault_directories,
}
use mima.Folders.Apart.{names_of, normalize_vault_directories-apart}
use mima.Folders.Changes.{
  has_path, is_in_subtree, flat_names, may_move, move_entry, add_to, add_vault_directory, rename_in,
  rename_between, rename_vault_directory, count_subtree_items, remove_in, remove_vault_directory,
}

-- Two directories with a common name have one path, and no path is empty.
abbrev pub AreApart : List VaultDirectoryEntry → Type 0
AreApart entries =
    (e f : VaultDirectoryEntry)
    → In e entries
    → In f entries
    → (is_empty e.path ≡ false)
      × ((n : Text) → In n (names_of e) → In n (names_of f) → e.path ≡ f.path)

-- An operation all of whose results are apart.
Yields : Option (List VaultDirectoryEntry) → Type 0
Yields o = (result : List VaultDirectoryEntry) → o ≡ some result → AreApart result

none-Yields : Yields none
unfolding Yields
none-Yields result h = cc

and_then-Yields :
    {A : Type 0} (o : Option A) (f : A → Option (List VaultDirectoryEntry))
    → ((a : A) → Yields (f a))
    → Yields (and_then o f)
and_then-Yields none f h = none-Yields
and_then-Yields (some a) f h = h a

if-Yields :
    (b : Bool) (o : Option (List VaultDirectoryEntry)) → Yields o → Yields (if b then o else none)
if-Yields true o h = h
if-Yields false o h = none-Yields

module _ (locale_less : Text → Text → Bool) where
  normalize-Yields :
      (entries : List VaultDirectoryEntry)
      → Yields (normalize_vault_directories locale_less entries)
  unfolding Yields
  normalize-Yields entries result h = normalize_vault_directories-apart locale_less entries result h

  materialize-Yields :
      (entries : List VaultDirectoryEntry) (folders : List (Option Text))
      → Yields (materialize_vault_directories locale_less entries folders)
  unfolding materialize_vault_directories
  materialize-Yields entries folders =
      and_then-Yields (normalize_vault_directories locale_less entries) _ (λ normalized.
        normalize-Yields (add_item_folders locale_less normalized folders normalized))

  add_to-Yields :
      (path : Text) (normalized : List VaultDirectoryEntry) (resolved : Option Text)
      → Yields (add_to locale_less path normalized resolved)
  add_to-Yields path normalized none = none-Yields
  add_to-Yields path normalized (some resolved) =
      elim (Bool-cases (
        not (same_text resolved path)
        || (any (λ (e : VaultDirectoryEntry). has_text e.aliases path) normalized
            || any (has_path path) normalized))) [
              | inl e ↦ rw e none-Yields
              | inr e ↦ rw e (materialize-Yields normalized (some path ∷ []))
            ]

  rename_in-Yields :
      (source target : Text) (normalized : List VaultDirectoryEntry)
      → Yields (rename_in locale_less source target normalized)
  unfolding rename_in
  rename_in-Yields source target normalized =
      let subtree = keep (is_in_subtree source) normalized in
      let paths = map (λ (e : VaultDirectoryEntry). e.path) subtree in
      let outside = flat_names (keep (λ e. not (has_text paths e.path)) normalized) in
      if-Yields (any (has_path source) normalized && may_move source target outside [] subtree) _
        (normalize-Yields (map (move_entry source target paths) normalized))

  rename_between-Yields :
      (entries : List VaultDirectoryEntry) (source target : Text)
      → Yields (rename_between locale_less entries source target)
  unfolding rename_between
  rename_between-Yields entries source target = elim (Bool-cases (same_text source target)) [
    | inl e ↦ rw (rename_between, e) (materialize-Yields entries [])
    | inr e ↦ elim (Bool-cases (starts_with target (source ++ 47 ∷ []))) [
      | inl k ↦ rw (rename_between, e, k) none-Yields
      | inr k ↦
          rw (rename_between, e, k)
            (and_then-Yields (materialize_vault_directories locale_less entries [])
              (rename_in locale_less source target) (rename_in-Yields source target))
    ]
  ]

  remove_in-Yields :
      (registry displayed : List VaultDirectoryEntry) (folders : List (Option Text)) (target : Text)
      → Yields (remove_in locale_less registry folders target displayed)
  remove_in-Yields registry displayed folders target =
      elim (Bool-cases (
        not (any (has_path target) displayed)
        || ltb 0 (count_subtree_items locale_less registry target folders))) [
          | inl e ↦ rw e none-Yields
          | inr e ↦ rw e (normalize-Yields (keep (λ e. not (is_in_subtree target e)) registry))
        ]

  -- Whatever directories are given, apart or not: after one is added, renamed with its subtree, or
  -- removed with its subtree, two directories with a common name, path or former name, have one path,
  -- and no path is empty.
  pub changes-apart :
      (entries result : List VaultDirectoryEntry) (path target : Text)
      (folders : List (Option Text))
      → (add_vault_directory locale_less entries path ≡ some result → AreApart result)
        × (rename_vault_directory locale_less entries path target ≡ some result → AreApart result)
        × (remove_vault_directory locale_less entries path folders ≡ some result → AreApart result)
  unfolding add_vault_directory rename_vault_directory remove_vault_directory Yields
  changes-apart entries result path target folders = (
    and_then-Yields (normalize_folder_path (some path)) _
        (λ p.
          and_then-Yields (materialize_vault_directories locale_less entries []) _ (λ normalized.
            add_to-Yields p normalized
              (resolve_vault_directory_path locale_less normalized (some p))))
        result,
    and_then-Yields (normalize_folder_path (some path)) _
        (λ source.
          and_then-Yields (normalize_folder_path (some target)) _
            (rename_between-Yields entries source))
        result,
    and_then-Yields (normalize_folder_path (some path)) _
        (λ source.
          and_then-Yields (materialize_vault_directories locale_less entries []) _ (λ registry.
            and_then-Yields (resolve_vault_directory_path locale_less registry (some source)) _
              (λ t.
                and_then-Yields (materialize_vault_directories locale_less entries folders) _
                  (λ displayed. remove_in-Yields registry displayed folders t))))
        result,
  )
