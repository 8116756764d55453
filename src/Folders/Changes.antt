-- ===== src/Folders/Changes.antt =====
-- packages/domain/src/folder-path.ts: adding, renaming and removing a directory, and what a directory
-- holds. A thrown error is none.
use mima.Prelude.{
  ℕ, Text, Bool, true, false, ◌&&◌, ◌||◌, not, Option, none, some, List, [], ◌∷◌, ◌++◌, map, ltb,
  any, keep, length, if◌then◌else◌, starts_with,
}
use mima.Anchor.{same_text}
use mima.Folders.{normalize_folder_path, folder_contains_path}
use mima.Folders.Directories.{
  VaultDirectoryEntry, has_text, distinct_texts, and_then, normalize_vault_directories,
  resolve_vault_directory_path, materialize_vault_directories,
}

abbrev pub has_path : Text → VaultDirectoryEntry → Bool
has_path path e = same_text e.path path

abbrev pub is_in_subtree : Text → VaultDirectoryEntry → Bool
is_in_subtree folder e = folder_contains_path folder (some e.path)

-- `slice(n)`
abbrev pub drop : Text → Text → Text
drop [] t = t
drop (c ∷ cs) [] = []
drop (c ∷ cs) (d ∷ t) = drop cs t

-- `${target}${entry.path.slice(source.length)}`
abbrev pub moved : Text → Text → Text → Text
moved source target path = target ++ drop source path

abbrev pub flat_names : List VaultDirectoryEntry → List Text
flat_names [] = []
flat_names (e ∷ es) = (e.path ∷ e.aliases) ++ flat_names es

abbrev pub is_path : Option Text → Bool
is_path none = false
is_path (some []) = false
is_path (some (c ∷ t)) = true

-- The loop over the subtree: each new path is a path, not taken outside, and new.
unfoldable pub may_move : Text → Text → List Text → List Text → List VaultDirectoryEntry → Bool
may_move source target outside next [] = true
may_move source target outside next (e ∷ es) =
    let path = moved source target e.path in
    is_path (normalize_folder_path (some path))
    && (not (has_text outside path || has_text next path)
        && may_move source target outside (path ∷ next) es)

abbrev pub move_entry : Text → Text → List Text → VaultDirectoryEntry → VaultDirectoryEntry
move_entry source target subtree e =
    let path = moved source target e.path in
    if has_text subtree e.path
    then record {
      path = path;
      aliases = keep (λ a. not (same_text a path)) (distinct_texts [] (e.aliases ++ e.path ∷ []));
    }
    else e

module _ (locale_less : Text → Text → Bool) where
  abbrev pub add_to :
      Text → List VaultDirectoryEntry → Option Text → Option (List VaultDirectoryEntry)
  add_to path normalized none = none
  add_to path normalized (some resolved) =
      if not (same_text resolved path)
        || (any (λ (e : VaultDirectoryEntry). has_text e.aliases path) normalized
            || any (has_path path) normalized)
      then none
      else materialize_vault_directories locale_less normalized (some path ∷ [])

  unfoldable pub add_vault_directory :
      List VaultDirectoryEntry → Text → Option (List VaultDirectoryEntry)
  add_vault_directory entries folder_path =
      and_then (normalize_folder_path (some folder_path)) (λ path.
        and_then (materialize_vault_directories locale_less entries []) (λ normalized.
          add_to path normalized (resolve_vault_directory_path locale_less normalized (some path))))

  unfoldable pub rename_in :
      Text → Text → List VaultDirectoryEntry → Option (List VaultDirectoryEntry)
  unfolding may_move
  rename_in source target normalized =
      let subtree = keep (is_in_subtree source) normalized in
      let paths = map (λ (e : VaultDirectoryEntry). e.path) subtree in
      let outside = flat_names (keep (λ e. not (has_text paths e.path)) normalized) in
      if any (has_path source) normalized && may_move source target outside [] subtree
      then normalize_vault_directories locale_less (map (move_entry source target paths) normalized)
      else none

  unfoldable pub rename_between :
      List VaultDirectoryEntry → Text → Text → Option (List VaultDirectoryEntry)
  unfolding rename_in
  rename_between entries source target =
      if same_text source target
      then materialize_vault_directories locale_less entries []
      else if starts_with target (source ++ 47 ∷ [])
      then none
      else and_then (materialize_vault_directories locale_less entries []) (rename_in source target)

  unfoldable pub rename_vault_directory :
      List VaultDirectoryEntry → Text → Text → Option (List VaultDirectoryEntry)
  unfolding rename_between
  rename_vault_directory entries source_path target_path =
      and_then (normalize_folder_path (some source_path)) (λ source.
        and_then (normalize_folder_path (some target_path)) (rename_between entries source))

  abbrev pub or_empty : Option (List VaultDirectoryEntry) → List VaultDirectoryEntry
  or_empty none = []
  or_empty (some entries) = entries

  abbrev pub counts : Text → Option Text → Bool
  counts target none = false
  counts target (some resolved) = folder_contains_path target (some resolved)

  abbrev pub count_in : List VaultDirectoryEntry → List (Option Text) → Option Text → ℕ
  count_in registry folders none = 0
  count_in registry folders (some target) =
      length (
        keep (λ raw. counts target (resolve_vault_directory_path locale_less registry raw)) folders)

  -- `countVaultDirectorySubtreeItems`
  unfoldable pub count_subtree_items : List VaultDirectoryEntry → Text → List (Option Text) → ℕ
  count_subtree_items entries source_path folders =
      let registry = or_empty (normalize_vault_directories locale_less entries) in
      count_in registry folders
        (resolve_vault_directory_path locale_less registry (some source_path))

  abbrev pub remove_in :
      List VaultDirectoryEntry
      → List (Option Text)
      → Text
      → List VaultDirectoryEntry
      → Option (List VaultDirectoryEntry)
  remove_in registry folders target displayed =
      if not (any (has_path target) displayed)
        || ltb 0 (count_subtree_items registry target folders)
      then none
      else normalize_vault_directories locale_less
          (keep (λ e. not (is_in_subtree target e)) registry)

  unfoldable pub remove_vault_directory :
      List VaultDirectoryEntry → Text → List (Option Text) → Option (List VaultDirectoryEntry)
  unfolding count_subtree_items
  remove_vault_directory entries source_path folders =
      and_then (normalize_folder_path (some source_path)) (λ source.
        and_then (materialize_vault_directories locale_less entries []) (λ registry.
          and_then (resolve_vault_directory_path locale_less registry (some source)) (λ target.
            and_then (materialize_vault_directories locale_less entries folders)
              (remove_in registry folders target))))

  abbrev pub below : Text → List VaultDirectoryEntry → List Text
  below target entries =
      keep (λ path. not (same_text path target) && folder_contains_path target (some path))
        (map (λ (e : VaultDirectoryEntry). e.path) entries)

  abbrev pub descendants_of : Option Text → Option (List VaultDirectoryEntry) → Option (List Text)
  descendants_of none entries = some []
  descendants_of (some target) none = none
  descendants_of (some target) (some entries) = some (below target entries)

  -- `vaultDirectoryDescendantPaths`
  unfoldable pub descendant_paths :
      List VaultDirectoryEntry → Text → List (Option Text) → Option (List Text)
  descendant_paths entries source_path folders =
      descendants_of
        (resolve_vault_directory_path locale_less
          (or_empty (normalize_vault_directories locale_less entries)) (some source_path))
        (materialize_vault_directories locale_less entries folders)
