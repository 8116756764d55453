-- ===== src/Folders/Examples.antt =====
-- Paths of two segments, with spaces and a backslash to be put right.
use mima.Prelude.{
  Bool, List, ◌≤◌, Text, true, none, some, [], ◌∷◌, any, length, join_with, trim, starts_with,
  split_on, ◌≡◌, ◌↔◌, refl, false,
}
use mima.Anchor.{same_text}
use mima.Folders.{
  folder_path_max_depth, folder_path_max_length, is_refused, segments_of, normalize_folder_path,
  folder_path_ancestors, folder_contains_path,
}
use mima.Folders.Directories.{
  VaultDirectoryEntry, normalize_vault_directories, register, claim, normalize_all, distinct_texts,
  materialize_vault_directories, resolve_vault_directory_path,
}
use mima.Folders.Changes.{add_vault_directory, rename_vault_directory, remove_vault_directory}
use mima.Folders.Kept.{AreApart, changes-apart}
use mima.Folders.Normal.{normalize_folder_path-normal}
use mima.Folders.Order.{IsAbove, folder_contains_path-order}

-- ' a \ b' and its normal form.
abbrev loose : Text
loose = 32 ∷ b'a' ∷ 32 ∷ 92 ∷ 32 ∷ b'b' ∷ []

abbrev ab : Text
ab = b'a' ∷ 47 ∷ b'b' ∷ []

abbrev abc : Text
abc = b'a' ∷ 47 ∷ b'b' ∷ 47 ∷ b'c' ∷ []

loose_is_normalized : normalize_folder_path (some loose) ≡ some ab
unfolding normalize_folder_path trim split_on join_with same_text
loose_is_normalized = refl

parent_is_refused : normalize_folder_path (some (b'a' ∷ 47 ∷ 46 ∷ 46 ∷ [])) ≡ none
unfolding normalize_folder_path trim split_on join_with same_text
parent_is_refused = refl

ancestors : folder_path_ancestors abc ≡ (b'a' ∷ []) ∷ ab ∷ abc ∷ []
unfolding folder_path_ancestors normalize_folder_path trim split_on join_with same_text
ancestors = refl

contains_abc : folder_contains_path loose (some abc) ≡ true
unfolding folder_contains_path normalize_folder_path trim split_on join_with same_text starts_with
contains_abc = refl

normalize_folder_path-normal_example :
    (normalize_folder_path (some ab) ≡ some ab)
    × (length ab ≤ folder_path_max_length)
    × (ab ≡ join_with 47 (segments_of (trim loose)))
    × (length (segments_of (trim loose)) ≤ folder_path_max_depth)
    × (any is_refused (segments_of (trim loose)) ≡ false)
normalize_folder_path-normal_example = normalize_folder_path-normal loose ab loose_is_normalized

folder_contains_path-order_example :
    (folder_contains_path loose (some abc) ≡ true ↔ IsAbove loose (some abc))
    × ((x : Text)
        → normalize_folder_path (some loose) ≡ some x
        → folder_contains_path loose (some loose) ≡ true)
    × (folder_contains_path loose (some ab) ≡ true
        → folder_contains_path ab (some abc) ≡ true
        → folder_contains_path loose (some abc) ≡ true)
    × (folder_contains_path loose (some ab) ≡ true
        → folder_contains_path ab (some loose) ≡ true
        → normalize_folder_path (some loose) ≡ normalize_folder_path (some ab))
folder_contains_path-order_example = folder_contains_path-order loose ab abc (some abc)

abbrev never_less : Text → Text → Bool
never_less a b = false

-- A directory with a former name, and one below it.
abbrev registry : List VaultDirectoryEntry
registry =
    record { path = b'a' ∷ []; aliases = (b'o' ∷ []) ∷ [] }
    ∷ record { path = ab; aliases = [] }
    ∷ []

abbrev renamed : List VaultDirectoryEntry
renamed =
    record { path = b'x' ∷ []; aliases = (b'o' ∷ []) ∷ (b'a' ∷ []) ∷ [] }
    ∷ record { path = b'x' ∷ 47 ∷ b'b' ∷ []; aliases = ab ∷ [] }
    ∷ []

a_is_renamed : rename_vault_directory never_less registry (b'a' ∷ []) (b'x' ∷ []) ≡ some renamed
unfolding rename_vault_directory materialize_vault_directories normalize_vault_directories register
    claim normalize_all distinct_texts normalize_folder_path folder_contains_path trim split_on
    join_with same_text starts_with
a_is_renamed = refl

former_name_is_refused : add_vault_directory never_less registry (b'o' ∷ []) ≡ none
unfolding add_vault_directory materialize_vault_directories normalize_vault_directories register
    claim normalize_all distinct_texts normalize_folder_path folder_contains_path trim split_on
    join_with same_text starts_with resolve_vault_directory_path
former_name_is_refused = refl

changes-apart_example :
    (add_vault_directory never_less registry (b'a' ∷ []) ≡ some renamed → AreApart renamed)
    × (rename_vault_directory never_less registry (b'a' ∷ []) (b'x' ∷ []) ≡ some renamed
        → AreApart renamed)
    × (remove_vault_directory never_less registry (b'a' ∷ []) [] ≡ some renamed → AreApart renamed)
changes-apart_example = changes-apart never_less registry renamed (b'a' ∷ []) (b'x' ∷ []) []
