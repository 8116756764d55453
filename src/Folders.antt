-- ===== src/Folders.antt =====
-- packages/domain/src/folder-path.ts: paths of folders in a vault. A path is the list of its code
-- units; a character given by two units is no control character, and neither are the units.
pub mod Pieces
pub mod Normal
pub mod Order
pub mod Directories
pub mod Apart
pub mod Changes
pub mod Kept
pub mod Examples
use mima.Prelude.{
  ℕ, Text, Bool, true, false, ◌&&◌, ◌||◌, Option, none, some, List, [], ◌∷◌, ◌++◌, map, ◌==◌,
  nat_eq, ltb, leb, any, length, if◌then◌else◌, trim, starts_with, split_on, join_with,
}
use mima.Names.{is_control, is_empty}
use mima.Anchor.{same_text}

abbrev pub folder_path_max_depth : ℕ
folder_path_max_depth = 5

abbrev pub folder_path_max_length : ℕ
folder_path_max_length = 200

abbrev pub folder_segment_max_length : ℕ
folder_segment_max_length = 40

-- `replaceAll('\\', '/')`
abbrev pub to_slash : ℕ → ℕ
to_slash c = if c == 92 then 47 else c

-- '.' and '..'
abbrev pub is_dots : Text → Bool
is_dots s = same_text s (46 ∷ []) || same_text s (46 ∷ 46 ∷ [])

unfoldable pub is_refused : Text → Bool
is_refused s =
    is_empty s || (is_dots s || (ltb folder_segment_max_length (length s) || any is_control s))

unfoldable pub segments_of : Text → List Text
segments_of trimmed = map trim (split_on 47 (map to_slash trimmed))

unfoldable pub checked_path : List Text → Option Text
unfolding is_refused
checked_path segments =
    if ltb folder_path_max_depth (length segments) || any is_refused segments
    then none
    else if leb (length (join_with 47 segments)) folder_path_max_length
    then some (join_with 47 segments)
    else none

unfoldable pub normalize_folder_path : Option Text → Option Text
unfolding checked_path segments_of
normalize_folder_path none = none
normalize_folder_path (some value) =
    if is_empty (trim value) then none else checked_path (segments_of (trim value))

-- `slice(0, index + 1)` for each index.
abbrev pub prefixes : List Text → List Text → List (List Text)
prefixes before [] = []
prefixes before (s ∷ ss) = (before ++ s ∷ []) ∷ prefixes (before ++ s ∷ []) ss

abbrev pub ancestors_of : Option Text → List Text
ancestors_of none = []
ancestors_of (some path) = map (join_with 47) (prefixes [] (split_on 47 path))

unfoldable pub folder_path_ancestors : Text → List Text
folder_path_ancestors path = ancestors_of (normalize_folder_path (some path))

abbrev pub is_within : Option Text → Option Text → Bool
is_within none item = false
is_within (some folder) none = false
is_within (some folder) (some item) = same_text item folder || starts_with item (folder ++ 47 ∷ [])

unfoldable pub folder_contains_path : Text → Option Text → Bool
folder_contains_path folder item =
    is_within (normalize_folder_path (some folder)) (normalize_folder_path item)
