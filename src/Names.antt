-- ===== src/Names.antt =====
-- packages/domain/src/vault-group.ts: names of vault groups. A character that is given by two code
-- units is no control character, and neither are the units.
pub mod Normal
pub mod Examples
use mima.Prelude.{
  ℕ, Text, Bool, true, false, ◌||◌, Option, none, some, List, [], ◌∷◌, ◌==◌, nat_eq, ltb, leb, any,
  length, if◌then◌else◌, trim,
}

abbrev pub vault_group_name_max_length : ℕ
vault_group_name_max_length = 60

abbrev pub is_control : ℕ → Bool
is_control code = leb code 31 || code == 127

abbrev pub is_empty : Text → Bool
is_empty [] = true
is_empty (c ∷ t) = false

unfoldable pub normalize_vault_group_name : Option Text → Option Text
normalize_vault_group_name none = none
normalize_vault_group_name (some value) =
    let normalized = trim value in
    if is_empty normalized
    then none
    else if ltb vault_group_name_max_length (length normalized) || any is_control normalized
    then none
    else some normalized
