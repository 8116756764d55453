-- ===== src/Names/Examples.antt =====
-- Names of groups through packages/domain/src/vault-group.ts.
use mima.Prelude.{Text, some, none, [], ◌∷◌, ◌≡◌, refl, trim, trim_start, trim_end}
use mima.Names.{normalize_vault_group_name}

-- ' a b '
abbrev spaced : Text
spaced = 32 ∷ b'a' ∷ 32 ∷ b'b' ∷ 32 ∷ []

abbrev plain : Text
plain = b'a' ∷ 32 ∷ b'b' ∷ []

spaced_name : normalize_vault_group_name (some spaced) ≡ some plain
unfolding normalize_vault_group_name trim trim_start trim_end
spaced_name = refl

blank_name : normalize_vault_group_name (some (32 ∷ 9 ∷ [])) ≡ none
unfolding normalize_vault_group_name trim trim_start trim_end
blank_name = refl
