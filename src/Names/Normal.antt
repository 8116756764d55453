-- ===== src/Names/Normal.antt =====
-- packages/domain/src/vault-group.ts: normal names.
use mima.Prelude.{
  ◌≤◌, Text, false, ◌||◌, Option, none, some, ◌≡◌, refl, arith, ltb, any, length, trim, Bool-cases,
  inl, inr,
}
use mima.Prelude.Trimmed.{trim_twice}
use mima.Names.{vault_group_name_max_length, is_control, is_empty, normalize_vault_group_name}

-- A normalised name is normal: normalising it again gives it back. It is not empty, has at most 60
-- units, and has no control character.
pub normalize_vault_group_name-normal :
    (value : Option Text) (name : Text)
    → normalize_vault_group_name value ≡ some name
    → (normalize_vault_group_name (some name) ≡ some name)
      × (is_empty name ≡ false)
      × (length name ≤ vault_group_name_max_length)
      × (any is_control name ≡ false)
unfolding normalize_vault_group_name
normalize_vault_group_name-normal none name h = cc
normalize_vault_group_name-normal (some value) name h = elim (Bool-cases (is_empty (trim value))) [
  | inl e ↦ cc (rw (e, normalize_vault_group_name) at h)
  | inr e ↦
      elim (Bool-cases
        (ltb vault_group_name_max_length (length (trim value)) || any is_control (trim value))) [
          | inl k ↦ cc (rw (e, k, normalize_vault_group_name) at h)
          | inr k ↦
              let same : trim value ≡ name =
                ground (arith, (rw (e, k, normalize_vault_group_name) at h)) in
              rw (← same) (
                rw (trim_twice value, e, k, normalize_vault_group_name) refl,
                e,
                ground (arith, k),
                ground (arith, k),
              )
        ]
]
