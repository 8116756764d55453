-- ===== src/Access/Recovery.antt =====
-- apps/api/src/services/access.ts: the personal vaults whose owner has no current envelope, and which
-- the company may restore to a device of the owner. `localeCompare` is the platform's.
use mima.Prelude.{
  ℕ, String, Bool, true, false, ◌&&◌, ◌||◌, not, Option, none, some, List, [], ◌∷◌, map, ◌==◌,
  nat_eq, string_eq, if◌then◌else◌, keep, any, includes, or_else, ltb,
}
use mima.Access.{
  Vault, Database, User, UserDevice, DeviceType, web, DeviceStatus, device_active,
  UserCryptoProfile, VaultCryptoState, StorageMode, legacy, e2ee, VaultKeyEnvelope, scope_is, full,
  equals_text, live_epoch, is_team,
}

pub record PersonalVaultRecoveryCandidate : Type 0 where
  pub vault : Vault
  pub state : VaultCryptoState
  pub user : User
  pub profile : UserCryptoProfile
  pub target_device : UserDevice

-- `deviceActivityTime`
abbrev pub device_activity_time : UserDevice → ℕ
device_activity_time d = or_else d.last_seen_at (or_else d.activated_at d.created_at)

-- `new Map(rows.map(…)).get(key)`: the last row of the key.
abbrev pub find_last {ℓ} : {A : Type ℓ} → (A → Bool) → List A → Option A
find_last p [] = none
find_last p (x ∷ xs) = elim (find_last p xs) [
  | none ↦ if p x then some x else none
  | some y ↦ some y
]

abbrev pub is_e2ee : StorageMode → Bool
is_e2ee legacy = false
is_e2ee e2ee = true

abbrev pub is_web : DeviceType → Bool
is_web web = true
is_web _ = false

abbrev pub is_active_device : DeviceStatus → Bool
is_active_device device_active = true
is_active_device _ = false

-- The filter on the owner; an empty id is as none.
abbrev pub is_asked : Option String → Vault → Bool
is_asked none v = true
is_asked (some id) v = id == "" || equals_text v.owner_user_id id

abbrev pub owner_ids : List Vault → List String
owner_ids [] = []
owner_ids (v ∷ vs) = elim v.owner_user_id [ none ↦ owner_ids vs | some id ↦ id ∷ owner_ids vs ]

abbrev pub is_empty {ℓ} : {A : Type ℓ} → List A → Bool
is_empty [] = true
is_empty (x ∷ xs) = false

-- The rows that are read at once for all the vaults.
pub record RecoveryRows : Type 0 where
  pub states : List VaultCryptoState
  pub active_users : List User
  pub profiles : List UserCryptoProfile
  pub active_devices : List UserDevice
  pub active_envelopes : List VaultKeyEnvelope

unfoldable pub recovery_rows : Database → List String → List String → RecoveryRows
recovery_rows db vault_ids owners = record {
  states =
      keep (λ s. includes vault_ids s.vault_id && is_e2ee s.storage_mode) db.vault_crypto_states;
  active_users = keep (λ u. includes owners u.id && u.active) db.users;
  profiles = keep (λ p. includes owners p.user_id) db.user_crypto_profiles;
  active_devices =
      keep (λ d. includes owners d.user_id && (is_web d.device_type && is_active_device d.status))
        db.user_devices;
  active_envelopes =
      keep (λ e. includes vault_ids e.vault_id && (e.is_active && scope_is e.access_scope full))
        db.vault_key_envelopes;
}

abbrev pub has_generation : Option UserCryptoProfile → UserDevice → Bool
has_generation none d = false
has_generation (some profile) d = d.device_generation == profile.crypto_generation

abbrev pub is_included : List String → Option String → Bool
is_included ids none = false
is_included ids (some id) = includes ids id

-- The test of `hasCurrentFullEnvelope`.
abbrev pub is_held : Vault → String → List UserDevice → ℕ → VaultKeyEnvelope → Bool
is_held vault owner devices epoch e =
    e.vault_id == vault.id
    && (e.key_epoch == epoch
        && (equals_text e.recipient_user_id owner
            || is_included (map (λ d. d.id) devices) e.recipient_device_id))

unfoldable pub has_current_full_envelope :
    List VaultKeyEnvelope → Vault → String → List UserDevice → ℕ → Bool
has_current_full_envelope envelopes vault owner devices epoch =
    any (is_held vault owner devices epoch) envelopes

-- The guards of the loop, on what was found for a vault; `held` is the test for an epoch.
unfoldable pub candidate_if :
    Vault
    → Option VaultCryptoState
    → Option User
    → Option UserCryptoProfile
    → Option UserDevice
    → (ℕ → Bool)
    → Option PersonalVaultRecoveryCandidate
candidate_if vault none user profile device held = none
candidate_if vault (some state) none profile device held = none
candidate_if vault (some state) (some user) none device held = none
candidate_if vault (some state) (some user) (some profile) none held = none
candidate_if vault (some state) (some user) (some profile) (some device) held =
    elim (live_epoch state.active_epoch) [
      | none ↦ none
      | some epoch ↦
          if held epoch
          then none
          else some (record {
            vault = vault;
            state = state;
            user = user;
            profile = profile;
            target_device = device;
          })
    ]

abbrev pub push_candidate {ℓ} : {A : Type ℓ} → Option A → List A → List A
push_candidate none rest = rest
push_candidate (some c) rest = c ∷ rest

-- `locale_compare_less a b` is `a.localeCompare(b) < 0`.
module _ (locale_compare_less : String → String → Bool) where
  -- The sort puts `d` before `best`.
  abbrev pub is_before : UserDevice → UserDevice → Bool
  is_before d best =
      ltb (device_activity_time best) (device_activity_time d)
      || (device_activity_time best == device_activity_time d && locale_compare_less best.id d.id)

  abbrev pub first_of : UserDevice → List UserDevice → UserDevice
  first_of best [] = best
  first_of best (d ∷ ds) = first_of (if is_before d best then d else best) ds

  -- The first device of the sorted list.
  unfoldable pub target_device_of : List UserDevice → Option UserDevice
  target_device_of [] = none
  target_device_of (d ∷ ds) = some (first_of d ds)

  unfoldable pub owned_candidate :
      RecoveryRows → Vault → String → Option PersonalVaultRecoveryCandidate
  owned_candidate rows vault owner =
      let profile = find_last (λ p. p.user_id == owner) rows.profiles in
      let devices =
        keep (λ d. d.user_id == owner && has_generation profile d) rows.active_devices in
      candidate_if vault (find_last (λ s. s.vault_id == vault.id) rows.states)
        (find_last (λ u. u.id == owner) rows.active_users) profile (target_device_of devices)
        (has_current_full_envelope rows.active_envelopes vault owner devices)

  abbrev pub candidate_of :
      RecoveryRows → Vault → Option String → Option PersonalVaultRecoveryCandidate
  candidate_of rows vault none = none
  candidate_of rows vault (some owner) =
      if owner == "" then none else owned_candidate rows vault owner

  unfoldable pub candidate_loop : RecoveryRows → List Vault → List PersonalVaultRecoveryCandidate
  candidate_loop rows [] = []
  candidate_loop rows (vault ∷ vaults) =
      push_candidate (candidate_of rows vault vault.owner_user_id) (candidate_loop rows vaults)

  unfoldable pub list_personal_vault_recovery_candidates :
      Database → Option String → List PersonalVaultRecoveryCandidate
  list_personal_vault_recovery_candidates db user_id =
      let personal_vaults = keep (λ v. not (is_team v) && is_asked user_id v) db.vaults in
      let owners = owner_ids personal_vaults in
      if is_empty personal_vaults || is_empty owners
      then []
      else candidate_loop (recovery_rows db (map (λ (v : Vault). v.id) personal_vaults) owners)
          personal_vaults
