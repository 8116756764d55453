-- ===== src/Access/Examples.antt =====
-- The theorems on access at a database with a personal vault and an encrypted team vault.
use mima.Prelude.{
  ℕ, String, ◌≡◌, refl, Bool, true, false, none, some, [], ◌∷◌, map, eq_iff, string_eq, nat_eq,
  here, there, ◌<◌,
}
use mima.Roles.{viewer, group, resolve_effective_role}
use mima.Access.{
  Vault, UserDevice, web, device_active, personal, team, SessionUser, Database, VaultAccess,
  VaultCryptoState, e2ee, opened, full, to_user, get_vault_authorization, list_authorized_vaults,
  get_vault_access, list_accessible_vaults, require_current_envelope,
}
use mima.Access.Recovery.{
  PersonalVaultRecoveryCandidate, recovery_rows, candidate_loop, owned_candidate, candidate_if,
  target_device_of, has_current_full_envelope, list_personal_vault_recovery_candidates,
}
use mima.Access.Candidates.{HasUniqueStates}
use mima.Access.Closed.{candidate-closed}
use mima.Access.Listing.{HasUniqueIds, with_role, list_authorized_vaults-get_vault_authorization}
use mima.Access.Envelopes.{HasKey, get_vault_access-HasKey, list_accessible_vaults-get_vault_access}

abbrev pub alice : SessionUser
alice = record { id = "alice"; groups = "staff" ∷ [] }

abbrev pub own : Vault
own = record { id = "v1"; kind = personal; owner_user_id = some "alice" }

abbrev pub shared : Vault
shared = record { id = "v2"; kind = team; owner_user_id = none }

abbrev pub shared_state : VaultCryptoState
shared_state = record {
  vault_id = "v2";
  storage_mode = e2ee;
  write_state = opened;
  active_epoch = some 3;
  active_header_version = 1;
  updated_at = 40;
}

abbrev pub db : Database
db = record {
  vaults = own ∷ shared ∷ [];
  vault_memberships =
      record {
        vault_id = "v2";
        member = record { subject_kind = group; subject_id = "staff"; role = viewer };
      }
      ∷ [];
  custom_group_members = [];
  vault_custom_group_roles = [];
  vault_crypto_states = shared_state ∷ [];
  user_crypto_profiles =
      record { user_id = "alice"; crypto_generation = 2; public_encryption_key = "pk" } ∷ [];
  vault_key_envelopes =
      record {
        vault_id = "v2";
        key_epoch = 3;
        is_active = true;
        access_scope = full;
        recipient_kind = to_user;
        recipient_user_id = some "alice";
        recipient_device_id = none;
        envelope_version = 2;
        recipient_key_fingerprint = "pk!";
      }
      ∷ [];
  users = record { id = "alice"; active = true } ∷ [];
  user_devices = [];
}

abbrev pub fingerprint : String → String
fingerprint key = "pk!"

abbrev pub shared_access : VaultAccess
shared_access = record { vault = shared; role = some viewer }

pub opens_shared : get_vault_access fingerprint db alice "v2" ≡ some shared_access
unfolding get_vault_access get_vault_authorization require_current_envelope resolve_effective_role
opens_shared = refl

pub db-HasUniqueIds : HasUniqueIds db.vaults
db-HasUniqueIds v w (here) (here) e = refl
db-HasUniqueIds v w (here) (there here) e = cc ((eq_iff "v1" "v2").1 e)
db-HasUniqueIds v w (there here) (here) e = cc ((eq_iff "v2" "v1").1 e)
db-HasUniqueIds v w (there here) (there here) e = refl
db-HasUniqueIds _ w here (there (there i)) e = elim i [ ]
db-HasUniqueIds _ w (there here) (there (there i)) e = elim i [ ]
db-HasUniqueIds v w (there (there i)) _ e = elim i [ ]

list_authorized_vaults-get_vault_authorization_example :
    list_authorized_vaults db alice
    ≡ with_role (map (λ v. get_vault_authorization db alice v.id) db.vaults)
list_authorized_vaults-get_vault_authorization_example =
    list_authorized_vaults-get_vault_authorization db alice db-HasUniqueIds

get_vault_access-HasKey_example :
    (get_vault_authorization db alice "v2" ≡ some shared_access)
    × ((epoch : ℕ) × (0 < epoch)
        × (some 3 ≡ some epoch)
        × HasKey fingerprint db "v2" "alice" viewer epoch)
get_vault_access-HasKey_example =
    get_vault_access-HasKey fingerprint db alice "v2" shared_access viewer shared_state opens_shared
      refl refl refl

list_accessible_vaults-get_vault_access_example :
    list_accessible_vaults fingerprint db alice
    ≡ with_role (map (λ v. get_vault_access fingerprint db alice v.id) db.vaults)
list_accessible_vaults-get_vault_access_example =
    list_accessible_vaults-get_vault_access fingerprint db alice db-HasUniqueIds

-- The personal vault is encrypted, and no envelope of its owner is there.
abbrev pub own_state : VaultCryptoState
own_state = record {
  vault_id = "v1";
  storage_mode = e2ee;
  write_state = opened;
  active_epoch = some 1;
  active_header_version = 1;
  updated_at = 40;
}

abbrev pub device_of : String → ℕ → UserDevice
device_of id seen = record {
  id = id;
  user_id = "alice";
  device_type = web;
  status = device_active;
  device_generation = 2;
  last_seen_at = some seen;
  activated_at = none;
  created_at = 1;
}

abbrev pub lost_db : Database
lost_db = record db {
  vault_crypto_states = own_state ∷ [];
  user_devices = device_of "d1" 5 ∷ device_of "d2" 9 ∷ [];
}

abbrev pub never_less : String → String → Bool
never_less a b = false

abbrev candidate : PersonalVaultRecoveryCandidate
candidate = record {
  vault = own;
  state = own_state;
  user = record { id = "alice"; active = true };
  profile = record { user_id = "alice"; crypto_generation = 2; public_encryption_key = "pk" };
  target_device = device_of "d2" 9;
}

candidates_of_alice :
    list_personal_vault_recovery_candidates never_less lost_db (some "alice") ≡ candidate ∷ []
unfolding list_personal_vault_recovery_candidates recovery_rows candidate_loop owned_candidate
    candidate_if target_device_of has_current_full_envelope
candidates_of_alice = refl

lost-HasUniqueStates : HasUniqueStates lost_db.vault_crypto_states
lost-HasUniqueStates s t here here e = refl
lost-HasUniqueStates s t here (there i) e = elim i [ ]
lost-HasUniqueStates s t (there i) j e = elim i [ ]

candidate-closed_example :
    get_vault_access fingerprint lost_db alice "v1" ≡ some (record { vault = own; role = none })
candidate-closed_example =
    candidate-closed fingerprint never_less lost_db (some "alice") alice candidate db-HasUniqueIds
      lost-HasUniqueStates (rw candidates_of_alice here)
