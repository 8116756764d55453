-- ===== src/Access.antt =====
-- apps/api/src/services/access.ts: who may open which vault. A database is the lists of the rows
-- that its queries read; a query with `limit(1)` on a key takes the first row that fits.
pub mod Listing
pub mod Envelopes
pub mod Recovery
pub mod Candidates
pub mod Closed
pub mod Examples
use mima.Prelude.{
  ℕ, zero, suc, String, Bool, true, false, ◌&&◌, Option, none, some, List, [], ◌∷◌, ◌++◌, map, ◌==◌,
  nat_eq, string_eq, if◌then◌else◌, find, keep, any, includes, is_some,
}
use mima.Roles.{
  MembershipRole, auditor, viewer, editor, owner, user, group, Membership, SubjectRef,
  resolve_effective_role,
}

pub data VaultKind : Type 0 where
  personal team : VaultKind

pub record Vault : Type 0 where
  pub id : String
  pub kind : VaultKind
  pub owner_user_id : Option String

pub record SessionUser : Type 0 where
  pub id : String
  pub groups : List String

pub record VaultMembership : Type 0 where
  pub vault_id : String
  pub member : Membership

pub record CustomGroupMember : Type 0 where
  pub group_id : String
  pub user_id : String

pub record CustomGroupRole : Type 0 where
  pub vault_id : String
  pub group_id : String
  pub role : MembershipRole

pub data StorageMode : Type 0 where
  legacy e2ee : StorageMode

pub data WriteState : Type 0 where
  opened frozen rekeying : WriteState

pub record VaultCryptoState : Type 0 where
  pub vault_id : String
  pub storage_mode : StorageMode
  pub write_state : WriteState
  pub active_epoch : Option ℕ
  pub active_header_version : ℕ
  pub updated_at : ℕ

pub record UserCryptoProfile : Type 0 where
  pub user_id : String
  pub crypto_generation : ℕ
  pub public_encryption_key : String

pub data AccessScope : Type 0 where
  metadata full recovery : AccessScope

pub data RecipientKind : Type 0 where
  to_user to_device to_enterprise_recovery : RecipientKind

pub record VaultKeyEnvelope : Type 0 where
  pub vault_id : String
  pub key_epoch : ℕ
  pub is_active : Bool
  pub access_scope : AccessScope
  pub recipient_kind : RecipientKind
  pub recipient_user_id : Option String
  pub recipient_device_id : Option String
  pub envelope_version : ℕ
  pub recipient_key_fingerprint : String

pub record User : Type 0 where
  pub id : String
  pub active : Bool

pub data DeviceType : Type 0 where
  web extension desktop mobile : DeviceType

pub data DeviceStatus : Type 0 where
  device_pending device_active device_revoked : DeviceStatus

pub record UserDevice : Type 0 where
  pub id : String
  pub user_id : String
  pub device_type : DeviceType
  pub status : DeviceStatus
  pub device_generation : ℕ
  pub last_seen_at : Option ℕ
  pub activated_at : Option ℕ
  pub created_at : ℕ

pub record Database : Type 0 where
  pub vaults : List Vault
  pub vault_memberships : List VaultMembership
  pub custom_group_members : List CustomGroupMember
  pub vault_custom_group_roles : List CustomGroupRole
  pub vault_crypto_states : List VaultCryptoState
  pub user_crypto_profiles : List UserCryptoProfile
  pub vault_key_envelopes : List VaultKeyEnvelope
  pub users : List User
  pub user_devices : List UserDevice

pub record VaultAccess : Type 0 where
  pub vault : Vault
  pub role : Option MembershipRole

abbrev pub equals_text : Option String → String → Bool
equals_text none s = false
equals_text (some t) s = t == s

pub list_user_custom_group_ids : Database → String → List String
list_user_custom_group_ids db user_id =
    map (λ row. row.group_id) (keep (λ row. row.user_id == user_id) db.custom_group_members)

abbrev pub as_membership : CustomGroupRole → Membership
as_membership row = record { subject_kind = group; subject_id = row.group_id; role = row.role }

-- `ownerUserId === user.id ? 'owner' : null`
abbrev pub personal_role : Vault → SessionUser → Option MembershipRole
personal_role vault u = if equals_text vault.owner_user_id u.id then some owner else none

-- The subject that both resolutions pass on.
abbrev pub subject_of : SessionUser → List String → SubjectRef
subject_of u custom_group_ids = record { user_id = u.id; groups = u.groups ++ custom_group_ids }

-- The team branch: both row sets are asked for this one vault.
pub team_role : Database → SessionUser → String → Option MembershipRole
unfolding list_user_custom_group_ids
team_role db u vault_id =
    let custom_group_ids = list_user_custom_group_ids db u.id in
    let memberships = keep (λ row. row.vault_id == vault_id) db.vault_memberships in
    let custom_roles =
      keep (λ row. row.vault_id == vault_id && includes custom_group_ids row.group_id)
        db.vault_custom_group_roles in
    resolve_effective_role (map (λ row. row.member) memberships ++ map as_membership custom_roles)
      (subject_of u custom_group_ids)

authorization_of : Database → SessionUser → Vault → Option MembershipRole
unfolding team_role
authorization_of db u vault = elim vault.kind [
  | personal ↦ personal_role vault u
  | team ↦ team_role db u vault.id
]

unfoldable pub get_vault_authorization : Database → SessionUser → String → Option VaultAccess
unfolding authorization_of
get_vault_authorization db u vault_id = elim (find (λ v. v.id == vault_id) db.vaults) [
  | none ↦ none
  | some vault ↦ some (record { vault = vault; role = authorization_of db u vault })
]

abbrev pub is_team : Vault → Bool
is_team v = elim v.kind [ personal ↦ false | team ↦ true ]

-- The rows that `listAuthorizedVaults` reads once for all team vaults.
pub record TeamRows : Type 0 where
  pub memberships : List VaultMembership
  pub custom_roles : List CustomGroupRole
  pub custom_group_ids : List String

pub team_rows : Database → SessionUser → TeamRows
unfolding list_user_custom_group_ids
team_rows db u =
    let team_ids = map (λ (v : Vault). v.id) (keep is_team db.vaults) in
    let custom_group_ids = list_user_custom_group_ids db u.id in
    record {
      memberships = keep (λ row. includes team_ids row.vault_id) db.vault_memberships;
      custom_roles =
          keep (λ row. includes team_ids row.vault_id && includes custom_group_ids row.group_id)
            db.vault_custom_group_roles;
      custom_group_ids = custom_group_ids;
    }

-- The role of a team vault from those rows, by the grouping `byVault` and the filter.
pub team_role_from : TeamRows → SessionUser → Vault → Option MembershipRole
team_role_from rows u vault =
    resolve_effective_role
      (map (λ row. row.member) (keep (λ row. row.vault_id == vault.id) rows.memberships)
        ++ map as_membership (keep (λ row. row.vault_id == vault.id) rows.custom_roles))
      (subject_of u rows.custom_group_ids)

listed_role : TeamRows → SessionUser → Vault → Option MembershipRole
unfolding team_role_from
listed_role rows u vault = elim vault.kind [
  | personal ↦ personal_role vault u
  | team ↦ team_role_from rows u vault
]

-- `if (role) result.push({ vault, role })`
abbrev pub push_if_role : Vault → Option MembershipRole → List VaultAccess → List VaultAccess
push_if_role vault none rest = rest
push_if_role vault (some role) rest = record { vault = vault; role = some role } ∷ rest

authorized_loop : TeamRows → SessionUser → List Vault → List VaultAccess
unfolding listed_role
authorized_loop rows u [] = []
authorized_loop rows u (vault ∷ vaults) =
    push_if_role vault (listed_role rows u vault) (authorized_loop rows u vaults)

unfoldable pub list_authorized_vaults : Database → SessionUser → List VaultAccess
unfolding authorized_loop team_rows
list_authorized_vaults db u = authorized_loop (team_rows db u) u db.vaults

-- `!state.activeEpoch`: no epoch, or epoch 0, counts as none.
abbrev pub live_epoch : Option ℕ → Option ℕ
live_epoch none = none
live_epoch (some zero) = none
live_epoch (some (suc n)) = some (suc n)

abbrev pub scope_is : AccessScope → AccessScope → Bool
scope_is metadata metadata = true
scope_is full full = true
scope_is recovery recovery = true
scope_is _ _ = false

-- `role === 'auditor' ? ['metadata'] : ['full']`
abbrev pub scope_of : MembershipRole → AccessScope
scope_of auditor = metadata
scope_of _ = full

abbrev pub is_user_recipient : RecipientKind → Bool
is_user_recipient to_user = true
is_user_recipient _ = false

-- The `where` of the query for the envelope.
abbrev pub is_current_envelope :
    String → ℕ → AccessScope → UserCryptoProfile → String → VaultKeyEnvelope → Bool
is_current_envelope vault_id epoch scope profile fingerprint e =
    e.vault_id == vault_id
    && (e.key_epoch == epoch
        && (e.is_active
            && (scope_is e.access_scope scope
                && (is_user_recipient e.recipient_kind
                    && (equals_text e.recipient_user_id profile.user_id
                        && (e.envelope_version == profile.crypto_generation
                            && e.recipient_key_fingerprint == fingerprint))))))

-- `public_key_fingerprint` hashes a public key by SHA-256, which the platform provides.
module _ (public_key_fingerprint : String → String) where
  has_current_envelope : Database → String → ℕ → AccessScope → UserCryptoProfile → Bool
  has_current_envelope db vault_id epoch scope profile =
      let fingerprint = public_key_fingerprint profile.public_encryption_key in
      any (is_current_envelope vault_id epoch scope profile fingerprint) db.vault_key_envelopes

  check_profile : Database → String → String → MembershipRole → ℕ → Option MembershipRole
  unfolding has_current_envelope
  check_profile db vault_id user_id role epoch =
      elim (find (λ p. p.user_id == user_id) db.user_crypto_profiles) [
        | none ↦ none
        | some profile ↦
            if has_current_envelope db vault_id epoch (scope_of role) profile
            then some role
            else none
      ]

  check_state :
      Database → String → String → MembershipRole → VaultCryptoState → Option MembershipRole
  unfolding check_profile
  check_state db vault_id user_id role state = elim state.storage_mode [
    | legacy ↦ some role
    | e2ee ↦ elim (live_epoch state.active_epoch) [
      | none ↦ none
      | some epoch ↦ check_profile db vault_id user_id role epoch
    ]
  ]

  unfoldable pub require_current_envelope :
      Database → String → String → Option MembershipRole → Option MembershipRole
  unfolding check_state
  require_current_envelope db vault_id user_id none = none
  require_current_envelope db vault_id user_id (some role) =
      elim (find (λ s. s.vault_id == vault_id) db.vault_crypto_states) [
        | none ↦ some role
        | some state ↦ check_state db vault_id user_id role state
      ]

  -- An authorization, cut down to the role for which an envelope is there.
  abbrev pub with_envelope : Database → SessionUser → VaultAccess → VaultAccess
  with_envelope db u a = record a { role = require_current_envelope db a.vault.id u.id a.role }

  unfoldable pub get_vault_access : Database → SessionUser → String → Option VaultAccess
  get_vault_access db u vault_id = elim (get_vault_authorization db u vault_id) [
    | none ↦ none
    | some a ↦ some (with_envelope db u a)
  ]

  accessible_loop : Database → SessionUser → List VaultAccess → List VaultAccess
  accessible_loop db u [] = []
  accessible_loop db u (a ∷ rest) =
      push_if_role a.vault (require_current_envelope db a.vault.id u.id a.role)
        (accessible_loop db u rest)

  unfoldable pub list_accessible_vaults : Database → SessionUser → List VaultAccess
  unfolding accessible_loop
  list_accessible_vaults db u = accessible_loop db u (list_authorized_vaults db u)
