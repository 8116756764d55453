-- ===== src/EncryptedFeed.antt =====
-- apps/api/src/routes/e2ee-events.ts: the encrypted event stream of one connection. What the queries
-- of one delivery find is a `Vaults`; none stands for a query that fails. An answer is sent with the
-- fields of its event; base64 and the words of fixed fields are left to the writer.
pub mod Steps
pub mod Silence
pub mod Entitled
pub mod Confined
pub mod Examples
use mima.Prelude.{
  ℕ, zero, suc, max, String, Bool, true, false, ◌&&◌, ◌||◌, not, Option, none, some, List, [], ◌∷◌,
  ◌++◌, map, ◌==◌, nat_eq, string_eq, if◌then◌else◌, ltb, leb, find, keep, any, includes, is_some,
}
use mima.Access.{
  Database, SessionUser, VaultAccess, VaultCryptoState, WriteState, opened, frozen, rekeying,
  StorageMode, legacy, e2ee, get_vault_access, get_vault_authorization, list_accessible_vaults,
  list_authorized_vaults, is_team, live_epoch,
}
use mima.Access.Recovery.{list_personal_vault_recovery_candidates}
use mima.Store.{ItemMeta}
use mima.Feed.{
  SyncEventRow, RowType, row_item_upserted, row_item_encrypted_upserted, row_item_deleted,
  row_vault_upserted, row_vault_deleted, row_vault_crypto_changed, row_vault_rekey_required,
  row_profile_rewrapped, row_device_revoked, SessionRow, Connection, add_known, add_all, without,
  vaults_of,
}

pub data JobStatus : Type 0 where
  job_pending distributing rewrapping verifying ready committed failed cancelled : JobStatus

pub record VaultRekeyJob : Type 0 where
  pub id : String
  pub vault_id : String
  pub status : JobStatus
  pub to_epoch : ℕ

pub record CipherBlob : Type 0 where
  pub nonce : String
  pub ciphertext : String

pub record EncryptedVaultHeader : Type 0 where
  pub vault_id : String
  pub key_epoch : ℕ
  pub header_version : ℕ
  pub blob : CipherBlob
  pub created_at : ℕ
  pub created_by_device_id : String

pub record Vaults : Type 0 where
  pub database : Database
  pub sessions : List SessionRow
  pub vault_rekey_jobs : List VaultRekeyJob
  pub encrypted_vault_headers : List EncryptedVaultHeader
  pub now : ℕ

pub data CryptoStatus : Type 0 where
  status_rekey_required status_e2ee status_frozen status_legacy : CryptoStatus

-- `VaultCryptoState` of the contracts.
pub record StateDto : Type 0 where
  pub vault_id : String
  pub status : CryptoStatus
  pub active_epoch : ℕ
  pub pending_epoch : Option ℕ
  pub rekey_task_id : Option String
  pub encrypted_header : Option CipherBlob
  pub recovery_required : Bool
  pub updated_at : ℕ

pub data EncryptedSyncEvent : Type 0 where
  item_encrypted_upserted : ℕ → ItemMeta → EncryptedSyncEvent
  encrypted_item_deleted : ℕ → String → String → EncryptedSyncEvent
  vault_crypto_changed : ℕ → StateDto → Option EncryptedVaultHeader → EncryptedSyncEvent
  vault_rekey_required : ℕ → String → ℕ → String → EncryptedSyncEvent
  encrypted_vault_revoked : ℕ → String → EncryptedSyncEvent
  profile_rewrapped : ℕ → String → ℕ → EncryptedSyncEvent
  device_revoked : ℕ → String → EncryptedSyncEvent
  cursor_only : ℕ → EncryptedSyncEvent
  encrypted_sync_ready : ℕ → List String → EncryptedSyncEvent

-- How far the handler is: it awaits its queries, or has set `ready`, or a query has thrown.
pub data Phase : Type 0 where
  setting_up streaming thrown : Phase

pub record StreamState : Type 0 where
  pub phase : Phase
  pub closed : Bool
  pub last_sent : ℕ
  pub buffer : List SyncEventRow
  pub known : List String
  pub sent : List EncryptedSyncEvent

-- What the user may do in the vault of a row.
pub record Standing : Type 0 where
  pub has_access : Bool
  pub waiting_for_envelope : Bool
  pub recovery_required : Bool

unfoldable pub is_session_valid : Connection → Vaults → Bool
is_session_valid c w = elim (find (λ r. r.id == c.session_id) w.sessions) [
  | none ↦ false
  | some r ↦ not r.locked && ltb w.now r.expires_at
]

abbrev pub is_running : JobStatus → Bool
is_running committed = false
is_running failed = false
is_running cancelled = false
is_running _ = true

abbrev pub running_job : Vaults → String → Option VaultRekeyJob
running_job w vault_id =
    find (λ j. j.vault_id == vault_id && is_running j.status) w.vault_rekey_jobs

abbrev pub is_rekeying : WriteState → Bool
is_rekeying rekeying = true
is_rekeying _ = false

abbrev pub status_of : StorageMode → WriteState → CryptoStatus
status_of e2ee rekeying = status_rekey_required
status_of e2ee _ = status_e2ee
status_of legacy frozen = status_frozen
status_of legacy _ = status_legacy

unfoldable pub current_header : Vaults → VaultCryptoState → Option EncryptedVaultHeader
current_header w state = elim (live_epoch state.active_epoch) [
  | none ↦ none
  | some epoch ↦
      find
        (λ h.
          h.vault_id == state.vault_id
          && (h.key_epoch == epoch && h.header_version == state.active_header_version))
        w.encrypted_vault_headers
]

abbrev pub epoch_or_zero : Option ℕ → ℕ
epoch_or_zero none = 0
epoch_or_zero (some n) = n

abbrev pub option_map {ℓ κ} : {A : Type ℓ} {B : Type κ} → (A → B) → Option A → Option B
option_map f none = none
option_map f (some a) = some (f a)

abbrev pub only_if {ℓ} : {A : Type ℓ} → Bool → Option A → Option A
only_if b o = if b then o else none

unfoldable pub crypto_event : Vaults → SyncEventRow → Standing → EncryptedSyncEvent
unfolding current_header
crypto_event w row s =
    elim (find (λ t. t.vault_id == row.vault_id) w.database.vault_crypto_states) [
      | none ↦ cursor_only row.id
      | some state ↦
          let rekey = only_if (is_rekeying state.write_state) (running_job w row.vault_id) in
          let header = only_if (s.has_access || s.recovery_required) (current_header w state) in
          vault_crypto_changed row.id
            (record {
              vault_id = state.vault_id;
              status = status_of state.storage_mode state.write_state;
              active_epoch = epoch_or_zero state.active_epoch;
              pending_epoch = option_map (λ j. j.to_epoch) rekey;
              rekey_task_id =
                  only_if (s.has_access && not s.recovery_required) (option_map (λ j. j.id) rekey);
              encrypted_header = option_map (λ h. h.blob) header;
              recovery_required = s.recovery_required;
              updated_at = state.updated_at;
            })
            header
    ]

unfoldable pub rekey_event : Vaults → SyncEventRow → Bool → EncryptedSyncEvent
rekey_event w row false = cursor_only row.id
rekey_event w row true = elim (running_job w row.vault_id) [
  | none ↦ cursor_only row.id
  | some task ↦ vault_rekey_required row.id row.vault_id task.to_epoch task.id
]

-- The other rows that carry the mark `rekeyRequired`.
abbrev pub rekey_or : SyncEventRow → Vaults → Standing → EncryptedSyncEvent → EncryptedSyncEvent
rekey_or row w s other =
    if row.payload.rekey_required then rekey_event w row s.has_access else other

-- The event for a row of a vault in which the user has a standing.
unfoldable pub vault_event_as : RowType → Vaults → SyncEventRow → Standing → EncryptedSyncEvent
unfolding rekey_event crypto_event
vault_event_as row_item_encrypted_upserted w row s =
    if s.has_access then item_encrypted_upserted row.id row.payload.item else cursor_only row.id
vault_event_as row_item_deleted w row s =
    if s.has_access
    then encrypted_item_deleted row.id row.vault_id row.item_id
    else cursor_only row.id
vault_event_as row_vault_rekey_required w row s = rekey_event w row s.has_access
vault_event_as row_vault_crypto_changed w row s = rekey_or row w s (crypto_event w row s)
vault_event_as row_item_upserted w row s = rekey_or row w s (cursor_only row.id)
vault_event_as row_vault_upserted w row s = rekey_or row w s (cursor_only row.id)
vault_event_as row_vault_deleted w row s = rekey_or row w s (cursor_only row.id)
vault_event_as row_profile_rewrapped w row s = rekey_or row w s (cursor_only row.id)
vault_event_as row_device_revoked w row s = rekey_or row w s (cursor_only row.id)

abbrev pub has_standing : Standing → Bool
has_standing s = s.has_access || (s.waiting_for_envelope || s.recovery_required)

unfoldable pub answer_vault :
    Vaults → SyncEventRow → Standing → List String → List String × EncryptedSyncEvent
unfolding vault_event_as
answer_vault w row s known =
    if has_standing s
    then (add_known row.vault_id known, vault_event_as row.type w row s)
    else if includes known row.vault_id
    then (without row.vault_id known, encrypted_vault_revoked row.id row.vault_id)
    else (known, cursor_only row.id)

abbrev pub has_role : Option VaultAccess → Bool
has_role none = false
has_role (some a) = is_some a.role

-- `authorization?.vault.kind === 'team' && Boolean(authorization.role)`
abbrev pub has_team_role : Option VaultAccess → Bool
has_team_role none = false
has_team_role (some a) = is_team a.vault && is_some a.role
