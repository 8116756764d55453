-- ===== src/Store.antt =====
-- packages/client-core/src/meta-store.ts: the metadata that a client keeps in memory. Of the wire
-- records the fields that the store reads are kept, and `content` stands for the others. A Record
-- is a table; an action that calls a hook gives the calls as a list beside the new state.
pub mod Events
pub mod Tables
pub mod Orphans
pub mod Versions
pub mod Revocation
pub mod Examples
use mima.Prelude.{
  ℕ, ◌+◌, max, String, Bool, true, false, ◌&&◌, ◌||◌, not, Option, none, some, List, [], ◌∷◌, ◌++◌,
  map, ◌==◌, string_eq, nat_eq, if◌then◌else◌, ltb, or_else, is_some, is_none, keep, includes,
}
use mima.Prelude.Table
use mima.Roles.{Membership}

pub data ConnectionState : Type 0 where
  connecting online offline : ConnectionState

pub data SecurityPhase : Type 0 where
  unauthenticated authenticated_locked setup_required migration_required unlocking
        rotating_identity :
      SecurityPhase
  account_reset unlocked_online unlocked_offline rekey_blocked : SecurityPhase

pub data SecretState : Type 0 where
  present absent : SecretState

pub data VaultKind : Type 0 where
  personal team : VaultKind

pub record Vault : Type 0 where
  pub id : String
  pub kind : VaultKind
  pub content : String

-- `ItemMeta` without a secret state, `DecryptedItemMeta` with one.
pub record ItemMeta : Type 0 where
  pub id : String
  pub vault_id : String
  pub version : ℕ
  pub secret_state : Option SecretState
  pub content : String

pub record SessionUser : Type 0 where
  pub id : String
  pub groups : List String

pub record VaultMembership : Type 0 where
  pub vault_id : String
  pub membership : Membership

pub record VaultCryptoState : Type 0 where
  pub vault_id : String
  pub content : String

pub data ConflictReason : Type 0 where
  version_conflict metadata_format_outdated : ConflictReason

pub record ConflictInfo : Type 0 where
  pub item_id : String
  pub reason : Option ConflictReason
  pub current_version : ℕ
  pub current_item : Option ItemMeta

-- `Record<string, true>`
abbrev pub Flags : Type 0
Flags = List (String × Unit)

pub record MetaState : Type 0 where
  pub user : Option SessionUser
  pub security_phase : SecurityPhase
  pub locked : Bool
  pub connection : ConnectionState
  pub cursor : ℕ
  pub epoch : ℕ
  pub vaults : List (String × Vault)
  pub items : List (String × ItemMeta)
  pub memberships : List (String × List Membership)
  pub pending_item_ids : Flags
  pub conflicts : List (String × ConflictInfo)
  pub last_revoked_vault_id : Option String
  pub vault_crypto : List (String × VaultCryptoState)
  pub pending_vault_access_ids : Flags
  pub vault_directories : List (String × List String)

abbrev pub initial_state : MetaState
initial_state = record {
  user = none;
  security_phase = unauthenticated;
  locked = false;
  connection = connecting;
  cursor = 0;
  epoch = 0;
  vaults = [];
  items = [];
  memberships = [];
  pending_item_ids = [];
  conflicts = [];
  last_revoked_vault_id = none;
  vault_crypto = [];
  pending_vault_access_ids = [];
  vault_directories = [];
}

abbrev pub with_secret_state : ItemMeta → ItemMeta
with_secret_state item = record item { secret_state = some (or_else item.secret_state present) }

-- `Object.fromEntries` and the loops that assign, on a table that is there already.
abbrev pub set_all {ℓ} : {V : Type ℓ} → List (String × V) → List (String × V) → List (String × V)
set_all m [] = m
set_all m ((k, v) ∷ entries) = set_all (Table.set m k v) entries

abbrev pub delete_all {ℓ} : {V : Type ℓ} → List (String × V) → List String → List (String × V)
delete_all m [] = m
delete_all m (k ∷ ks) = delete_all (Table.delete m k) ks

abbrev pub group_from :
    List (String × List Membership) → List VaultMembership → List (String × List Membership)
group_from m [] = m
group_from m (r ∷ rows) =
    group_from (Table.set m r.vault_id (or_else (Table.get m r.vault_id) [] ++ r.membership ∷ []))
      rows

unfoldable pub group_memberships : List VaultMembership → List (String × List Membership)
group_memberships rows = group_from [] rows

pub record BootstrapResponse : Type 0 where
  pub user : SessionUser
  pub cursor : ℕ
  pub vaults : List Vault
  pub items : List ItemMeta
  pub memberships : List VaultMembership

abbrev pub vault_entry : Vault → String × Vault
vault_entry v = (v.id, v)

abbrev pub item_entry : ItemMeta → String × ItemMeta
item_entry item = (item.id, item)

unfoldable pub apply_bootstrap : BootstrapResponse → MetaState → MetaState
unfolding group_memberships
apply_bootstrap answer s = record s {
  user = some answer.user;
  cursor = answer.cursor;
  vaults = set_all [] (map vault_entry answer.vaults);
  items =
      set_all [] (map (λ i. item_entry (record i { secret_state = some present })) answer.items);
  memberships = group_memberships answer.memberships;
  pending_item_ids = [];
  pending_vault_access_ids = [];
  vault_directories = [];
}

pub record DecryptedBootstrap : Type 0 where
  pub user : SessionUser
  pub cursor : ℕ
  pub vaults : List Vault
  pub items : List ItemMeta
  pub memberships : List VaultMembership
  pub vault_crypto : List (String × VaultCryptoState)
  pub pending_vault_access_ids : Option Flags
  pub vault_directories : List (String × List String)

abbrev pub keys {ℓ} : {V : Type ℓ} → List (String × V) → List String
keys m = map (λ e. e.0) m

-- The conflicts on items that are still there.
unfoldable pub live_conflicts :
    List (String × ItemMeta) → List (String × ConflictInfo) → List (String × ConflictInfo)
live_conflicts items conflicts = keep (λ e. is_some (Table.get items e.0)) conflicts

unfoldable pub apply_decrypted_bootstrap : DecryptedBootstrap → MetaState → MetaState
unfolding group_memberships live_conflicts
apply_decrypted_bootstrap answer s =
    let items = set_all [] (map item_entry answer.items) in
    record s {
      user = some answer.user;
      locked = false;
      cursor = answer.cursor;
      vaults = set_all [] (map vault_entry answer.vaults);
      items = items;
      memberships = group_memberships answer.memberships;
      pending_item_ids = [];
      conflicts = live_conflicts items s.conflicts;
      vault_crypto = answer.vault_crypto;
      pending_vault_access_ids = or_else answer.pending_vault_access_ids [];
      vault_directories = answer.vault_directories;
    }

unfoldable pub set_connection : ConnectionState → MetaState → MetaState
set_connection c s = record s { connection = c }

unfoldable pub advance_cursor : ℕ → MetaState → MetaState
advance_cursor incoming s = record s { cursor = max s.cursor incoming }

unfoldable pub lock_projection : MetaState → MetaState
lock_projection s = record s {
  locked = true;
  security_phase = authenticated_locked;
  cursor = 0;
  vaults = [];
  items = [];
  memberships = [];
  pending_item_ids = [];
  conflicts = [];
  vault_crypto = [];
  pending_vault_access_ids = [];
  vault_directories = [];
  epoch = s.epoch + 1;
}

unfoldable pub upsert_item_optimistic : ItemMeta → MetaState → MetaState
upsert_item_optimistic item s = record s {
  items = Table.set s.items item.id (with_secret_state item);
  pending_item_ids = Table.set s.pending_item_ids item.id tt;
}

-- Is the item gone, or its vault, or is the current version a newer one?
abbrev pub keeps_current : MetaState → ItemMeta → Option ItemMeta → Bool
keeps_current s item none = true
keeps_current s item (some current) =
    is_none (Table.get s.vaults item.vault_id) || ltb item.version current.version

unfoldable pub rollback_item : ItemMeta → MetaState → MetaState
rollback_item item s =
    let restored = with_secret_state item in
    let pending = Table.delete s.pending_item_ids restored.id in
    if keeps_current s restored (Table.get s.items restored.id)
    then record s { pending_item_ids = pending }
    else record s { items = Table.set s.items restored.id restored; pending_item_ids = pending }

unfoldable pub mark_pending : String → Bool → MetaState → MetaState
mark_pending item_id true s = record s {
  pending_item_ids = Table.set s.pending_item_ids item_id tt;
}
mark_pending item_id false s = record s {
  pending_item_ids = Table.delete s.pending_item_ids item_id;
}

unfoldable pub set_conflict : Option ConflictInfo → String → MetaState → MetaState
set_conflict (some c) item_id s = record s { conflicts = Table.set s.conflicts item_id c }
set_conflict none item_id s = record s { conflicts = Table.delete s.conflicts item_id }

unfoldable pub reset : MetaState → MetaState
reset s = record initial_state { epoch = s.epoch + 1 }
