-- ===== src/Feed.antt =====
-- apps/api/src/routes/events.ts: the event stream of one connection. What the database holds when a
-- row is delivered is a `World`; none stands for a query that fails. Rows are delivered one after
-- another, first the backlog, then the rows that the bus gave in the meantime, then the later ones.
pub mod Delivery
pub mod Gaps
pub mod Shown
pub mod Leaks
pub mod Race
pub mod Examples
use mima.Prelude.{
  ℕ, max, String, Bool, true, false, ◌&&◌, ◌||◌, not, Option, none, some, List, [], ◌∷◌, ◌++◌, map,
  ◌==◌, nat_eq, string_eq, if◌then◌else◌, ltb, leb, find, keep, includes, is_some,
}
use mima.Roles.{Membership, custom_group}
use mima.Access.{
  Database, SessionUser, VaultAccess, get_vault_access, list_accessible_vaults, CustomGroupRole,
}
use mima.Access
use mima.Store
use mima.Store.{ItemMeta}
use mima.Store.Events.{
  SyncEvent, item_upserted, item_deleted, vault_upserted, vault_revoked, sync_cursor, sync_ready,
}

-- `SyncEventRow` of services/bus.ts. A payload has the fields that the writer of its type gives, and
-- the readers of the other types do not look at them.
pub data RowType : Type 0 where
  row_item_upserted row_item_encrypted_upserted row_item_deleted row_vault_upserted
        row_vault_deleted :
      RowType
  row_vault_crypto_changed row_vault_rekey_required row_profile_rewrapped row_device_revoked :
      RowType

pub record Payload : Type 0 where
  pub item : ItemMeta
  pub access_changed : Bool
  pub rekey_required : Bool
  pub user_id : String
  pub device_id : String
  pub actor_device_id : String
  pub profile_version : ℕ

pub record SyncEventRow : Type 0 where
  pub id : ℕ
  pub type : RowType
  pub vault_id : String
  pub item_id : String
  pub payload : Payload

pub record SessionRow : Type 0 where
  pub id : String
  pub expires_at : ℕ
  pub locked : Bool

pub record ItemRow : Type 0 where
  pub meta : ItemMeta
  pub deleted : Bool

-- `vault_contents` gives the fields of a vault's row that are only passed on.
pub record World : Type 0 where
  pub database : Database
  pub sessions : List SessionRow
  pub items : List ItemRow
  pub vault_contents : String → String
  pub now : ℕ

pub record Connection : Type 0 where
  pub cursor : ℕ
  pub user : SessionUser
  pub session_id : String

-- `sent` is what `send` has written, in order.
pub record FeedState : Type 0 where
  pub closed : Bool
  pub last_sent : ℕ
  pub setup_seen : Option (List ℕ)
  pub known : List String
  pub sent : List SyncEvent

-- `listVaultMemberships`
unfoldable pub list_vault_memberships : Database → String → List Membership
list_vault_memberships db vault_id =
    map (λ row. row.member) (keep (λ row. row.vault_id == vault_id) db.vault_memberships)
    ++ map
        (λ row. record { subject_kind = custom_group; subject_id = row.group_id; role = row.role })
        (keep (λ row. row.vault_id == vault_id) db.vault_custom_group_roles)

-- `listVaultItems` with `toItemMeta`
unfoldable pub list_vault_items : World → String → List ItemMeta
list_vault_items w vault_id =
    map (λ row. row.meta) (keep (λ row. row.meta.vault_id == vault_id && not row.deleted) w.items)

abbrev pub to_kind : Access.VaultKind → Store.VaultKind
to_kind Access.VaultKind.personal = Store.VaultKind.personal
to_kind Access.VaultKind.team = Store.VaultKind.team

unfoldable pub to_vault_dto : World → Access.Vault → Store.Vault
to_vault_dto w row = record {
  id = row.id;
  kind = to_kind row.kind;
  content = w.vault_contents row.id;
}

unfoldable pub session_still_valid : Connection → World → Bool
session_still_valid c w = elim (find (λ r. r.id == c.session_id) w.sessions) [
  | none ↦ false
  | some r ↦ not r.locked && ltb w.now r.expires_at
]

abbrev pub without : String → List String → List String
without id ids = keep (λ k. not (k == id)) ids

-- A vault that the connection may not read now: revoked, if it was delivered before.
unfoldable pub revoke_or_skip : SyncEventRow → List String → List String × SyncEvent
revoke_or_skip row known =
    if includes known row.vault_id
    then (without row.vault_id known, vault_revoked row.id row.vault_id)
    else (known, sync_cursor row.id)

-- `known.add`
abbrev pub add_known : String → List String → List String
add_known id known = if includes known id then known else known ++ id ∷ []

unfoldable pub vault_event : World → SyncEventRow → Access.Vault → SyncEvent
unfolding list_vault_memberships list_vault_items to_vault_dto
vault_event w row vault =
    vault_upserted row.id (to_vault_dto w vault) (list_vault_memberships w.database row.vault_id)
      (if row.payload.access_changed then some (list_vault_items w row.vault_id) else none)

-- The event that answers a row of a type, for the access with a role if there is one.
unfoldable pub answer_as :
    RowType → Option VaultAccess → World → SyncEventRow → List String → List String × SyncEvent
unfolding revoke_or_skip vault_event
answer_as row_item_encrypted_upserted access w row known = (known, sync_cursor row.id)
answer_as row_vault_crypto_changed access w row known = (known, sync_cursor row.id)
answer_as row_vault_rekey_required access w row known = (known, sync_cursor row.id)
answer_as row_device_revoked access w row known = (known, sync_cursor row.id)
answer_as row_item_upserted none w row known = revoke_or_skip row known
answer_as row_item_upserted (some a) w row known =
    (add_known row.vault_id known, item_upserted row.id row.payload.item)
answer_as row_item_deleted none w row known = revoke_or_skip row known
answer_as row_item_deleted (some a) w row known =
    (add_known row.vault_id known, item_deleted row.id row.vault_id row.item_id)
answer_as row_vault_deleted access w row known = revoke_or_skip row known
answer_as row_vault_upserted none w row known = revoke_or_skip row known
answer_as row_vault_upserted (some a) w row known =
    (add_known row.vault_id known, vault_event w row a.vault)
answer_as row_profile_rewrapped none w row known = revoke_or_skip row known
answer_as row_profile_rewrapped (some a) w row known =
    (add_known row.vault_id known, vault_event w row a.vault)

-- The access with a role, if there is one.
abbrev pub with_role : Option VaultAccess → Option VaultAccess
with_role none = none
with_role (some a) = if is_some a.role then some a else none

abbrev pub vaults_of : List VaultAccess → List String
vaults_of accesses = map (λ a. a.vault.id) accesses

abbrev pub is_seen : Option (List ℕ) → ℕ → Bool
is_seen none id = false
is_seen (some ids) id = includes ids id

abbrev pub see : Option (List ℕ) → ℕ → Option (List ℕ)
see none id = none
see (some ids) id = some (id ∷ ids)

-- `readyToStream = true; setupSeen = null`.
unfoldable pub set_ready : FeedState → FeedState
set_ready s = if s.closed then s else record s { setup_seen = none }

abbrev pub add_all : List String → List String → List String
add_all [] known = known
add_all (id ∷ ids) known = add_all ids (add_known id known)

-- What follows the listing; `send` does nothing on a closed stream.
unfoldable pub send_ready : List String → FeedState → FeedState
send_ready vault_ids s =
    if s.closed then record s { known = add_all vault_ids s.known } else record s {
      known = add_all vault_ids s.known;
      sent = s.sent ++ sync_ready s.last_sent vault_ids ∷ [];
    }

module _ (public_key_fingerprint : String → String) where
  abbrev pub granted : World → SessionUser → String → Option VaultAccess
  granted w u vault_id = with_role (get_vault_access public_key_fingerprint w.database u vault_id)

  -- The event that answers a row, and what is known then.
  unfoldable pub answer : Connection → World → SyncEventRow → List String → List String × SyncEvent
  unfolding answer_as
  answer c w row known = answer_as row.type (granted w c.user row.vault_id) w row known

  -- The answer is sent; the session is checked first.
  unfoldable pub deliver_now : Connection → World → SyncEventRow → FeedState → FeedState
  unfolding answer session_still_valid
  deliver_now c w row s =
      let (known, event) = answer c w row s.known in
      if session_still_valid c w
      then record s {
        known = known;
        sent = s.sent ++ event ∷ [];
        last_sent = max s.last_sent row.id;
      }
      else record s { closed = true }

  unfoldable pub deliver : Connection → Option World × SyncEventRow → FeedState → FeedState
  unfolding deliver_now
  deliver c (world, row) s =
      if s.closed || (leb row.id c.cursor || is_seen s.setup_seen row.id) then s else elim world [
        | none ↦ record s { setup_seen = see s.setup_seen row.id; closed = true }
        | some w ↦ deliver_now c w row (record s { setup_seen = see s.setup_seen row.id })
      ]

  unfoldable pub deliver_all :
      Connection → List (Option World × SyncEventRow) → FeedState → FeedState
  deliver_all c [] s = s
  deliver_all c (row ∷ rows) s = deliver_all c rows (deliver c row s)

  -- The state when the backlog is asked for; the vaults of the first listing are known.
  unfoldable pub open_feed : Connection → World → FeedState
  open_feed c w = record {
    closed = false;
    last_sent = c.cursor;
    setup_seen = some [];
    known = vaults_of (list_accessible_vaults public_key_fingerprint w.database c.user);
    sent = [];
  }

  -- The listing that `sync.ready` is to carry.
  unfoldable pub list_ready : Connection → World → List String
  list_ready c w = vaults_of (list_accessible_vaults public_key_fingerprint w.database c.user)

  -- The handler up to the end of the setup, on the rows that it delivers in order.
  unfoldable pub setup : Connection → World → List (Option World × SyncEventRow) → FeedState
  unfolding deliver_all open_feed set_ready
  setup c w rows = set_ready (deliver_all c rows (open_feed c w))
