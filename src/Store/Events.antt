-- ===== src/Store/Events.antt =====
-- `applyEvent` of packages/client-core/src/meta-store.ts, one function for each type of event.
use mima.Prelude.{
  ℕ, max, String, Bool, true, false, ◌&&◌, ◌||◌, not, Option, none, some, List, [], ◌∷◌, ◌++◌, map,
  ◌==◌, string_eq, nat_eq, if◌then◌else◌, ltb, is_none, keep, includes,
}
use mima.Prelude.Table
use mima.Roles.{Membership, SubjectRef, resolve_effective_role, can_reveal}
use mima.Store.{
  MetaState, Vault, VaultKind, team, personal, ItemMeta, SessionUser, with_secret_state, set_all,
  delete_all, item_entry, keys,
}

pub data SyncEvent : Type 0 where
  item_upserted : ℕ → ItemMeta → SyncEvent
  item_deleted : ℕ → String → String → SyncEvent
  vault_upserted : ℕ → Vault → List Membership → Option (List ItemMeta) → SyncEvent
  vault_revoked : ℕ → String → SyncEvent
  sync_cursor : ℕ → SyncEvent
  sync_ready : ℕ → List String → SyncEvent

abbrev pub event_cursor : SyncEvent → ℕ
event_cursor (item_upserted c item) = c
event_cursor (item_deleted c vault_id item_id) = c
event_cursor (vault_upserted c vault memberships items) = c
event_cursor (vault_revoked c vault_id) = c
event_cursor (sync_cursor c) = c
event_cursor (sync_ready c vault_ids) = c

-- The calls of the hooks `onItemStale` and `onVaultRevoked`.
pub data HookCall : Type 0 where
  on_item_stale : String → HookCall
  on_vault_revoked : List String → HookCall

-- The ids of the entries whose item passes the test.
abbrev pub ids_where : (ItemMeta → Bool) → List (String × ItemMeta) → List String
ids_where p items = keys (keep (λ e. p e.1) items)

abbrev pub in_vault : String → ItemMeta → Bool
in_vault vault_id item = item.vault_id == vault_id

abbrev pub is_older : ItemMeta → Option ItemMeta → Bool
is_older incoming none = false
is_older incoming (some existing) = ltb incoming.version existing.version

abbrev pub stale_calls : ItemMeta → Option ItemMeta → List HookCall
stale_calls incoming none = []
stale_calls incoming (some existing) =
    if ltb existing.version incoming.version then on_item_stale incoming.id ∷ [] else []

unfoldable pub apply_item_upserted : ℕ → ItemMeta → MetaState → MetaState × List HookCall
apply_item_upserted cursor item s =
    let incoming = with_secret_state item in
    let existing = Table.get s.items incoming.id in
    if is_none (Table.get s.vaults incoming.vault_id) || is_older incoming existing
    then (record s { cursor = cursor }, [])
    else (
      record s {
        cursor = cursor;
        items = Table.set s.items incoming.id incoming;
        pending_item_ids = Table.delete s.pending_item_ids incoming.id;
      },
      stale_calls incoming existing,
    )

unfoldable pub apply_item_deleted : ℕ → String → MetaState → MetaState × List HookCall
apply_item_deleted cursor item_id s =
    (record s { cursor = cursor; items = Table.delete s.items item_id }, on_item_stale item_id ∷ [])

-- The full replacement of the items of a vault, if the event brings a snapshot.
unfoldable pub replace_items :
    String → Option (List ItemMeta) → List (String × ItemMeta) → List (String × ItemMeta)
replace_items vault_id none items = items
replace_items vault_id (some snapshot) items =
    set_all (delete_all items (ids_where (in_vault vault_id) items))
      (map (λ i. item_entry (with_secret_state i)) snapshot)

abbrev pub is_team : VaultKind → Bool
is_team personal = false
is_team team = true

abbrev pub subject_of : SessionUser → SubjectRef
subject_of user = record { user_id = user.id; groups = user.groups }

-- May the user no longer read the contents of this vault?
unfoldable pub loses_reveal : Option SessionUser → Vault → List Membership → Bool
loses_reveal none vault memberships = false
loses_reveal (some user) vault memberships =
    is_team vault.kind && not (can_reveal (resolve_effective_role memberships (subject_of user)))

unfoldable pub apply_vault_upserted :
    ℕ → Vault → List Membership → Option (List ItemMeta) → MetaState → MetaState × List HookCall
unfolding replace_items loses_reveal
apply_vault_upserted cursor vault memberships snapshot s =
    let items = replace_items vault.id snapshot s.items in
    let held = keep (λ e. in_vault vault.id e.1) items in
    (
      record s {
        cursor = cursor;
        vaults = Table.set s.vaults vault.id vault;
        memberships = Table.set s.memberships vault.id memberships;
        items = items;
      },
      if loses_reveal s.user vault memberships then map (λ e. on_item_stale e.1.id) held else [],
    )

unfoldable pub apply_vault_revoked : ℕ → String → MetaState → MetaState × List HookCall
apply_vault_revoked cursor vault_id s =
    let dropped = ids_where (in_vault vault_id) s.items in
    if is_none (Table.get s.vaults vault_id) then (record s { cursor = cursor }, []) else (
      record s {
        cursor = cursor;
        vaults = Table.delete s.vaults vault_id;
        memberships = Table.delete s.memberships vault_id;
        items = delete_all s.items dropped;
        vault_crypto = Table.delete s.vault_crypto vault_id;
        pending_vault_access_ids = Table.delete s.pending_vault_access_ids vault_id;
        vault_directories = Table.delete s.vault_directories vault_id;
        last_revoked_vault_id = some vault_id;
      },
      on_vault_revoked dropped ∷ [],
    )

-- The last of a list, and another value if there is none.
abbrev pub last_or : Option String → List String → Option String
last_or default [] = default
last_or default (x ∷ xs) = last_or (some x) xs

unfoldable pub drop_vaults : ℕ → List String → List String → MetaState → MetaState × List HookCall
drop_vaults cursor vault_ids stale s =
    let dropped = ids_where (λ i. not (includes vault_ids i.vault_id)) s.items in
    (
      record s {
        cursor = cursor;
        vaults = delete_all s.vaults stale;
        memberships = delete_all s.memberships stale;
        items = delete_all s.items dropped;
        vault_crypto = delete_all s.vault_crypto stale;
        pending_vault_access_ids = delete_all s.pending_vault_access_ids stale;
        vault_directories = delete_all s.vault_directories stale;
        last_revoked_vault_id = last_or s.last_revoked_vault_id stale;
      },
      on_vault_revoked dropped ∷ [],
    )

abbrev pub stale_vault_ids : List String → MetaState → List String
stale_vault_ids vault_ids s = keep (λ id. not (includes vault_ids id)) (keys s.vaults)

unfoldable pub apply_sync_ready : ℕ → List String → MetaState → MetaState × List HookCall
unfolding drop_vaults
apply_sync_ready cursor vault_ids s = elim (stale_vault_ids vault_ids s) [
  | [] ↦ (record s { cursor = cursor }, [])
  | id ∷ ids ↦ drop_vaults cursor vault_ids (id ∷ ids) s
]

unfoldable pub apply_event : SyncEvent → MetaState → MetaState × List HookCall
unfolding apply_item_upserted apply_item_deleted apply_vault_upserted apply_vault_revoked
    apply_sync_ready
apply_event e s =
    let cursor = max s.cursor (event_cursor e) in
    elim e [
      | item_upserted c item ↦ apply_item_upserted cursor item s
      | item_deleted c vault_id item_id ↦ apply_item_deleted cursor item_id s
      | vault_upserted c vault memberships snapshot ↦
          apply_vault_upserted cursor vault memberships snapshot s
      | vault_revoked c vault_id ↦ apply_vault_revoked cursor vault_id s
      | sync_cursor c ↦ (record s { cursor = cursor }, [])
      | sync_ready c vault_ids ↦ apply_sync_ready cursor vault_ids s
    ]

-- The events of a stream, in order, and all calls of the hooks.
unfoldable pub apply_events : List SyncEvent → MetaState → MetaState × List HookCall
unfolding apply_event
apply_events [] s = (s, [])
apply_events (e ∷ es) s =
    let (next, calls) = apply_event e s in
    let (last, later) = apply_events es next in (last, calls ++ later)
