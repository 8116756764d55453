-- ===== src/Store/Examples.antt =====
-- Runs of the store of packages/client-core/src/meta-store.ts on a few vaults and items.
use mima.Prelude.{
  ℕ, String, true, false, none, some, List, [], ◌∷◌, ◌≡◌, refl, ◌⊎◌, string_eq, includes,
}
use mima.Prelude.Table
use mima.Roles.{Membership, user, viewer, auditor, resolve_effective_role, can_reveal}
use mima.Store.{
  MetaState, ItemMeta, Vault, team, initial_state, with_secret_state, rollback_item,
  upsert_item_optimistic, SessionUser,
}
use mima.Store.Events.{
  SyncEvent, item_upserted, item_deleted, vault_upserted, vault_revoked, apply_event, apply_events,
  on_item_stale, apply_vault_upserted, apply_sync_ready, loses_reveal,
}
use mima.Store.Orphans.{NoOrphans, apply_events-NoOrphans}
use mima.Store.Versions.{is_notified, apply_events-Tracked}
use mima.Store.Revocation.{apply_sync_ready-allowed}

abbrev shared : Vault
shared = record { id = "shared"; kind = team; content = "" }

abbrev login : ℕ → ItemMeta
login version = record {
  id = "login";
  vault_id = "shared";
  version = version;
  secret_state = none;
  content = "";
}

abbrev member : Membership
member = record { subject_kind = user; subject_id = "ann"; role = viewer }

abbrev watcher : Membership
watcher = record { subject_kind = user; subject_id = "ann"; role = auditor }

abbrev ann : SessionUser
ann = record { id = "ann"; groups = [] }

abbrev opening : List SyncEvent
opening = vault_upserted 3 shared (member ∷ []) none ∷ item_upserted 5 (login 2) ∷ []

abbrev signed_in : MetaState
signed_in = record initial_state { user = some ann }

unfoldable stored : MetaState
unfolding apply_events
stored = (apply_events opening signed_in).0

signed_in-NoOrphans : NoOrphans signed_in
unfolding Table.get
signed_in-NoOrphans k i h = cc

stored-NoOrphans : NoOrphans stored
unfolding stored
stored-NoOrphans = apply_events-NoOrphans opening signed_in (tt, (tt, tt)) signed_in-NoOrphans

-- An update, a late and older one, and a deletion.
abbrev later : List SyncEvent
later = item_upserted 6 (login 4) ∷ item_upserted 4 (login 3) ∷ item_deleted 7 "shared" "login" ∷ []

stored_login : Table.get stored.items "login" ≡ some (with_secret_state (login 2))
unfolding stored Table.get Table.set
stored_login = refl

later_calls : (apply_events later stored).1 ≡ on_item_stale "login" ∷ on_item_stale "login" ∷ []
unfolding stored apply_events Table.get Table.set Table.delete
later_calls = refl

-- The role falls to one that may not read contents.
demoted :
    (apply_event (vault_upserted 9 shared (watcher ∷ []) none) stored).1
    ≡ on_item_stale "login" ∷ []
unfolding stored apply_event apply_vault_upserted loses_reveal resolve_effective_role can_reveal
    Table.get Table.set
demoted = refl

-- A confirmation that comes after the revocation.
late_confirmation :
    (apply_events (vault_revoked 8 "shared" ∷ item_upserted 9 (login 5) ∷ []) stored).0.items ≡ []
unfolding stored apply_events Table.get Table.set Table.delete
late_confirmation = refl

apply_events-NoOrphans_example : NoOrphans (apply_events later stored).0
apply_events-NoOrphans_example =
    apply_events-NoOrphans later stored (tt, (tt, (tt, tt))) stored-NoOrphans

apply_events-Tracked_example :
    (is_notified "login" (apply_events later stored).1 ≡ true)
    ⊎ ((b : ItemMeta) × (Table.get (apply_events later stored).0.items "login" ≡ some b)
        × (b.version ≡ 2))
apply_events-Tracked_example =
    apply_events-Tracked later stored "login" (with_secret_state (login 2))
      (refl, (refl, (refl, tt))) stored_login

shared-loses_reveal : loses_reveal stored.user shared (member ∷ []) ≡ false
unfolding stored loses_reveal resolve_effective_role can_reveal Table.get Table.set
shared-loses_reveal = refl

-- An optimistic change to version 3, and its rollback to version 2.
abbrev changed : MetaState
changed = upsert_item_optimistic (login 2) stored

rolled_back :
    Table.get (rollback_item (login 3) changed).items "login" ≡ some (with_secret_state (login 3))
unfolding stored rollback_item upsert_item_optimistic Table.get Table.set
rolled_back = refl

apply_sync_ready-allowed_example :
    ((id : String) (v : Vault)
      → Table.get (apply_sync_ready 8 ("mine" ∷ []) stored).0.vaults id ≡ some v
      → includes ("mine" ∷ []) id ≡ true)
    × ((id : String) (i : ItemMeta)
        → Table.get (apply_sync_ready 8 ("mine" ∷ []) stored).0.items id ≡ some i
        → includes ("mine" ∷ []) i.vault_id ≡ true)
apply_sync_ready-allowed_example = apply_sync_ready-allowed 8 ("mine" ∷ []) stored stored-NoOrphans
