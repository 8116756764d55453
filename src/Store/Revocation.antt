-- ===== src/Store/Revocation.antt =====
-- packages/client-core/src/meta-store.ts: what is left after access was revoked, rollbacks, and the
-- cursor.
use mima.Prelude.{
  ℕ, max, String, true, false, not, none, some, List, [], ◌∷◌, ◌≡◌, refl, sym, ap, ◌∙◌, inl, inr,
  arith, eq_iff, ◌==◌, string_eq, is_some, includes, Bool-cases, Option-cases, List-cases,
  In-includes, In-keep, includes-In,
}
use mima.Prelude.Table
use mima.Prelude.Table.{get-set, get-delete}
use mima.Store.{
  MetaState, ItemMeta, Vault, delete_all, with_secret_state, rollback_item, keeps_current, keys,
}
use mima.Store.Events.{
  SyncEvent, item_upserted, item_deleted, vault_upserted, vault_revoked, sync_cursor, sync_ready,
  apply_event, apply_events, apply_item_upserted, apply_item_deleted, apply_vault_upserted,
  apply_vault_revoked, apply_sync_ready, drop_vaults, in_vault, stale_vault_ids, is_older,
  event_cursor,
}
use mima.Store.Tables.{get-delete_where, get-delete_all, includes-keys}
use mima.Store.Orphans.{NoOrphans, Housed-set_item, NoOrphans-apply_sync_ready}

-- A vault that is not on the list is stale.
stale-includes :
    (ids : List String) (s : MetaState) (id : String) (v : Vault)
    → Table.get s.vaults id ≡ some v
    → includes ids id ≡ false
    → includes (stale_vault_ids ids s) id ≡ true
stale-includes ids s id v h n = In-includes (
    In-keep (λ id. not (includes ids id))
      (includes-In (keys s.vaults) id (includes-keys s.vaults id v h)) (rw n refl))

-- Only vaults of the list are left.
pub vaults-apply_sync_ready :
    (cursor : ℕ) (ids : List String) (s : MetaState) (id : String) (v : Vault)
    → Table.get (apply_sync_ready cursor ids s).0.vaults id ≡ some v
    → includes ids id ≡ true
unfolding apply_sync_ready drop_vaults
vaults-apply_sync_ready cursor ids s id v h = elim (List-cases (stale_vault_ids ids s)) [
  | inl e ↦ elim (Bool-cases (includes ids id)) [
    | inl q ↦ q
    | inr q ↦ cc (rw e at (stale-includes ids s id v (rw (e, apply_sync_ready) at h) q))
  ]
  | inr (x, xs, e) ↦ elim (Bool-cases (includes ids id)) [
    | inl q ↦ q
    | inr q ↦
        let left : Table.get (delete_all s.vaults (stale_vault_ids ids s)) id ≡ some v =
          rw e (rw (e, apply_sync_ready) at h) in
        let was = get-delete_all (stale_vault_ids ids s) s.vaults id in
        elim (Bool-cases (includes (stale_vault_ids ids s) id)) [
          | inl k ↦ cc (rw k at was, left)
          | inr k ↦ cc (stale-includes ids s id v (sym (rw k at was) ∙ left) q, k)
        ]
  ]
]

-- In a store without orphans, once the backlog is replayed, each vault and each item that is left
-- belongs to the list of vaults that the server sent.
pub apply_sync_ready-allowed :
    (cursor : ℕ) (ids : List String) (s : MetaState)
    → NoOrphans s
    → ((id : String) (v : Vault)
        → Table.get (apply_sync_ready cursor ids s).0.vaults id ≡ some v
        → includes ids id ≡ true)
      × ((id : String) (i : ItemMeta)
          → Table.get (apply_sync_ready cursor ids s).0.items id ≡ some i
          → includes ids i.vault_id ≡ true)
apply_sync_ready-allowed cursor ids s h = (
  vaults-apply_sync_ready cursor ids s,
  λ id i found.
      elim (Option-cases (Table.get (apply_sync_ready cursor ids s).0.vaults i.vault_id)) [
        | inl e ↦ cc (NoOrphans-apply_sync_ready cursor ids s h id i found, ap is_some e)
        | inr (v, e) ↦ vaults-apply_sync_ready cursor ids s i.vault_id v e
      ],
)

-- In a store without orphans, after a vault was revoked neither it nor an item of it is left.
pub apply_vault_revoked-gone :
    (cursor : ℕ) (vault_id : String) (s : MetaState)
    → NoOrphans s
    → (Table.get (apply_vault_revoked cursor vault_id s).0.vaults vault_id ≡ none)
      × ((id : String) (i : ItemMeta)
          → Table.get (apply_vault_revoked cursor vault_id s).0.items id ≡ some i
          → (i.vault_id == vault_id) ≡ false)
unfolding apply_vault_revoked
apply_vault_revoked-gone cursor vault_id s h = elim (Option-cases (Table.get s.vaults vault_id)) [
  | inl e ↦
      rw (e, apply_vault_revoked)
        (
          e,
          λ id i found. elim (Bool-cases (i.vault_id == vault_id)) [
            | inl q ↦ cc (rw ((eq_iff i.vault_id vault_id).0 q) at (h id i found), ap is_some e)
            | inr q ↦ q
          ],
        )
  | inr (v, e) ↦
      rw (e, apply_vault_revoked)
        (
          ground (arith, get-delete s.vaults vault_id vault_id, eq_iff vault_id vault_id),
          λ id i found. (get-delete_where (in_vault vault_id) s.items id i found).1,
        )
]

-- A rollback leaves a store without orphans as one.
pub rollback_item-NoOrphans :
    (item : ItemMeta) (s : MetaState) → NoOrphans s → NoOrphans (rollback_item item s)
unfolding rollback_item
rollback_item-NoOrphans item s h = elim (Option-cases (Table.get s.items item.id)) [
  | inl e ↦ rw (e, rollback_item) h
  | inr (a, e) ↦ elim (Bool-cases (keeps_current s (with_secret_state item) (some a))) [
    | inl k ↦ rw (e, k, rollback_item) h
    | inr k ↦
        rw (e, k, rollback_item)
          (Housed-set_item s.items s.vaults (with_secret_state item) (ground (arith, k)) h)
  ]
]

-- The cursor after some events.
abbrev pub max_cursor : ℕ → List SyncEvent → ℕ
max_cursor cursor [] = cursor
max_cursor cursor (e ∷ es) = max_cursor (max cursor (event_cursor e)) es

cursor-apply_event :
    (e : SyncEvent) (s : MetaState) → (apply_event e s).0.cursor ≡ max s.cursor (event_cursor e)
unfolding apply_event apply_item_upserted apply_item_deleted apply_vault_upserted
    apply_vault_revoked apply_sync_ready drop_vaults
cursor-apply_event (item_upserted c item) s =
    elim (Option-cases (Table.get s.vaults item.vault_id)) [
      | inl e ↦ rw (e, apply_item_upserted)
      | inr (v, e) ↦
          elim (Bool-cases (is_older (with_secret_state item) (Table.get s.items item.id))) [
            | inl o ↦ rw (e, o, apply_item_upserted)
            | inr o ↦ rw (e, o, apply_item_upserted)
          ]
    ]
cursor-apply_event (item_deleted c vault_id item_id) s = refl
cursor-apply_event (vault_upserted c vault memberships snapshot) s = refl
cursor-apply_event (vault_revoked c vault_id) s =
    elim (Option-cases (Table.get s.vaults vault_id)) [
      | inl e ↦ rw (e, apply_vault_revoked)
      | inr (v, e) ↦ rw (e, apply_vault_revoked)
    ]
cursor-apply_event (sync_cursor c) s = refl
cursor-apply_event (sync_ready c ids) s = elim (List-cases (stale_vault_ids ids s)) [
  | inl e ↦ rw (e, apply_sync_ready)
  | inr (x, xs, e) ↦ rw (e, apply_sync_ready)
]

-- Whatever the events do, refused and filtered ones included, the cursor ends as the greatest of the
-- cursor before and those of the events.
pub cursor-apply_events :
    (es : List SyncEvent) (s : MetaState) → (apply_events es s).0.cursor ≡ max_cursor s.cursor es
unfolding apply_events
cursor-apply_events [] s = refl
cursor-apply_events (e ∷ es) s =
    cursor-apply_events es (apply_event e s).0 ∙ ap (λ c. max_cursor c es) (cursor-apply_event e s)
