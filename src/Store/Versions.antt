-- ===== src/Store/Versions.antt =====
-- packages/client-core/src/meta-store.ts: when the hooks that destroy leases are called, and what an
-- event or a rollback can do to the version of an item.
use mima.Prelude.{
  ℕ, max, ◌≤◌, String, Bool, true, false, not, ◌||◌, none, some, List, [], ◌∷◌, ◌++◌, ◌≡◌, refl,
  ◌∙◌, ◌⊎◌, inl, inr, arith, eq_iff, ◌==◌, string_eq, ltb, is_some, includes, any, All, Bool-cases,
  Option-cases, List-cases,
}
use mima.Prelude.Table
use mima.Prelude.Table.{get-set, get-delete}
use mima.Roles.{Membership}
use mima.Store.{
  MetaState, ItemMeta, Vault, delete_all, with_secret_state, rollback_item, keeps_current,
}
use mima.Store.Events.{
  SyncEvent, item_upserted, item_deleted, vault_upserted, vault_revoked, sync_cursor, sync_ready,
  apply_event, apply_events, HookCall, on_item_stale, on_vault_revoked, apply_item_upserted,
  apply_item_deleted, apply_vault_upserted, apply_vault_revoked, apply_sync_ready, drop_vaults,
  replace_items, ids_where, in_vault, is_older, stale_calls, stale_vault_ids, loses_reveal,
}
use mima.Store.Tables.{get-delete_all, includes-ids_where}

-- Does one of the calls name the item?
abbrev pub names : String → HookCall → Bool
names id (on_item_stale item_id) = item_id == id
names id (on_vault_revoked ids) = includes ids id

abbrev pub is_notified : String → List HookCall → Bool
is_notified id calls = any (names id) calls

-- The item is named in a call, or is there in the version that it had.
abbrev pub Tracked : String → ItemMeta → MetaState × List HookCall → Type 0
Tracked id a r =
    (is_notified id r.1 ≡ true)
    ⊎ ((b : ItemMeta) × (Table.get r.0.items id ≡ some b) × (b.version ≡ a.version))

-- The event replaces the items of a vault.
abbrev pub is_snapshot : SyncEvent → Bool
is_snapshot (vault_upserted c vault memberships items) = is_some items
is_snapshot e = false

Tracked-set :
    (incoming : ItemMeta) (items : List (String × ItemMeta)) (id : String) (a : ItemMeta)
    → Table.get items id ≡ some a
    → is_older incoming (Table.get items incoming.id) ≡ false
    → (is_notified id (stale_calls incoming (Table.get items incoming.id)) ≡ true)
      ⊎ ((b : ItemMeta) × (Table.get (Table.set items incoming.id incoming) id ≡ some b)
          × (b.version ≡ a.version))
Tracked-set incoming items id a h older =
    let written = get-set items incoming.id id incoming in
    elim (Bool-cases (incoming.id == id)) [
      | inr q ↦ inr (a, rw (written, q) h, refl)
      | inl q ↦
          let found : Table.get items incoming.id ≡ some a = rw ((eq_iff incoming.id id).0 q) h in
          elim (Bool-cases (ltb a.version incoming.version)) [
            | inl l ↦ inl (rw (found, l, q) refl)
            | inr l ↦
                let upper : ltb incoming.version a.version ≡ false = rw found at older in
                inr (incoming, rw (written, q) refl, ground (arith, l, upper))
          ]
    ]

Tracked-apply_item_upserted :
    (cursor : ℕ) (item : ItemMeta) (s : MetaState) (id : String) (a : ItemMeta)
    → Table.get s.items id ≡ some a
    → Tracked id a (apply_item_upserted cursor item s)
unfolding apply_item_upserted
Tracked-apply_item_upserted cursor item s id a h =
    elim (Option-cases (Table.get s.vaults item.vault_id)) [
      | inl e ↦ rw (e, apply_item_upserted) (inr (a, h, refl))
      | inr (v, e) ↦
          elim (Bool-cases (is_older (with_secret_state item) (Table.get s.items item.id))) [
            | inl o ↦ rw (e, o, apply_item_upserted) (inr (a, h, refl))
            | inr o ↦
                rw (e, o, apply_item_upserted)
                  (Tracked-set (with_secret_state item) s.items id a h o)
          ]
    ]

Tracked-delete_all :
    (ids : List String) (items : List (String × ItemMeta)) (id : String) (a : ItemMeta)
    → Table.get items id ≡ some a
    → (is_notified id (on_vault_revoked ids ∷ []) ≡ true)
      ⊎ ((b : ItemMeta) × (Table.get (delete_all items ids) id ≡ some b) × (b.version ≡ a.version))
Tracked-delete_all ids items id a h = elim (Bool-cases (includes ids id)) [
  | inl e ↦ inl (rw e refl)
  | inr e ↦ inr (a, rw (get-delete_all ids items id, e) h, refl)
]

Tracked-apply_event :
    (e : SyncEvent) (s : MetaState) (id : String) (a : ItemMeta)
    → is_snapshot e ≡ false
    → Table.get s.items id ≡ some a
    → Tracked id a (apply_event e s)
unfolding apply_event apply_item_deleted apply_vault_upserted apply_vault_revoked apply_sync_ready
    drop_vaults replace_items
Tracked-apply_event (item_upserted c item) s id a n h =
    Tracked-apply_item_upserted (max s.cursor c) item s id a h
Tracked-apply_event (item_deleted c vault_id item_id) s id a n h =
    elim (Bool-cases (item_id == id)) [
      | inl q ↦ inl (rw q refl)
      | inr q ↦ inr (a, rw (get-delete s.items item_id id, q) h, refl)
    ]
Tracked-apply_event (vault_upserted c vault ms none) s id a n h = inr (a, h, refl)
Tracked-apply_event (vault_upserted c vault ms (some items)) s id a n h = cc
Tracked-apply_event (vault_revoked c vault_id) s id a n h =
    elim (Option-cases (Table.get s.vaults vault_id)) [
      | inl e ↦ rw (e, apply_vault_revoked) (inr (a, h, refl))
      | inr (v, e) ↦
          rw (e, apply_vault_revoked)
            (Tracked-delete_all (ids_where (in_vault vault_id) s.items) s.items id a h)
    ]
Tracked-apply_event (sync_cursor c) s id a n h = inr (a, h, refl)
Tracked-apply_event (sync_ready c ids) s id a n h = elim (List-cases (stale_vault_ids ids s)) [
  | inl e ↦ rw (e, apply_sync_ready) (inr (a, h, refl))
  | inr (x, xs, e) ↦
      rw (e, apply_sync_ready)
        (Tracked-delete_all (ids_where (λ i. not (includes ids i.vault_id)) s.items) s.items id a h)
]

any-append :
    (p : HookCall → Bool) (xs ys : List HookCall) → any p (xs ++ ys) ≡ (any p xs || any p ys)
any-append p [] ys = refl
any-append p (x ∷ xs) ys = ground (arith, any-append p xs ys)

-- After any sequence of events without snapshots, an item of the store was named in a call of the
-- hooks that destroy leases, or it is there in the version that it had.
pub apply_events-Tracked :
    (es : List SyncEvent) (s : MetaState) (id : String) (a : ItemMeta)
    → All (λ e. is_snapshot e ≡ false) es
    → Table.get s.items id ≡ some a
    → (is_notified id (apply_events es s).1 ≡ true)
      ⊎ ((b : ItemMeta) × (Table.get (apply_events es s).0.items id ≡ some b)
          × (b.version ≡ a.version))
unfolding apply_events
apply_events-Tracked [] s id a n h = inr (a, h, refl)
apply_events-Tracked (e ∷ es) s id a n h =
    let split = any-append (names id) (apply_event e s).1 (apply_events es (apply_event e s).0).1 in
    elim (Tracked-apply_event e s id a n.0 h) [
      | inl q ↦ inl (rw (split, q) refl)
      | inr (b, found, same) ↦ elim (apply_events-Tracked es (apply_event e s).0 id b n.1 found) [
        | inl q ↦ inl (ground (arith, split, q))
        | inr (c, there, equal) ↦ inr (c, there, equal ∙ same)
      ]
    ]

-- An empty snapshot of a vault whose contents the user may read, or of a personal vault, removes every
-- item of the vault, and calls no hook.
pub apply_vault_upserted_silent :
    (cursor : ℕ) (vault : Vault) (memberships : List Membership) (s : MetaState) (id : String)
    (a : ItemMeta)
    → loses_reveal s.user vault memberships ≡ false
    → Table.get s.items id ≡ some a
    → a.vault_id ≡ vault.id
    → ((apply_vault_upserted cursor vault memberships (some []) s).1 ≡ [])
      × (Table.get (apply_vault_upserted cursor vault memberships (some []) s).0.items id ≡ none)
unfolding apply_vault_upserted replace_items
apply_vault_upserted_silent cursor vault memberships s id a keeps h home =
    let listed =
      includes-ids_where (in_vault vault.id) s.items id a h ((eq_iff a.vault_id vault.id).1 home) in
    (rw keeps, rw (get-delete_all (ids_where (in_vault vault.id) s.items) s.items id, listed) refl)

-- A rollback adds no item, and it never puts an item back to a version below the one in the store.
pub rollback_item-versions :
    (item : ItemMeta) (s : MetaState) (id : String) (b : ItemMeta)
    → Table.get (rollback_item item s).items id ≡ some b
    → (a : ItemMeta) × (Table.get s.items id ≡ some a) × (a.version ≤ b.version)
unfolding rollback_item
rollback_item-versions item s id b h = elim (Option-cases (Table.get s.items item.id)) [
  | inl e ↦ (b, rw (e, rollback_item) at h, omega arith)
  | inr (a, e) ↦ elim (Bool-cases (keeps_current s (with_secret_state item) (some a))) [
    | inl k ↦ (b, rw (e, k, rollback_item) at h, omega arith)
    | inr k ↦
        let changed : Table.get (Table.set s.items item.id (with_secret_state item)) id ≡ some b =
          rw (e, k, rollback_item) at h in
        let written = get-set s.items item.id id (with_secret_state item) in
        elim (Bool-cases (item.id == id)) [
          | inr q ↦ (b, ground (arith, changed, written, q), omega arith)
          | inl q ↦
              let same : with_secret_state item ≡ b = ground (arith, changed, written, q) in
              (a, rw (← (eq_iff item.id id).0 q) e, rw (← same) (ground (arith, k)))
        ]
  ]
]
