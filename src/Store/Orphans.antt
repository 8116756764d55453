-- ===== src/Store/Orphans.antt =====
-- packages/client-core/src/meta-store.ts: events of the stream leave no item without its vault.
use mima.Prelude.{
  ℕ, max, String, true, false, not, Option, none, some, List, [], ◌∷◌, map, ◌≡◌, refl, ap, ◌∙◌, ◌⊎◌,
  inl, inr, arith, eq_iff, ◌==◌, string_eq, is_some, includes, In, here, there, In-of_map, All,
  All-In, Bool-cases, Option-cases, List-cases, keep, In-of_keep, includes-In,
}
use mima.Prelude.Table
use mima.Prelude.Table.{get-set, get-delete}
use mima.Roles.{Membership}
use mima.Store.{
  MetaState, ItemMeta, Vault, set_all, delete_all, with_secret_state, item_entry, keys,
}
use mima.Store.Events.{
  SyncEvent, item_upserted, item_deleted, vault_upserted, vault_revoked, sync_cursor, sync_ready,
  apply_event, apply_events, apply_item_upserted, apply_item_deleted, apply_vault_upserted,
  apply_vault_revoked, apply_sync_ready, drop_vaults, replace_items, ids_where, in_vault, is_older,
  stale_vault_ids,
}
use mima.Store.Tables.{get-delete_all, get-delete_where}

-- Each item of the first table belongs to a vault of the second.
abbrev pub Housed : List (String × ItemMeta) → List (String × Vault) → Type 0
Housed items vaults =
    (k : String) (i : ItemMeta)
    → Table.get items k ≡ some i
    → is_some (Table.get vaults i.vault_id) ≡ true

abbrev pub NoOrphans : MetaState → Type 0
NoOrphans s = Housed s.items s.vaults

-- What the server sends: a snapshot holds only items of its vault.
abbrev pub Fits : Vault → Option (List ItemMeta) → Type 0
Fits vault none = Unit
Fits vault (some snapshot) = All (λ i. i.vault_id ≡ vault.id) snapshot

abbrev pub IsSound : SyncEvent → Type 0
IsSound (vault_upserted c vault memberships snapshot) = Fits vault snapshot
IsSound e = Unit

get-set_all {ℓ} :
    {V : Type ℓ} (entries m : List (String × V)) (k : String) (v : V)
    → Table.get (set_all m entries) k ≡ some v
    → (Table.get m k ≡ some v) ⊎ In (k, v) entries
get-set_all [] m k v h = inl h
get-set_all ((j, w) ∷ entries) m k v h = elim (get-set_all entries (Table.set m j w) k v h) [
  | inr i ↦ inr (there i)
  | inl e ↦ elim (Bool-cases (j == k)) [
    | inl q ↦
        let same : w ≡ v = ground (arith, get-set m j k w) in
        rw (← same, (eq_iff j k).0 q) (inr here)
    | inr q ↦ inl (ground (arith, get-set m j k w))
  ]
]

Housed-set_vault :
    (items : List (String × ItemMeta)) (vaults : List (String × Vault)) (v : Vault)
    → Housed items vaults
    → Housed items (Table.set vaults v.id v)
Housed-set_vault items vaults v h k i q = ground (arith, h k i q, get-set vaults v.id i.vault_id v)

pub Housed-set_item :
    (items : List (String × ItemMeta)) (vaults : List (String × Vault)) (item : ItemMeta)
    → is_some (Table.get vaults item.vault_id) ≡ true
    → Housed items vaults
    → Housed (Table.set items item.id item) vaults
Housed-set_item items vaults item e h k i q = elim (Bool-cases (item.id == k)) [
  | inl r ↦ let same : item ≡ i = ground (arith, get-set items item.id k item) in rw (← same) e
  | inr r ↦ h k i (ground (arith, get-set items item.id k item))
]

Housed-delete_item :
    (items : List (String × ItemMeta)) (vaults : List (String × Vault)) (id : String)
    → Housed items vaults
    → Housed (Table.delete items id) vaults
Housed-delete_item items vaults id h k i q = h k i (ground (arith, get-delete items id k))

Housed-replace_items :
    (items : List (String × ItemMeta)) (vaults : List (String × Vault)) (v : Vault)
    (snapshot : List ItemMeta)
    → All (λ i. i.vault_id ≡ v.id) snapshot
    → Housed items vaults
    → Housed (replace_items v.id (some snapshot) items) (Table.set vaults v.id v)
unfolding replace_items
Housed-replace_items items vaults v snapshot all h k i q =
    let left = delete_all items (ids_where (in_vault v.id) items) in
    elim (get-set_all (map (λ i. item_entry (with_secret_state i)) snapshot) left k i q) [
      | inl e ↦
          Housed-set_vault items vaults v h k i (get-delete_where (in_vault v.id) items k i e).0
      | inr e ↦
          let (j, at, same) = In-of_map (λ i. item_entry (with_secret_state i)) snapshot e in
          let home : i.vault_id ≡ v.id =
            ap (λ e. e.1.vault_id) same ∙ All-In (λ i. i.vault_id ≡ v.id) at all in
          ground (
            arith,
            get-set vaults v.id i.vault_id v,
            eq_iff v.id i.vault_id,
            eq_iff i.vault_id v.id,
          )
    ]

Housed-revoke :
    (items : List (String × ItemMeta)) (vaults : List (String × Vault)) (id : String)
    → Housed items vaults
    → Housed (delete_all items (ids_where (in_vault id) items)) (Table.delete vaults id)
Housed-revoke items vaults id h k i q =
    let was = get-delete_where (in_vault id) items k i q in
    ground (
      arith,
      h k i was.0,
      was.1,
      get-delete vaults id i.vault_id,
      eq_iff i.vault_id id,
      eq_iff id i.vault_id,
    )

-- A stale vault is not on the server's list.
pub includes-stale_vault_ids :
    (ids : List String) (xs : List String) (k : String)
    → includes (keep (λ id. not (includes ids id)) xs) k ≡ true
    → includes ids k ≡ false
includes-stale_vault_ids ids xs k h =
    let kept =
      In-of_keep (λ id. not (includes ids id)) xs
        (includes-In (keep (λ id. not (includes ids id)) xs) k h) in
    ground (arith, kept.1)

Housed-drop_vaults :
    (items : List (String × ItemMeta)) (vaults : List (String × Vault)) (ids : List String)
    → Housed items vaults
    → Housed
        (delete_all items (ids_where (λ i. not (includes ids i.vault_id)) items))
        (delete_all vaults (keep (λ id. not (includes ids id)) (keys vaults)))
Housed-drop_vaults items vaults ids h k i q =
    let stale = keep (λ id. not (includes ids id)) (keys vaults) in
    let was = get-delete_where (λ i. not (includes ids i.vault_id)) items k i q in
    let there = get-delete_all stale vaults i.vault_id in
    elim (Bool-cases (includes stale i.vault_id)) [
      | inl e ↦ cc (includes-stale_vault_ids ids (keys vaults) i.vault_id e, was.1)
      | inr e ↦ rw (there, e) (h k i was.0)
    ]

NoOrphans-apply_item_upserted :
    (cursor : ℕ) (item : ItemMeta) (s : MetaState)
    → NoOrphans s
    → NoOrphans (apply_item_upserted cursor item s).0
unfolding apply_item_upserted
NoOrphans-apply_item_upserted cursor item s h =
    elim (Option-cases (Table.get s.vaults item.vault_id)) [
      | inl e ↦ rw (e, apply_item_upserted) h
      | inr (v, e) ↦
          elim (Bool-cases (is_older (with_secret_state item) (Table.get s.items item.id))) [
            | inl o ↦ rw (e, o, apply_item_upserted) h
            | inr o ↦
                rw (e, o, apply_item_upserted)
                  (Housed-set_item s.items s.vaults (with_secret_state item) (rw e refl) h)
          ]
    ]

NoOrphans-apply_vault_upserted :
    (cursor : ℕ) (vault : Vault) (ms : List Membership) (snapshot : Option (List ItemMeta))
    (s : MetaState)
    → Fits vault snapshot
    → NoOrphans s
    → NoOrphans (apply_vault_upserted cursor vault ms snapshot s).0
unfolding apply_vault_upserted replace_items
NoOrphans-apply_vault_upserted cursor vault ms none s sound h =
    Housed-set_vault s.items s.vaults vault h
NoOrphans-apply_vault_upserted cursor vault ms (some snapshot) s sound h =
    Housed-replace_items s.items s.vaults vault snapshot sound h

NoOrphans-apply_vault_revoked :
    (cursor : ℕ) (id : String) (s : MetaState)
    → NoOrphans s
    → NoOrphans (apply_vault_revoked cursor id s).0
unfolding apply_vault_revoked
NoOrphans-apply_vault_revoked cursor id s h = elim (Option-cases (Table.get s.vaults id)) [
  | inl e ↦ rw (e, apply_vault_revoked) h
  | inr (v, e) ↦ rw (e, apply_vault_revoked) (Housed-revoke s.items s.vaults id h)
]

pub NoOrphans-apply_sync_ready :
    (cursor : ℕ) (ids : List String) (s : MetaState)
    → NoOrphans s
    → NoOrphans (apply_sync_ready cursor ids s).0
unfolding apply_sync_ready drop_vaults
NoOrphans-apply_sync_ready cursor ids s h = elim (List-cases (stale_vault_ids ids s)) [
  | inl e ↦ rw (e, apply_sync_ready) h
  | inr (x, xs, e) ↦ rw (e, apply_sync_ready) (rw e at (Housed-drop_vaults s.items s.vaults ids h))
]

pub NoOrphans-apply_event :
    (e : SyncEvent) (s : MetaState) → IsSound e → NoOrphans s → NoOrphans (apply_event e s).0
unfolding apply_event apply_item_deleted
NoOrphans-apply_event (item_upserted c item) s sound h =
    NoOrphans-apply_item_upserted (max s.cursor c) item s h
NoOrphans-apply_event (item_deleted c vault_id item_id) s sound h =
    Housed-delete_item s.items s.vaults item_id h
NoOrphans-apply_event (vault_upserted c vault ms snapshot) s sound h =
    NoOrphans-apply_vault_upserted (max s.cursor c) vault ms snapshot s sound h
NoOrphans-apply_event (vault_revoked c id) s sound h =
    NoOrphans-apply_vault_revoked (max s.cursor c) id s h
NoOrphans-apply_event (sync_cursor c) s sound h = h
NoOrphans-apply_event (sync_ready c ids) s sound h =
    NoOrphans-apply_sync_ready (max s.cursor c) ids s h

-- If each item of the store belongs to a vault of the store, then this still holds after any
-- sequence of events whose snapshots hold only items of their vault.
pub apply_events-NoOrphans :
    (es : List SyncEvent) (s : MetaState)
    → All IsSound es
    → NoOrphans s
    → NoOrphans (apply_events es s).0
unfolding apply_events
apply_events-NoOrphans [] s sound h = h
apply_events-NoOrphans (e ∷ es) s sound h =
    apply_events-NoOrphans es (apply_event e s).0 sound.1 (NoOrphans-apply_event e s sound.0 h)
