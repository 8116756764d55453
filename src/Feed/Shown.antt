-- ===== src/Feed/Shown.antt =====
-- apps/api/src/routes/events.ts: what an event shows of the vaults.
use mima.Prelude.{
  String, true, not, Option, none, some, List, [], ◌∷◌, map, ◌≡◌, ◌⊎◌, sym, subst, inl, inr, ◌==◌,
  string_eq, ◌&&◌, eq_iff, keep, is_some, Bool-cases, In, In-of_append, In-of_map, In-of_keep,
  and-eq-true, All,
}
use mima.Roles.{Membership, custom_group}
use mima.Access.{Database, SessionUser, Vault, VaultMembership, CustomGroupRole}
use mima.Store.{ItemMeta}
use mima.Store.Events.{
  SyncEvent, item_upserted, item_deleted, vault_upserted, vault_revoked, sync_cursor, sync_ready,
}
use mima.Feed.{
  SyncEventRow, World, ItemRow, list_vault_memberships, list_vault_items, to_vault_dto, vault_event,
  granted,
}

-- The vaults of the items of a snapshot.
abbrev pub item_vaults : Option (List ItemMeta) → List String
item_vaults none = []
item_vaults (some items) = map (λ i. i.vault_id) items

-- The vaults that an event names, by itself or in an item that it carries.
abbrev pub named : SyncEvent → List String
named (item_upserted c item) = item.vault_id ∷ []
named (item_deleted c vault_id item_id) = vault_id ∷ []
named (vault_upserted c vault memberships items) = vault.id ∷ item_vaults items
named (vault_revoked c vault_id) = vault_id ∷ []
named (sync_cursor c) = []
named (sync_ready c vault_ids) = vault_ids

abbrev pub membership_of : CustomGroupRole → Membership
membership_of row = record {
  subject_kind = custom_group;
  subject_id = row.group_id;
  role = row.role;
}

-- The membership is one of the vault: that of a user or a group, or a role of a custom group.
pub IsMembershipOf : Database → String → Membership → Type 0
IsMembershipOf db id m =
    ((row : VaultMembership) × In row db.vault_memberships × (row.vault_id ≡ id) × (row.member ≡ m))
    ⊎ ((row : CustomGroupRole) × In row db.vault_custom_group_roles
        × (row.vault_id ≡ id)
        × (m ≡ membership_of row))

list_vault_memberships-IsMembershipOf :
    (db : Database) (id : String) (m : Membership)
    → In m (list_vault_memberships db id)
    → IsMembershipOf db id m
unfolding list_vault_memberships IsMembershipOf
list_vault_memberships-IsMembershipOf db id m i =
    elim (In-of_append
      (map (λ (row : VaultMembership). row.member)
        (keep (λ row. row.vault_id == id) db.vault_memberships))
      _ i) [
        | inl j ↦
            let (row, k, e) =
              In-of_map (λ (row : VaultMembership). row.member)
                (keep (λ row. row.vault_id == id) db.vault_memberships) j in
            let (was, q) =
              In-of_keep (λ (row : VaultMembership). row.vault_id == id) db.vault_memberships k in
            inl (row, was, (eq_iff row.vault_id id).0 q, sym e)
        | inr j ↦
            let (row, k, e) =
              In-of_map membership_of (keep (λ row. row.vault_id == id) db.vault_custom_group_roles)
                j in
            let (was, q) =
              In-of_keep (λ (row : CustomGroupRole). row.vault_id == id) db.vault_custom_group_roles
                k in
            inr (row, was, (eq_iff row.vault_id id).0 q, e)
      ]

All-list_vault_items :
    (P : String → Type 0) (w : World) (id : String)
    → P id
    → All P (map (λ i. i.vault_id) (list_vault_items w id))
unfolding list_vault_items
All-list_vault_items P w id p = items w.items
  where
    items :
        (rows : List ItemRow)
        → All P (
            map
              (λ i. i.vault_id)
              (map
                (λ row. row.meta)
                (keep (λ row. row.meta.vault_id == id && not row.deleted) rows)))
    items [] = tt
    items (row ∷ rows) = elim (Bool-cases (row.meta.vault_id == id && not row.deleted)) [
      | inr e ↦ rw e (items rows)
      | inl e ↦
          let parts = and-eq-true (row.meta.vault_id == id) (not row.deleted) e in
          rw e (subst P (sym ((eq_iff row.meta.vault_id id).0 parts.0)) p, items rows)
    ]

module _ (pkf : String → String) where
  -- The user could open the vault in one of the worlds.
  abbrev pub Opened : List World → SessionUser → String → Type 0
  Opened ws u id = (w : World) × In w ws × (is_some (granted pkf w u id) ≡ true)

  -- The memberships that an event carries are those of its vault in a world in which the user could
  -- open it.
  abbrev pub IsBacked : List World → SessionUser → SyncEvent → Type 0
  IsBacked ws u (vault_upserted c vault memberships items) =
      (w : World) × In w ws
      × (is_some (granted pkf w u vault.id) ≡ true)
      × ((m : Membership) → In m memberships → IsMembershipOf w.database vault.id m)
  IsBacked ws u (item_upserted c item) = Unit
  IsBacked ws u (item_deleted c vault_id item_id) = Unit
  IsBacked ws u (vault_revoked c vault_id) = Unit
  IsBacked ws u (sync_cursor c) = Unit
  IsBacked ws u (sync_ready c vault_ids) = Unit

  abbrev pub IsShowable : List World → SessionUser → SyncEvent → Type 0
  IsShowable ws u e = All (Opened ws u) (named e) × IsBacked ws u e

  pub vault_event-IsShowable :
      (ws : List World) (u : SessionUser) (w : World) (row : SyncEventRow) (vault : Vault)
      → In w ws
      → is_some (granted pkf w u row.vault_id) ≡ true
      → vault.id ≡ row.vault_id
      → IsShowable ws u (vault_event w row vault)
  unfolding vault_event to_vault_dto
  vault_event-IsShowable ws u w row vault at g e =
      let opened : Opened ws u row.vault_id = (w, at, g) in
      let id : is_some (granted pkf w u vault.id) ≡ true = rw e g in
      let backed : (m : Membership)
          → In m (list_vault_memberships w.database row.vault_id)
          → IsMembershipOf w.database vault.id m =
        λ m i. rw e (list_vault_memberships-IsMembershipOf w.database row.vault_id m i) in
      elim (Bool-cases row.payload.access_changed) [
        | inl b ↦ rw b (
          ((w, at, id), All-list_vault_items (Opened ws u) w row.vault_id opened),
          (w, at, id, backed),
        )
        | inr b ↦ rw b (((w, at, id), tt), (w, at, id, backed))
      ]
