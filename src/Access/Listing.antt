-- ===== src/Access/Listing.antt =====
-- apps/api/src/services/access.ts: `listAuthorizedVaults` reads rows in bulk and groups them, and
-- `getVaultAuthorization` asks for one vault. Both find the same roles.
use mima.Prelude.{
  String, ◌≡◌, refl, ap, ap₂, ◌∙◌, inl, inr, Bool, true, ◌&&◌, Option, none, some, List, [], ◌∷◌,
  ◌++◌, map, arith, eq_iff, ◌==◌, string_eq, Option-cases, find, find-eq-none, find-eq-some, keep,
  includes, In, here, there, In-keep, In-map, In-includes,
}
use mima.Roles.{resolve_effective_role}
use mima.Access.{
  Vault, VaultKind, personal, team, SessionUser, Database, VaultAccess, is_team, team_rows,
  team_role, team_role_from, listed_role, authorization_of, authorized_loop, push_if_role,
  get_vault_authorization, list_authorized_vaults, list_user_custom_group_ids, as_membership,
  subject_of, VaultMembership,
}

-- Filtering by a wider test first changes nothing.
keep_wider {ℓ} :
    {A : Type ℓ} (p q : A → Bool) (xs : List A)
    → ((a : A) → p a ≡ true → q a ≡ true)
    → keep p (keep q xs) ≡ keep p xs
keep_wider p q [] h = refl
keep_wider p q (x ∷ xs) h = ground (arith, h x, keep_wider p q xs h)

keep_both {ℓ} :
    {A : Type ℓ} (p q r : A → Bool) (xs : List A)
    → ((a : A) → p a ≡ true → q a ≡ true)
    → keep p (keep (λ a. q a && r a) xs) ≡ keep (λ a. p a && r a) xs
keep_both p q r [] h = refl
keep_both p q r (x ∷ xs) h = ground (arith, h x, keep_both p q r xs h)

includes_same :
    (ids : List String) (k j : String)
    → includes ids k ≡ true
    → (j == k) ≡ true
    → includes ids j ≡ true
includes_same ids k j h e = rw ((eq_iff j k).0 e) h

-- `id` is the primary key of the vaults.
abbrev pub HasUniqueIds : List Vault → Type 0
HasUniqueIds vaults = (v w : Vault) → In v vaults → In w vaults → v.id ≡ w.id → v ≡ w

pub find_by_id :
    (vaults : List Vault) (v : Vault)
    → HasUniqueIds vaults
    → In v vaults
    → find (λ w. w.id == v.id) vaults ≡ some v
find_by_id vaults v unique i = elim (Option-cases (find (λ w. w.id == v.id) vaults)) [
  | inl e ↦ cc (find-eq-none (λ (w : Vault). w.id == v.id) i e, (eq_iff v.id v.id).1 refl)
  | inr (w, e) ↦
      let found = find-eq-some _ vaults e in
      e ∙ ap some (unique w v found.0 i ((eq_iff w.id v.id).0 found.1))
]

-- What a caller gets that asks for each vault in turn and keeps those with a role.
abbrev pub with_role : List (Option VaultAccess) → List VaultAccess
with_role [] = []
with_role (none ∷ rest) = with_role rest
with_role (some a ∷ rest) = push_if_role a.vault a.role (with_role rest)

module _ (db : Database) (u : SessionUser) where
  team_role_from-team_rows :
      (v : Vault)
      → In v (keep is_team db.vaults)
      → team_role_from (team_rows db u) u v ≡ team_role db u v.id
  unfolding team_role_from team_rows team_role
  team_role_from-team_rows v i =
      let team_ids = map (λ (w : Vault). w.id) (keep is_team db.vaults) in
      let listed : includes team_ids v.id ≡ true = In-includes (In-map (λ (w : Vault). w.id) i) in
      let ids = list_user_custom_group_ids db u.id in
      ap₂
        (λ ms rs.
          resolve_effective_role
            (map (λ (row : VaultMembership). row.member) ms ++ map as_membership rs)
            (subject_of u ids))
        (keep_wider _ _ db.vault_memberships
          λ row e. includes_same team_ids v.id row.vault_id listed e)
        (keep_both _ _ _ db.vault_custom_group_roles
          λ row e. includes_same team_ids v.id row.vault_id listed e)

  listed_role-authorization_of :
      (v : Vault) → In v db.vaults → listed_role (team_rows db u) u v ≡ authorization_of db u v
  unfolding listed_role authorization_of
  listed_role-authorization_of v i = by_kind v.kind refl
    where
      by_kind :
          (k : VaultKind) → v.kind ≡ k → listed_role (team_rows db u) u v ≡ authorization_of db u v
      by_kind personal e = rw (e, listed_role, authorization_of)
      by_kind team e =
          rw (e, listed_role, authorization_of)
            (team_role_from-team_rows v (In-keep is_team i (rw (e, is_team))))

  authorization-listed :
      HasUniqueIds db.vaults
      → (v : Vault) → In v db.vaults
      → get_vault_authorization db u v.id
        ≡ some (record { vault = v; role = authorization_of db u v })
  unfolding get_vault_authorization
  authorization-listed unique v i = rw (find_by_id db.vaults v unique i, get_vault_authorization)

  authorized_loop-with_role :
      HasUniqueIds db.vaults
      → (vs : List Vault) → ((v : Vault) → In v vs → In v db.vaults)
      → authorized_loop (team_rows db u) u vs
        ≡ with_role (map (λ v. get_vault_authorization db u v.id) vs)
  unfolding authorized_loop
  authorized_loop-with_role unique [] sub = refl
  authorized_loop-with_role unique (v ∷ vs) sub = rw (
    authorization-listed unique v (sub v here),
    listed_role-authorization_of v (sub v here),
    authorized_loop-with_role unique vs (λ w i. sub w (there i)),
  )

  -- The bulk listing is what asking for every vault on its own gives, in the order of the vaults,
  -- where no two vaults share an id.
  pub list_authorized_vaults-get_vault_authorization :
      HasUniqueIds db.vaults
      → list_authorized_vaults db u
        ≡ with_role (map (λ v. get_vault_authorization db u v.id) db.vaults)
  unfolding list_authorized_vaults
  list_authorized_vaults-get_vault_authorization unique =
      authorized_loop-with_role unique db.vaults (λ v i. i)
