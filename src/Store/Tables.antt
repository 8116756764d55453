-- ===== src/Store/Tables.antt =====
-- Tables under the loops of the store (packages/client-core/src/meta-store.ts): what a key gives
-- after entries were assigned or deleted.
use mima.Prelude.{
  String, Bool, true, false, none, some, List, [], ◌∷◌, ◌≡◌, refl, arith, eq_iff, ◌==◌, string_eq,
  if◌then◌else◌, includes, In, here, there, In-includes, In-keep, In-map, Bool-cases, inl, inr,
}
use mima.Prelude.Table
use mima.Prelude.Table.{get-set, get-delete}
use mima.Store.{ItemMeta, delete_all, keys}
use mima.Store.Events.{ids_where}

pub get-delete_all {ℓ} :
    {V : Type ℓ} (ks : List String) (m : List (String × V)) (k : String)
    → Table.get (delete_all m ks) k ≡ (if includes ks k then none else Table.get m k)
get-delete_all [] m k = refl
get-delete_all (j ∷ ks) m k =
    ground (arith, eq_iff j k, get-delete m j k, get-delete_all ks (Table.delete m j) k)

pub In-get {ℓ} :
    {V : Type ℓ} (m : List (String × V)) (k : String) (v : V) → Table.get m k ≡ some v → In (k, v) m
unfolding Table.get
In-get [] k v h = cc
In-get ((j, w) ∷ m) k v h = elim (Bool-cases (j == k)) [
  | inl e ↦ let same : w ≡ v = ground arith in rw (← same, (eq_iff j k).0 e) here
  | inr e ↦ there (In-get m k v (ground arith))
]

pub includes-keys {ℓ} :
    {V : Type ℓ} (m : List (String × V)) (k : String) (v : V)
    → Table.get m k ≡ some v
    → includes (keys m) k ≡ true
includes-keys m k v h = In-includes (In-map (λ e. e.0) (In-get m k v h))

-- An item that passes the test stands among the ids that are deleted.
pub includes-ids_where :
    (p : ItemMeta → Bool) (m : List (String × ItemMeta)) (k : String) (v : ItemMeta)
    → Table.get m k ≡ some v
    → p v ≡ true
    → includes (ids_where p m) k ≡ true
includes-ids_where p m k v h q =
    In-includes (In-map (λ e. e.0) (In-keep (λ e. p e.1) (In-get m k v h) q))

-- What is left after the deletion was there before, and fails the test.
pub get-delete_where :
    (p : ItemMeta → Bool) (m : List (String × ItemMeta)) (k : String) (v : ItemMeta)
    → Table.get (delete_all m (ids_where p m)) k ≡ some v
    → (Table.get m k ≡ some v) × (p v ≡ false)
get-delete_where p m k v h =
    let found : (includes (ids_where p m) k ≡ false) × (Table.get m k ≡ some v) =
      ground (arith, get-delete_all (ids_where p m) m k) in
    elim (Bool-cases (p v)) [
      | inl e ↦ cc (includes-ids_where p m k v found.1 e, found.0)
      | inr e ↦ (found.1, e)
    ]
