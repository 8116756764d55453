-- ===== src/Json/Trees.antt =====
-- `canonicalJson` of packages/crypto/src/audit-chain.ts: the text that it gives is that of a tree whose
-- members are sorted.
use mima.Prelude.{
  List, [], ◌∷◌, ◌++◌, if◌then◌else◌, Bool-cases, ◌≡◌, refl, sym, ap, ap₂, ◌∙◌, inl, inr,
  append_assoc, append-nil,
}
use mima.Json.{
  Text, Json, Items, Fields, json_null, json_bool, json_number, json_string, json_array,
  json_object, no_items, item, no_fields, field, undefined_field, less, Entry, insert_entry,
  sort_entries, join, bracket, print_entries, bool_text, canonical_json, canonical_items,
  canonical_fields,
}

-- A word is a number, `null`, `true` or `false`.
mutual
  pub data Tree : Type 0 where
    word : Text → Tree
    quoted : Text → Tree
    array : Trees → Tree
    object : Members → Tree

  pub data Trees : Type 0 where
    no_trees : Trees
    tree : Tree → Trees → Trees

  pub data Members : Type 0 where
    no_members : Members
    member : Text → Tree → Members → Members

unfoldable pub insert_member : Text → Tree → Members → Members
unfolding less
insert_member k t no_members = member k t no_members
insert_member k t (member l u ms) =
    let later = insert_member k t ms in
    if less k l then member k t (member l u ms) else member l u later

unfoldable mutual
  unfolding insert_member

  pub tree_of : (Text → Text) → Json → Tree
  tree_of quote json_null = word (b'n' ∷ b'u' ∷ b'l' ∷ b'l' ∷ [])
  tree_of quote (json_bool b) = word (bool_text quote b)
  tree_of quote (json_number t) = word t
  tree_of quote (json_string t) = quoted t
  tree_of quote (json_array xs) = array (trees_of quote xs)
  tree_of quote (json_object fs) = object (members_of quote fs)

  pub trees_of : (Text → Text) → Items → Trees
  trees_of quote no_items = no_trees
  trees_of quote (item x xs) = tree (tree_of quote x) (trees_of quote xs)

  pub members_of : (Text → Text) → Fields → Members
  members_of quote no_fields = no_members
  members_of quote (field k v fs) = insert_member k (tree_of quote v) (members_of quote fs)
  members_of quote (undefined_field k fs) = members_of quote fs

module _ (quote : Text → Text) where
  -- What follows the first one of a list has a comma before it.
  unfoldable mutual
    pub print : Tree → Text
    print (word t) = t
    print (quoted t) = quote t
    print (array ts) = bracket b'[' (print_first ts) b']'
    print (object ms) = bracket b'{' (print_first_member ms) b'}'

    pub print_first : Trees → Text
    print_first no_trees = []
    print_first (tree t ts) = print t ++ print_rest ts

    pub print_rest : Trees → Text
    print_rest no_trees = []
    print_rest (tree t ts) = b',' ∷ (print t ++ print_rest ts)

    pub print_first_member : Members → Text
    print_first_member no_members = []
    print_first_member (member k t ms) = quote k ++ b':' ∷ (print t ++ print_members ms)

    pub print_members : Members → Text
    print_members no_members = []
    print_members (member k t ms) = b',' ∷ (quote k ++ b':' ∷ (print t ++ print_members ms))

  texts_of : Trees → List Text
  unfolding print
  texts_of no_trees = []
  texts_of (tree t ts) = print t ∷ texts_of ts

  entries_of : Members → List Entry
  unfolding print
  entries_of no_members = []
  entries_of (member k t ms) = record { key = k; text = print t } ∷ entries_of ms

  entries_of-insert_member :
      (k : Text) (t : Tree) (ms : Members)
      → entries_of (insert_member k t ms)
        ≡ insert_entry (record { key = k; text = print t }) (entries_of ms)
  unfolding entries_of insert_member insert_entry
  entries_of-insert_member k t no_members = refl
  entries_of-insert_member k t (member l u ms) = elim (Bool-cases (less k l)) [
    | inl e ↦ rw e refl
    | inr e ↦
        rw e (ap (λ es. record { key = l; text = print u } ∷ es) (entries_of-insert_member k t ms))
  ]

  join-texts_of : (t : Tree) (ts : Trees) → join (print t ∷ texts_of ts) ≡ print t ++ print_rest ts
  unfolding join texts_of print
  join-texts_of t no_trees = sym (append-nil (print t))
  join-texts_of t (tree u us) = ap (λ r. print t ++ b',' ∷ r) (join-texts_of u us)

  join-entries_of :
      (k : Text) (t : Tree) (ms : Members)
      → join (print_entries quote (entries_of (member k t ms)))
        ≡ quote k ++ b':' ∷ (print t ++ print_members ms)
  unfolding join entries_of print print_entries
  join-entries_of k t no_members = ap (λ r. quote k ++ b':' ∷ r) (sym (append-nil (print t)))
  join-entries_of k t (member l u ms) =
      append_assoc (quote k) (b':' ∷ print t) _
      ∙ ap (λ r. quote k ++ b':' ∷ (print t ++ b',' ∷ r)) (join-entries_of l u ms)

  join-all_texts : (ts : Trees) → join (texts_of ts) ≡ print_first ts
  unfolding join texts_of print
  join-all_texts no_trees = refl
  join-all_texts (tree t ts) = join-texts_of t ts

  join-all_entries :
      (ms : Members) → join (print_entries quote (entries_of ms)) ≡ print_first_member ms
  unfolding join entries_of print print_entries
  join-all_entries no_members = refl
  join-all_entries (member k t ms) = join-entries_of k t ms

  mutual
    unfolding tree_of canonical_json print texts_of entries_of sort_entries

    pub print-tree_of : (v : Json) → canonical_json quote v ≡ print (tree_of quote v)
    print-tree_of json_null = refl
    print-tree_of (json_bool b) = refl
    print-tree_of (json_number t) = refl
    print-tree_of (json_string t) = refl
    print-tree_of (json_array xs) =
        ap (λ t. bracket b'[' t b']')
          (ap join (texts_of-trees_of xs) ∙ join-all_texts (trees_of quote xs))
    print-tree_of (json_object fs) =
        ap (λ t. bracket b'{' t b'}')
          (ap (λ es. join (print_entries quote es)) (entries_of-members_of fs)
            ∙ join-all_entries (members_of quote fs))

    texts_of-trees_of : (xs : Items) → canonical_items quote xs ≡ texts_of (trees_of quote xs)
    texts_of-trees_of no_items = refl
    texts_of-trees_of (item x xs) = ap₂ (λ t ts. t ∷ ts) (print-tree_of x) (texts_of-trees_of xs)

    entries_of-members_of :
        (fs : Fields) → sort_entries (canonical_fields quote fs) ≡ entries_of (members_of quote fs)
    entries_of-members_of no_fields = refl
    entries_of-members_of (field k v fs) =
        ap₂ (λ t es. insert_entry (record { key = k; text = t }) es) (print-tree_of v)
          (entries_of-members_of fs)
        ∙ sym (entries_of-insert_member k (tree_of quote v) (members_of quote fs))
    entries_of-members_of (undefined_field k fs) = entries_of-members_of fs
