-- ===== src/Json/Order.antt =====
-- `canonicalJson` of packages/crypto/src/audit-chain.ts does not see the order of an object's fields.
use mima.Prelude.{◌≡◌, ◌≢◌, refl, ap, ◌∙◌, true, false, List, [], ◌∷◌, arith}
use mima.Json.{
  Text, Json, Fields, field, undefined_field, json_object, Entry, less, insert_entry, sort_entries,
  join, bracket, print_entries, canonical_json, canonical_fields,
}

less_asym : (a b : Text) → less a b ≡ true → less b a ≡ false
unfolding less
less_asym [] [] h = cc
less_asym [] (y ∷ ys) h = refl
less_asym (x ∷ xs) [] h = cc
less_asym (x ∷ xs) (y ∷ ys) h = ground (arith, less_asym xs ys)

less_total : (a b : Text) → less a b ≡ false → less b a ≡ false → a ≡ b
unfolding less
less_total [] [] h k = refl
less_total [] (y ∷ ys) h k = cc
less_total (x ∷ xs) [] h k = cc
less_total (x ∷ xs) (y ∷ ys) h k = ground (arith, less_total xs ys)

less_trans : (a b c : Text) → less a b ≡ true → less b c ≡ true → less a c ≡ true
unfolding less
less_trans [] [] c h k = cc
less_trans [] (y ∷ ys) [] h k = cc
less_trans [] (y ∷ ys) (z ∷ zs) h k = refl
less_trans (x ∷ xs) [] c h k = cc
less_trans (x ∷ xs) (y ∷ ys) [] h k = cc
less_trans (x ∷ xs) (y ∷ ys) (z ∷ zs) h k = ground (arith, less_trans xs ys zs)

-- Two insertions under different keys may change places.
insert_entry_comm :
    (e f : Entry) (l : List Entry)
    → e.key ≢ f.key
    → insert_entry e (insert_entry f l) ≡ insert_entry f (insert_entry e l)
unfolding insert_entry
insert_entry_comm e f [] n = ground (arith, less_asym e.key f.key, less_total e.key f.key)
insert_entry_comm e f (g ∷ l) n = ground (
  arith,
  insert_entry_comm e f l n,
  less_asym e.key f.key,
  less_total e.key f.key,
  less_trans e.key f.key g.key,
  less_trans f.key e.key g.key,
)

-- Two lists of fields that differ by exchanges of neighbours under different keys, and by fields
-- without a value.
pub data Reordered : Fields → Fields → Type 0 where
  same : {fs : Fields} → Reordered fs fs
  swap :
      {k j : Text} {v w : Json} {fs gs : Fields}
      → k ≢ j
      → Reordered fs gs
      → Reordered (field k v (field j w fs)) (field j w (field k v gs))
  under :
      {k : Text} {v : Json} {fs gs : Fields}
      → Reordered fs gs
      → Reordered (field k v fs) (field k v gs)
  drop : {k : Text} {fs gs : Fields} → Reordered fs gs → Reordered (undefined_field k fs) gs
  after : {fs gs hs : Fields} → Reordered fs gs → Reordered gs hs → Reordered fs hs

module _ (quote : Text → Text) where
  sort_entries-Reordered :
      {fs gs : Fields}
      → Reordered fs gs
      → sort_entries (canonical_fields quote fs) ≡ sort_entries (canonical_fields quote gs)
  unfolding sort_entries canonical_fields
  sort_entries-Reordered same = refl
  sort_entries-Reordered (swap {k} {j} {v} {w} {fs} {gs} n r) =
      let e : Entry = record { key = k; text = canonical_json quote v } in
      let f : Entry = record { key = j; text = canonical_json quote w } in
      ap (λ l. insert_entry e (insert_entry f l)) (sort_entries-Reordered r)
      ∙ insert_entry_comm e f (sort_entries (canonical_fields quote gs)) n
  sort_entries-Reordered (under {k} {v} r) =
      ap (insert_entry (record { key = k; text = canonical_json quote v }))
        (sort_entries-Reordered r)
  sort_entries-Reordered (drop r) = sort_entries-Reordered r
  sort_entries-Reordered (after r q) = sort_entries-Reordered r ∙ sort_entries-Reordered q

  -- Objects whose fields differ in order, or by fields that are `undefined`, have one canonical text.
  pub canonical_json-Reordered :
      (fs gs : Fields)
      → Reordered fs gs
      → canonical_json quote (json_object fs) ≡ canonical_json quote (json_object gs)
  unfolding canonical_json
  canonical_json-Reordered fs gs r =
      ap (λ es. bracket b'{' (join (print_entries quote es)) b'}') (sort_entries-Reordered r)
