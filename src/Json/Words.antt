-- ===== src/Json/Words.antt =====
-- `canonicalJson` of packages/crypto/src/audit-chain.ts: how the values that are not texts, arrays or
-- objects are spelled.
use mima.Prelude.{
  ℕ, Bool, true, false, not, ◌&&◌, ◌||◌, [], ◌∷◌, ◌==◌, nat_eq, leb, all, ◌≡◌, refl, arith,
  Bool-cases, inl, inr,
}
use mima.Json.{
  Text, Json, Items, Fields, json_null, json_bool, json_number, json_string, json_array,
  json_object, no_items, item, no_fields, field, undefined_field, bool_text, less,
}
use mima.Json.Trees.{
  Tree, word, quoted, array, object, Trees, no_trees, tree, Members, no_members, member,
  insert_member, tree_of, trees_of, members_of,
}

-- What may follow a value inside a tree: a comma, or the end of an array or of an object.
abbrev pub is_stop : ℕ → Bool
is_stop c = c == b',' || (c == b']' || c == b'}')

abbrev pub is_opening : ℕ → Bool
is_opening c = is_stop c || (c == b'"' || (c == b'[' || c == b'{'))

-- A character of a number: a digit, a sign, the point or the exponent.
abbrev pub is_number_char : ℕ → Bool
is_number_char c =
    (leb b'0' c && leb c b'9') || (c == b'-' || (c == b'+' || (c == b'.' || c == b'e')))

-- A number as `JSON.stringify` prints it, as far as it is asked for here.
abbrev pub is_number : Text → Bool
is_number [] = false
is_number (c ∷ t) = is_number_char c && all is_number_char t

-- The numbers of a value are printed like numbers.
unfoldable mutual
  pub HasNumbers : Json → Type 0
  HasNumbers json_null = Unit
  HasNumbers (json_bool b) = Unit
  HasNumbers (json_number t) = is_number t ≡ true
  HasNumbers (json_string t) = Unit
  HasNumbers (json_array xs) = HaveNumbers xs
  HasNumbers (json_object fs) = FieldsHaveNumbers fs

  pub HaveNumbers : Items → Type 0
  HaveNumbers no_items = Unit
  HaveNumbers (item x xs) = HasNumbers x × HaveNumbers xs

  pub FieldsHaveNumbers : Fields → Type 0
  FieldsHaveNumbers no_fields = Unit
  FieldsHaveNumbers (field k v fs) = HasNumbers v × FieldsHaveNumbers fs
  FieldsHaveNumbers (undefined_field k fs) = FieldsHaveNumbers fs

-- A word begins like no other value, and has nothing in it that may follow a value.
abbrev pub is_word : Text → Bool
is_word [] = false
is_word (c ∷ t) = not (is_opening c) && all (λ d. not (is_stop d)) t

abbrev pub stops : Text → Bool
stops [] = false
stops (c ∷ t) = is_stop c

unfoldable mutual
  pub IsGood : Tree → Type 0
  IsGood (word t) = is_word t ≡ true
  IsGood (quoted t) = Unit
  IsGood (array ts) = AreGood ts
  IsGood (object ms) = MembersAreGood ms

  pub AreGood : Trees → Type 0
  AreGood no_trees = Unit
  AreGood (tree t ts) = IsGood t × AreGood ts

  pub MembersAreGood : Members → Type 0
  MembersAreGood no_members = Unit
  MembersAreGood (member k t ms) = IsGood t × MembersAreGood ms

number_chars-stop_free :
    (t : Text) → all is_number_char t ≡ true → all (λ d. not (is_stop d)) t ≡ true
number_chars-stop_free [] h = refl
number_chars-stop_free (c ∷ t) h =
    let rest = number_chars-stop_free t (ground (arith, h)) in ground (arith, h, rest)

is_number-is_word : (t : Text) → is_number t ≡ true → is_word t ≡ true
is_number-is_word [] h = cc
is_number-is_word (c ∷ t) h =
    let rest = number_chars-stop_free t (ground (arith, h)) in ground (arith, h, rest)

bool_text-is_word : (quote : Text → Text) (b : Bool) → is_word (bool_text quote b) ≡ true
bool_text-is_word quote true = refl
bool_text-is_word quote false = refl

insert_member-IsGood :
    (k : Text) (t : Tree) (ms : Members)
    → IsGood t
    → MembersAreGood ms
    → MembersAreGood (insert_member k t ms)
unfolding insert_member IsGood
insert_member-IsGood k t no_members h g = (h, tt)
insert_member-IsGood k t (member l u ms) h g = elim (Bool-cases (less k l)) [
  | inl e ↦ rw e (h, g)
  | inr e ↦ rw e (g.0, insert_member-IsGood k t ms h g.1)
]

mutual
  unfolding tree_of IsGood HasNumbers

  pub tree_of-IsGood : (quote : Text → Text) (v : Json) → HasNumbers v → IsGood (tree_of quote v)
  tree_of-IsGood quote json_null h = refl
  tree_of-IsGood quote (json_bool b) h = bool_text-is_word quote b
  tree_of-IsGood quote (json_number t) h = is_number-is_word t h
  tree_of-IsGood quote (json_string t) h = tt
  tree_of-IsGood quote (json_array xs) h = trees_of-AreGood quote xs h
  tree_of-IsGood quote (json_object fs) h = members_of-AreGood quote fs h

  trees_of-AreGood :
      (quote : Text → Text) (xs : Items) → HaveNumbers xs → AreGood (trees_of quote xs)
  trees_of-AreGood quote no_items h = tt
  trees_of-AreGood quote (item x xs) h = (tree_of-IsGood quote x h.0, trees_of-AreGood quote xs h.1)

  members_of-AreGood :
      (quote : Text → Text) (fs : Fields)
      → FieldsHaveNumbers fs
      → MembersAreGood (members_of quote fs)
  members_of-AreGood quote no_fields h = tt
  members_of-AreGood quote (field k v fs) h =
      insert_member-IsGood k (tree_of quote v) (members_of quote fs) (tree_of-IsGood quote v h.0)
        (members_of-AreGood quote fs h.1)
  members_of-AreGood quote (undefined_field k fs) h = members_of-AreGood quote fs h
