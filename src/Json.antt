-- ===== src/Json.antt =====
-- `canonicalJson` of packages/crypto/src/audit-chain.ts. A text is the list of its UTF-16 code units.
pub mod Order
pub mod Trees
pub mod Words
pub mod Kinds
pub mod Delimited
pub mod Examples
use mima.Prelude.{ℕ, Bool, true, false, List, [], ◌∷◌, ◌++◌, if◌then◌else◌, ltb}

abbrev pub Text : Type 0
Text = List ℕ

-- A number stands as `JSON.stringify` prints it.
mutual
  pub data Json : Type 0 where
    json_null : Json
    json_bool : Bool → Json
    json_number : Text → Json
    json_string : Text → Json
    json_array : Items → Json
    json_object : Fields → Json

  pub data Items : Type 0 where
    no_items : Items
    item : Json → Items → Items

  -- The own entries of an object, in their order; a value may be `undefined`.
  pub data Fields : Type 0 where
    no_fields : Fields
    field : Text → Json → Fields → Fields
    undefined_field : Text → Fields → Fields

-- `a < b` on texts, by code units.
unfoldable pub less : Text → Text → Bool
less [] [] = false
less [] (y ∷ ys) = true
less (x ∷ xs) [] = false
less (x ∷ xs) (y ∷ ys) =
    let rest = less xs ys in if ltb x y then true else if ltb y x then false else rest

pub record Entry : Type 0 where
  pub key : Text
  pub text : Text

-- `sort(([a], [b]) => (a < b ? -1 : 1))`: the entry goes before the first that is above it.
pub insert_entry : Entry → List Entry → List Entry
insert_entry e [] = e ∷ []
insert_entry e (f ∷ rest) =
    let later = insert_entry e rest in if less e.key f.key then e ∷ f ∷ rest else f ∷ later

pub sort_entries : List Entry → List Entry
sort_entries [] = []
sort_entries (e ∷ rest) = insert_entry e (sort_entries rest)

-- `join(',')`
pub join : List Text → Text
join [] = []
join (t ∷ []) = t
join (t ∷ u ∷ rest) = t ++ b',' ∷ join (u ∷ rest)

abbrev pub bracket : ℕ → Text → ℕ → Text
bracket a t b = a ∷ (t ++ b ∷ [])

-- `JSON.stringify` of a text, which quotes and escapes it, is the platform's.
module _ (quote : Text → Text) where
  pub print_entries : List Entry → List Text
  print_entries [] = []
  print_entries (e ∷ rest) = (quote e.key ++ b':' ∷ e.text) ∷ print_entries rest

  abbrev pub bool_text : Bool → Text
  bool_text true = b't' ∷ b'r' ∷ b'u' ∷ b'e' ∷ []
  bool_text false = b'f' ∷ b'a' ∷ b'l' ∷ b's' ∷ b'e' ∷ []

  -- The values are printed before the entries are sorted, which looks at the keys alone.
  unfoldable mutual
    unfolding print_entries sort_entries insert_entry join less

    pub canonical_json : Json → Text
    canonical_json json_null = b'n' ∷ b'u' ∷ b'l' ∷ b'l' ∷ []
    canonical_json (json_bool b) = bool_text b
    canonical_json (json_number t) = t
    canonical_json (json_string t) = quote t
    canonical_json (json_array xs) = bracket b'[' (join (canonical_items xs)) b']'
    canonical_json (json_object fs) =
        bracket b'{' (join (print_entries (sort_entries (canonical_fields fs)))) b'}'

    pub canonical_items : Items → List Text
    canonical_items no_items = []
    canonical_items (item x xs) = canonical_json x ∷ canonical_items xs

    pub canonical_fields : Fields → List Entry
    canonical_fields no_fields = []
    canonical_fields (field k v fs) =
        record { key = k; text = canonical_json v } ∷ canonical_fields fs
    canonical_fields (undefined_field k fs) = canonical_fields fs
