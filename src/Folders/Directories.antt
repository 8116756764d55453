-- ===== src/Folders/Directories.antt =====
-- packages/domain/src/folder-path.ts: the directories of a vault, with their former names. The order
-- by `localeCompare` is the platform's and an argument; a sort is stable. A thrown error is none.
use mima.Prelude.{
  ℕ, ◌+◌, Text, Bool, false, ◌&&◌, ◌||◌, not, Option, none, some, List, [], ◌∷◌, ◌++◌, map, ◌==◌,
  nat_eq, ltb, any, keep, find, length, if◌then◌else◌,
}
use mima.Names.{is_empty}
use mima.Anchor.{same_text}
use mima.Folders.{normalize_folder_path, folder_path_ancestors}

pub record VaultDirectoryEntry : Type 0 where
  pub path : Text
  pub aliases : List Text

abbrev pub vault_directory_max_count : ℕ
vault_directory_max_count = 500

abbrev pub vault_directory_max_aliases : ℕ
vault_directory_max_aliases = 2000

abbrev pub has_text : List Text → Text → Bool
has_text ts t = any (λ u. same_text u t) ts

-- `new Set(ts)`
unfoldable pub distinct_texts : List Text → List Text → List Text
distinct_texts seen [] = seen
distinct_texts seen (t ∷ ts) = distinct_texts (if has_text seen t then seen else seen ++ t ∷ []) ts

abbrev pub cons_both : Option Text → Option (List Text) → Option (List Text)
cons_both none ts = none
cons_both (some t) none = none
cons_both (some t) (some ts) = some (t ∷ ts)

-- The aliases normalised; none where one of them is not a path.
unfoldable pub normalize_all : List Text → Option (List Text)
normalize_all [] = some []
normalize_all (t ∷ ts) = cons_both (normalize_folder_path (some t)) (normalize_all ts)

-- `paths`: whose a name is, the newest first.
abbrev pub owner_of : List (Text × Text) → Text → Option Text
owner_of [] name = none
owner_of ((n, path) ∷ names) name = if same_text n name then some path else owner_of names name

-- `owner && owner !== path`
abbrev pub is_taken : Option Text → Text → Bool
is_taken none path = false
is_taken (some owner) path = not (is_empty owner) && not (same_text owner path)

unfoldable pub claim : Text → List Text → List (Text × Text) → Option (List (Text × Text))
claim path [] names = some names
claim path (c ∷ cs) names =
    let rest = claim path cs ((c, path) ∷ names) in
    if is_taken (owner_of names c) path then none else rest

abbrev pub insert : {A : Type 0} → (A → A → Bool) → A → List A → List A
insert before x [] = x ∷ []
insert before x (y ∷ ys) =
    let rest = insert before x ys in if before y x then y ∷ rest else x ∷ y ∷ ys

-- A stable sort: from the right, each before those that are not before it.
abbrev pub sort_by : {A : Type 0} → (A → A → Bool) → List A → List A
sort_by before [] = []
sort_by before (x ∷ xs) = insert before x (sort_by before xs)

pub record Registry : Type 0 where
  pub names : List (Text × Text)
  pub normalized : List VaultDirectoryEntry
  pub alias_count : ℕ

abbrev pub empty_registry : Registry
empty_registry = record { names = []; normalized = []; alias_count = 0 }

abbrev pub and_then : {A B : Type 0} → Option A → (A → Option B) → Option B
and_then none f = none
and_then (some a) f = f a

-- `locale_less a b` is `a.localeCompare(b, 'zh-CN') < 0`.
module _ (locale_less : Text → Text → Bool) where
  abbrev pub entry_less : VaultDirectoryEntry → VaultDirectoryEntry → Bool
  entry_less a b = locale_less a.path b.path

  abbrev pub add_claimed :
      Text → List Text → Registry → Option (List (Text × Text)) → Option Registry
  add_claimed path clean r none = none
  add_claimed path clean r (some names) = some (record {
    names = names;
    normalized = r.normalized ++ record { path = path; aliases = sort_by locale_less clean } ∷ [];
    alias_count = r.alias_count + length clean;
  })

  abbrev pub register_as : Option Text → Option (List Text) → Registry → Option Registry
  register_as none aliases r = none
  register_as (some path) none r = none
  register_as (some path) (some aliases) r =
      let clean = keep (λ a. not (same_text a path)) (distinct_texts [] aliases) in
      if is_empty path || ltb vault_directory_max_aliases (r.alias_count + length clean)
      then none
      else add_claimed path clean r (claim path (path ∷ clean) r.names)

  -- One turn of the loop.
  unfoldable pub register : VaultDirectoryEntry → Registry → Option Registry
  register entry r =
      register_as (normalize_folder_path (some entry.path)) (normalize_all entry.aliases) r

  unfoldable pub register_all : List VaultDirectoryEntry → Registry → Option Registry
  register_all [] r = some r
  register_all (e ∷ es) r = and_then (register e r) (λ t. register_all es t)

  abbrev pub finish : Registry → Option (List VaultDirectoryEntry)
  finish r =
      if length (distinct_texts [] (map (λ e. e.path) r.normalized)) == length r.normalized
      then some (sort_by entry_less r.normalized)
      else none

  unfoldable pub normalize_vault_directories :
      List VaultDirectoryEntry → Option (List VaultDirectoryEntry)
  unfolding register_all
  normalize_vault_directories entries =
      if ltb vault_directory_max_count (length entries)
      then none
      else and_then (register_all entries empty_registry) finish

  abbrev pub names_it : Text → VaultDirectoryEntry → Bool
  names_it path e = same_text e.path path || has_text e.aliases path

  abbrev pub path_of : Text → Option VaultDirectoryEntry → Text
  path_of path none = path
  path_of path (some e) = e.path

  abbrev pub resolve_in : Text → Option (List VaultDirectoryEntry) → Option Text
  resolve_in path none = some path
  resolve_in path (some entries) = some (path_of path (find (names_it path) entries))

  unfoldable pub resolve_vault_directory_path : List VaultDirectoryEntry → Option Text → Option Text
  unfolding normalize_vault_directories
  resolve_vault_directory_path entries folder =
      and_then (normalize_folder_path folder)
        (λ path. resolve_in path (normalize_vault_directories entries))

  -- Missing ancestors are put at the end.
  abbrev pub add_paths : List Text → List VaultDirectoryEntry → List VaultDirectoryEntry
  add_paths [] entries = entries
  add_paths (p ∷ ps) entries = add_paths ps (
      if has_text (map (λ (e : VaultDirectoryEntry). e.path) entries) p
      then entries
      else entries ++ record { path = p; aliases = [] } ∷ [])

  abbrev pub ancestors_if : Option Text → List Text
  ancestors_if none = []
  ancestors_if (some path) = folder_path_ancestors path

  unfoldable pub add_item_folders :
      List VaultDirectoryEntry
      → List (Option Text)
      → List VaultDirectoryEntry
      → List VaultDirectoryEntry
  add_item_folders normalized [] entries = entries
  add_item_folders normalized (raw ∷ raws) entries =
      add_item_folders normalized raws
        (add_paths (ancestors_if (resolve_vault_directory_path normalized raw)) entries)

  unfoldable pub materialize_vault_directories :
      List VaultDirectoryEntry → List (Option Text) → Option (List VaultDirectoryEntry)
  unfolding add_item_folders
  materialize_vault_directories entries folders =
      and_then (normalize_vault_directories entries)
        (λ normalized. normalize_vault_directories (add_item_folders normalized folders normalized))
