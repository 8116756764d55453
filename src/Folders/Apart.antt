-- ===== src/Folders/Apart.antt =====
-- packages/domain/src/folder-path.ts: no name belongs to two directories of a registry.
use mima.Prelude.{
  ◌+◌, Text, Bool, false, ◌&&◌, ◌||◌, not, Option, none, some, List, [], ◌∷◌, map, ◌==◌, nat_eq,
  ltb, keep, length, In, here, there, In-cons, In-of_append, subst, Bool-cases, Option-cases,
  some_eq, ◌≡◌, refl, sym, ap, ◌∙◌, ◌⊎◌, inl, inr, arith,
}
use mima.Names.{is_empty}
use mima.Anchor.{same_text}
use mima.Audit.Chain.{same_text-eq, same_text_refl}
use mima.Folders.{normalize_folder_path}
use mima.Folders.Directories.{
  VaultDirectoryEntry, Registry, owner_of, is_taken, claim, insert, sort_by, distinct_texts,
  normalize_all, add_claimed, register_as, register, register_all, finish, empty_registry,
  normalize_vault_directories, entry_less, vault_directory_max_aliases, vault_directory_max_count,
}

-- A sort adds nothing.
In-of_insert :
    {A : Type 0} (before : A → A → Bool) (x : A) (ys : List A) {a : A}
    → In a (insert before x ys)
    → (a ≡ x) ⊎ In a ys
In-of_insert before x [] i = In-cons i
In-of_insert before x (y ∷ ys) i = elim (Bool-cases (before y x)) [
  | inl e ↦ elim (In-cons (rw e at i)) [
    | inl q ↦ inr (rw q here)
    | inr j ↦ elim (In-of_insert before x ys j) [ inl q ↦ inl q | inr k ↦ inr (there k) ]
  ]
  | inr e ↦ In-cons (rw e at i)
]

In-of_sort_by :
    {A : Type 0} (before : A → A → Bool) (xs : List A) {a : A} → In a (sort_by before xs) → In a xs
In-of_sort_by before [] i = i
In-of_sort_by before (x ∷ xs) i = elim (In-of_insert before x (sort_by before xs) i) [
  | inl q ↦ rw q here
  | inr j ↦ there (In-of_sort_by before xs j)
]

-- Names that are owned stay with their owner.
claim-keeps :
    (path : Text) (cs : List Text) (names after : List (Text × Text)) (n p : Text)
    → claim path cs names ≡ some after
    → owner_of names n ≡ some p
    → is_empty p ≡ false
    → owner_of after n ≡ some p
unfolding claim
claim-keeps path [] names after n p h o f = rw (← some_eq h) o
claim-keeps path (c ∷ cs) names after n p h o f =
    elim (Bool-cases (is_taken (owner_of names c) path)) [
      | inl e ↦ cc (rw (claim, e) at h)
      | inr e ↦ claim-keeps path cs ((c, path) ∷ names) after n p (rw (claim, e) at h) (step e) f
    ]
  where
    step : is_taken (owner_of names c) path ≡ false → owner_of ((c, path) ∷ names) n ≡ some p
    step e = elim (Bool-cases (same_text c n)) [
      | inl q ↦
          let there_now : owner_of names c ≡ some p = rw (same_text-eq c n q) o in
          let free : (not (is_empty p) && not (same_text p path)) ≡ false = rw there_now at e in
          rw q (ap some (sym (same_text-eq p path (ground (arith, free, f)))))
      | inr q ↦ rw q o
    ]

-- And the claimed names are the path's.
claim-owns :
    (path : Text) (cs : List Text) (names after : List (Text × Text)) (n : Text)
    → claim path cs names ≡ some after
    → is_empty path ≡ false
    → In n cs
    → owner_of after n ≡ some path
unfolding claim
claim-owns path [] names after n h f i = elim i [ ]
claim-owns path (c ∷ cs) names after n h f i =
    elim (Bool-cases (is_taken (owner_of names c) path)) [
      | inl e ↦ cc (rw (claim, e) at h)
      | inr e ↦ elim (In-cons i) [
        | inl q ↦
            claim-keeps path cs ((c, path) ∷ names) after n path (rw (claim, e) at h)
              (rw (q, same_text_refl c) refl) f
        | inr j ↦ claim-owns path cs ((c, path) ∷ names) after n (rw (claim, e) at h) f j
      ]
    ]

abbrev pub names_of : VaultDirectoryEntry → List Text
names_of e = e.path ∷ e.aliases

-- Each name of each entry is owned by its path, which is not empty.
IsOwned : Registry → Type 0
IsOwned r =
    (e : VaultDirectoryEntry)
    → In e r.normalized
    → (is_empty e.path ≡ false)
      × ((n : Text) → In n (names_of e) → owner_of r.names n ≡ some e.path)

module _ (locale_less : Text → Text → Bool) where
  add_claimed-IsOwned :
      (path : Text) (clean : List Text) (r after : Registry) (names : List (Text × Text))
      → claim path (path ∷ clean) r.names ≡ some names
      → is_empty path ≡ false
      → IsOwned r
      → add_claimed locale_less path clean r (some names) ≡ some after
      → IsOwned after
  unfolding IsOwned
  add_claimed-IsOwned path clean r after names c f o h =
      let entry : VaultDirectoryEntry = record {
        path = path;
        aliases = sort_by locale_less clean;
      } in
      rw (← some_eq h) (λ e i. elim (In-of_append r.normalized (entry ∷ []) i) [
        | inl j ↦
            let old = o e j in
            (
              old.0,
              λ n k. claim-keeps path (path ∷ clean) r.names names n e.path c (old.1 n k) old.0,
            )
        | inr j ↦ elim (In-cons j) [
          | inl q ↦
              rw q (f, λ n k. claim-owns path (path ∷ clean) r.names names n c f (of_names n k))
          | inr k ↦ elim k [ ]
        ]
      ])
    where
      of_names : (n : Text) → In n (path ∷ sort_by locale_less clean) → In n (path ∷ clean)
      of_names n i = elim (In-cons i) [
        | inl q ↦ rw q here
        | inr j ↦ there (In-of_sort_by locale_less clean j)
      ]

  register_as-IsOwned :
      (path : Option Text) (aliases : Option (List Text)) (r after : Registry)
      → IsOwned r
      → register_as locale_less path aliases r ≡ some after
      → IsOwned after
  register_as-IsOwned none aliases r after o h = cc
  register_as-IsOwned (some path) none r after o h = cc
  register_as-IsOwned (some path) (some aliases) r after o h =
      let clean = keep (λ a. not (same_text a path)) (distinct_texts [] aliases) in
      elim (Bool-cases
        (is_empty path || ltb vault_directory_max_aliases (r.alias_count + length clean))) [
          | inl e ↦ cc (rw e at h)
          | inr e ↦
              let filled : is_empty path ≡ false = ground (arith, e) in
              elim (Option-cases (claim path (path ∷ clean) r.names)) [
                | inl n ↦ cc (rw (e, n) at h)
                | inr (names, n) ↦
                    add_claimed-IsOwned path clean r after names n filled o (rw (e, n) at h)
              ]
        ]

  register_all-IsOwned :
      (entries : List VaultDirectoryEntry) (r after : Registry)
      → IsOwned r
      → register_all locale_less entries r ≡ some after
      → IsOwned after
  unfolding register_all register
  register_all-IsOwned [] r after o h = subst IsOwned (some_eq h) o
  register_all-IsOwned (e ∷ es) r after o h = elim (Option-cases (register locale_less e r)) [
    | inl n ↦ cc (rw (register_all, n) at h)
    | inr (t, n) ↦
        register_all-IsOwned es t after
          (register_as-IsOwned (normalize_folder_path (some e.path)) (normalize_all e.aliases) r t o
            n)
          (rw (register_all, n) at h)
  ]

  finish-sorted :
      (r : Registry) (result : List VaultDirectoryEntry)
      → finish locale_less r ≡ some result
      → result ≡ sort_by (entry_less locale_less) r.normalized
  finish-sorted r result h =
      elim (Bool-cases (
        length (distinct_texts [] (map (λ (e : VaultDirectoryEntry). e.path) r.normalized))
        == length r.normalized)) [ inl e ↦ sym (some_eq (rw e at h)) | inr e ↦ cc (rw e at h) ]

  -- In a registry that is let through, a name, be it the path or a former name, belongs to one path:
  -- two directories that share a name have the same path; and no path is empty.
  pub normalize_vault_directories-apart :
      (entries result : List VaultDirectoryEntry)
      → normalize_vault_directories locale_less entries ≡ some result
      → (e f : VaultDirectoryEntry) → In e result
      → In f result
      → (is_empty e.path ≡ false)
        × ((n : Text) → In n (names_of e) → In n (names_of f) → e.path ≡ f.path)
  unfolding normalize_vault_directories IsOwned
  normalize_vault_directories-apart entries result h e f i j =
      elim (Bool-cases (ltb vault_directory_max_count (length entries))) [
        | inl k ↦ cc (rw (normalize_vault_directories, k) at h)
        | inr k ↦ elim (Option-cases (register_all locale_less entries empty_registry)) [
          | inl n ↦ cc (rw (normalize_vault_directories, k, n) at h)
          | inr (r, n) ↦
              let owned = register_all-IsOwned entries empty_registry r (λ d l. elim l [ ]) n in
              let sorted = finish-sorted r result (rw (normalize_vault_directories, k, n) at h) in
              let of_e =
                owned e
                  (In-of_sort_by (entry_less locale_less) r.normalized (subst (In e) sorted i)) in
              let of_f =
                owned f
                  (In-of_sort_by (entry_less locale_less) r.normalized (subst (In f) sorted j)) in
              (of_e.0, λ m a b. some_eq (sym (of_e.1 m a) ∙ of_f.1 m b))
        ]
      ]
