-- ===== src/Lease/Expiry.antt =====
-- packages/client-core/src/secret-lease.ts: what a reader of the store can be shown.
use mima.Prelude.{
  ℕ, ◌+◌, ◌<◌, String, ◌≡◌, refl, ◌∙◌, Bool, true, false, not, none, some, List, [], ◌∷◌, ◌++◌,
  arith, eq_iff, ◌==◌, nat_eq, string_eq, nat_beq_iff, if◌then◌else◌, ltb, Bool-cases, Option-cases,
  inl, inr, find, In, here, there, find-eq-some, In-keep, In-of_keep, and-eq-true, ◌↔◌, ◌⊎◌, ◌≢◌,
}
use mima.Lease.{
  SecretLease, SecretLeaseStore, has_key, of_item, without, is_stale, revoke_version, grant, get,
  revoke, revoke_all, stale_step, stale_loop, revoke_if_stale,
}

find-append {ℓ} :
    {A : Type ℓ} (p : A → Bool) (xs ys : List A) → find p xs ≡ none → find p (xs ++ ys) ≡ find p ys
find-append p [] ys h = refl
find-append p (x ∷ xs) ys h = ground (arith, find-append p xs ys)

-- Nothing that the test names is left after its removal.
find-without :
    (p q : SecretLease → Bool) (ls : List SecretLease)
    → ((l : SecretLease) → p l ≡ true → q l ≡ true)
    → find p (without q ls) ≡ none
find-without p q [] h = refl
find-without p q (l ∷ ls) h = ground (arith, h l, find-without p q ls h)

find-revoke_version :
    (s : SecretLeaseStore) (item : String) (version : ℕ)
    → find (has_key item version) (revoke_version s item version).leases ≡ none
unfolding revoke_version
find-revoke_version s item version =
    ground (arith, find-without (has_key item version) (has_key item version) s.leases (λ l h. h))

find-grant :
    (s : SecretLeaseStore) (item : String) (version ttl now : ℕ)
    → find (has_key item version) (grant s item version ttl now).leases
      ≡ some (record { item_id = item; secret_version = version; expires_at = now + ttl })
unfolding grant
find-grant s item version ttl now =
    find-append (has_key item version) _ (lease ∷ []) (find-revoke_version s item version)
    ∙ ground (arith, eq_iff item item)
  where
    lease : SecretLease
    lease = record { item_id = item; secret_version = version; expires_at = now + ttl }

-- A granted lease can be read, as long as its time has not run out, and not after.
pub get-grant :
    (s : SecretLeaseStore) (item : String) (version ttl now later : ℕ)
    → (get (grant s item version ttl now) item version later).1 ≡ (
        if ltb later (now + ttl)
        then some (record { item_id = item; secret_version = version; expires_at = now + ttl })
        else none)
unfolding get
get-grant s item version ttl now later = rw (find-grant s item version ttl now, get) (ground arith)

-- What a reader gets is in the store, under the key asked for, and has not expired.
pub get_sound :
    (s : SecretLeaseStore) (item : String) (version now : ℕ) (l : SecretLease)
    → (get s item version now).1 ≡ some l
    → In l s.leases × (l.item_id ≡ item) × (l.secret_version ≡ version) × (now < l.expires_at)
unfolding get
get_sound s item version now l h = elim (Option-cases (find (has_key item version) s.leases)) [
  | inl e ↦ cc (rw (e, get) at h)
  | inr (k, e) ↦
      let q = rw (e, get) at h in
      let r : (k ≡ l) × (now < k.expires_at) = ground arith in
      let found = find-eq-some _ _ e in
      let parts = and-eq-true _ _ found.1 in
      rw (← r.0) (found.0, (eq_iff _ _).0 parts.0, (nat_beq_iff _ _).0 parts.1, r.1)
]

-- Revoking an item, or everything, leaves no version of the item to read.
pub get_after_revoke :
    (s : SecretLeaseStore) (item : String) (version now : ℕ)
    → ((get (revoke s item) item version now).1 ≡ none)
      × ((get (revoke_all s) item version now).1 ≡ none)
unfolding get revoke revoke_all
get_after_revoke s item version now = (
  rw (
    find-without (has_key item version) (of_item item) s.leases (λ l h. (and-eq-true _ _ h).0),
    get,
  ),
  refl,
)

keep-find-none :
    (p : SecretLease → Bool) (ls : List SecretLease) → find p ls ≡ none → without p ls ≡ ls
keep-find-none p [] h = refl
keep-find-none p (l ∷ ls) h = ground (arith, keep-find-none p ls)

-- The leases that `revoke_version` leaves are those under another key.
leases-revoke_version :
    (s : SecretLeaseStore) (item : String) (version : ℕ)
    → (revoke_version s item version).leases ≡ without (has_key item version) s.leases
unfolding revoke_version
leases-revoke_version s item version =
    ground (arith, keep-find-none (has_key item version) s.leases)

In-without :
    (p : SecretLease → Bool) (l : SecretLease) (ls : List SecretLease)
    → In l ls
    → p l ≡ false
    → In l (without p ls)
In-without p l ls i h = In-keep (λ x. not (p x)) i (rw h)

In-of_without :
    (p : SecretLease → Bool) (l : SecretLease) (ls : List SecretLease)
    → In l (without p ls)
    → In l ls × (p l ≡ false)
In-of_without p l ls i = let r = In-of_keep (λ x. not (p x)) ls i in (r.0, ground arith)

module _ (item : String) (current : ℕ) where
  -- A lease of another key than a stale one, or the stale one itself.
  key_of_stale :
      (x l : SecretLease)
      → is_stale item current x ≡ true
      → is_stale item current l ≡ false
      → has_key item x.secret_version l ≡ false
  key_of_stale x l h k = ground (arith, nat_beq_iff l.secret_version x.secret_version)

  own_key :
      (l : SecretLease) → is_stale item current l ≡ true → has_key item l.secret_version l ≡ true
  own_key l h = ground (arith, nat_beq_iff l.secret_version l.secret_version)

  leases-stale_step :
      (s : SecretLeaseStore) (x : SecretLease)
      → (stale_step s item current x).leases ≡ (
          if is_stale item current x
          then without (has_key item x.secret_version) s.leases
          else s.leases)
  unfolding stale_step
  leases-stale_step s x = ground (arith, leases-revoke_version s item x.secret_version)

  stale_step-keeps :
      (s : SecretLeaseStore) (x l : SecretLease)
      → is_stale item current l ≡ false
      → In l s.leases
      → In l (stale_step s item current x).leases
  stale_step-keeps s x l k i =
      rw (leases-stale_step s x) (elim (Bool-cases (is_stale item current x)) [
        | inl h ↦ rw h (In-without _ l s.leases i (key_of_stale x l h k))
        | inr h ↦ rw h i
      ])

  stale_step-old :
      (s : SecretLeaseStore) (x l : SecretLease)
      → In l (stale_step s item current x).leases
      → In l s.leases
  stale_step-old s x l i = elim (Bool-cases (is_stale item current x)) [
    | inl h ↦ (In-of_without _ l s.leases (rw (leases-stale_step s x, h) at i)).0
    | inr h ↦ rw (leases-stale_step s x, h) at i
  ]

  stale_step-drops :
      (s : SecretLeaseStore) (l : SecretLease)
      → is_stale item current l ≡ true
      → ¬ In l (stale_step s item current l).leases
  stale_step-drops s l h i = cc (
    (In-of_without (has_key item l.secret_version) l s.leases
        (rw (leases-stale_step s l, h) at i)).1,
    own_key l h,
  )

  stale_loop-keeps :
      (s : SecretLeaseStore) (ls : List SecretLease) (l : SecretLease)
      → is_stale item current l ≡ false
      → In l s.leases
      → In l (stale_loop s item current ls).leases
  unfolding stale_loop
  stale_loop-keeps s [] l k i = i
  stale_loop-keeps s (x ∷ ls) l k i =
      stale_loop-keeps (stale_step s item current x) ls l k (stale_step-keeps s x l k i)

  stale_loop-old :
      (s : SecretLeaseStore) (ls : List SecretLease) (l : SecretLease)
      → In l (stale_loop s item current ls).leases
      → In l s.leases
  unfolding stale_loop
  stale_loop-old s [] l i = i
  stale_loop-old s (x ∷ ls) l i =
      stale_step-old s x l (stale_loop-old (stale_step s item current x) ls l i)

  stale_loop-drops :
      {l : SecretLease} (s : SecretLeaseStore) {ls : List SecretLease}
      → In l ls
      → is_stale item current l ≡ true
      → ¬ In l (stale_loop s item current ls).leases
  unfolding stale_loop
  stale_loop-drops {l} s (here {xs}) k j =
      stale_step-drops s l k (stale_loop-old (stale_step s item current l) xs l j)
  stale_loop-drops s (there {x} i) k j = stale_loop-drops (stale_step s item current x) i k j

  -- After an update of an item to a version, the leases that are left are those of other items and
  -- of that version: no other lease is lost, none of an old version stays, and none is new.
  pub revoke_if_stale-leases :
      (s : SecretLeaseStore) (l : SecretLease)
      → In l (revoke_if_stale s item current).leases
        ↔ (In l s.leases × (l.item_id ≢ item ⊎ (l.secret_version ≡ current)))
  unfolding revoke_if_stale
  revoke_if_stale-leases s l = (left, right)
    where
      fresh : is_stale item current l ≡ false → l.item_id ≢ item ⊎ (l.secret_version ≡ current)
      fresh h = elim (Bool-cases (l.secret_version == current)) [
        | inl e ↦ inr ((nat_beq_iff _ _).0 e)
        | inr e ↦ inl (λ q. cc (h, not_stale e ((eq_iff l.item_id item).1 q)))
      ]
        where
          not_stale :
              (l.secret_version == current) ≡ false
              → (l.item_id == item) ≡ true
              → is_stale item current l ≡ true
          not_stale a b = ground arith

      left :
          In l (stale_loop s item current s.leases).leases
          → In l s.leases × (l.item_id ≢ item ⊎ (l.secret_version ≡ current))
      left i = (
        stale_loop-old s s.leases l i,
        elim (Bool-cases (is_stale item current l)) [
          | inl h ↦ absurd (stale_loop-drops s (stale_loop-old s s.leases l i) h i)
          | inr h ↦ fresh h
        ],
      )

      right :
          In l s.leases × (l.item_id ≢ item ⊎ (l.secret_version ≡ current))
          → In l (stale_loop s item current s.leases).leases
      right (i, inl n) = stale_loop-keeps s s.leases l (ground (arith, eq_iff l.item_id item)) i
      right (i, inr e) = stale_loop-keeps s s.leases l (ground arith) i
