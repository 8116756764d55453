-- ===== src/SignIn/Once.antt =====
-- apps/api/src/auth/transaction-store.ts: a stored sign-in is given out once.
use mima.Prelude.{
  ℕ, suc, ◌+◌, ◌≤◌, String, Bool, true, false, ◌&&◌, not, List, [], ◌∷◌, any, find, keep, length,
  ltb, if◌then◌else◌, ◌==◌, string_eq, Bool-cases, Option-cases, eq_iff, ◌≡◌, refl, inl, inr, arith,
  keep-append, length-append, find-eq-some, In, here, there,
}
use mima.SignIn.{
  OidcTransactionPayload, OidcTransaction, Platform, Consumed, absent, refused, consumed, has_hash,
  purge, new_transaction, create, read_row, consume,
}

pub data SignInOp : Type 0 where
  creating : ℕ → String → String → String → OidcTransactionPayload → SignInOp
  consuming : ℕ → String → SignInOp

abbrev pub is_given : Consumed → Bool
is_given absent = false
is_given refused = false
is_given (consumed payload started_at) = true

-- The rows of a hash.
abbrev pub count : String → List OidcTransaction → ℕ
count hash rows = length (keep (has_hash hash) rows)

abbrev add_if : Bool → ℕ → ℕ
add_if b n = if b then suc n else n

count-keep :
    (hash : String) (q : OidcTransaction → Bool) (rows : List OidcTransaction)
    → count hash (keep q rows) ≤ count hash rows
count-keep hash q [] = omega arith
count-keep hash q (row ∷ rows) = ground (arith, count-keep hash q rows)

count-removed :
    (hash : String) (rows : List OidcTransaction)
    → count hash (keep (λ row. not (has_hash hash row)) rows) ≡ 0
count-removed hash [] = refl
count-removed hash (row ∷ rows) = ground (arith, count-removed hash rows)

count-In :
    (hash : String) {row : OidcTransaction} {rows : List OidcTransaction}
    → In row rows
    → has_hash hash row ≡ true
    → 1 ≤ count hash rows
count-In hash here h = rw h (omega arith)
count-In hash (there {x} i) h = elim (Bool-cases (has_hash hash x)) [
  | inl e ↦ rw e (omega arith)
  | inr e ↦ rw e (count-In hash i h)
]

module _ (p : Platform) where
  -- How often the runs of a hash's state give something out, and how often one is stored.
  unfoldable pub given_out : String → List SignInOp → List OidcTransaction → ℕ
  given_out hash [] rows = 0
  given_out hash (creating now iv key_version state payload ∷ ops) rows =
      given_out hash ops (create p now iv key_version state payload rows).0
  given_out hash (consuming now state ∷ ops) rows =
      add_if (p.sha256 state == hash && is_given (consume p now state rows).1)
        (given_out hash ops (consume p now state rows).0)

  unfoldable pub stored : String → List SignInOp → List OidcTransaction → ℕ
  stored hash [] rows = 0
  stored hash (creating now iv key_version state payload ∷ ops) rows =
      add_if (p.sha256 state == hash && (create p now iv key_version state payload rows).1)
        (stored hash ops (create p now iv key_version state payload rows).0)
  stored hash (consuming now state ∷ ops) rows = stored hash ops (consume p now state rows).0

  count-create :
      (hash : String) (now : ℕ) (iv key_version state : String) (payload : OidcTransactionPayload)
      (rows : List OidcTransaction)
      → count hash (create p now iv key_version state payload rows).0
        ≤ add_if
            (p.sha256 state == hash && (create p now iv key_version state payload rows).1)
            (count hash rows)
  unfolding create purge
  count-create hash now iv key_version state payload rows =
      let kept = purge now rows in
      let row = new_transaction p now iv key_version state payload in
      let fewer = count-keep hash (λ r. not (ltb r.expires_at now)) rows in
      elim (Bool-cases (any (has_hash (p.sha256 state)) kept)) [
        | inl e ↦ rw (create, e) (ground (arith, fewer))
        | inr e ↦
            rw
              (
                create,
                e,
                keep-append (has_hash hash) kept (row ∷ []),
                length-append (keep (has_hash hash) kept) (keep (has_hash hash) (row ∷ [])),
              )
              (ground (arith, fewer))
      ]

  count-read :
      (hash : String) (now : ℕ) (rows : List OidcTransaction)
      → add_if
          (is_given (read_row p now hash (find (has_hash hash) rows)))
          (count hash (keep (λ row. not (has_hash hash row)) rows))
        ≤ count hash rows
  count-read hash now rows = elim (Option-cases (find (has_hash hash) rows)) [
    | inl e ↦ rw (e, count-removed hash rows) (omega arith)
    | inr (row, e) ↦
        let (i, h) = find-eq-some (has_hash hash) rows e in
        rw (e, count-removed hash rows) (ground (arith, count-In hash i h))
  ]

  count-consume :
      (hash : String) (now : ℕ) (state : String) (rows : List OidcTransaction)
      → add_if
          (p.sha256 state == hash && is_given (consume p now state rows).1)
          (count hash (consume p now state rows).0)
        ≤ count hash rows
  unfolding consume
  count-consume hash now state rows = elim (Bool-cases (p.sha256 state == hash)) [
    | inl e ↦
        rw ((eq_iff (p.sha256 state) hash).0 e, (eq_iff hash hash).1 refl)
          (count-read hash now rows)
    | inr e ↦ rw e (count-keep hash (λ row. not (has_hash (p.sha256 state) row)) rows)
  ]

  -- Whatever is stored and asked for, in any order and at any times, a state gives out its sign-in at
  -- most as often as one was stored under its hash, beside those that are there at the start.
  pub given_out-le :
      (state : String) (ops : List SignInOp) (rows : List OidcTransaction)
      → given_out (p.sha256 state) ops rows
        ≤ stored (p.sha256 state) ops rows + count (p.sha256 state) rows
  unfolding given_out stored
  given_out-le state [] rows = omega arith
  given_out-le state (creating now iv key_version other payload ∷ ops) rows = ground (
    arith,
    given_out-le state ops (create p now iv key_version other payload rows).0,
    count-create (p.sha256 state) now iv key_version other payload rows,
  )
  given_out-le state (consuming now other ∷ ops) rows = ground (
    arith,
    given_out-le state ops (consume p now other rows).0,
    count-consume (p.sha256 state) now other rows,
  )
