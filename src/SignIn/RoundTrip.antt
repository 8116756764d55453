-- ===== src/SignIn/RoundTrip.antt =====
-- apps/api/src/auth/transaction-store.ts: what was stored is read again.
use mima.Prelude.{
  ℕ, ◌+◌, ◌≤◌, String, Bool, true, false, some, List, [], ◌∷◌, ◌++◌, any, find, ltb, string_eq,
  Bool-cases, eq_iff, ◌≡◌, refl, inl, inr, arith,
}
use mima.SignIn.{
  Purpose, login, reauth, same_purpose, OidcTransactionPayload, OidcTransaction, Platform,
  IsReadable, consumed, has_hash, purge, new_transaction, create, unseal, consume,
  transaction_ttl_ms,
}

find-any :
    {A : Type 0} (q : A → Bool) (xs : List A) (a : A)
    → any q xs ≡ false
    → q a ≡ true
    → find q (xs ++ a ∷ []) ≡ some a
find-any q [] a h k = rw k refl
find-any q (x ∷ xs) a h k = ground (arith, h, k, find-any q xs a)

same_purpose_refl : (a : Purpose) → same_purpose a a ≡ true
same_purpose_refl login = refl
same_purpose_refl reauth = refl

module _ (p : Platform) (payload : OidcTransactionPayload) (sound : IsReadable p payload) where
  unseal-new :
      (now : ℕ) (iv key_version state : String)
      → unseal p (p.sha256 state) (new_transaction p now iv key_version state payload)
        ≡ consumed payload now
  unfolding unseal
  unseal-new now iv key_version state =
      rw (unseal, sound.decrypt-encrypt, sound.parse-stringify, same_purpose_refl) refl

  -- A sign-in that was stored is found again under its state, with its payload and its time, until five
  -- minutes have passed; the cipher and JSON read what they have written.
  pub consume-create :
      (now later : ℕ) (iv key_version state : String) (rows : List OidcTransaction)
      → (create p now iv key_version state payload rows).1 ≡ true
      → later ≤ now + transaction_ttl_ms
      → (consume p later state (create p now iv key_version state payload rows).0).1
        ≡ consumed payload now
  unfolding create consume
  consume-create now later iv key_version state rows h l =
      elim (Bool-cases (any (has_hash (p.sha256 state)) (purge now rows))) [
        | inl e ↦ cc (rw (create, e) at h)
        | inr e ↦
            let row = new_transaction p now iv key_version state payload in
            let found =
              find-any (has_hash (p.sha256 state)) (purge now rows) row e
                ((eq_iff (p.sha256 state) (p.sha256 state)).1 refl) in
            let alive : ltb (now + transaction_ttl_ms) later ≡ false = ground (arith, l) in
            rw (create, e, consume, found, alive) (unseal-new now iv key_version state)
      ]
