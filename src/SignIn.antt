-- ===== src/SignIn.antt =====
-- apps/api/src/auth/transaction-store.ts: the state of a sign-in that waits for the identity provider's
-- answer. The hash, the cipher, the derivation of its key and JSON are the platform's: a `Platform`. The
-- initial vector and the clock are arguments. What is authenticated with the text, `…|hash|purpose`, is
-- the pair that it spells.
pub mod RoundTrip
pub mod Once
pub mod Examples
use mima.Prelude.{
  ℕ, ◌+◌, String, Bool, true, false, not, Option, none, some, List, [], ◌∷◌, ◌++◌, ◌==◌, string_eq,
  if◌then◌else◌, ltb, find, keep, any, ◌≡◌,
}

pub data Purpose : Type 0 where
  login reauth : Purpose

pub record OidcTransactionPayload : Type 0 where
  pub purpose : Purpose
  pub code_verifier : String
  pub nonce : String
  pub session_id : Option String
  pub user_id : Option String
  pub previous_authenticated_at : Option String
  pub browser_binding_hash : String

pub record Aad : Type 0 where
  pub state_hash : String
  pub purpose : Purpose

pub record Sealed : Type 0 where
  pub ciphertext : String
  pub auth_tag : String

pub record OidcTransaction : Type 0 where
  pub state_hash : String
  pub purpose : Purpose
  pub sealed : Sealed
  pub iv : String
  pub key_version : String
  pub created_at : ℕ
  pub expires_at : ℕ

-- `decrypt` and `parse` give none where they throw.
pub record Platform : Type 0 where
  pub sha256 : String → String
  pub derive_key : String → String
  pub encrypt : String → String → Aad → String → Sealed
  pub decrypt : String → String → Aad → Sealed → Option String
  pub stringify : OidcTransactionPayload → String
  pub parse : String → Option OidcTransactionPayload

-- What is documented of the cipher and of JSON: each reads what it has written, for this payload.
pub record IsReadable (p : Platform) (payload : OidcTransactionPayload) : Type 0 where
  pub decrypt-encrypt :
      (key iv : String) (aad : Aad) (text : String)
      → p.decrypt key iv aad (p.encrypt key iv aad text) ≡ some text
  pub parse-stringify : p.parse (p.stringify payload) ≡ some payload

pub data Consumed : Type 0 where
  absent : Consumed
  refused : Consumed
  consumed : OidcTransactionPayload → ℕ → Consumed

abbrev pub transaction_ttl_ms : ℕ
transaction_ttl_ms = 300000

abbrev pub same_purpose : Purpose → Purpose → Bool
same_purpose login login = true
same_purpose reauth reauth = true
same_purpose _ _ = false

abbrev pub has_hash : String → OidcTransaction → Bool
has_hash hash row = row.state_hash == hash

unfoldable pub purge : ℕ → List OidcTransaction → List OidcTransaction
purge now rows = keep (λ row. not (ltb row.expires_at now)) rows

module _ (p : Platform) where
  abbrev pub new_transaction :
      ℕ → String → String → String → OidcTransactionPayload → OidcTransaction
  new_transaction now iv key_version state payload = record {
    state_hash = p.sha256 state;
    purpose = payload.purpose;
    sealed =
        p.encrypt (p.derive_key key_version) iv
          (record { state_hash = p.sha256 state; purpose = payload.purpose }) (p.stringify payload);
    iv = iv;
    key_version = key_version;
    created_at = now;
    expires_at = now + transaction_ttl_ms;
  }

  -- The rows after it, and whether the insert went through: `state_hash` is the primary key.
  unfoldable pub create :
      ℕ
      → String
      → String
      → String
      → OidcTransactionPayload
      → List OidcTransaction
      → List OidcTransaction × Bool
  unfolding purge
  create now iv key_version state payload rows =
      let kept = purge now rows in
      if any (has_hash (p.sha256 state)) kept
      then (kept, false)
      else (kept ++ new_transaction now iv key_version state payload ∷ [], true)

  abbrev pub check_purpose : OidcTransaction → Option OidcTransactionPayload → Consumed
  check_purpose row none = refused
  check_purpose row (some payload) =
      if same_purpose payload.purpose row.purpose then consumed payload row.created_at else refused

  abbrev pub parse_text : Option String → Option OidcTransactionPayload
  parse_text none = none
  parse_text (some text) = p.parse text

  unfoldable pub unseal : String → OidcTransaction → Consumed
  unseal hash row = check_purpose row (
      parse_text (
        p.decrypt (p.derive_key row.key_version) row.iv
          (record { state_hash = hash; purpose = row.purpose }) row.sealed))

  abbrev pub read_row : ℕ → String → Option OidcTransaction → Consumed
  read_row now hash none = absent
  read_row now hash (some row) = if ltb row.expires_at now then absent else unseal hash row

  unfoldable pub consume : ℕ → String → List OidcTransaction → List OidcTransaction × Consumed
  consume now state rows =
      let hash = p.sha256 state in
      (keep (λ row. not (has_hash hash row)) rows, read_row now hash (find (has_hash hash) rows))
