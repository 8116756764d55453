-- ===== src/SignIn/Examples.antt =====
-- A sign-in that is stored, read once, and asked for again. The stand-in for the cipher leaves the text
-- in place, and that for JSON knows one payload.
use mima.Prelude.{◌+◌, ◌≤◌, String, true, none, some, [], ◌∷◌, ◌≡◌, refl, arith}
use mima.SignIn.{
  login, OidcTransactionPayload, Platform, IsReadable, absent, consumed, create, purge, consume,
  unseal,
}
use mima.SignIn.RoundTrip.{consume-create}
use mima.SignIn.Once.{creating, consuming, given_out, stored, count, given_out-le}

-- The payloads of the stand-in differ in their nonce only.
abbrev payload_of : String → OidcTransactionPayload
payload_of nonce = record {
  purpose = login;
  code_verifier = "v";
  nonce = nonce;
  session_id = none;
  user_id = none;
  previous_authenticated_at = none;
  browser_binding_hash = "b";
}

abbrev payload : OidcTransactionPayload
payload = payload_of "n"

abbrev plain : Platform
plain = record {
  sha256 = λ s. s;
  derive_key = λ version. version;
  encrypt = λ key iv aad text. record { ciphertext = text; auth_tag = aad.state_hash };
  decrypt = λ key iv aad sealed. some sealed.ciphertext;
  stringify = λ x. x.nonce;
  parse = λ text. some (payload_of text);
}

given_once :
    given_out plain "s"
      (creating 10 "iv" "k" "s" payload ∷ consuming 20 "s" ∷ consuming 21 "s" ∷ [])
      []
    ≡ 1
unfolding given_out create purge consume unseal
given_once = refl

too_late : (consume plain 300011 "s" (create plain 10 "iv" "k" "s" payload []).0).1 ≡ absent
unfolding create purge consume
too_late = refl

given_out-le_example :
    given_out plain "s"
      (creating 10 "iv" "k" "s" payload ∷ consuming 20 "s" ∷ consuming 21 "s" ∷ [])
      []
    ≤ stored plain "s"
        (creating 10 "iv" "k" "s" payload ∷ consuming 20 "s" ∷ consuming 21 "s" ∷ [])
        []
      + count "s" []
given_out-le_example =
    given_out-le plain "s"
      (creating 10 "iv" "k" "s" payload ∷ consuming 20 "s" ∷ consuming 21 "s" ∷ []) []

plain-IsReadable : IsReadable plain payload
plain-IsReadable = record { decrypt-encrypt = λ key iv aad text. refl; parse-stringify = refl }

is_stored : (create plain 10 "iv" "k" "s" payload []).1 ≡ true
unfolding create purge
is_stored = refl

consume-create_example :
    (consume plain 20 "s" (create plain 10 "iv" "k" "s" payload []).0).1 ≡ consumed payload 10
consume-create_example =
    consume-create plain payload plain-IsReadable 10 20 "iv" "k" "s" [] is_stored (omega arith)
