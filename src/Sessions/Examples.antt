-- ===== src/Sessions/Examples.antt =====
-- A user who logs in with a group less, and a logout that the identity provider announces.
use mima.Prelude.{
  String, true, false, none, some, List, [], ◌∷◌, map, ◌≡◌, ◌≢◌, ◌↔◌, ◌⊎◌, refl, sym, ◌∙◌, In,
  In-cons, here, there, inl, inr, eq_iff, ltb, string_eq, arith,
}
use mima.Sessions.{
  AuthUserRecord, SessionAuthContext, Session, ExtensionSession, PairingCode, SessionDb, Drawn,
  OidcLogoutIdentity, same_groups, create, consume_oidc_logout, complete_reauthentication, sign_in,
  prune_expired, revoke_user, log_out, revoke_extensions, to_set,
}
use mima.Sessions.Groups.{same_groups_iff}
use mima.Sessions.Revocation.{fresh, Lost, create-Lost}
use mima.Sessions.Logout.{IsNamed, IsEnded, HasNothing, consume_oidc_logout-once}

abbrev alice : List String → AuthUserRecord
alice groups = record {
  id = "alice";
  username = "alice";
  display_name = "Alice";
  email = "a@example.org";
  groups = groups;
  source = "oidc";
  active = true;
}

abbrev session_of : String → String → Session
session_of id user_id = record {
  id = id;
  token_hash = id;
  user_id = user_id;
  csrf_token = "c";
  locked = true;
  auth_method = "oidc";
  auth_provider = "oidc";
  authenticated_at = 10;
  oidc_issuer = some "https://idp";
  oidc_subject = some user_id;
  oidc_sid = some id;
  expires_at = 90;
}

abbrev db : SessionDb
db = record {
  users = record { user = alice ("staff" ∷ "ops" ∷ []); updated_at = 1 } ∷ [];
  sessions = session_of "s1" "alice" ∷ session_of "s2" "bob" ∷ [];
  extension_sessions = record { id = "x1"; user_id = "alice"; expires_at = 80 } ∷ [];
  extension_pairing_codes = record { code = "k"; user_id = "bob" } ∷ [];
  oidc_logout_tokens = [];
  personal_vaults = "alice" ∷ [];
  user_crypto_profiles = "alice" ∷ [];
  platform_admins = [];
}

abbrev auth : SessionAuthContext
auth = record {
  method = "oidc";
  provider = "oidc";
  authenticated_at = 50;
  issuer = some "https://idp";
  subject = some "alice";
  sid = some "s3";
}

abbrev drawn : Drawn
drawn = record { token = "t"; token_hash = "h"; csrf_token = "c"; session_id = "s3" }

abbrev session_ids : SessionDb → List String
session_ids d = map (λ (s : Session). s.id) d.sessions

lost_group : session_ids (create (alice ("staff" ∷ [])) auth drawn 50 100 db).0 ≡ "s2" ∷ "s3" ∷ []
unfolding create sign_in prune_expired revoke_user same_groups to_set
lost_group = refl

same_set :
    session_ids (create (alice ("ops" ∷ "staff" ∷ "ops" ∷ [])) auth drawn 50 100 db).0
    ≡ "s1" ∷ "s2" ∷ "s3" ∷ []
unfolding create sign_in prune_expired revoke_user same_groups to_set
same_set = refl

unlocked : (complete_reauthentication "s1" "alice" 60 db).1 ≡ true
unfolding complete_reauthentication
unlocked = refl

other_user : complete_reauthentication "s1" "bob" 60 db ≡ (db, false)
unfolding complete_reauthentication
other_user = refl

same_groups_iff_example : (same_groups ("a" ∷ "b" ∷ []) ("b" ∷ "a" ∷ "b" ∷ []) ≡ true) ↔ (
    ((g : String) → In g ("a" ∷ "b" ∷ []) → In g ("b" ∷ "a" ∷ "b" ∷ []))
    × ((g : String) → In g ("b" ∷ "a" ∷ "b" ∷ []) → In g ("a" ∷ "b" ∷ [])))
same_groups_iff_example = same_groups_iff ("a" ∷ "b" ∷ []) ("b" ∷ "a" ∷ "b" ∷ [])

ops-Lost : Lost "ops" ("staff" ∷ "ops" ∷ []) ("staff" ∷ [])
ops-Lost = (
  there here,
  λ h i e. elim (In-cons i) [
    | inl q ↦ cc ((eq_iff "staff" "ops").1 (sym q ∙ e))
    | inr j ↦ elim j [ ]
  ],
)

create-Lost_example :
    let after : SessionDb = (create (alice ("staff" ∷ [])) auth drawn 50 100 db).0 in
    ((s : Session)
      → In s after.sessions
      → (s ≡ fresh (alice ("staff" ∷ [])) auth drawn 50 100 db) ⊎ (s.user_id ≢ "alice"))
    × ((e : ExtensionSession) → In e after.extension_sessions → e.user_id ≢ "alice")
    × ((c : PairingCode) → In c after.extension_pairing_codes → c.user_id ≢ "alice")
    × In (fresh (alice ("staff" ∷ [])) auth drawn 50 100 db) after.sessions
    × ((s : Session)
        → In s db.sessions
        → s.user_id ≢ "alice"
        → ltb s.expires_at 50 ≡ false
        → In s after.sessions)
create-Lost_example =
    create-Lost (alice ("staff" ∷ [])) auth drawn 50 100 db
      (record { user = alice ("staff" ∷ "ops" ∷ []); updated_at = 1 }) "ops" refl ops-Lost

abbrev identity : OidcLogoutIdentity
identity = record { issuer = "https://idp"; subject = none; sid = some "s1"; expires_at = 70 }

logged_out : session_ids (consume_oidc_logout 60 identity "j" db).0 ≡ "s2" ∷ []
unfolding consume_oidc_logout log_out revoke_extensions to_set
logged_out = refl

abbrev sid : String
sid = "s1"

abbrev no_text : String
no_text = ""

sid_is_given : sid ≢ no_text
sid_is_given e = cc ((eq_iff "s1" "").1 e)

consume_oidc_logout-once_example :
    let first = consume_oidc_logout 60 identity "j" db in
    let after : SessionDb = first.0 in
    let again = consume_oidc_logout 65 identity "j" after in
    ((s : Session) → In s after.sessions → In s db.sessions × (IsNamed identity "s1" s → ⊥))
    × ((s t : Session)
        → In t db.sessions
        → IsNamed identity "s1" t
        → IsEnded db after s
        → IsNamed identity "s1" s)
    × ((s : Session)
        → IsEnded db after s
        → In s.user_id first.1.user_ids × HasNothing after s.user_id)
    × (again.1.replayed ≡ true)
    × (again.0.sessions ≡ after.sessions)
    × (again.0.extension_sessions ≡ after.extension_sessions)
consume_oidc_logout-once_example =
    consume_oidc_logout-once 60 65 identity identity "s1" "j" db refl refl sid_is_given
      (omega arith)
