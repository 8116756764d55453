-- ===== src/Sessions.antt =====
-- apps/api/src/services/session-service.ts: the sessions of the users. New tokens, their hashes and
-- the clock are arguments. What the change of a user's groups does to the vaults, and the events of it,
-- is services/vault-envelope-tasks.ts; it reads `users` and `user_crypto_profiles`,
-- and writes none of these tables.
pub mod Groups
pub mod Revocation
pub mod Logout
pub mod Examples
use mima.Prelude.{
  ℕ, ◌+◌, String, Bool, true, false, ◌&&◌, ◌||◌, not, Option, none, some, List, [], ◌∷◌, ◌++◌, map,
  ◌==◌, nat_eq, string_eq, if◌then◌else◌, ltb, find, keep, all, any, includes, is_some, is_none,
  length,
}

pub record AuthUserRecord : Type 0 where
  pub id : String
  pub username : String
  pub display_name : String
  pub email : String
  pub groups : List String
  pub source : String
  pub active : Bool

pub record UserRow : Type 0 where
  pub user : AuthUserRecord
  pub updated_at : ℕ

pub record SessionAuthContext : Type 0 where
  pub method : String
  pub provider : String
  pub authenticated_at : ℕ
  pub issuer : Option String
  pub subject : Option String
  pub sid : Option String

-- A row of `sessions`; the columns of the external account hold the same three values as those of
-- OIDC, and one field stands for both.
pub record Session : Type 0 where
  pub id : String
  pub token_hash : String
  pub user_id : String
  pub csrf_token : String
  pub locked : Bool
  pub auth_method : String
  pub auth_provider : String
  pub authenticated_at : ℕ
  pub oidc_issuer : Option String
  pub oidc_subject : Option String
  pub oidc_sid : Option String
  pub expires_at : ℕ

pub record ExtensionSession : Type 0 where
  pub id : String
  pub user_id : String
  pub expires_at : ℕ

pub record PairingCode : Type 0 where
  pub code : String
  pub user_id : String

pub record LogoutToken : Type 0 where
  pub jti_hash : String
  pub expires_at : ℕ

-- `personal_vaults` are the owners of the personal vaults, and `platform_admins` the users with that
-- role.
pub record SessionDb : Type 0 where
  pub users : List UserRow
  pub sessions : List Session
  pub extension_sessions : List ExtensionSession
  pub extension_pairing_codes : List PairingCode
  pub oidc_logout_tokens : List LogoutToken
  pub personal_vaults : List String
  pub user_crypto_profiles : List String
  pub platform_admins : List String

pub record SessionInfo : Type 0 where
  pub user : AuthUserRecord
  pub is_platform_admin : Bool
  pub csrf_token : String
  pub locked : Bool

pub record CreatedSession : Type 0 where
  pub token : String
  pub info : SessionInfo

pub record OidcLogoutIdentity : Type 0 where
  pub issuer : String
  pub subject : Option String
  pub sid : Option String
  pub expires_at : ℕ

pub record LogoutResult : Type 0 where
  pub replayed : Bool
  pub sessions_revoked : ℕ
  pub user_ids : List String

-- What a call draws: the token and its hash, the CSRF token, the id of the new row.
pub record Drawn : Type 0 where
  pub token : String
  pub token_hash : String
  pub csrf_token : String
  pub session_id : String

-- `new Set(xs)`: the members, each once, in the order of their first place.
unfoldable pub to_set : List String → List String → List String
to_set seen [] = seen
to_set seen (x ∷ xs) = to_set (if includes seen x then seen else seen ++ x ∷ []) xs

unfoldable pub same_groups : List String → List String → Bool
unfolding to_set
same_groups left right =
    let left_set = to_set [] left in
    let right_set = to_set [] right in
    length left_set == length right_set && all (λ group. includes right_set group) left_set

-- `pruneExpired` of plugins/auth.ts
unfoldable pub prune_expired : ℕ → SessionDb → SessionDb
prune_expired now db = record db {
  sessions = keep (λ s. not (ltb s.expires_at now)) db.sessions;
  extension_sessions = keep (λ s. not (ltb s.expires_at now)) db.extension_sessions;
}

-- The insert into `users` that updates the row on a conflict.
abbrev pub upsert_user : UserRow → List UserRow → List UserRow
upsert_user row [] = row ∷ []
upsert_user row (r ∷ rs) =
    let rest = upsert_user row rs in if r.user.id == row.user.id then row ∷ rs else r ∷ rest

abbrev pub same_bool : Bool → Bool → Bool
same_bool true b = b
same_bool false b = not b

-- The user was known, and is active or in groups otherwise than before.
abbrev pub is_changed : Option UserRow → AuthUserRecord → Bool
is_changed none user = false
is_changed (some previous) user =
    not (same_bool previous.user.active user.active)
    || not (same_groups previous.user.groups user.groups)

unfoldable pub revoke_user : String → SessionDb → SessionDb
revoke_user id db = record db {
  sessions = keep (λ s. not (s.user_id == id)) db.sessions;
  extension_sessions = keep (λ s. not (s.user_id == id)) db.extension_sessions;
  extension_pairing_codes = keep (λ s. not (s.user_id == id)) db.extension_pairing_codes;
}

abbrev pub add_once : String → List String → List String
add_once id ids = if includes ids id then ids else ids ++ id ∷ []

abbrev pub new_session : AuthUserRecord → SessionAuthContext → Drawn → Bool → ℕ → Session
new_session user auth drawn locked expires_at = record {
  id = drawn.session_id;
  token_hash = drawn.token_hash;
  user_id = user.id;
  csrf_token = drawn.csrf_token;
  locked = locked;
  auth_method = auth.method;
  auth_provider = auth.provider;
  authenticated_at = auth.authenticated_at;
  oidc_issuer = auth.issuer;
  oidc_subject = auth.subject;
  oidc_sid = auth.sid;
  expires_at = expires_at;
}

-- The transaction of `create`, on the tables without the expired sessions.
unfoldable pub sign_in : AuthUserRecord → SessionAuthContext → Drawn → ℕ → ℕ → SessionDb → SessionDb
unfolding same_groups revoke_user
sign_in user auth drawn now ttl db =
    let previous = find (λ (r : UserRow). r.user.id == user.id) db.users in
    let updated = record db {
      users = upsert_user (record { user = user; updated_at = now }) db.users;
    } in
    let revoked = if is_changed previous user then revoke_user user.id updated else updated in
    let locked = includes db.user_crypto_profiles user.id in
    record revoked {
      personal_vaults = add_once user.id revoked.personal_vaults;
      sessions = revoked.sessions ++ new_session user auth drawn locked (now + ttl) ∷ [];
    }

unfoldable pub create :
    AuthUserRecord → SessionAuthContext → Drawn → ℕ → ℕ → SessionDb → SessionDb × CreatedSession
unfolding sign_in prune_expired
create user auth drawn now ttl db =
    let after = sign_in user auth drawn now ttl (prune_expired now db) in
    (
      after,
      record {
        token = drawn.token;
        info = record {
          user = user;
          is_platform_admin = includes db.platform_admins user.id;
          csrf_token = drawn.csrf_token;
          locked = includes db.user_crypto_profiles user.id;
        };
      },
    )

abbrev pub reauthenticates : String → String → Session → Bool
reauthenticates session_id user_id s = s.id == session_id && (s.user_id == user_id && s.locked)

unfoldable pub complete_reauthentication : String → String → ℕ → SessionDb → SessionDb × Bool
complete_reauthentication session_id user_id authenticated_at db = (
  record db {
    sessions =
        map
          (λ (s : Session).
            if reauthenticates session_id user_id s
            then record s { locked = false; authenticated_at = authenticated_at }
            else s)
          db.sessions;
  },
  length (keep (reauthenticates session_id user_id) db.sessions) == 1,
)

abbrev pub is_text : Option String → String → Bool
is_text none t = false
is_text (some s) t = s == t

-- A truthy text.
abbrev pub given : Option String → Option String
given none = none
given (some t) = if t == "" then none else some t

-- The rows of an issuer with a value in a column; none where no value is given.
abbrev pub of_issuer : String → (Session → Option String) → Option String → Session → Bool
of_issuer issuer column none s = false
of_issuer issuer column (some t) s = is_text s.oidc_issuer issuer && is_text (column s) t

-- By the session id; if that hits none, by the subject.
abbrev pub is_logged_out : OidcLogoutIdentity → List Session → Session → Bool
is_logged_out identity sessions =
    let by_sid = of_issuer identity.issuer (λ s. s.oidc_sid) (given identity.sid) in
    let by_subject = of_issuer identity.issuer (λ s. s.oidc_subject) (given identity.subject) in
    if any by_sid sessions then by_sid else by_subject

-- The loop over `userIds`.
unfoldable pub revoke_extensions : List String → SessionDb → SessionDb
revoke_extensions [] db = db
revoke_extensions (id ∷ ids) db = revoke_extensions ids (record db {
  extension_sessions = keep (λ s. not (s.user_id == id)) db.extension_sessions;
  extension_pairing_codes = keep (λ s. not (s.user_id == id)) db.extension_pairing_codes;
})

unfoldable pub log_out : OidcLogoutIdentity → SessionDb → SessionDb × LogoutResult
unfolding revoke_extensions to_set
log_out identity db =
    let hit = is_logged_out identity db.sessions in
    let revoked = keep hit db.sessions in
    let user_ids = to_set [] (map (λ s. s.user_id) revoked) in
    (
      revoke_extensions user_ids (record db { sessions = keep (λ s. not (hit s)) db.sessions }),
      record { replayed = false; sessions_revoked = length revoked; user_ids = user_ids },
    )

unfoldable pub consume_oidc_logout :
    ℕ → OidcLogoutIdentity → String → SessionDb → SessionDb × LogoutResult
consume_oidc_logout now identity jti_hash db =
    let tokens = keep (λ (t : LogoutToken). not (ltb t.expires_at now)) db.oidc_logout_tokens in
    if any (λ t. t.jti_hash == jti_hash) tokens
    then (
      record db { oidc_logout_tokens = tokens },
      record { replayed = true; sessions_revoked = 0; user_ids = [] },
    )
    else log_out identity (record db {
      oidc_logout_tokens =
          tokens ++ record { jti_hash = jti_hash; expires_at = identity.expires_at } ∷ [];
    })
