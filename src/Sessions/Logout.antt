-- ===== src/Sessions/Logout.antt =====
-- `consumeOidcLogout` of apps/api/src/services/session-service.ts: what a logout token ends, and that it
-- is of use once.
use mima.Prelude.{
  ℕ, ◌≤◌, String, true, false, not, none, some, List, [], ◌∷◌, ◌++◌, map, ◌==◌, string_eq, ltb,
  keep, any, In, here, In-cons, In-keep, In-of_keep, In-append_right, In-any, Bool-cases, eq_iff,
  ◌≡◌, ◌≢◌, Option, ◌&&◌, sym, In-map, and-eq-true, inl, inr, refl, ap, subst, arith,
}
use mima.Sessions.{
  Session, ExtensionSession, PairingCode, LogoutToken, SessionDb, OidcLogoutIdentity, given,
  is_text, of_issuer, is_logged_out, to_set, revoke_extensions, log_out, consume_oidc_logout,
}
use mima.Sessions.Groups.{In-to_set}
use mima.Sessions.Revocation.{of_kept}

revoke_extensions-rest :
    (ids : List String) (db : SessionDb)
    → ((revoke_extensions ids db).sessions ≡ db.sessions)
      × ((revoke_extensions ids db).oidc_logout_tokens ≡ db.oidc_logout_tokens)
unfolding revoke_extensions
revoke_extensions-rest [] db = (refl, refl)
revoke_extensions-rest (id ∷ ids) db = revoke_extensions-rest ids (record db {
  extension_sessions = keep (λ s. not (s.user_id == id)) db.extension_sessions;
  extension_pairing_codes = keep (λ s. not (s.user_id == id)) db.extension_pairing_codes;
})

-- Nothing comes back, and nothing of these users is left.
revoke_extensions-gone :
    (ids : List String) (db : SessionDb)
    → let after : SessionDb = revoke_extensions ids db in
      ((e : ExtensionSession)
        → In e after.extension_sessions
        → In e db.extension_sessions × ((id : String) → In id ids → e.user_id ≢ id))
      × ((c : PairingCode)
          → In c after.extension_pairing_codes
          → In c db.extension_pairing_codes × ((id : String) → In id ids → c.user_id ≢ id))
unfolding revoke_extensions
revoke_extensions-gone [] db = (λ e i. (i, λ id j. elim j [ ]), λ c i. (i, λ id j. elim j [ ]))
revoke_extensions-gone (id ∷ ids) db =
    let next : SessionDb = record db {
      extension_sessions = keep (λ s. not (s.user_id == id)) db.extension_sessions;
      extension_pairing_codes = keep (λ s. not (s.user_id == id)) db.extension_pairing_codes;
    } in
    let rest = revoke_extensions-gone ids next in
    (
      λ e i.
          let r = rest.0 e i in
          (
            (In-of_keep (λ (s : ExtensionSession). not (s.user_id == id)) db.extension_sessions
                r.0).0,
            λ j k. elim (In-cons k) [
              | inl q ↦
                  rw q (of_kept id (λ (s : ExtensionSession). s.user_id) db.extension_sessions r.0)
              | inr l ↦ r.1 j l
            ],
          ),
      λ c i.
          let r = rest.1 c i in
          (
            (In-of_keep (λ (s : PairingCode). not (s.user_id == id)) db.extension_pairing_codes
                r.0).0,
            λ j k. elim (In-cons k) [
              | inl q ↦
                  rw q (of_kept id (λ (s : PairingCode). s.user_id) db.extension_pairing_codes r.0)
              | inr l ↦ r.1 j l
            ],
          ),
    )

-- The session of the token.
abbrev pub IsNamed : OidcLogoutIdentity → String → Session → Type 0
IsNamed identity sid s = (s.oidc_issuer ≡ some identity.issuer) × (s.oidc_sid ≡ some sid)

IsNamed-of_issuer :
    (identity : OidcLogoutIdentity) (sid : String) (s : Session)
    → identity.sid ≡ some sid
    → sid ≢ ""
    → IsNamed identity sid s
    → of_issuer identity.issuer (λ s. s.oidc_sid) (given identity.sid) s ≡ true
IsNamed-of_issuer identity sid s e n (p, q) = elim (Bool-cases (sid == "")) [
  | inl z ↦ absurd (n ((eq_iff sid "").0 z))
  | inr z ↦
      rw (e, z, p, q, (eq_iff identity.issuer identity.issuer).1 refl, (eq_iff sid sid).1 refl) refl
]

is_text-eq : (o : Option String) (t : String) → is_text o t ≡ true → o ≡ some t
is_text-eq none t h = cc
is_text-eq (some u) t h = ap some ((eq_iff u t).0 h)

of_issuer-IsNamed :
    (identity : OidcLogoutIdentity) (sid : String) (s : Session)
    → identity.sid ≡ some sid
    → sid ≢ ""
    → of_issuer identity.issuer (λ s. s.oidc_sid) (given identity.sid) s ≡ true
    → IsNamed identity sid s
of_issuer-IsNamed identity sid s e n h = elim (Bool-cases (sid == "")) [
  | inl z ↦ absurd (n ((eq_iff sid "").0 z))
  | inr z ↦
      let both : (is_text s.oidc_issuer identity.issuer && is_text s.oidc_sid sid) ≡ true =
        rw (e, z) at h in
      let parts =
        and-eq-true (is_text s.oidc_issuer identity.issuer) (is_text s.oidc_sid sid) both in
      (is_text-eq s.oidc_issuer identity.issuer parts.0, is_text-eq s.oidc_sid sid parts.1)
]

-- A session of the database that the token names is logged out.
IsNamed-is_logged_out :
    (identity : OidcLogoutIdentity) (sid : String) (sessions : List Session) (s : Session)
    → identity.sid ≡ some sid
    → sid ≢ ""
    → In s sessions
    → IsNamed identity sid s
    → is_logged_out identity sessions s ≡ true
IsNamed-is_logged_out identity sid sessions s e n i m =
    let hit = IsNamed-of_issuer identity sid s e n m in
    let some_hit =
      In-any (of_issuer identity.issuer (λ s. s.oidc_sid) (given identity.sid)) i hit in
    rw some_hit hit

abbrev pub alive : ℕ → List LogoutToken → List LogoutToken
alive now tokens = keep (λ t. not (ltb t.expires_at now)) tokens

-- A token that the table holds is of no use: the sessions stay.
consume_oidc_logout-replayed :
    (now : ℕ) (identity : OidcLogoutIdentity) (jti_hash : String) (db : SessionDb) (t : LogoutToken)
    → In t db.oidc_logout_tokens
    → t.jti_hash ≡ jti_hash
    → now ≤ t.expires_at
    → ((consume_oidc_logout now identity jti_hash db).1.replayed ≡ true)
      × ((consume_oidc_logout now identity jti_hash db).0
          ≡ record db { oidc_logout_tokens = alive now db.oidc_logout_tokens })
unfolding consume_oidc_logout
consume_oidc_logout-replayed now identity jti_hash db t i e l =
    let kept = In-keep (λ (u : LogoutToken). not (ltb u.expires_at now)) i (ground (arith, l)) in
    let found =
      In-any (λ (u : LogoutToken). u.jti_hash == jti_hash) kept
        ((eq_iff t.jti_hash jti_hash).1 e) in
    rw (consume_oidc_logout, found) (refl, refl)

-- A session that the token, which has a session id, ends is that of the id, if there is such a one.
is_logged_out-IsNamed :
    (identity : OidcLogoutIdentity) (sid : String) (sessions : List Session) (s t : Session)
    → identity.sid ≡ some sid
    → sid ≢ ""
    → In t sessions
    → IsNamed identity sid t
    → is_logged_out identity sessions s ≡ true
    → IsNamed identity sid s
is_logged_out-IsNamed identity sid sessions s t e n i m h =
    let some_hit =
      In-any (of_issuer identity.issuer (λ s. s.oidc_sid) (given identity.sid)) i
        (IsNamed-of_issuer identity sid t e n m) in
    of_issuer-IsNamed identity sid s e n (rw some_hit at h)

-- What the end of the sessions of the given users leaves of a user's other rows.
abbrev pub HasNothing : SessionDb → String → Type 0
HasNothing db id =
    ((e : ExtensionSession) → In e db.extension_sessions → e.user_id ≢ id)
    × ((c : PairingCode) → In c db.extension_pairing_codes → c.user_id ≢ id)

-- A session that is in the first table and not in the second.
abbrev pub IsEnded : SessionDb → SessionDb → Session → Type 0
IsEnded db after s = In s db.sessions × (In s after.sessions → ⊥)

-- A session that is ended was hit.
ended_hit :
    (identity : OidcLogoutIdentity) (db : SessionDb) (s : Session)
    → IsEnded db (log_out identity db).0 s
    → is_logged_out identity db.sessions s ≡ true
unfolding log_out
ended_hit identity db s (i, gone) =
    let hit = is_logged_out identity db.sessions in
    let ids = to_set [] (map (λ (s : Session). s.user_id) (keep hit db.sessions)) in
    let ended : SessionDb = record db { sessions = keep (λ s. not (hit s)) db.sessions } in
    elim (Bool-cases (hit s)) [
      | inl e ↦ e
      | inr e ↦
          let kept : In s ended.sessions = In-keep (λ s. not (hit s)) i (ground (arith, e)) in
          absurd (gone (subst (In s) (sym (revoke_extensions-rest ids ended).0) kept))
    ]

log_out-ends :
    (identity : OidcLogoutIdentity) (sid : String) (db : SessionDb)
    → identity.sid ≡ some sid
    → sid ≢ ""
    → let after : SessionDb = (log_out identity db).0 in
      ((s : Session) → In s after.sessions → In s db.sessions × (IsNamed identity sid s → ⊥))
      × ((s t : Session)
          → In t db.sessions
          → IsNamed identity sid t
          → IsEnded db after s
          → IsNamed identity sid s)
      × ((s : Session)
          → IsEnded db after s
          → In s.user_id (log_out identity db).1.user_ids × HasNothing after s.user_id)
      × (after.oidc_logout_tokens ≡ db.oidc_logout_tokens)
unfolding log_out
log_out-ends identity sid db e n =
    let hit = is_logged_out identity db.sessions in
    let ids = to_set [] (map (λ (s : Session). s.user_id) (keep hit db.sessions)) in
    let ended : SessionDb = record db { sessions = keep (λ s. not (hit s)) db.sessions } in
    let (sessions, tokens) = revoke_extensions-rest ids ended in
    let (extensions, codes) = revoke_extensions-gone ids ended in
    (
      λ s i.
          let (was, missed) = In-of_keep (λ s. not (hit s)) db.sessions (subst (In s) sessions i) in
          (
            was,
            λ m. cc (rw (IsNamed-is_logged_out identity sid db.sessions s e n was m) at missed),
          ),
      λ s t i m d.
          is_logged_out-IsNamed identity sid db.sessions s t e n i m (ended_hit identity db s d),
      λ s d.
          let j : In s.user_id ids =
            In-to_set [] _
              (In-map (λ (s : Session). s.user_id) (In-keep hit d.0 (ended_hit identity db s d))) in
          (j, (λ x i. (extensions x i).1 s.user_id j, λ c i. (codes c i).1 s.user_id j)),
      tokens,
    )

-- A logout token that is not in the table, and names a session id, ends the session of that id, and
-- no other one if there is one of that id. Of each user one of whose sessions it ends, it reports the
-- id, and leaves no extension session and no pairing code. Until it expires the same token, whatever
-- it names then, ends no further session and no further extension session.
pub consume_oidc_logout-once :
    (now later : ℕ) (identity other : OidcLogoutIdentity) (sid jti_hash : String) (db : SessionDb)
    → any (λ t. t.jti_hash == jti_hash) (alive now db.oidc_logout_tokens) ≡ false
    → identity.sid ≡ some sid
    → sid ≢ ""
    → later ≤ identity.expires_at
    → let first = consume_oidc_logout now identity jti_hash db in
      let after : SessionDb = first.0 in
      let again = consume_oidc_logout later other jti_hash after in
      ((s : Session) → In s after.sessions → In s db.sessions × (IsNamed identity sid s → ⊥))
      × ((s t : Session)
          → In t db.sessions
          → IsNamed identity sid t
          → IsEnded db after s
          → IsNamed identity sid s)
      × ((s : Session)
          → IsEnded db after s
          → In s.user_id first.1.user_ids × HasNothing after s.user_id)
      × (again.1.replayed ≡ true)
      × (again.0.sessions ≡ after.sessions)
      × (again.0.extension_sessions ≡ after.extension_sessions)
unfolding consume_oidc_logout
consume_oidc_logout-once now later identity other sid jti_hash db f e n l =
    let token : LogoutToken = record { jti_hash = jti_hash; expires_at = identity.expires_at } in
    let tokens = alive now db.oidc_logout_tokens in
    let noted : SessionDb = record db { oidc_logout_tokens = tokens ++ token ∷ [] } in
    let first : consume_oidc_logout now identity jti_hash db ≡ log_out identity noted =
      rw (consume_oidc_logout, f) refl in
    let (gone, alone, nothing, kept) = log_out-ends identity sid noted e n in
    let held : In token (log_out identity noted).0.oidc_logout_tokens =
      rw kept (In-append_right tokens here) in
    let (replayed, same) =
      consume_oidc_logout-replayed later other jti_hash (log_out identity noted).0 token held refl
        l in
    rw first (
      gone,
      alone,
      nothing,
      replayed,
      ap (λ (d : SessionDb). d.sessions) same,
      ap (λ (d : SessionDb). d.extension_sessions) same,
    )
