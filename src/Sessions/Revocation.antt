-- ===== src/Sessions/Revocation.antt =====
-- What `create` of apps/api/src/services/session-service.ts does to the sessions of the users.
use mima.Prelude.{
  In-of_append, ℕ, ◌+◌, String, true, false, not, some, List, [], ◌∷◌, ◌==◌, string_eq, ltb, find,
  keep, includes, In, In-cons, In-keep, In-of_keep, In-append_left, In-append_right, Bool-cases,
  eq_iff, ◌≡◌, ◌≢◌, ◌⊎◌, inl, inr, refl, arith, here,
}
use mima.Sessions.{
  AuthUserRecord, UserRow, SessionAuthContext, Session, ExtensionSession, PairingCode, SessionDb,
  Drawn, same_groups, prune_expired, is_changed, revoke_user, new_session, sign_in, create,
}
use mima.Sessions.Groups.{same_groups_iff}

-- The session that `create` makes.
abbrev pub fresh : AuthUserRecord → SessionAuthContext → Drawn → ℕ → ℕ → SessionDb → Session
fresh user auth drawn now ttl db =
    new_session user auth drawn (includes db.user_crypto_profiles user.id) (now + ttl)

-- A group was lost.
abbrev pub Lost : String → List String → List String → Type 0
Lost g before after = In g before × ((h : String) → In h after → h ≢ g)

Lost-changed :
    (g : String) (before after : List String)
    → Lost g before after
    → same_groups before after ≡ false
Lost-changed g before after (i, gone) = elim (Bool-cases (same_groups before after)) [
  | inl e ↦ absurd (gone g (((same_groups_iff before after).0 e).0 g i) refl)
  | inr e ↦ e
]

Lost-is_changed :
    (previous : UserRow) (user : AuthUserRecord) (g : String)
    → Lost g previous.user.groups user.groups
    → is_changed (some previous) user ≡ true
Lost-is_changed previous user g l =
    rw (Lost-changed g previous.user.groups user.groups l) (ground arith)

of_others :
    (id : String) {A : Type 0} (owner : A → String) (s : A)
    → not (owner s == id) ≡ true
    → owner s ≢ id
of_others id owner s h e = cc (rw ((eq_iff (owner s) id).1 e) at h)

pub of_kept :
    (id : String) {A : Type 0} (owner : A → String) (xs : List A) {a : A}
    → In a (keep (λ x. not (owner x == id)) xs)
    → owner a ≢ id
of_kept id owner xs {a} i = of_others id owner a (In-of_keep (λ x. not (owner x == id)) xs i).1

to_kept :
    (id : String) {A : Type 0} (owner : A → String) {xs : List A} {a : A}
    → In a xs
    → owner a ≢ id
    → In a (keep (λ x. not (owner x == id)) xs)
to_kept id owner {a} i n = elim (Bool-cases (owner a == id)) [
  | inl e ↦ absurd (n ((eq_iff (owner a) id).0 e))
  | inr e ↦ In-keep (λ x. not (owner x == id)) i (rw e refl)
]

-- A user who has lost a group since the last login, and logs in: of the earlier sessions, extension
-- sessions and pairing codes of this user none is left, and the new session is there; the sessions
-- of other users stay, but for the expired ones.
pub create-Lost :
    (user : AuthUserRecord) (auth : SessionAuthContext) (drawn : Drawn) (now ttl : ℕ)
    (db : SessionDb) (previous : UserRow) (g : String)
    → find (λ (r : UserRow). r.user.id == user.id) db.users ≡ some previous
    → Lost g previous.user.groups user.groups
    → let after : SessionDb = (create user auth drawn now ttl db).0 in
      ((s : Session)
        → In s after.sessions
        → (s ≡ fresh user auth drawn now ttl db) ⊎ (s.user_id ≢ user.id))
      × ((e : ExtensionSession) → In e after.extension_sessions → e.user_id ≢ user.id)
      × ((c : PairingCode) → In c after.extension_pairing_codes → c.user_id ≢ user.id)
      × In (fresh user auth drawn now ttl db) after.sessions
      × ((s : Session)
          → In s db.sessions
          → s.user_id ≢ user.id
          → ltb s.expires_at now ≡ false
          → In s after.sessions)
unfolding create sign_in prune_expired revoke_user
create-Lost user auth drawn now ttl db previous g f l =
    let changed = Lost-is_changed previous user g l in
    let alive = keep (λ (s : Session). not (ltb s.expires_at now)) db.sessions in
    let others = keep (λ (s : Session). not (s.user_id == user.id)) alive in
    let extensions =
      keep (λ (s : ExtensionSession). not (ltb s.expires_at now)) db.extension_sessions in
    rw (create, sign_in, prune_expired, f, changed)
      (
        λ s i. elim (In-of_append others (fresh user auth drawn now ttl db ∷ []) i) [
          | inl j ↦ inr (of_kept user.id (λ (s : Session). s.user_id) alive j)
          | inr j ↦ elim (In-cons j) [ inl e ↦ inl e | inr k ↦ elim k [ ] ]
        ],
        λ e i. of_kept user.id (λ (s : ExtensionSession). s.user_id) extensions i,
        λ c i. of_kept user.id (λ (s : PairingCode). s.user_id) db.extension_pairing_codes i,
        In-append_right others here,
        λ s i n x. In-append_left (fresh user auth drawn now ttl db ∷ []) (
            to_kept user.id (λ (s : Session). s.user_id)
              (In-keep (λ (s : Session). not (ltb s.expires_at now)) i (rw x refl)) n),
      )
