-- ===== src/Access/Envelopes.antt =====
-- apps/api/src/services/access.ts: a vault under end-to-end encryption opens only with an envelope
-- for the current epoch, the user's current keys and the scope of the role.
use mima.Prelude.{
  some_eq, ℕ, zero, suc, String, ◌≡◌, refl, sym, subst, ap, ◌∙◌, inl, inr, Bool, true, false,
  Option, none, some, List, [], ◌∷◌, map, arith, eq_iff, ◌==◌, string_eq, nat_eq, Bool-cases,
  Option-cases, find, find-eq-some, if◌then◌else◌, any, ◌<◌, and-eq-true, nat_beq_iff, In, here,
  there,
}
use mima.Roles.{MembershipRole}
use mima.Access.{
  Vault, SessionUser, Database, VaultAccess, VaultCryptoState, e2ee, UserCryptoProfile,
  VaultKeyEnvelope, AccessScope, RecipientKind, scope_is, is_user_recipient, equals_text, to_user,
  push_if_role, get_vault_authorization, scope_of, is_current_envelope, has_current_envelope,
  check_profile, check_state, require_current_envelope, with_envelope, get_vault_access,
  accessible_loop, list_accessible_vaults,
}
use mima.Access.Listing.{HasUniqueIds, with_role, list_authorized_vaults-get_vault_authorization}

any-In {ℓ} :
    {A : Type ℓ} (p : A → Bool) (xs : List A) → any p xs ≡ true → (a : A) × In a xs × (p a ≡ true)
any-In p [] h = cc
any-In p (x ∷ xs) h = elim (Bool-cases (p x)) [
  | inl e ↦ (x, here, e)
  | inr e ↦ let r = any-In p xs (ground arith) in (r.0, there r.1, r.2)
]

if-eq-some {ℓ} :
    {A : Type ℓ} (b : Bool) (x : A) {y : A} → (if b then some x else none) ≡ some y → b ≡ true
if-eq-some true x h = refl
if-eq-some false x h = cc

scope_is-eq : (a b : AccessScope) → scope_is a b ≡ true → a ≡ b
scope_is-eq a b h = ground arith

is_user_recipient-eq : (k : RecipientKind) → is_user_recipient k ≡ true → k ≡ to_user
is_user_recipient-eq k h = ground arith

equals_text-eq : (o : Option String) (t : String) → equals_text o t ≡ true → o ≡ some t
equals_text-eq none t h = cc
equals_text-eq (some s) t h = ap some ((eq_iff s t).0 h)

module _ (public_key_fingerprint : String → String) where
  -- The key material that a role needs to be of use in a vault at an epoch.
  pub record HasKey (db : Database) (vault_id user_id : String) (role : MembershipRole) (epoch : ℕ)
      : Type 0 where
    pub profile : UserCryptoProfile
    pub profile_stored : In profile db.user_crypto_profiles
    pub profile_of_user : profile.user_id ≡ user_id
    pub envelope : VaultKeyEnvelope
    pub envelope_stored : In envelope db.vault_key_envelopes
    pub envelope_of_vault : envelope.vault_id ≡ vault_id
    pub envelope_epoch : envelope.key_epoch ≡ epoch
    pub envelope_active : envelope.is_active ≡ true
    pub envelope_scope : envelope.access_scope ≡ scope_of role
    pub envelope_kind : envelope.recipient_kind ≡ to_user
    pub envelope_user : envelope.recipient_user_id ≡ some user_id
    pub envelope_generation : envelope.envelope_version ≡ profile.crypto_generation
    pub envelope_key :
        envelope.recipient_key_fingerprint ≡ public_key_fingerprint profile.public_encryption_key

  current_envelope_parts :
      (vault_id : String) (epoch : ℕ) (role : MembershipRole) (p : UserCryptoProfile)
      (e : VaultKeyEnvelope)
      → is_current_envelope vault_id epoch
          (scope_of role)
          p
          (public_key_fingerprint p.public_encryption_key)
          e
        ≡ true
      → (e.vault_id ≡ vault_id)
        × (e.key_epoch ≡ epoch)
        × (e.is_active ≡ true)
        × (e.access_scope ≡ scope_of role)
        × (e.recipient_kind ≡ to_user)
        × (e.recipient_user_id ≡ some p.user_id)
        × (e.envelope_version ≡ p.crypto_generation)
        × (e.recipient_key_fingerprint ≡ public_key_fingerprint p.public_encryption_key)
  current_envelope_parts vault_id epoch role p e h =
      let a = and-eq-true _ _ h in
      let b = and-eq-true _ _ a.1 in
      let c = and-eq-true _ _ b.1 in
      let d = and-eq-true _ _ c.1 in
      let f = and-eq-true _ _ d.1 in
      let g = and-eq-true _ _ f.1 in
      let k = and-eq-true _ _ g.1 in
      (
        (eq_iff _ _).0 a.0,
        (nat_beq_iff _ _).0 b.0,
        c.0,
        scope_is-eq _ _ d.0,
        is_user_recipient-eq _ f.0,
        equals_text-eq _ _ g.0,
        (nat_beq_iff _ _).0 k.0,
        (eq_iff _ _).0 k.1,
      )

  check_profile-HasKey :
      (db : Database) (vault_id user_id : String) (role r : MembershipRole) (epoch : ℕ)
      → check_profile public_key_fingerprint db vault_id user_id role epoch ≡ some r
      → HasKey db vault_id user_id role epoch
  unfolding check_profile has_current_envelope
  check_profile-HasKey db vault_id user_id role r epoch h =
      elim (Option-cases (find (λ p. p.user_id == user_id) db.user_crypto_profiles)) [
        | inl e ↦ cc (rw (e, check_profile) at h)
        | inr (p, e) ↦
            let found = find-eq-some _ _ e in
            let mine : p.user_id ≡ user_id = (eq_iff p.user_id user_id).0 found.1 in
            let held : has_current_envelope public_key_fingerprint db vault_id epoch (scope_of role)
                  p
                ≡ true =
              if-eq-some _ role (rw (e, check_profile) at h) in
            let env = any-In _ _ held in
            let parts = current_envelope_parts vault_id epoch role p env.0 env.2 in
            record {
              profile = p;
              profile_stored = found.0;
              profile_of_user = mine;
              envelope = env.0;
              envelope_stored = env.1;
              envelope_of_vault = parts.0;
              envelope_epoch = parts.1;
              envelope_active = parts.2;
              envelope_scope = parts.3;
              envelope_kind = parts.4;
              envelope_user = parts.5 ∙ ap some mine;
              envelope_generation = parts.6;
              envelope_key = parts.7;
            }
      ]

  check_state-HasKey :
      (db : Database) (vault_id user_id : String) (role r : MembershipRole)
      (state : VaultCryptoState)
      → state.storage_mode ≡ e2ee
      → check_state public_key_fingerprint db vault_id user_id role state ≡ some r
      → (epoch : ℕ) × (0 < epoch)
        × (state.active_epoch ≡ some epoch)
        × HasKey db vault_id user_id role epoch
  unfolding check_state
  check_state-HasKey db vault_id user_id role r state m h = by_epoch state.active_epoch refl
    where
      by_epoch :
          (o : Option ℕ)
          → state.active_epoch ≡ o
          → (epoch : ℕ) × (0 < epoch)
            × (state.active_epoch ≡ some epoch)
            × HasKey db vault_id user_id role epoch
      by_epoch none q = cc (rw (m, q, check_state) at h)
      by_epoch (some zero) q = cc (rw (m, q, check_state) at h)
      by_epoch (some (suc n)) q = (
        suc n,
        omega arith,
        q,
        check_profile-HasKey db vault_id user_id role r (suc n) (rw (m, q, check_state) at h),
      )

  -- The check hands back the role that it was given, or none.
  require_current_envelope-role :
      (db : Database) (vault_id user_id : String) (o : Option MembershipRole) (r : MembershipRole)
      → require_current_envelope public_key_fingerprint db vault_id user_id o ≡ some r
      → o ≡ some r
  unfolding require_current_envelope
  require_current_envelope-role db vault_id user_id none r h = cc
  require_current_envelope-role db vault_id user_id (some role) r h = ground arith

  require_current_envelope-HasKey :
      (db : Database) (vault_id user_id : String) (r : MembershipRole) (state : VaultCryptoState)
      → require_current_envelope public_key_fingerprint db vault_id user_id (some r) ≡ some r
      → find (λ s. s.vault_id == vault_id) db.vault_crypto_states ≡ some state
      → state.storage_mode ≡ e2ee
      → (epoch : ℕ) × (0 < epoch)
        × (state.active_epoch ≡ some epoch)
        × HasKey db vault_id user_id r epoch
  unfolding require_current_envelope
  require_current_envelope-HasKey db vault_id user_id r state h s m =
      check_state-HasKey db vault_id user_id r r state m (rw (s, require_current_envelope) at h)

  -- Whoever is let into an encrypted vault with a role is authorized for that role, and holds an
  -- active envelope of that vault's active epoch, addressed to the user, made for the user's current
  -- keys and generation, and of the scope of that role.
  pub get_vault_access-HasKey :
      (db : Database) (u : SessionUser) (vault_id : String) (a : VaultAccess)
      (role : MembershipRole) (state : VaultCryptoState)
      → get_vault_access public_key_fingerprint db u vault_id ≡ some a
      → a.role ≡ some role
      → find (λ s. s.vault_id == a.vault.id) db.vault_crypto_states ≡ some state
      → state.storage_mode ≡ e2ee
      → (get_vault_authorization db u vault_id ≡ some a)
        × ((epoch : ℕ) × (0 < epoch)
            × (state.active_epoch ≡ some epoch)
            × HasKey db a.vault.id u.id role epoch)
  unfolding get_vault_access
  get_vault_access-HasKey db u vault_id a role state h q s m =
      elim (Option-cases (get_vault_authorization db u vault_id)) [
        | inl e ↦ cc (rw (e, get_vault_access) at h)
        | inr (b, e) ↦
            let same : with_envelope public_key_fingerprint db u b ≡ a =
              some_eq (rw (e, get_vault_access) at h) in
            let r : require_current_envelope public_key_fingerprint db b.vault.id u.id b.role
                ≡ some role =
              ap (λ (x : VaultAccess). x.role) same ∙ q in
            let allowed : b.role ≡ some role = require_current_envelope-role db _ _ b.role role r in
            let whole : b ≡ a = ap (λ x. record b { role = x }) (allowed ∙ sym r) ∙ same in
            let kept =
              subst
                (λ (x : VaultAccess).
                  require_current_envelope public_key_fingerprint db x.vault.id u.id x.role
                  ≡ some role)
                whole r in
            (
              e ∙ ap some whole,
              require_current_envelope-HasKey db a.vault.id u.id role state (rw q at kept) s m,
            )
      ]

  -- What the loop makes of one authorization.
  abbrev opened : Database → SessionUser → Option VaultAccess → Option VaultAccess
  opened db u none = none
  opened db u (some a) = some (with_envelope public_key_fingerprint db u a)

  get_vault_access-opened :
      (db : Database) (u : SessionUser) (vault_id : String)
      → get_vault_access public_key_fingerprint db u vault_id
        ≡ opened db u (get_vault_authorization db u vault_id)
  unfolding get_vault_access
  get_vault_access-opened db u vault_id = ground arith

  accessible_loop-step :
      (db : Database) (u : SessionUser) (o : Option VaultAccess)
      (rest done : List (Option VaultAccess))
      → accessible_loop public_key_fingerprint db u (with_role rest) ≡ with_role done
      → accessible_loop public_key_fingerprint db u (with_role (o ∷ rest))
        ≡ with_role (opened db u o ∷ done)
  unfolding accessible_loop require_current_envelope
  accessible_loop-step db u none rest done ih = ih
  accessible_loop-step db u (some a) rest done ih = by_role a.role refl
    where
      by_role :
          (o : Option MembershipRole)
          → a.role ≡ o
          → accessible_loop public_key_fingerprint db u (with_role (some a ∷ rest))
            ≡ with_role (opened db u (some a) ∷ done)
      by_role none e = rw (e, push_if_role, require_current_envelope) ih
      by_role (some r) e = rw (e, push_if_role, ih)

  accessible_loop-with_role :
      (db : Database) (u : SessionUser) (vs : List Vault)
      → accessible_loop public_key_fingerprint db u
          (with_role (map (λ v. get_vault_authorization db u v.id) vs))
        ≡ with_role (map (λ v. get_vault_access public_key_fingerprint db u v.id) vs)
  unfolding accessible_loop
  accessible_loop-with_role db u [] = refl
  accessible_loop-with_role db u (v ∷ vs) = rw (get_vault_access-opened db u v.id) (
      accessible_loop-step db u (get_vault_authorization db u v.id) _ _
        (accessible_loop-with_role db u vs))

  -- Listing the vaults that can be opened is opening each vault in turn and keeping those with a
  -- role, where no two vaults share an id.
  pub list_accessible_vaults-get_vault_access :
      (db : Database) (u : SessionUser)
      → HasUniqueIds db.vaults
      → list_accessible_vaults public_key_fingerprint db u
        ≡ with_role (map (λ v. get_vault_access public_key_fingerprint db u v.id) db.vaults)
  unfolding list_accessible_vaults
  list_accessible_vaults-get_vault_access db u unique =
      ap (accessible_loop public_key_fingerprint db u)
        (list_authorized_vaults-get_vault_authorization db u unique)
      ∙ accessible_loop-with_role db u db.vaults
