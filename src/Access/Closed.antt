-- ===== src/Access/Closed.antt =====
-- apps/api/src/services/access.ts: a vault that is offered for recovery is one that nobody can open.
use mima.Prelude.{
  In-any, some_eq, ℕ, suc, zero, String, Bool, true, ◌&&◌, not, Option, none, some, List, map, ◌==◌,
  nat_eq, string_eq, includes, find, In, In-keep, In-of_keep, In-map, In-includes, Bool-cases,
  Option-cases, and-eq-true, eq_iff, nat_beq_iff, ◌≡◌, ◌≢◌, refl, ap, sym, ◌∙◌, subst, inl, inr,
  arith,
}
use mima.Roles.{MembershipRole, owner}
use mima.Access.{
  Vault, personal, SessionUser, Database, StorageMode, e2ee, scope_is, full, live_epoch, is_team,
  personal_role, authorization_of, get_vault_authorization, get_vault_access,
  require_current_envelope, UserDevice,
}
use mima.Access.Listing.{HasUniqueIds, find_by_id}
use mima.Access.Envelopes.{HasKey, get_vault_access-HasKey}
use mima.Access.Recovery.{
  PersonalVaultRecoveryCandidate, recovery_rows, is_e2ee, is_held, has_current_full_envelope,
  list_personal_vault_recovery_candidates,
}
use mima.Access.Candidates.{
  find_last-eq-some, HasUniqueStates, find_state, Lacks, IsFound, personal_vaults, rows_of,
  candidates-IsFound,
}

is_team-personal : (v : Vault) → not (is_team v) ≡ true → v.kind ≡ personal
is_team-personal v h = ground arith

is_e2ee-eq : (m : StorageMode) → is_e2ee m ≡ true → m ≡ e2ee
is_e2ee-eq m h = ground arith

live_epoch-eq : (o : Option ℕ) (n : ℕ) → live_epoch o ≡ some n → o ≡ some n
live_epoch-eq none n h = cc
live_epoch-eq (some zero) n h = cc
live_epoch-eq (some (suc m)) n h = h

personal_role-eq :
    (v : Vault) (u : SessionUser) (role : MembershipRole)
    → personal_role v u ≡ some role
    → (role ≡ owner) × (v.owner_user_id ≡ some u.id)
personal_role-eq v u role h = elim (Option-cases v.owner_user_id) [
  | inl e ↦ cc (rw (e, personal_role) at h)
  | inr (t, e) ↦ elim (Bool-cases (t == u.id)) [
    | inl q ↦ (cc (rw (e, personal_role, q) at h), e ∙ ap some ((eq_iff t u.id).0 q))
    | inr q ↦ cc (rw (e, personal_role, q) at h)
  ]
]

personal_authorization :
    (db : Database) (u : SessionUser) (v : Vault)
    → HasUniqueIds db.vaults
    → In v db.vaults
    → v.kind ≡ personal
    → get_vault_authorization db u v.id ≡ some (record { vault = v; role = personal_role v u })
unfolding get_vault_authorization authorization_of
personal_authorization db u v unique i k =
    rw (get_vault_authorization, find_by_id db.vaults v unique i, authorization_of, k) refl

module _ (public_key_fingerprint : String → String) where
  -- The envelope of an owner's key is one of those that the search for candidates counts.
  HasKey-held :
      (db : Database) (user_id : Option String) (v : Vault) (owner_id : String) (epoch : ℕ)
      (devices : List UserDevice)
      → In v (personal_vaults db user_id)
      → HasKey public_key_fingerprint db v.id owner_id owner epoch
      → has_current_full_envelope (rows_of db user_id).active_envelopes v owner_id devices epoch
        ≡ true
  unfolding has_current_full_envelope rows_of recovery_rows
  HasKey-held db user_id v owner_id epoch devices i key =
      let ids = map (λ (w : Vault). w.id) (personal_vaults db user_id) in
      let asked : includes ids key.envelope.vault_id ≡ true =
        rw key.envelope_of_vault (In-includes (In-map (λ (w : Vault). w.id) i)) in
      In-any (is_held v owner_id devices epoch)
        (In-keep (λ e. includes ids e.vault_id && (e.is_active && scope_is e.access_scope full))
          key.envelope_stored (rw (asked, key.envelope_active, key.envelope_scope) refl))
        (rw
          (
            key.envelope_of_vault,
            key.envelope_epoch,
            key.envelope_user,
            (eq_iff v.id v.id).1 refl,
            (nat_beq_iff epoch epoch).1 refl,
            (eq_iff owner_id owner_id).1 refl,
          )
          refl)

  IsFound-locked :
      (db : Database) (user_id : Option String) (u : SessionUser) (v : Vault)
      (role : MembershipRole)
      → HasUniqueIds db.vaults
      → HasUniqueStates db.vault_crypto_states
      → IsFound (rows_of db user_id) (personal_vaults db user_id) v
      → get_vault_access public_key_fingerprint db u v.id
        ≢ some (record { vault = v; role = some role })
  unfolding IsFound Lacks rows_of personal_vaults recovery_rows
  IsFound-locked db user_id u v role unique one
        (owner_id, i, own, (state, epoch, devices, f, live, lacks)) h =
      let found = find_last-eq-some (λ s. s.vault_id == v.id) (rows_of db user_id).states f in
      let stored = In-of_keep _ db.vault_crypto_states found.0 in
      let at_vault : state.vault_id ≡ v.id = (eq_iff state.vault_id v.id).0 found.1 in
      let mode =
        is_e2ee-eq state.storage_mode
          (and-eq-true
            (includes (map (λ (w : Vault). w.id) (personal_vaults db user_id)) state.vault_id)
            (is_e2ee state.storage_mode) stored.1).1 in
      let listed = In-of_keep _ db.vaults i in
      let kind = is_team-personal v (and-eq-true _ _ listed.1).0 in
      let (auth, (n, pos, act, key)) =
        get_vault_access-HasKey public_key_fingerprint db u v.id
          (record { vault = v; role = some role }) role state h refl
          (subst (λ id. find (λ s. s.vault_id == id) db.vault_crypto_states ≡ some state) at_vault
            (find_state db.vault_crypto_states state one stored.0))
          mode in
      let mine : personal_role v u ≡ some role =
        ap (λ a. a.role)
          (some_eq (sym (personal_authorization db u v unique listed.0 kind) ∙ auth)) in
      let (is_owner, of_user) = personal_role-eq v u role mine in
      let same_user : u.id ≡ owner_id = some_eq (sym of_user ∙ own) in
      let same_epoch : n ≡ epoch =
        some_eq (sym act ∙ live_epoch-eq state.active_epoch epoch live) in
      let held = HasKey-held db user_id v u.id n devices i (rw is_owner at key) in
      cc (rw (same_user, same_epoch) at held, lacks)

  -- A vault that is listed for recovery is a vault that its owner, and every other user, finds without
  -- a role: what the listing adds for the route is no vault that the user can open. The ids of vaults
  -- and of crypto states are unique, as the tables keep them.
  pub candidate-closed :
      (locale_compare_less : String → String → Bool) (db : Database) (user_id : Option String)
      (u : SessionUser) (c : PersonalVaultRecoveryCandidate)
      → HasUniqueIds db.vaults
      → HasUniqueStates db.vault_crypto_states
      → In c (list_personal_vault_recovery_candidates locale_compare_less db user_id)
      → get_vault_access public_key_fingerprint db u c.vault.id
        ≡ some (record { vault = c.vault; role = none })
  unfolding get_vault_access personal_vaults IsFound
  candidate-closed locale_compare_less db user_id u c unique one i =
      let found = candidates-IsFound locale_compare_less db user_id c i in
      let listed = In-of_keep _ db.vaults found.1 in
      let kind = is_team-personal c.vault (and-eq-true _ _ listed.1).0 in
      let auth = personal_authorization db u c.vault unique listed.0 kind in
      elim (Option-cases (
        require_current_envelope public_key_fingerprint db c.vault.id u.id
          (personal_role c.vault u))) [
            | inl e ↦ rw (get_vault_access, auth, e) refl
            | inr (role, e) ↦ absurd (
                IsFound-locked db user_id u c.vault role unique one found
                  (rw (get_vault_access, auth, e) refl))
          ]
