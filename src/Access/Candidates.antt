-- ===== src/Access/Candidates.antt =====
-- apps/api/src/services/access.ts: what is known of a vault that is
-- offered for recovery.
use mima.Prelude.{
  some_eq, ℕ, String, Bool, true, false, ◌&&◌, ◌||◌, not, Option, none, some, List, [], ◌∷◌, map,
  ◌==◌, nat_eq, string_eq, keep, find, find-eq-none, find-eq-some, In, here, there, In-cons,
  Bool-cases, Option-cases, eq_iff, ◌≡◌, refl, ap, sym, ◌∙◌, subst, inl, inr,
}
use mima.Access.{
  Vault, Database, VaultCryptoState, live_epoch, is_team, User, UserDevice, UserCryptoProfile,
}
use mima.Access.Recovery.{
  PersonalVaultRecoveryCandidate, RecoveryRows, recovery_rows, find_last, is_asked, owner_ids,
  is_empty, has_current_full_envelope, candidate_if, candidate_of, owned_candidate, candidate_loop,
  target_device_of, has_generation, list_personal_vault_recovery_candidates,
}

pub find_last-eq-some {ℓ} :
    {A : Type ℓ} (p : A → Bool) {a : A} (xs : List A)
    → find_last p xs ≡ some a
    → In a xs × (p a ≡ true)
find_last-eq-some p [] h = cc
find_last-eq-some p {a} (x ∷ xs) h = elim (Option-cases (find_last p xs)) [
  | inl e ↦ elim (Bool-cases (p x)) [
    | inl t ↦ let q : some x ≡ some a = rw (e, t) at h in let r : x ≡ a = cc in rw (← r) (here, t)
    | inr f ↦ cc (rw (e, f) at h)
  ]
  | inr (y, e) ↦
      let q : some y ≡ some a = rw e at h in
      let r : y ≡ a = cc in
      let rest = find_last-eq-some p xs e in (there (rw (← r) rest.0), rw (← r) rest.1)
]

-- `vault_id` is the primary key of the crypto states.
abbrev pub HasUniqueStates : List VaultCryptoState → Type 0
HasUniqueStates states =
    (s t : VaultCryptoState) → In s states → In t states → s.vault_id ≡ t.vault_id → s ≡ t

pub find_state :
    (states : List VaultCryptoState) (s : VaultCryptoState)
    → HasUniqueStates states
    → In s states
    → find (λ t. t.vault_id == s.vault_id) states ≡ some s
find_state states s unique i = elim (Option-cases (find (λ t. t.vault_id == s.vault_id) states)) [
  | inl e ↦ cc (
    find-eq-none (λ (t : VaultCryptoState). t.vault_id == s.vault_id) i e,
    (eq_iff s.vault_id s.vault_id).1 refl,
  )
  | inr (t, e) ↦
      let found = find-eq-some _ states e in
      e ∙ ap some (unique t s found.0 i ((eq_iff t.vault_id s.vault_id).0 found.1))
]

-- The vault has a live epoch, for which no row counts as an envelope of its owner.
unfoldable pub Lacks : RecoveryRows → Vault → String → Type 0
Lacks rows vault owner_id =
    (state : VaultCryptoState) × (epoch : ℕ) × (devices : List UserDevice) × (find_last
        (λ s. s.vault_id == vault.id) rows.states
      ≡ some state)
    × (live_epoch state.active_epoch ≡ some epoch)
    × (has_current_full_envelope rows.active_envelopes vault owner_id devices epoch ≡ false)

candidate_if-parts :
    (vault : Vault) (st : Option VaultCryptoState) (us : Option User)
    (pr : Option UserCryptoProfile) (dev : Option UserDevice) (held : ℕ → Bool)
    (c : PersonalVaultRecoveryCandidate)
    → candidate_if vault st us pr dev held ≡ some c
    → (state : VaultCryptoState) × (epoch : ℕ) × (st ≡ some state)
      × (live_epoch state.active_epoch ≡ some epoch)
      × (held epoch ≡ false)
      × (vault ≡ c.vault)
unfolding candidate_if
candidate_if-parts vault none us pr dev held c h = cc
candidate_if-parts vault (some state) none pr dev held c h = cc
candidate_if-parts vault (some state) (some user) none dev held c h = cc
candidate_if-parts vault (some state) (some user) (some profile) none held c h = cc
candidate_if-parts vault (some state) (some user) (some profile) (some device) held c h =
    elim (Option-cases (live_epoch state.active_epoch)) [
      | inl e ↦ cc (rw (e, candidate_if) at h)
      | inr (epoch, e) ↦ elim (Bool-cases (held epoch)) [
        | inl t ↦ cc (rw (e, candidate_if, t) at h)
        | inr f ↦
            (state, epoch, refl, e, f, ap (λ x. x.vault) (some_eq (rw (e, candidate_if, f) at h)))
      ]
    ]

unfoldable pub IsFound : RecoveryRows → List Vault → Vault → Type 0
IsFound rows vaults vault =
    (owner_id : String) × In vault vaults
    × (vault.owner_user_id ≡ some owner_id)
    × Lacks rows vault owner_id

module _ (locale_compare_less : String → String → Bool) where
  owned_candidate-Lacks :
      (rows : RecoveryRows) (vault : Vault) (owner_id : String) (c : PersonalVaultRecoveryCandidate)
      → owned_candidate locale_compare_less rows vault owner_id ≡ some c
      → (vault ≡ c.vault) × Lacks rows vault owner_id
  unfolding owned_candidate Lacks
  owned_candidate-Lacks rows vault owner_id c h =
      let profile = find_last (λ p. p.user_id == owner_id) rows.profiles in
      let devices =
        keep (λ d. d.user_id == owner_id && has_generation profile d) rows.active_devices in
      let (state, epoch, found, live, held, same) =
        candidate_if-parts vault (find_last (λ s. s.vault_id == vault.id) rows.states)
          (find_last (λ u. u.id == owner_id) rows.active_users) profile
          (target_device_of locale_compare_less devices)
          (has_current_full_envelope rows.active_envelopes vault owner_id devices) c h in
      (same, (state, epoch, devices, found, live, held))

  candidate_of-IsFound :
      (rows : RecoveryRows) (vaults : List Vault) (vault : Vault) (o : Option String)
      (c : PersonalVaultRecoveryCandidate)
      → vault.owner_user_id ≡ o
      → In vault vaults
      → candidate_of locale_compare_less rows vault o ≡ some c
      → IsFound rows vaults c.vault
  unfolding IsFound
  candidate_of-IsFound rows vaults vault none c e i h = cc
  candidate_of-IsFound rows vaults vault (some owner_id) c e i h =
      elim (Bool-cases (owner_id == "")) [
        | inl z ↦ cc (rw z at h)
        | inr z ↦
            let (same, lacks) = owned_candidate-Lacks rows vault owner_id c (rw z at h) in
            subst (λ v. IsFound rows vaults v) same (owner_id, i, e, lacks)
      ]

  candidate_loop-IsFound :
      (rows : RecoveryRows) (vaults : List Vault) (c : PersonalVaultRecoveryCandidate)
      → In c (candidate_loop locale_compare_less rows vaults)
      → IsFound rows vaults c.vault
  unfolding candidate_loop IsFound
  candidate_loop-IsFound rows [] c i = elim i [ ]
  candidate_loop-IsFound rows (vault ∷ vaults) c i =
      elim (Option-cases (candidate_of locale_compare_less rows vault vault.owner_user_id)) [
        | inl e ↦ later (candidate_loop-IsFound rows vaults c (rw e at i))
        | inr (d, e) ↦ elim (In-cons (rw e at i)) [
          | inl q ↦
              candidate_of-IsFound rows (vault ∷ vaults) vault vault.owner_user_id c refl here
                (e ∙ ap some (sym q))
          | inr j ↦ later (candidate_loop-IsFound rows vaults c j)
        ]
      ]
    where
      later : IsFound rows vaults c.vault → IsFound rows (vault ∷ vaults) c.vault
      later (owner_id, j, e, lacks) = (owner_id, there j, e, lacks)

-- The vaults of the query.
unfoldable pub personal_vaults : Database → Option String → List Vault
personal_vaults db user_id = keep (λ v. not (is_team v) && is_asked user_id v) db.vaults

unfoldable pub rows_of : Database → Option String → RecoveryRows
unfolding personal_vaults
rows_of db user_id =
    let vaults = personal_vaults db user_id in
    recovery_rows db (map (λ (v : Vault). v.id) vaults) (owner_ids vaults)

pub candidates-IsFound :
    (locale_compare_less : String → String → Bool) (db : Database) (user_id : Option String)
    (c : PersonalVaultRecoveryCandidate)
    → In c (list_personal_vault_recovery_candidates locale_compare_less db user_id)
    → IsFound (rows_of db user_id) (personal_vaults db user_id) c.vault
unfolding list_personal_vault_recovery_candidates rows_of personal_vaults
candidates-IsFound locale_compare_less db user_id c i =
    elim (Bool-cases (
      is_empty (personal_vaults db user_id) || is_empty (owner_ids (personal_vaults db user_id)))) [
        | inl e ↦ elim (rw e at i) [ ]
        | inr e ↦
            candidate_loop-IsFound locale_compare_less (rows_of db user_id)
              (personal_vaults db user_id) c (rw e at i)
      ]
