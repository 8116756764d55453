-- ===== src/EncryptedFeed/Entitled.antt =====
-- apps/api/src/routes/e2ee-events.ts: ciphertexts go to users who may open their vaults.
use mima.Prelude.{
  String, Bool, true, false, ◌||◌, not, none, some, List, ◌≡◌, ◌⊎◌, refl, ◌==◌, nat_eq, string_eq,
  eq_iff, find, find-eq-some, find, includes, inl, inr, In, Bool-cases, Option-cases, and-eq-true,
}
use mima.Access.{SessionUser, VaultCryptoState, live_epoch}
use mima.Feed.{
  SyncEventRow, RowType, row_item_upserted, row_item_encrypted_upserted, row_item_deleted,
  row_vault_upserted, row_vault_deleted, row_vault_crypto_changed, row_vault_rekey_required,
  row_profile_rewrapped, row_device_revoked,
}
use mima.Feed.Leaks.{IsWritten}
use mima.EncryptedFeed.{
  Vaults, EncryptedVaultHeader, EncryptedSyncEvent, item_encrypted_upserted, encrypted_item_deleted,
  vault_crypto_changed, vault_rekey_required, encrypted_vault_revoked, profile_rewrapped,
  device_revoked, cursor_only, encrypted_sync_ready, Standing, has_role, has_standing,
  current_header, crypto_event, rekey_event, rekey_or, vault_event_as, answer_vault, running_job,
}
use mima.EncryptedFeed.Steps.{access_to, is_candidate, standing_of, answer_row}

current_header-vault :
    (w : Vaults) (state : VaultCryptoState) (h : EncryptedVaultHeader)
    → current_header w state ≡ some h
    → h.vault_id ≡ state.vault_id
unfolding current_header
current_header-vault w state h e = elim (Option-cases (live_epoch state.active_epoch)) [
  | inl n ↦ cc (rw (n, current_header) at e)
  | inr (epoch, n) ↦
      let found = find-eq-some _ w.encrypted_vault_headers (rw (n, current_header) at e) in
      (eq_iff h.vault_id state.vault_id).0 (and-eq-true _ _ found.1).0
]

-- Each event as a predicate on what its reader may do: `Reads` a vault, or `Restores` it.
abbrev pub May : (String → Type 0) → (String → Type 0) → EncryptedSyncEvent → Type 0
May Reads Restores (item_encrypted_upserted n item) = Reads item.vault_id
May Reads Restores (encrypted_item_deleted n vault_id item_id) = Reads vault_id
May Reads Restores (vault_rekey_required n vault_id epoch task) = Reads vault_id
May Reads Restores (vault_crypto_changed n state none) = state.encrypted_header ≡ none
May Reads Restores (vault_crypto_changed n state (some header)) =
    (header.vault_id ≡ state.vault_id) × (Reads state.vault_id ⊎ Restores state.vault_id)
May Reads Restores (encrypted_vault_revoked n vault_id) = Unit
May Reads Restores (profile_rewrapped n device version) = Unit
May Reads Restores (device_revoked n device) = Unit
May Reads Restores (cursor_only n) = Unit
May Reads Restores (encrypted_sync_ready n vault_ids) = Unit

module _ (Reads Restores : String → Type 0) where
  -- What a standing in the vault of a row allows.
  abbrev pub Grants : Standing → String → Type 0
  Grants s id = (s.has_access ≡ true → Reads id) × (s.recovery_required ≡ true → Restores id)

  who :
      (s : Standing) (id : String)
      → (s.has_access || s.recovery_required) ≡ true
      → Grants s id
      → Reads id ⊎ Restores id
  who s id b g = elim (Bool-cases s.has_access) [
    | inl h ↦ inl (g.0 h)
    | inr h ↦ inr (g.1 (rw h at b))
  ]

  May-crypto_event :
      (w : Vaults) (row : SyncEventRow) (s : Standing)
      → Grants s row.vault_id
      → May Reads Restores (crypto_event w row s)
  unfolding crypto_event
  May-crypto_event w row s g =
      elim (Option-cases (find (λ t. t.vault_id == row.vault_id) w.database.vault_crypto_states)) [
        | inl e ↦ rw (e, crypto_event) tt
        | inr (state, e) ↦
            let at_vault : state.vault_id ≡ row.vault_id =
              (eq_iff state.vault_id row.vault_id).0
                (find-eq-some (λ t. t.vault_id == row.vault_id) w.database.vault_crypto_states
                  e).1 in
            elim (Bool-cases (s.has_access || s.recovery_required)) [
              | inl b ↦ elim (Option-cases (current_header w state)) [
                | inl n ↦ rw (e, crypto_event, b, n) refl
                | inr (h, n) ↦
                    rw (e, crypto_event, b, n)
                      (current_header-vault w state h n, rw at_vault (who s row.vault_id b g))
              ]
              | inr b ↦ rw (e, crypto_event, b) refl
            ]
      ]

  May-rekey_event :
      (w : Vaults) (row : SyncEventRow) (b : Bool)
      → (b ≡ true → Reads row.vault_id)
      → May Reads Restores (rekey_event w row b)
  unfolding rekey_event
  May-rekey_event w row false g = tt
  May-rekey_event w row true g = elim (Option-cases (running_job w row.vault_id)) [
    | inl e ↦ rw (e, rekey_event) tt
    | inr (j, e) ↦ rw (e, rekey_event) (g refl)
  ]

  May-rekey_or :
      (row : SyncEventRow) (w : Vaults) (s : Standing) (other : EncryptedSyncEvent)
      → Grants s row.vault_id
      → May Reads Restores other
      → May Reads Restores (rekey_or row w s other)
  unfolding rekey_event
  May-rekey_or row w s other g m = elim (Bool-cases row.payload.rekey_required) [
    | inl e ↦ rw e (May-rekey_event w row s.has_access g.0)
    | inr e ↦ rw e m
  ]

  May-vault_event_as :
      (type : RowType) (w : Vaults) (row : SyncEventRow) (s : Standing)
      → IsWritten row
      → Grants s row.vault_id
      → May Reads Restores (vault_event_as type w row s)
  unfolding vault_event_as
  May-vault_event_as row_item_encrypted_upserted w row s r g = elim (Bool-cases s.has_access) [
    | inl e ↦ rw e (rw r (g.0 e))
    | inr e ↦ rw e tt
  ]
  May-vault_event_as row_item_deleted w row s r g = elim (Bool-cases s.has_access) [
    | inl e ↦ rw e (g.0 e)
    | inr e ↦ rw e tt
  ]
  May-vault_event_as row_vault_rekey_required w row s r g = May-rekey_event w row s.has_access g.0
  May-vault_event_as row_vault_crypto_changed w row s r g =
      May-rekey_or row w s (crypto_event w row s) g (May-crypto_event w row s g)
  May-vault_event_as row_item_upserted w row s r g = May-rekey_or row w s (cursor_only row.id) g tt
  May-vault_event_as row_vault_upserted w row s r g = May-rekey_or row w s (cursor_only row.id) g tt
  May-vault_event_as row_vault_deleted w row s r g = May-rekey_or row w s (cursor_only row.id) g tt
  May-vault_event_as row_profile_rewrapped w row s r g =
      May-rekey_or row w s (cursor_only row.id) g tt
  May-vault_event_as row_device_revoked w row s r g = May-rekey_or row w s (cursor_only row.id) g tt

  May-answer_vault :
      (w : Vaults) (row : SyncEventRow) (s : Standing) (known : List String)
      → IsWritten row
      → Grants s row.vault_id
      → May Reads Restores (answer_vault w row s known).1
  unfolding answer_vault
  May-answer_vault w row s known r g = elim (Bool-cases (has_standing s)) [
    | inl e ↦ rw (e, answer_vault) (May-vault_event_as row.type w row s r g)
    | inr e ↦ elim (Bool-cases (includes known row.vault_id)) [
      | inl k ↦ rw (e, answer_vault, k) tt
      | inr k ↦ rw (e, answer_vault, k) tt
    ]
  ]

module _ (public_key_fingerprint : String → String)
    (locale_compare_less : String → String → Bool) where
  -- In one of the worlds the user had a role in the vault, together with the key for it.
  abbrev pub CouldRead : List Vaults → SessionUser → String → Type 0
  CouldRead ws u id =
      (w : Vaults) × In w ws
      × (has_role (access_to public_key_fingerprint locale_compare_less w u id) ≡ true)

  -- In one of the worlds the vault was a candidate for the recovery of this user's vaults.
  abbrev pub CouldRestore : List Vaults → SessionUser → String → Type 0
  CouldRestore ws u id =
      (w : Vaults) × In w ws
      × (is_candidate public_key_fingerprint locale_compare_less w u id ≡ true)

  abbrev pub IsEntitled : List Vaults → SessionUser → EncryptedSyncEvent → Type 0
  IsEntitled ws u e = May (CouldRead ws u) (CouldRestore ws u) e

  standing_of-Grants :
      (ws : List Vaults) (u : SessionUser) (w : Vaults) (id : String) (known : List String)
      → In w ws
      → Grants
          (CouldRead ws u)
          (CouldRestore ws u)
          (standing_of public_key_fingerprint locale_compare_less w u id known)
          id
  unfolding standing_of
  standing_of-Grants ws u w id known i =
      let f = public_key_fingerprint in
      let g = locale_compare_less in
      (
        λ e. (w, i, e),
        λ e. (
          w,
          i,
          (and-eq-true (includes known id) (is_candidate f g w u id)
              (and-eq-true (not (has_role (access_to f g w u id))) _ e).1).1,
        ),
      )

  vault_answer :
      (ws : List Vaults) (u : SessionUser) (w : Vaults) (row : SyncEventRow) (known : List String)
      → In w ws
      → IsWritten row
      → IsEntitled ws u
          (answer_vault w row
            (standing_of public_key_fingerprint locale_compare_less w u row.vault_id known)
            known).1
  vault_answer ws u w row known i r =
      May-answer_vault (CouldRead ws u) (CouldRestore ws u) w row
        (standing_of public_key_fingerprint locale_compare_less w u row.vault_id known) known r
        (standing_of-Grants ws u w row.vault_id known i)

  pub answer_row-IsEntitled :
      (type : RowType) (ws : List Vaults) (u : SessionUser) (w : Vaults) (row : SyncEventRow)
      (known : List String)
      → In w ws
      → IsWritten row
      → IsEntitled ws u (answer_row public_key_fingerprint locale_compare_less type u w row known).1
  unfolding answer_row
  answer_row-IsEntitled row_device_revoked ws u w row known i r =
      elim (Bool-cases (row.payload.user_id == u.id)) [ inl e ↦ rw e tt | inr e ↦ rw e tt ]
  answer_row-IsEntitled row_profile_rewrapped ws u w row known i r =
      elim (Bool-cases (row.payload.user_id == u.id)) [ inl e ↦ rw e tt | inr e ↦ rw e tt ]
  answer_row-IsEntitled row_item_encrypted_upserted ws u w row known i r =
      vault_answer ws u w row known i r
  answer_row-IsEntitled row_item_upserted ws u w row known i r = vault_answer ws u w row known i r
  answer_row-IsEntitled row_item_deleted ws u w row known i r = vault_answer ws u w row known i r
  answer_row-IsEntitled row_vault_upserted ws u w row known i r = vault_answer ws u w row known i r
  answer_row-IsEntitled row_vault_deleted ws u w row known i r = vault_answer ws u w row known i r
  answer_row-IsEntitled row_vault_crypto_changed ws u w row known i r =
      vault_answer ws u w row known i r
  answer_row-IsEntitled row_vault_rekey_required ws u w row known i r =
      vault_answer ws u w row known i r
