-- ===== src/Feed/Delivery.antt =====
-- apps/api/src/routes/events.ts: what one delivery does.
use mima.Prelude.{
  max, String, Bool, true, false, ◌||◌, Option, none, some, List, [], ◌∷◌, ◌++◌, ◌≡◌, refl, ◌⊎◌,
  inl, inr, arith, nat_eq, string_eq, leb, includes, Bool-cases, Option-cases,
}
use mima.Access.{VaultAccess}
use mima.Store.Events.{event_cursor}
use mima.Feed.{
  SyncEventRow, RowType, row_item_upserted, row_item_encrypted_upserted, row_item_deleted,
  row_vault_upserted, row_vault_deleted, row_vault_crypto_changed, row_vault_rekey_required,
  row_profile_rewrapped, row_device_revoked, World, Connection, FeedState, answer_as, answer,
  deliver, deliver_now, deliver_all, session_still_valid, is_seen, see, revoke_or_skip, vault_event,
}

cursor-revoke_or_skip :
    (row : SyncEventRow) (known : List String) → event_cursor (revoke_or_skip row known).1 ≡ row.id
unfolding revoke_or_skip
cursor-revoke_or_skip row known = elim (Bool-cases (includes known row.vault_id)) [
  | inl e ↦ rw (e, revoke_or_skip)
  | inr e ↦ rw (e, revoke_or_skip)
]

-- Each answer carries the id of its row.
pub cursor-answer_as :
    (type : RowType) (access : Option VaultAccess) (w : World) (row : SyncEventRow)
    (known : List String)
    → event_cursor (answer_as type access w row known).1 ≡ row.id
unfolding answer_as vault_event
cursor-answer_as row_item_encrypted_upserted access w row known = refl
cursor-answer_as row_vault_crypto_changed access w row known = refl
cursor-answer_as row_vault_rekey_required access w row known = refl
cursor-answer_as row_device_revoked access w row known = refl
cursor-answer_as row_item_upserted none w row known = cursor-revoke_or_skip row known
cursor-answer_as row_item_upserted (some a) w row known = refl
cursor-answer_as row_item_deleted none w row known = cursor-revoke_or_skip row known
cursor-answer_as row_item_deleted (some a) w row known = refl
cursor-answer_as row_vault_deleted access w row known = cursor-revoke_or_skip row known
cursor-answer_as row_vault_upserted none w row known = cursor-revoke_or_skip row known
cursor-answer_as row_vault_upserted (some a) w row known = refl
cursor-answer_as row_profile_rewrapped none w row known = cursor-revoke_or_skip row known
cursor-answer_as row_profile_rewrapped (some a) w row known = refl

-- Passed over: the stream is closed, or the row was confirmed or seen before.
abbrev pub is_passed : Connection → SyncEventRow → FeedState → Bool
is_passed c row s = s.closed || (leb row.id c.cursor || is_seen s.setup_seen row.id)

module _ (pkf : String → String) where
  -- What a delivery comes to: the row is passed over, or the stream breaks, or the answer is sent.
  pub deliver-cases :
      (c : Connection) (world : Option World) (row : SyncEventRow) (s : FeedState)
      → ((is_passed c row s ≡ true) × (deliver pkf c (world, row) s ≡ s))
        ⊎ ((is_passed c row s ≡ false)
            × (deliver pkf c (world, row) s
                ≡ record s { setup_seen = see s.setup_seen row.id; closed = true }))
        ⊎ ((is_passed c row s ≡ false)
            × ((w : World) × (world ≡ some w)
                × (session_still_valid c w ≡ true)
                × (deliver pkf c (world, row) s ≡ record s {
                  setup_seen = see s.setup_seen row.id;
                  known = (answer pkf c w row s.known).0;
                  sent = s.sent ++ (answer pkf c w row s.known).1 ∷ [];
                  last_sent = max s.last_sent row.id;
                })))
  unfolding deliver deliver_now
  deliver-cases c world row s = elim (Bool-cases (is_passed c row s)) [
    | inl e ↦ inl (e, rw (e, deliver))
    | inr e ↦ elim (Option-cases world) [
      | inl n ↦ inr (inl (e, rw (e, n, deliver)))
      | inr (w, n) ↦ elim (Bool-cases (session_still_valid c w)) [
        | inl v ↦ inr (inr (e, (w, n, v, rw (e, n, v, deliver, deliver_now))))
        | inr v ↦ inr (inl (e, rw (e, n, v, deliver, deliver_now)))
      ]
    ]
  ]

  -- Nothing is sent on a closed stream.
  pub deliver_all-closed :
      (c : Connection) (rows : List (Option World × SyncEventRow)) (s : FeedState)
      → s.closed ≡ true
      → deliver_all pkf c rows s ≡ s
  unfolding deliver_all
  deliver_all-closed c [] s h = refl
  deliver_all-closed c ((world, row) ∷ rows) s h =
      let passed : is_passed c row s ≡ true = ground (arith, h) in
      let same : deliver pkf c (world, row) s ≡ s = unfold deliver in rw (passed, deliver) in
      rw same (deliver_all-closed c rows s h)
