-- ===== src/Feed/Race.antt =====
-- apps/api/src/routes/events.ts against packages/client-core/src/meta-store.ts: a grant that is
-- delivered while the last listing of the setup is on its way.
use mima.Prelude.{
  ℕ, max, String, true, false, none, some, List, [], ◌∷◌, ◌++◌, ◌≡◌, refl, ap, ap₂, ◌∙◌, inl, inr,
  arith, nat_eq, string_eq, leb, includes, Option-cases,
}
use mima.Prelude.Table
use mima.Access.{VaultAccess}
use mima.Store.{MetaState}
use mima.Store.Events.{SyncEvent, sync_ready, apply_event, apply_events}
use mima.Store.Revocation.{vaults-apply_sync_ready}
use mima.Feed.{
  SyncEventRow, row_vault_upserted, World, Connection, FeedState, answer_as, answer, deliver,
  deliver_now, vault_event, granted, session_still_valid, send_ready, see, add_known,
}
use mima.Feed.Delivery.{is_passed}

apply_events-append :
    (xs ys : List SyncEvent) (m : MetaState)
    → (apply_events (xs ++ ys) m).0 ≡ (apply_events ys (apply_events xs m).0).0
unfolding apply_events
apply_events-append [] ys m = refl
apply_events-append (x ∷ xs) ys m = apply_events-append xs ys (apply_event x m).0

-- A client that gets the list of its vaults last holds no vault beside those.
apply_events-ready :
    (xs : List SyncEvent) (n : ℕ) (ids : List String) (m : MetaState) (id : String)
    → includes ids id ≡ false
    → Table.get (apply_events (xs ++ sync_ready n ids ∷ []) m).0.vaults id ≡ none
unfolding apply_events apply_event
apply_events-ready xs n ids m id h =
    rw (apply_events-append xs (sync_ready n ids ∷ []) m)
      (elim (Option-cases
        (Table.get (apply_event (sync_ready n ids) (apply_events xs m).0).0.vaults id)) [
          | inl e ↦ e
          | inr (v, e) ↦ cc (
            vaults-apply_sync_ready (max (apply_events xs m).0.cursor n) ids (apply_events xs m).0
                id v e,
            h,
          )
        ])

module _ (pkf : String → String) where
  deliver-granted :
      (c : Connection) (w : World) (row : SyncEventRow) (a : VaultAccess) (s : FeedState)
      → is_passed c row s ≡ false
      → row.type ≡ row_vault_upserted
      → session_still_valid c w ≡ true
      → granted pkf w c.user row.vault_id ≡ some a
      → deliver pkf c (some w, row) s ≡ record s {
        setup_seen = see s.setup_seen row.id;
        known = add_known row.vault_id s.known;
        sent = s.sent ++ vault_event w row a.vault ∷ [];
        last_sent = max s.last_sent row.id;
      }
  unfolding deliver deliver_now answer answer_as
  deliver-granted c w row a s passed type valid access =
      let answered : answer pkf c w row s.known
          ≡ (add_known row.vault_id s.known, vault_event w row a.vault) =
        ap₂ (λ t g. answer_as t g w row s.known) type access in
      rw (passed, valid, answered, deliver, deliver_now)

  -- If a grant of a vault is delivered between the last listing, which does not have the vault yet, and
  -- `sync.ready`, then the connection sends the vault and after it the old list, and a client that
  -- applies what was sent does not hold the vault, while the connection counts it as delivered.
  pub send_ready-deliver :
      (c : Connection) (w : World) (row : SyncEventRow) (a : VaultAccess) (s : FeedState)
      (ids : List String) (m : MetaState)
      → s.closed ≡ false
      → s.setup_seen ≡ none
      → row.type ≡ row_vault_upserted
      → leb row.id c.cursor ≡ false
      → session_still_valid c w ≡ true
      → granted pkf w c.user row.vault_id ≡ some a
      → includes ids row.vault_id ≡ false
      → let t = send_ready ids (deliver pkf c (some w, row) s) in
        (t.sent
          ≡ (s.sent ++ vault_event w row a.vault ∷ [])
            ++ sync_ready (max s.last_sent row.id) ids ∷ [])
        × (Table.get (apply_events t.sent m).0.vaults row.vault_id ≡ none)
  unfolding send_ready
  send_ready-deliver c w row a s ids m opened seen type new valid access missing =
      let passed : is_passed c row s ≡ false = ground (arith, opened, seen, new) in
      let t = deliver pkf c (some w, row) s in
      let e = deliver-granted c w row a s passed type valid access in
      let still : t.closed ≡ false = ap (λ r. r.closed) e ∙ opened in
      let sent : (send_ready ids t).sent ≡ t.sent ++ sync_ready t.last_sent ids ∷ [] =
        rw (still, send_ready) in
      let whole = sent ∙ ap (λ r. r.sent ++ sync_ready r.last_sent ids ∷ []) e in
      (whole, rw whole (apply_events-ready _ _ ids m row.vault_id missing))
