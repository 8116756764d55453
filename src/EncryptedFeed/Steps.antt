-- ===== src/EncryptedFeed/Steps.antt =====
-- apps/api/src/routes/e2ee-events.ts: the life of a connection as steps, in any order in which the
-- handler, the bus, the timer and the client may take them.
use mima.Prelude.{
  ℕ, max, String, Bool, true, false, ◌&&◌, ◌||◌, not, Option, none, some, List, [], ◌∷◌, ◌++◌, map,
  ◌==◌, nat_eq, string_eq, if◌then◌else◌, leb, keep, any, includes,
}
use mima.Access.{
  SessionUser, VaultAccess, get_vault_access, get_vault_authorization, list_accessible_vaults,
  list_authorized_vaults, is_team,
}
use mima.Access.Recovery.{list_personal_vault_recovery_candidates}
use mima.Feed.{
  SyncEventRow, RowType, row_item_upserted, row_item_encrypted_upserted, row_item_deleted,
  row_vault_upserted, row_vault_deleted, row_vault_crypto_changed, row_vault_rekey_required,
  row_profile_rewrapped, row_device_revoked, Connection, add_all, vaults_of,
}
use mima.EncryptedFeed.{
  EncryptedSyncEvent, Phase, Standing, StreamState, Vaults, answer_vault, cursor_only,
  device_revoked, encrypted_sync_ready, has_role, has_team_role, is_session_valid,
  profile_rewrapped, setting_up, streaming, thrown,
}

-- What happens to a connection, in its order. A world is what the queries of the step find.
pub data Step : Type 0 where
  -- The handler delivers the next row of the backlog, or the first of the buffer.
  backlog_row : Option Vaults → SyncEventRow → Step
  buffered_row : Option Vaults → Step
  -- The buffer is empty, and `ready` is set; then the listing for `sync.ready` has come.
  set_ready : Step
  listed : Vaults → Step
  -- The bus gives a row, the timer asks for the session, the client hangs up.
  bus_row : Option Vaults → SyncEventRow → Step
  ping : Option Vaults → Step
  hang_up : Step

unfoldable pub send : EncryptedSyncEvent → StreamState → StreamState
send e s = if s.closed then s else record s { sent = s.sent ++ e ∷ [] }

abbrev pub close : StreamState → StreamState
close s = record s { closed = true }

abbrev pub answered : ℕ → EncryptedSyncEvent → StreamState → StreamState
answered id e s = let t = send e s in record t { last_sent = max s.last_sent id }

-- In the handler a throw ends it; after it, `chain` closes the stream.
abbrev pub or_thrown : StreamState → Option StreamState → StreamState
or_thrown s none = record s { phase = thrown }
or_thrown s (some t) = t

abbrev pub or_closed : StreamState → Option StreamState → StreamState
or_closed s none = close s
or_closed s (some t) = t

-- `if (closed) return; ready = true;`, once the buffer is empty.
abbrev pub become_ready : List SyncEventRow → StreamState → StreamState
become_ready [] s = if s.closed then s else record s { phase = streaming }
become_ready (row ∷ rows) s = s

abbrev pub check_ping : Connection → Option Vaults → StreamState → StreamState
check_ping c none s = close s
check_ping c (some w) s = if is_session_valid c w then s else close s

module _ (public_key_fingerprint : String → String)
    (locale_compare_less : String → String → Bool) where
  abbrev pub access_to : Vaults → SessionUser → String → Option VaultAccess
  access_to w u id = get_vault_access public_key_fingerprint w.database u id

  abbrev pub is_candidate : Vaults → SessionUser → String → Bool
  is_candidate w u id =
      any (λ c. c.vault.id == id)
        (list_personal_vault_recovery_candidates locale_compare_less w.database (some u.id))

  -- The three readings of a vault for a user; a vault that is not known is not asked for recovery.
  unfoldable pub standing_of : Vaults → SessionUser → String → List String → Standing
  standing_of w u id known =
      let has_access = has_role (access_to w u id) in
      record {
        has_access = has_access;
        waiting_for_envelope =
            not has_access && has_team_role (get_vault_authorization w.database u id);
        recovery_required = not has_access && (includes known id && is_candidate w u id);
      }

  -- The rows that are about the user, and those about a vault.
  unfoldable pub answer_row :
      RowType → SessionUser → Vaults → SyncEventRow → List String → List String × EncryptedSyncEvent
  unfolding answer_vault standing_of
  answer_row row_device_revoked u w row known = (
    known,
    if row.payload.user_id == u.id
        then device_revoked row.id row.payload.device_id
        else cursor_only row.id,
  )
  answer_row row_profile_rewrapped u w row known = (
    known,
    if row.payload.user_id == u.id
        then profile_rewrapped row.id row.payload.actor_device_id row.payload.profile_version
        else cursor_only row.id,
  )
  answer_row row_item_encrypted_upserted u w row known =
      answer_vault w row (standing_of w u row.vault_id known) known
  answer_row row_item_upserted u w row known =
      answer_vault w row (standing_of w u row.vault_id known) known
  answer_row row_item_deleted u w row known =
      answer_vault w row (standing_of w u row.vault_id known) known
  answer_row row_vault_upserted u w row known =
      answer_vault w row (standing_of w u row.vault_id known) known
  answer_row row_vault_deleted u w row known =
      answer_vault w row (standing_of w u row.vault_id known) known
  answer_row row_vault_crypto_changed u w row known =
      answer_vault w row (standing_of w u row.vault_id known) known
  answer_row row_vault_rekey_required u w row known =
      answer_vault w row (standing_of w u row.vault_id known) known

  unfoldable pub deliver_row : Connection → Vaults → SyncEventRow → StreamState → StreamState
  deliver_row c w row s =
      let (known, event) = answer_row row.type c.user w row s.known in
      answered row.id event (record s { known = known })

  -- `deliver`; none where it throws.
  unfoldable pub try_deliver :
      Connection → Option Vaults → SyncEventRow → StreamState → Option StreamState
  try_deliver c world row s = if s.closed || leb row.id c.cursor then some s else elim world [
    | none ↦ none
    | some w ↦ some (if is_session_valid c w then deliver_row c w row s else close s)
  ]

  -- The vaults of the three listings, each once.
  unfoldable pub listed_vaults : Vaults → SessionUser → List String
  listed_vaults w u =
      add_all
        (vaults_of (list_accessible_vaults public_key_fingerprint w.database u)
          ++ vaults_of (keep (λ a. is_team a.vault) (list_authorized_vaults w.database u))
          ++ map (λ c. c.vault.id)
              (list_personal_vault_recovery_candidates locale_compare_less w.database (some u.id)))
        []

  abbrev pub take_buffered :
      Connection → Option Vaults → List SyncEventRow → StreamState → StreamState
  take_buffered c world [] s = s
  take_buffered c world (row ∷ rows) s =
      let rest = record s { buffer = rows } in or_thrown rest (try_deliver c world row rest)

  -- A row of the bus; `close` has unsubscribed.
  abbrev pub receive : Connection → Option Vaults → SyncEventRow → StreamState → Phase → StreamState
  receive c world row s streaming = or_closed s (try_deliver c world row s)
  receive c world row s setting_up =
      if s.closed then s else record s { buffer = s.buffer ++ row ∷ [] }
  receive c world row s thrown = if s.closed then s else record s { buffer = s.buffer ++ row ∷ [] }

  -- The steps of the handler's own happen while it runs.
  unfoldable pub step_as : Phase → Connection → Step → StreamState → StreamState
  step_as setting_up c (backlog_row world row) s = or_thrown s (try_deliver c world row s)
  step_as setting_up c (buffered_row world) s = take_buffered c world s.buffer s
  step_as setting_up c set_ready s = become_ready s.buffer s
  step_as streaming c (listed w) s =
      send (encrypted_sync_ready s.last_sent (listed_vaults w c.user)) s
  step_as phase c (bus_row world row) s = receive c world row s phase
  step_as phase c (ping world) s = check_ping c world s
  step_as phase c hang_up s = close s
  step_as phase c step s = s

  unfoldable pub run : Connection → List Step → StreamState → StreamState
  run c [] s = s
  run c (step ∷ steps) s = run c steps (step_as s.phase c step s)

  -- The state when the first listings have come.
  unfoldable pub open_stream : Connection → Vaults → StreamState
  open_stream c w = record {
    phase = setting_up;
    closed = false;
    last_sent = c.cursor;
    buffer = [];
    known = listed_vaults w c.user;
    sent = [];
  }
