-- ===== src/Feed/Examples.antt =====
-- Runs of the event stream of apps/api/src/routes/events.ts for a user with a personal vault and a
-- team vault.
use mima.Prelude.{
  ℕ, String, true, false, Option, none, some, List, [], ◌∷◌, ◌++◌, ◌≡◌, refl, nat_eq, string_eq,
}
use mima.Prelude.Table
use mima.Access.Examples.{db, alice, fingerprint, shared_access, opens_shared}
use mima.Store.{initial_state}
use mima.Store.Events.{sync_cursor, sync_ready, apply_events}
use mima.Feed.{
  SyncEventRow, RowType, row_item_upserted, row_vault_upserted, row_device_revoked, World,
  Connection, FeedState, deliver, deliver_all, setup, send_ready, session_still_valid, granted,
  vault_event,
}
use mima.Feed.Gaps.{Prefix, fresh_ids, row_ids, greatest, cursors, setup-gapless}
use mima.Feed.Race.{send_ready-deliver}

abbrev world : World
world = record {
  database = db;
  sessions = record { id = "s"; expires_at = 100; locked = false } ∷ [];
  items = [];
  vault_contents = λ id. "";
  now = 50;
}

abbrev connection : Connection
connection = record { cursor = 4; user = alice; session_id = "s" }

abbrev row_of : ℕ → RowType → String → SyncEventRow
row_of id type vault_id = record {
  id = id;
  type = type;
  vault_id = vault_id;
  item_id = "i";
  payload = record {
    item = record { id = "i"; vault_id = vault_id; version = 1; secret_state = none; content = "" };
    access_changed = false;
    rekey_required = false;
    user_id = "";
    device_id = "";
    actor_device_id = "";
    profile_version = 0;
  };
}

-- An item of the team vault, one of a vault that is closed to the user, and the first row again.
abbrev rows : List (Option World × SyncEventRow)
rows =
    (some world, row_of 5 row_item_upserted "v2")
    ∷ (some world, row_of 7 row_item_upserted "v9")
    ∷ (some world, row_of 5 row_item_upserted "v2")
    ∷ []

session_is_valid : session_still_valid connection world ≡ true
unfolding session_still_valid
session_is_valid = refl

-- Rows that show nothing are answered by the cursor alone, each once.
hidden_rows :
    (setup fingerprint connection world (
      (some world, row_of 5 row_device_revoked "v2")
      ∷ (some world, row_of 4 row_device_revoked "v2")
      ∷ (some world, row_of 5 row_device_revoked "v2")
      ∷ [])).sent
    ≡ sync_cursor 5 ∷ []
unfolding setup deliver deliver_all
hidden_rows = refl

-- A failing query breaks the stream before the row.
broken :
    (setup fingerprint connection world ((none, row_of 5 row_item_upserted "v2") ∷ rows)).sent ≡ []
unfolding setup deliver deliver_all
broken = refl

setup-gapless_example :
    let ready : FeedState =
      deliver_all fingerprint connection
        ((some world, row_of 8 row_vault_upserted "v2") ∷ [])
        (setup fingerprint connection world rows) in
    Prefix (fresh_ids 4 (some []) (row_ids rows)) (setup fingerprint connection world rows)
    × ((setup fingerprint connection world rows).last_sent
        ≡ greatest 4 (cursors (setup fingerprint connection world rows).sent))
    × (ready.closed ≡ false
        → (send_ready ("v1" ∷ []) ready).sent
          ≡ ready.sent ++ sync_ready (greatest 4 (cursors ready.sent)) ("v1" ∷ []) ∷ [])
    × (ready.closed ≡ true → (send_ready ("v1" ∷ []) ready).sent ≡ ready.sent)
setup-gapless_example =
    setup-gapless fingerprint connection world rows
      ((some world, row_of 8 row_vault_upserted "v2") ∷ []) ("v1" ∷ [])

abbrev waiting : FeedState
waiting = record { closed = false; last_sent = 6; setup_seen = none; known = []; sent = [] }

granted_shared : granted fingerprint world alice "v2" ≡ some shared_access
granted_shared = rw opens_shared

send_ready-deliver_example :
    let row = row_of 8 row_vault_upserted "v2" in
    let t = send_ready ("v1" ∷ []) (deliver fingerprint connection (some world, row) waiting) in
    (t.sent
      ≡ ([] ++ vault_event world row shared_access.vault ∷ []) ++ sync_ready 8 ("v1" ∷ []) ∷ [])
    × (Table.get (apply_events t.sent initial_state).0.vaults "v2" ≡ none)
send_ready-deliver_example =
    send_ready-deliver fingerprint connection world (row_of 8 row_vault_upserted "v2") shared_access
      waiting ("v1" ∷ []) initial_state refl refl refl refl session_is_valid granted_shared refl
