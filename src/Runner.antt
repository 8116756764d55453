-- ===== src/Runner.antt =====
-- apps/api/src/services/commands.ts: commands run once for each key, and the events that they
-- publish. A command's own work is an argument, a function on all the tables, the answers too:
-- `migration.cutover` deletes them, and rewrites the payloads of the events.
pub mod Replay
pub mod Failure
pub mod Order
pub mod Examples
use mima.Prelude.{
  ℕ, suc, String, Bool, true, false, ◌&&◌, not, Option, none, some, List, [], ◌∷◌, ◌++◌, ◌==◌,
  string_eq, nat_eq, if◌then◌else◌, leb, ltb, find, is_some,
}
use mima.Anchor.{AuditAnchorStore, AuditError, Result, ok, err, record_anchor}
use mima.Audit.{AuditEvent, last_row}
use mima.Feed.{SyncEventRow, RowType, Payload}

pub record CommandResult : Type 0 where
  pub status_code : ℕ
  pub response : String

pub record CommandDedup : Type 0 where
  pub idempotency_key : String
  pub user_id : String
  pub command_name : String
  pub request_digest : Option String
  pub answer : CommandResult

pub data CommandError : Type 0 where
  version_conflict : ℕ → CommandError
  access_denied : String → CommandError
  idempotency_conflict : CommandError
  duplicate_key : CommandError
  anchor_failed : AuditError → CommandError

pub data Answer : Type 0 where
  returns : CommandResult → Answer
  throws : CommandError → Answer

-- The tables that a command may write; `rows` stands for those that the runner does not look at.
pub record Tables (D : Type 0) : Type 0 where
  pub rows : D
  pub sync_events : List SyncEventRow
  pub audit_events : List AuditEvent
  pub command_dedup : List CommandDedup

-- `event_sequence` is the last id of `sync_events` that was given out; a rollback keeps it.
pub record Transaction (D : Type 0) : Type 0 where
  pub tables : Tables D
  pub event_sequence : ℕ
  pub pending : List SyncEventRow

pub record Server (D : Type 0) : Type 0 where
  pub tables : Tables D
  pub event_sequence : ℕ
  pub published : List SyncEventRow
  pub anchors : AuditAnchorStore

-- `Omit<SyncEventRow, 'id'>`
pub record NewSyncEvent : Type 0 where
  pub type : RowType
  pub vault_id : String
  pub item_id : String
  pub payload : Payload

pub record Request : Type 0 where
  pub user_id : String
  pub idempotency_key : String
  pub command_name : String
  pub request_digest : Option String

abbrev pub has_key : Request → CommandDedup → Bool
has_key q row =
    row.idempotency_key == q.idempotency_key
    && (row.user_id == q.user_id && row.command_name == q.command_name)

-- The request has a digest, and the answered one has none or another.
abbrev pub is_conflicting : Option String → Option String → Bool
is_conflicting answered none = false
is_conflicting none (some digest) = true
is_conflicting (some answered) (some digest) = not (answered == digest)

abbrev pub is_success : CommandResult → Bool
is_success r = leb 200 r.status_code && ltb r.status_code 300

abbrev pub dedup_row : Request → CommandResult → CommandDedup
dedup_row q r = record {
  idempotency_key = q.idempotency_key;
  user_id = q.user_id;
  command_name = q.command_name;
  request_digest = q.request_digest;
  answer = r;
}

-- Only an answer between 200 and 299 is kept.
unfoldable pub remember : Request → CommandResult → List CommandDedup → List CommandDedup
remember q r dedup = if is_success r then dedup ++ dedup_row q r ∷ [] else dedup

module _ {D : Type 0} where
  -- `recordSyncEvent`
  unfoldable pub record_sync_event : NewSyncEvent → Transaction D → Transaction D × SyncEventRow
  record_sync_event e t =
      let row : SyncEventRow = record {
        id = suc t.event_sequence;
        type = e.type;
        vault_id = e.vault_id;
        item_id = e.item_id;
        payload = e.payload;
      } in
      (
        record t {
          tables = record (t.tables) { sync_events = t.tables.sync_events ++ row ∷ [] };
          event_sequence = suc t.event_sequence;
        },
        row,
      )

  -- `collect`
  unfoldable pub collect : SyncEventRow → Transaction D → Transaction D
  collect row t = record t { pending = t.pending ++ row ∷ [] }

  -- A listener of the bus gets every row, in order.
  unfoldable pub publish : List SyncEventRow → Server D → Server D
  publish rows s = record s { published = s.published ++ rows }

  abbrev pub begin : Server D → Transaction D
  begin s = record { tables = s.tables; event_sequence = s.event_sequence; pending = [] }

  abbrev pub set_anchors : CommandResult → Server D → Result AuditAnchorStore → Server D × Answer
  set_anchors r s (ok anchors) = (record s { anchors = anchors }, returns r)
  set_anchors r s (err e) = (s, throws (anchor_failed e))

  abbrev pub anchor_row : CommandResult → Server D → Option AuditEvent → Server D × Answer
  anchor_row r s none = (s, returns r)
  anchor_row r s (some head) = set_anchors r s (record_anchor s.anchors head.id head.hash)

  -- After the transaction: the newest audit record is anchored, and the answer given.
  unfoldable pub anchor_head : CommandResult → Server D → Server D × Answer
  anchor_head r s = anchor_row r s (last_row s.tables.audit_events)

  unfoldable pub committed : Request → CommandResult → Transaction D → Server D → Server D
  unfolding publish remember
  committed q r t s = publish t.pending (record s {
    tables = record (t.tables) { command_dedup = remember q r t.tables.command_dedup };
    event_sequence = t.event_sequence;
  })

  -- A transaction that fails leaves the sequence advanced, and nothing else.
  abbrev pub undone : Server D → Transaction D → Server D
  undone s t = record s { event_sequence = t.event_sequence }

  -- The insert of the answer fails on a second row of the key, which the work itself would have made.
  unfoldable pub is_duplicate : Request → CommandResult → Transaction D → Bool
  is_duplicate q r t = is_success r && is_some (find (has_key q) t.tables.command_dedup)

  unfoldable pub commit : Request → Server D → Transaction D × Answer → Server D × Answer
  commit q s (t, throws e) = (undone s t, throws e)
  commit q s (t, returns r) =
      if is_duplicate q r t
      then (undone s t, throws duplicate_key)
      else anchor_head r (committed q r t s)

  unfoldable pub replay : Request → CommandDedup → Server D → Server D × Answer
  replay q row s =
      if is_conflicting row.request_digest q.request_digest
      then (s, throws idempotency_conflict)
      else anchor_head row.answer s

  abbrev pub run_found :
      Request
      → (Transaction D → Transaction D × Answer)
      → Server D
      → Option CommandDedup
      → Server D × Answer
  run_found q fn s none = commit q s (fn (begin s))
  run_found q fn s (some row) = replay q row s

  -- `runCommand`
  unfoldable pub run_command :
      Request → (Transaction D → Transaction D × Answer) → Server D → Server D × Answer
  run_command q fn s = run_found q fn s (find (has_key q) s.tables.command_dedup)
