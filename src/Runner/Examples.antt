-- ===== src/Runner/Examples.antt =====
-- Runs of commands whose work records one event, and of one that empties payloads and deletes the
-- answers.
use mima.Prelude.{
  ℕ, String, true, false, Option, none, some, List, [], ◌∷◌, map, ◌++◌, ◌==◌, string_eq,
  if◌then◌else◌, append-nil, Bool-cases, inl, inr, sym, ap, ◌≡◌, refl, arith,
}
use mima.Anchor.{record_anchor, anchor_regression}
use mima.Audit.{AuditEvent, last_row}
use mima.Json.{no_fields}
use mima.Feed.{SyncEventRow, Payload, row_item_deleted}
use mima.Runner.{
  CommandResult, NewSyncEvent, Answer, returns, throws, access_denied, idempotency_conflict,
  anchor_failed, Server, Transaction, Request, anchor_head, run_command, commit, replay, committed,
  publish, remember, is_duplicate,
}
use mima.Runner.Replay.{AreKeeping, run_commands, run_command-once}
use mima.Runner.Order.{
  IsPublished, IsOrderly, events_of, head_of, Ascending, AreOrderly, record_all,
  record_all-IsOrderly, record_all-KeepsAnswers, run_commands-IsPublished,
}

abbrev audit_row : AuditEvent
audit_row = record {
  id = 3;
  content = record {
    ts = [];
    actor_user_id = none;
    action = [];
    vault_id = none;
    item_id = none;
    success = true;
    details = no_fields;
  };
  prev_hash = [];
  hash = 7 ∷ [];
}

abbrev server : Server Unit
server = record {
  tables = record {
    rows = tt;
    sync_events = [];
    audit_events = audit_row ∷ [];
    command_dedup = [];
  };
  event_sequence = 8;
  published = [];
  anchors = record { current = none; on_disk = none };
}

abbrev payload_of : String → String → Payload
payload_of id vault_id = record {
  item = record { id = id; vault_id = vault_id; version = 1; secret_state = none; content = "" };
  access_changed = true;
  rekey_required = true;
  user_id = "";
  device_id = "";
  actor_device_id = "";
  profile_version = 0;
}

abbrev empty_payload : Payload
empty_payload = record (payload_of "" "") { access_changed = false; rekey_required = false }

abbrev deletion : NewSyncEvent
deletion = record {
  type = row_item_deleted;
  vault_id = "v";
  item_id = "i";
  payload = payload_of "i" "v";
}

abbrev done : CommandResult
done = record { status_code = 200; response = "{}" }

abbrev request : Option String → Request
request digest = record {
  user_id = "u";
  idempotency_key = "k";
  command_name = "deleteItem";
  request_digest = digest;
}

abbrev cutover_request : Request
cutover_request = record (request none) {
  idempotency_key = "m";
  command_name = "migration.cutover";
}

abbrev work : Transaction Unit → Transaction Unit × Answer
work t = (record_all (deletion ∷ []) t, returns done)

abbrev denied : Transaction Unit → Transaction Unit × Answer
denied t = (record_all (deletion ∷ []) t, throws (access_denied "no role"))

ids : Server Unit → List ℕ
ids s = map (λ row. row.id) s.published

-- The id that the denied command drew is never used.
published_ids :
    ids (run_commands ((request (some "a"), denied) ∷ (request (some "a"), work) ∷ []) server)
    ≡ 10 ∷ []
unfolding ids run_commands run_command commit replay anchor_head committed publish remember
    is_duplicate record_all last_row record_anchor
published_ids = refl

other_digest :
    (run_command (request (some "b")) work (run_command (request (some "a")) work server).0).1
    ≡ throws idempotency_conflict
unfolding run_command commit replay anchor_head committed publish remember is_duplicate record_all
    last_row record_anchor
other_digest = refl

first_answer : (run_command (request (some "a")) work server).1 ≡ returns done
unfolding run_command commit anchor_head committed publish remember is_duplicate record_all last_row
    record_anchor
first_answer = refl

run_command-once_example :
    let later =
      run_commands ((request none, work) ∷ []) (run_command (request (some "a")) work server).0 in
    (run_command (request (some "a")) denied later ≡ anchor_head done later)
    × ((run_command (request (some "a")) denied later).0
        ≡ record later { anchors = (run_command (request (some "a")) denied later).0.anchors })
unfolding AreKeeping
run_command-once_example =
    run_command-once (request (some "a")) work denied server done ((request none, work) ∷ [])
      (record_all-KeepsAnswers Unit (deletion ∷ []) done, tt) first_answer refl

server-IsPublished : IsPublished server
unfolding IsPublished Ascending
server-IsPublished = (refl, omega arith)

-- The part of `migration.cutover` that concerns the events and the answers: the payloads of a vault
-- are emptied, and all answers deleted.
abbrev emptied : SyncEventRow → SyncEventRow
emptied row = if row.vault_id == "v" then record row { payload = empty_payload } else row

abbrev cutover : Transaction Unit → Transaction Unit × Answer
cutover t = (
  record t {
    tables = record (t.tables) {
      sync_events = map emptied t.tables.sync_events;
      command_dedup = [];
    };
  },
  returns done,
)

events_of-emptied :
    (rows : List SyncEventRow) → events_of (map emptied rows) ≡ events_of (rows ++ [])
events_of-emptied [] = refl
events_of-emptied (row ∷ rows) = elim (Bool-cases (row.vault_id == "v")) [
  | inl e ↦ rw e (ap (λ es. head_of row ∷ es) (events_of-emptied rows))
  | inr e ↦ rw e (ap (λ es. head_of row ∷ es) (events_of-emptied rows))
]

cutover-IsOrderly : IsOrderly cutover
unfolding IsOrderly Ascending
cutover-IsOrderly t =
    ([], sym (append-nil t.pending), events_of-emptied t.tables.sync_events, omega arith)

-- A deletion, a repeated one, the cutover, and the deletion again, which runs anew.
abbrev commands : List (Request × (Transaction Unit → Transaction Unit × Answer))
commands =
    (request (some "a"), work)
    ∷ (request (some "a"), work)
    ∷ (cutover_request, cutover)
    ∷ (request (some "a"), work)
    ∷ []

runs_anew : ids (run_commands commands server) ≡ 9 ∷ 10 ∷ []
unfolding ids run_commands run_command commit replay anchor_head committed publish remember
    is_duplicate record_all last_row record_anchor
runs_anew = refl

run_commands-IsPublished_example : IsPublished (run_commands commands server)
unfolding AreOrderly
run_commands-IsPublished_example =
    run_commands-IsPublished commands server
      (
        record_all-IsOrderly Unit (deletion ∷ []) done,
        (
          record_all-IsOrderly Unit (deletion ∷ []) done,
          (cutover-IsOrderly, (record_all-IsOrderly Unit (deletion ∷ []) done, tt)),
        ),
      )
      server-IsPublished

-- Another process has anchored a later record: the work is committed and published, and the command
-- fails all the same.
abbrev overtaken : Server Unit
overtaken = record server {
  anchors = record { current = some (record { id = 4; hash = [] }); on_disk = none };
}

fails_after_commit :
    ((run_command (request none) work overtaken).1 ≡ throws (anchor_failed anchor_regression))
    × (ids (run_command (request none) work overtaken).0 ≡ 9 ∷ [])
unfolding ids run_command commit anchor_head committed publish remember is_duplicate record_all
    last_row record_anchor
fails_after_commit = (refl, refl)
