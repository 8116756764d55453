-- ===== src/Outbox.antt =====
-- packages/client-core/src/encrypted-outbox.ts: the queue of encrypted commands that wait for the
-- server. The storage behind it is a table by command id; what the storage lists for an account, the
-- answers of the server and the time are arguments. A path is the list of what stands between its
-- slashes. Calls of the listeners are left out, since they change nothing here.
pub mod Queue
pub mod Flush
pub mod Examples
use mima.Prelude.{
  ℕ, ◌+◌, ◌*◌, min, String, Bool, true, false, ◌&&◌, ◌||◌, not, Option, none, some, List, [], ◌∷◌,
  ◌++◌, map, ◌==◌, string_eq, nat_eq, if◌then◌else◌, find, keep, any, length, includes, is_some,
  is_none, or_else,
}
use mima.Prelude.Table

pub data EncryptedCommandKind : Type 0 where
  item_create item_update item_rotate item_delete : EncryptedCommandKind

pub data ConflictReason : Type 0 where
  version_conflict metadata_format_outdated : ConflictReason

pub record PersistedConflict : Type 0 where
  pub reason : ConflictReason
  pub current_version : ℕ
  pub detected_at : ℕ

-- `body_item_id` is the body's item id where the body is an object with a text there, and `content`
-- stands for the rest of the request.
pub record Command : Type 0 where
  pub id : String
  pub account_id : String
  pub kind : EncryptedCommandKind
  pub path : List String
  pub body_item_id : Option String
  pub content : String
  pub conflict : Option PersistedConflict

-- What a request fails with: its status, and from the body a natural version and the code.
pub record Failure : Type 0 where
  pub status : Option ℕ
  pub body_version : Option ℕ
  pub body_code : Option String

pub data Answer : Type 0 where
  delivered : Answer
  failed : Failure → Answer

pub record Outbox : Type 0 where
  pub account_id : Option String
  pub queue : List Command
  pub flushing : Bool
  pub online : Bool
  pub retry_timer : Option ℕ
  pub retry_delay_ms : ℕ
  pub storage : List (String × Command)

abbrev pub non_empty : String → Option String
non_empty id = if id == "" then none else some id

-- `/^\/api\/v2\/items\/([^/]+)(?:\/secret)?$/`
unfoldable pub path_item_id : List String → Option String
path_item_id (a ∷ b ∷ c ∷ d ∷ id ∷ []) =
    if a == "" && (b == "api" && (c == "v2" && d == "items")) then non_empty id else none
path_item_id (a ∷ b ∷ c ∷ d ∷ id ∷ e ∷ []) =
    if a == "" && (b == "api" && (c == "v2" && (d == "items" && e == "secret")))
    then non_empty id
    else none
path_item_id path = none

unfoldable pub encrypted_command_item_id : Command → Option String
unfolding path_item_id
encrypted_command_item_id c = elim c.body_item_id [
  | none ↦ path_item_id c.path
  | some id ↦ if id == "" then path_item_id c.path else some id
]

abbrev pub has_status : Option ℕ → ℕ → Bool
has_status none n = false
has_status (some status) n = status == n

unfoldable pub is_permanent_command_failure : Option ℕ → Bool
is_permanent_command_failure status =
    has_status status 400
    || (has_status status 403 || (has_status status 404 || has_status status 410))

abbrev pub conflict_version : Failure → ℕ
conflict_version f = or_else f.body_version 0

abbrev pub is_code : Option String → String → Bool
is_code none text = false
is_code (some code) text = code == text

abbrev pub conflict_reason : Failure → ConflictReason
conflict_reason f =
    if is_code f.body_code "metadata_format_outdated"
    then metadata_format_outdated
    else version_conflict

abbrev pub is_conflicted : Command → Bool
is_conflicted c = is_some c.conflict

-- Is this the item of the command?
abbrev pub is_item : Option String → String → Bool
is_item none item_id = false
is_item (some id) item_id = id == item_id

-- Does a conflicted command of the queue stand on the item?
unfoldable pub is_blocked : List Command → String → Bool
unfolding encrypted_command_item_id
is_blocked queue item_id =
    any (λ c. is_conflicted c && is_item (encrypted_command_item_id c) item_id) queue

abbrev pub may_send_item : List Command → Option String → Bool
may_send_item queue none = true
may_send_item queue (some item_id) = not (is_blocked queue item_id)

abbrev pub may_send : List Command → Command → Bool
may_send queue c = not (is_conflicted c) && may_send_item queue (encrypted_command_item_id c)

unfoldable pub next_sendable_command : List Command → Option Command
unfolding is_blocked
next_sendable_command queue = find (may_send queue) queue

-- `findIndex` and `splice`
abbrev pub remove_command : String → List Command → List Command
remove_command id [] = []
remove_command id (c ∷ queue) =
    let rest = remove_command id queue in if c.id == id then queue else c ∷ rest

-- `findIndex`, and an assignment at the index or a push
abbrev pub replace_command : Command → List Command → List Command
replace_command conflicted [] = conflicted ∷ []
replace_command conflicted (c ∷ queue) =
    let rest = replace_command conflicted queue in
    if c.id == conflicted.id then conflicted ∷ queue else c ∷ rest

abbrev pub is_account : Option String → String → Bool
is_account none account_id = false
is_account (some id) account_id = id == account_id

abbrev pub with_conflict : Command → Failure → ℕ → Command
with_conflict c f now = record c {
  conflict = some (record {
    reason = conflict_reason f;
    current_version = conflict_version f;
    detected_at = now;
  });
}

-- None if the command belongs to another account.
unfoldable pub retain_conflict : Command → Failure → ℕ → Outbox → Option Outbox
retain_conflict c f now s =
    let conflicted = with_conflict c f now in
    if is_account s.account_id c.account_id
    then some (record s {
      storage = Table.set s.storage c.id conflicted;
      queue = replace_command conflicted s.queue;
    })
    else none

unfoldable pub schedule_retry : Outbox → Outbox
schedule_retry s = if is_some s.retry_timer || not s.online then s else record s {
  retry_delay_ms = min (s.retry_delay_ms * 2) 15000;
  retry_timer = some s.retry_delay_ms;
}

unfoldable pub drop_command : Command → Outbox → Outbox
drop_command c s = record s {
  queue = remove_command c.id s.queue;
  storage = Table.delete s.storage c.id;
}

-- How a round of the loop ends: the next round comes, or the flush is over.
pub data Round : Type 0 where
  go_on : Outbox → Round
  stop : Outbox → Round

abbrev pub go_on_or_stop : Option Outbox → Outbox → Round
go_on_or_stop none s = stop s
go_on_or_stop (some next) s = go_on next

unfoldable pub flush_failed : Command → Failure → ℕ → Outbox → Round
unfolding retain_conflict schedule_retry drop_command is_permanent_command_failure
flush_failed c f now s =
    if has_status f.status 0 || has_status f.status 401
    then stop (record s { online = false })
    else if has_status f.status 409
    then go_on_or_stop (retain_conflict c f now s) s
    else if not (is_permanent_command_failure f.status)
    then stop (schedule_retry s)
    else go_on (drop_command c s)

-- What follows the answer to the command.
unfoldable pub flush_answered : Command → Answer → ℕ → Outbox → Round
unfolding flush_failed drop_command
flush_answered c delivered now s = go_on (record (drop_command c s) { retry_delay_ms = 500 })
flush_answered c (failed f) now s = flush_failed c f now s

-- The loop of `flush` on the answers that come in: the commands that are sent, and the outbox at the
-- end. It is still flushing if the answer to the last command is missing. No other method runs while
-- the loop waits for an answer.
unfoldable pub flush_loop : List (Answer × ℕ) → Outbox → List Command × Outbox
unfolding next_sendable_command flush_answered
flush_loop [] s = elim (if s.online then next_sendable_command s.queue else none) [
  | none ↦ ([], record s { flushing = false })
  | some c ↦ (c ∷ [], s)
]
flush_loop ((answer, now) ∷ answers) s =
    elim (if s.online then next_sendable_command s.queue else none) [
      | none ↦ ([], record s { flushing = false })
      | some c ↦ elim (flush_answered c answer now s) [
        | stop t ↦ (c ∷ [], record t { flushing = false })
        | go_on t ↦ let (sent, last) = flush_loop answers t in (c ∷ sent, last)
      ]
    ]

unfoldable pub flush : List (Answer × ℕ) → Outbox → List Command × Outbox
unfolding flush_loop
flush answers s =
    if not s.online || s.flushing
    then ([], s)
    else flush_loop answers (record s { flushing = true })

unfoldable pub set_online : Bool → List (Answer × ℕ) → Outbox → List Command × Outbox
unfolding flush
set_online false answers s = ([], record s { online = false; retry_timer = none })
set_online true answers s = flush answers (record s { online = true })

abbrev pub flush_if_online : List (Answer × ℕ) → Outbox → List Command × Outbox
unfolding flush
flush_if_online answers s = if s.online then flush answers s else ([], s)

-- None if the command belongs to another account.
unfoldable pub enqueue : Command → List (Answer × ℕ) → Outbox → Option (List Command × Outbox)
enqueue c answers s =
    if is_account s.account_id c.account_id
    then some (
        flush_if_online answers
          (record s { storage = Table.set s.storage c.id c; queue = s.queue ++ c ∷ [] }))
    else none

unfoldable pub restore : String → List Command → List (Answer × ℕ) → Outbox → List Command × Outbox
restore account_id listed answers s =
    flush_if_online answers (record s { account_id = some account_id; queue = listed })

abbrev pub same_item : String → Option String → Command → Bool
same_item command_id none c = c.id == command_id
same_item command_id (some item_id) c = is_item (encrypted_command_item_id c) item_id

abbrev pub delete_commands : List Command → List (String × Command) → List (String × Command)
delete_commands [] m = m
delete_commands (c ∷ cs) m = delete_commands cs (Table.delete m c.id)

-- The number of commands that are discarded, and the outbox before it is flushed again.
unfoldable pub discard_conflict : String → Outbox → ℕ × Outbox
unfolding encrypted_command_item_id
discard_conflict command_id s = elim (find (λ c. c.id == command_id && is_conflicted c) s.queue) [
  | none ↦ (0, s)
  | some conflict ↦
      let discarded = keep (same_item command_id (encrypted_command_item_id conflict)) s.queue in
      let ids = map (λ c. c.id) discarded in
      (
        length discarded,
        record s {
          storage = delete_commands discarded s.storage;
          queue = keep (λ c. not (includes ids c.id)) s.queue;
        },
      )
]

-- `listed` is what the storage lists for the account that was signed in.
unfoldable pub clear_outbox : Bool → (String → List Command) → Outbox → Outbox
clear_outbox remove_persistent listed s = record s {
  account_id = none;
  queue = [];
  online = false;
  retry_timer = none;
  retry_delay_ms = 500;
  storage = elim s.account_id [
    | none ↦ s.storage
    | some id ↦ if remove_persistent then delete_commands (listed id) s.storage else s.storage
  ];
}
