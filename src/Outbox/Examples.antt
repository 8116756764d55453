-- ===== src/Outbox/Examples.antt =====
-- Runs of the queue of packages/client-core/src/encrypted-outbox.ts.
use mima.Prelude.{
  ℕ, arith, ◌≤◌, String, true, false, none, some, List, [], ◌∷◌, ◌≡◌, refl, length, All, map,
}
use mima.Prelude.Table
use mima.Outbox.{
  Command, item_update, Outbox, Answer, delivered, failed, encrypted_command_item_id, path_item_id,
  flush_loop, is_item, is_blocked, version_conflict,
}
use mima.Outbox.Queue.{Distinct}
use mima.Outbox.Flush.{flush_loop-blocked, flush_loop-ends, IsDelay, flush_loop-IsDelay}

abbrev command : String → String → Command
command id item = record {
  id = id;
  account_id = "ann";
  kind = item_update;
  path = "" ∷ "api" ∷ "v2" ∷ "items" ∷ item ∷ [];
  body_item_id = none;
  content = "";
  conflict = none;
}

abbrev marked : Command
marked = record (command "c1" "mail") {
  conflict = some (record { reason = version_conflict; current_version = 4; detected_at = 10 });
}

abbrev waiting : Outbox
waiting = record {
  account_id = some "ann";
  queue = marked ∷ command "c2" "mail" ∷ command "c3" "bank" ∷ command "c4" "bank" ∷ [];
  flushing = true;
  online = true;
  retry_timer = none;
  retry_delay_ms = 500;
  storage = [];
}

abbrev status : ℕ → Answer
status n = failed (record { status = some n; body_version = none; body_code = none })

abbrev answers : List (Answer × ℕ)
answers = (delivered, 20) ∷ (status 409, 21) ∷ (delivered, 22) ∷ []

item_ids :
    (encrypted_command_item_id (command "c2" "mail") ≡ some "mail")
    × (path_item_id ("" ∷ "api" ∷ "v2" ∷ "items" ∷ "mail" ∷ "secret" ∷ []) ≡ some "mail")
unfolding encrypted_command_item_id path_item_id
item_ids = (refl, refl)

-- Only the two commands on the other item are sent, and the second is marked.
sent_ids : map (λ c. c.id) (flush_loop answers waiting).0 ≡ "c3" ∷ "c4" ∷ []
unfolding flush_loop encrypted_command_item_id path_item_id Table.set Table.delete
sent_ids = refl

waiting-Distinct : Distinct waiting.queue
waiting-Distinct = (refl, (refl, (refl, (refl, tt))))

mail_is_blocked : is_blocked waiting.queue "mail" ≡ true
unfolding is_blocked path_item_id
mail_is_blocked = refl

flush_loop-blocked_example :
    All (λ c. is_item (encrypted_command_item_id c) "mail" ≡ false) (flush_loop answers waiting).0
flush_loop-blocked_example =
    flush_loop-blocked answers waiting "mail" waiting-Distinct mail_is_blocked

flush_loop-ends_example :
    (length (flush_loop answers waiting).0 ≤ 3)
    × (3 ≤ length answers → (flush_loop answers waiting).1.flushing ≡ false)
flush_loop-ends_example = flush_loop-ends answers waiting waiting-Distinct

start-IsDelay : IsDelay 500
start-IsDelay = (omega arith, omega arith)

flush_loop-IsDelay_example : IsDelay (flush_loop ((status 500, 20) ∷ []) waiting).1.retry_delay_ms
flush_loop-IsDelay_example = flush_loop-IsDelay ((status 500, 20) ∷ []) waiting start-IsDelay
