-- ===== src/Commands.antt =====
-- packages/client-core/src/outbox.ts: the queue of commands of one login, run one after another. An
-- execution is in two steps, its start and its settling, so that other methods run in between.
pub mod Generations
pub mod Examples
use mima.Prelude.{
  ℕ, ◌+◌, String, Bool, true, false, not, Option, none, some, List, [], ◌∷◌, ◌++◌, ◌==◌, nat_eq,
  if◌then◌else◌,
}

pub record OutboxCommand : Type 0 where
  pub id : String
  pub label : String
  pub item_id : Option String

-- `in_flight` is the command whose execution the loop waits for, with the generation at its start;
-- `dropped` are the commands whose `onDrop` was called.
pub record CommandOutbox : Type 0 where
  pub queue : List OutboxCommand
  pub running : Bool
  pub generation : ℕ
  pub in_flight : Option (ℕ × OutboxCommand)
  pub online : Bool
  pub dropped : List OutboxCommand

abbrev pub empty_outbox : CommandOutbox
empty_outbox = record {
  queue = [];
  running = false;
  generation = 0;
  in_flight = none;
  online = false;
  dropped = [];
}

-- How an execution ends: done, or failed with a status.
pub data Settled : Type 0 where
  fulfilled : Settled
  rejected : Option ℕ → Settled

abbrev pub leave_loop : CommandOutbox → CommandOutbox
leave_loop s = record s { running = false; in_flight = none }

-- The head of the loop, up to the start of the next execution.
unfoldable pub next_round : CommandOutbox → CommandOutbox
next_round s = elim s.queue [
  | [] ↦ leave_loop s
  | c ∷ queue ↦ if s.online then record s { in_flight = some (s.generation, c) } else leave_loop s
]

unfoldable pub flush_commands : CommandOutbox → CommandOutbox
unfolding next_round
flush_commands s = if s.running then s else next_round (record s { running = true })

unfoldable pub enqueue_command : OutboxCommand → CommandOutbox → CommandOutbox
unfolding flush_commands
enqueue_command c s = flush_commands (record s { queue = s.queue ++ c ∷ [] })

abbrev pub shift : List OutboxCommand → List OutboxCommand
shift [] = []
shift (c ∷ queue) = queue

abbrev pub is_network_failure : Option ℕ → Bool
is_network_failure none = false
is_network_failure (some status) = status == 0

-- What follows a settled execution of the current generation.
unfoldable pub settle_current : OutboxCommand → Settled → CommandOutbox → CommandOutbox
unfolding next_round
settle_current c fulfilled s = next_round (record s { queue = shift s.queue })
settle_current c (rejected status) s =
    if is_network_failure status
    then leave_loop (record s { online = false })
    else next_round (record s { queue = shift s.queue; dropped = s.dropped ++ c ∷ [] })

unfoldable pub settle : Settled → CommandOutbox → CommandOutbox
unfolding settle_current next_round
settle result s = elim s.in_flight [
  | none ↦ s
  | some (generation, c) ↦
      if not (generation == s.generation) then next_round s else settle_current c result s
]

unfoldable pub clear_commands : CommandOutbox → CommandOutbox
clear_commands s = record s { generation = s.generation + 1; queue = [] }

unfoldable pub set_outbox_online : Bool → CommandOutbox → CommandOutbox
set_outbox_online online s = record s { online = online }

-- The methods and what the loop waits for, in any order.
pub data OutboxStep : CommandOutbox → CommandOutbox → Type 0 where
  step_enqueue : (c : OutboxCommand) (s : CommandOutbox) → OutboxStep s (enqueue_command c s)
  step_flush : (s : CommandOutbox) → OutboxStep s (flush_commands s)
  step_settle : (r : Settled) (s : CommandOutbox) → OutboxStep s (settle r s)
  step_clear : (s : CommandOutbox) → OutboxStep s (clear_commands s)
  step_online : (b : Bool) (s : CommandOutbox) → OutboxStep s (set_outbox_online b s)

pub data OutboxRun : CommandOutbox → CommandOutbox → Type 0 where
  run_done : (s : CommandOutbox) → OutboxRun s s
  run_step : {s t u : CommandOutbox} → OutboxRun s t → OutboxStep t u → OutboxRun s u
