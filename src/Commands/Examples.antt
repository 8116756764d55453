-- ===== src/Commands/Examples.antt =====
-- A run of the queue of packages/client-core/src/outbox.ts.
use mima.Prelude.{String, true, none, some, [], ◌∷◌, ◌≡◌, refl}
use mima.Commands.{
  OutboxCommand, CommandOutbox, empty_outbox, fulfilled, rejected, enqueue_command, settle,
  clear_commands, set_outbox_online, run_done, run_step, step_enqueue, step_settle, step_clear,
  step_online,
}
use mima.Commands.Generations.{IsConsistent, run-IsConsistent}

abbrev command : String → OutboxCommand
command id = record { id = id; label = "save"; item_id = none }

abbrev connected : CommandOutbox
connected = set_outbox_online true empty_outbox

abbrev started : CommandOutbox
started = enqueue_command (command "second") (enqueue_command (command "first") connected)

-- A clear while the first command is in flight, and a command of the next login.
abbrev cleared : CommandOutbox
cleared = enqueue_command (command "third") (clear_commands started)

third_waits : (settle (rejected (some 403)) cleared).queue ≡ command "third" ∷ []
unfolding set_outbox_online enqueue_command clear_commands settle
third_waits = refl

third_done : (settle fulfilled (settle fulfilled cleared)).queue ≡ []
unfolding set_outbox_online enqueue_command clear_commands settle
third_done = refl

run-IsConsistent_example : IsConsistent (settle fulfilled cleared)
run-IsConsistent_example = run-IsConsistent (
    run_step
      (run_step
        (run_step
          (run_step
            (run_step (run_step (run_done empty_outbox) (step_online true empty_outbox))
              (step_enqueue (command "first") connected))
            (step_enqueue (command "second") (enqueue_command (command "first") connected)))
          (step_clear started))
        (step_enqueue (command "third") (clear_commands started)))
      (step_settle fulfilled cleared))

cleared_in_flight : cleared.in_flight ≡ some (0, command "first")
unfolding set_outbox_online enqueue_command clear_commands
cleared_in_flight = refl

cleared_generation : cleared.generation ≡ 1
unfolding set_outbox_online enqueue_command clear_commands
cleared_generation = refl
