-- ===== src/Commands/Generations.antt =====
-- packages/client-core/src/outbox.ts: the generation that a command starts in, over all orders of
-- steps.
use mima.Prelude.{
  ℕ, ◌+◌, ◌<◌, true, false, Option, none, some, List, [], ◌∷◌, ◌++◌, ◌==◌, nat_eq, ◌≡◌, refl, sym,
  ◌∙◌, ◌⊎◌, inl, inr, arith, Bool-cases, Option-cases, List-cases, is_some,
}
use mima.Commands.{
  OutboxCommand, CommandOutbox, empty_outbox, Settled, fulfilled, rejected, next_round,
  flush_commands, enqueue_command, shift, is_network_failure, settle_current, settle,
  clear_commands, set_outbox_online, OutboxStep, step_enqueue, step_flush, step_settle, step_clear,
  step_online, OutboxRun, run_done, run_step,
}

-- A command in flight started in an earlier generation, or it is the first of the queue.
abbrev pub IsGuarded : Option (ℕ × OutboxCommand) → ℕ → List OutboxCommand → Type 0
IsGuarded none generation queue = Unit
IsGuarded (some (g, c)) generation queue =
    (g < generation) ⊎ ((g ≡ generation) × ((rest : List OutboxCommand) × (queue ≡ c ∷ rest)))

-- The loop runs exactly while a command is in flight, and that one is guarded.
abbrev pub IsConsistent : CommandOutbox → Type 0
IsConsistent s = (s.running ≡ is_some s.in_flight) × IsGuarded s.in_flight s.generation s.queue

next_round-IsConsistent : (s : CommandOutbox) → s.running ≡ true → IsConsistent (next_round s)
unfolding next_round
next_round-IsConsistent s r = elim (List-cases s.queue) [
  | inl e ↦ rw (e, next_round) (refl, tt)
  | inr (c, rest, e) ↦ elim (Bool-cases s.online) [
    | inl o ↦ rw (e, o, next_round) (r, inr (refl, (rest, e)))
    | inr o ↦ rw (e, o, next_round) (refl, tt)
  ]
]

flush_commands-IsConsistent : (s : CommandOutbox) → IsConsistent s → IsConsistent (flush_commands s)
unfolding flush_commands
flush_commands-IsConsistent s h = elim (Bool-cases s.running) [
  | inl e ↦ rw (e, flush_commands) (sym e ∙ h.0, h.1)
  | inr e ↦ rw (e, flush_commands) (next_round-IsConsistent (record s { running = true }) refl)
]

IsGuarded-append :
    (f : Option (ℕ × OutboxCommand)) (g : ℕ) (queue more : List OutboxCommand)
    → IsGuarded f g queue
    → IsGuarded f g (queue ++ more)
IsGuarded-append none g queue more h = tt
IsGuarded-append (some (k, c)) g queue more (inl l) = inl l
IsGuarded-append (some (k, c)) g queue more (inr (e, (rest, q))) =
    inr (e, (rest ++ more, rw q refl))

IsGuarded-clear :
    (f : Option (ℕ × OutboxCommand)) (g : ℕ) (queue : List OutboxCommand)
    → IsGuarded f g queue
    → IsGuarded f (g + 1) []
IsGuarded-clear none g queue h = tt
IsGuarded-clear (some (k, c)) g queue (inl l) = inl (omega (arith, l))
IsGuarded-clear (some (k, c)) g queue (inr (e, q)) = inl (omega (arith, e))

settle_current-IsConsistent :
    (c : OutboxCommand) (r : Settled) (s : CommandOutbox)
    → s.running ≡ true
    → IsConsistent (settle_current c r s)
unfolding settle_current
settle_current-IsConsistent c fulfilled s h =
    next_round-IsConsistent (record s { queue = shift s.queue }) h
settle_current-IsConsistent c (rejected status) s h =
    elim (Bool-cases (is_network_failure status)) [
      | inl e ↦ rw (e, settle_current) (refl, tt)
      | inr e ↦
          rw (e, settle_current)
            (next_round-IsConsistent
              (record s { queue = shift s.queue; dropped = s.dropped ++ c ∷ [] }) h)
    ]

settle-IsConsistent : (r : Settled) (s : CommandOutbox) → IsConsistent s → IsConsistent (settle r s)
unfolding settle
settle-IsConsistent r s h = elim (Option-cases s.in_flight) [
  | inl e ↦ rw (e, settle) h
  | inr ((g, c), e) ↦
      let busy : s.running ≡ true = h.0 ∙ rw e refl in
      elim (Bool-cases (g == s.generation)) [
        | inl k ↦ rw (e, k, settle) (settle_current-IsConsistent c r s busy)
        | inr k ↦ rw (e, k, settle) (next_round-IsConsistent s busy)
      ]
]

step-IsConsistent : {s t : CommandOutbox} → OutboxStep s t → IsConsistent s → IsConsistent t
unfolding enqueue_command clear_commands set_outbox_online
step-IsConsistent (step_enqueue c s) h =
    flush_commands-IsConsistent (record s { queue = s.queue ++ c ∷ [] })
      (h.0, IsGuarded-append s.in_flight s.generation s.queue (c ∷ []) h.1)
step-IsConsistent (step_flush s) h = flush_commands-IsConsistent s h
step-IsConsistent (step_settle r s) h = settle-IsConsistent r s h
step-IsConsistent (step_clear s) h = (h.0, IsGuarded-clear s.in_flight s.generation s.queue h.1)
step-IsConsistent (step_online b s) h = h

-- In any order of calls and settled executions from an empty outbox on, the loop runs exactly while a
-- command is in flight, and a command in flight that started in the current generation is the first
-- of the queue.
pub run-IsConsistent : {s : CommandOutbox} → OutboxRun empty_outbox s → IsConsistent s
run-IsConsistent (run_done s) = (refl, tt)
run-IsConsistent (run_step run step) = step-IsConsistent step (run-IsConsistent run)

next_round-queue :
    (s : CommandOutbox) → ((next_round s).queue ≡ s.queue) × ((next_round s).dropped ≡ s.dropped)
unfolding next_round
next_round-queue s = elim (List-cases s.queue) [
  | inl e ↦ rw (e, next_round) (e, refl)
  | inr (c, rest, e) ↦ elim (Bool-cases s.online) [
    | inl o ↦ rw (e, o, next_round) (e, refl)
    | inr o ↦ rw (e, o, next_round) (e, refl)
  ]
]

-- A command that started before the last clear takes nothing from the queue when it settles, and its
-- failure is not reported, whatever its result is.
pub settle_stale :
    (r : Settled) (s : CommandOutbox) (g : ℕ) (c : OutboxCommand)
    → s.in_flight ≡ some (g, c)
    → g < s.generation
    → ((settle r s).queue ≡ s.queue) × ((settle r s).dropped ≡ s.dropped)
unfolding settle
settle_stale r s g c e older =
    let other : (g == s.generation) ≡ false = ground (arith, older) in
    rw (e, other, settle) (next_round-queue s)
