-- ===== src/Outbox/Flush.antt =====
-- packages/client-core/src/encrypted-outbox.ts: what the flush loop sends, when it ends, and the
-- retry delay.
use mima.Prelude.{
  ℕ, suc, ◌≤◌, String, true, false, ◌||◌, not, Option, none, some, List, [], ◌∷◌, ◌≡◌, refl, ◌∙◌,
  arith, string_eq, nat_eq, if◌then◌else◌, length, All, Bool-cases, Option-cases, ◌⊎◌, inl, inr,
  is_some,
}
use mima.Outbox.{
  Command, Outbox, Answer, delivered, failed, Failure, Round, go_on, stop, flush_answered,
  flush_failed, flush_loop, next_sendable_command, remove_command, replace_command, with_conflict,
  drop_command, retain_conflict, schedule_retry, is_account, has_status,
  is_permanent_command_failure, is_blocked, is_item, encrypted_command_item_id,
}
use mima.Outbox.Queue.{
  Distinct, open_count, Distinct-remove, Distinct-replace_command, remove_command-queue,
  replace_command-queue, next_sendable_command-some,
}

-- What a round leaves of the queue if another one follows.
abbrev pub Leaves : Command → List Command → Round → Type 0
Leaves c queue (stop t) = Unit
Leaves c queue (go_on t) =
    (t.queue ≡ remove_command c.id queue)
    ⊎ ((f : Failure) × (now : ℕ) × (t.queue ≡ replace_command (with_conflict c f now) queue))

Leaves-flush_failed :
    (c : Command) (f : Failure) (now : ℕ) (s : Outbox) → Leaves c s.queue (flush_failed c f now s)
unfolding flush_failed retain_conflict drop_command
Leaves-flush_failed c f now s =
    elim (Bool-cases (has_status f.status 0 || has_status f.status 401)) [
      | inl e ↦ rw (e, flush_failed) tt
      | inr e ↦ elim (Bool-cases (has_status f.status 409)) [
        | inl k ↦ elim (Bool-cases (is_account s.account_id c.account_id)) [
          | inl a ↦ rw (e, k, a, flush_failed, retain_conflict) (inr (f, now, refl))
          | inr a ↦ rw (e, k, a, flush_failed, retain_conflict) tt
        ]
        | inr k ↦ elim (Bool-cases (is_permanent_command_failure f.status)) [
          | inl p ↦ rw (e, k, p, flush_failed) (inl refl)
          | inr p ↦ rw (e, k, p, flush_failed) tt
        ]
      ]
    ]

Leaves-flush_answered :
    (c : Command) (a : Answer) (now : ℕ) (s : Outbox) → Leaves c s.queue (flush_answered c a now s)
unfolding flush_answered drop_command
Leaves-flush_answered c delivered now s = inl refl
Leaves-flush_answered c (failed f) now s = Leaves-flush_failed c f now s

-- A round on a command that could be sent takes one from the open commands, and frees no item.
round-queue :
    (item_id : String) (c : Command) (queue : List Command) (t : Outbox)
    → Leaves c queue (go_on t)
    → next_sendable_command queue ≡ some c
    → Distinct queue
    → Distinct t.queue
      × (suc (open_count t.queue) ≡ open_count queue)
      × (is_blocked queue item_id ≡ true → is_blocked t.queue item_id ≡ true)
round-queue item_id c queue t (inl e) h d =
    let (at, free, others) = next_sendable_command-some queue c h in
    let now_left = remove_command-queue item_id at d free in
    rw e (Distinct-remove queue c.id d, now_left.0, λ b. now_left.1 ∙ b)
round-queue item_id c queue t (inr (f, now, e)) h d =
    let (at, free, others) = next_sendable_command-some queue c h in
    let marked = replace_command-queue item_id f now at d free in
    rw e (Distinct-replace_command f now at d, marked.0, λ b. ground (arith, marked.1, b))

Round-cases : (r : Round) → ((t : Outbox) × (r ≡ go_on t)) ⊎ ((t : Outbox) × (r ≡ stop t))
Round-cases (go_on t) = inl (t, refl)
Round-cases (stop t) = inr (t, refl)

-- The command that the loop takes, if it takes one.
abbrev pub taken : Outbox → Option Command
taken s = if s.online then next_sendable_command s.queue else none

taken-next : (s : Outbox) (c : Command) → taken s ≡ some c → next_sendable_command s.queue ≡ some c
taken-next s c h = ground (arith, h)

-- While a command on an item is in conflict, a flush sends no command of this item, whatever the
-- server answers; the commands of the queue have different ids.
pub flush_loop-blocked :
    (answers : List (Answer × ℕ)) (s : Outbox) (item_id : String)
    → Distinct s.queue
    → is_blocked s.queue item_id ≡ true
    → All (λ c. is_item (encrypted_command_item_id c) item_id ≡ false) (flush_loop answers s).0
unfolding flush_loop
flush_loop-blocked [] s item_id d b = elim (Option-cases (taken s)) [
  | inl e ↦ rw (e, flush_loop) tt
  | inr (c, e) ↦
      rw (e, flush_loop) ((next_sendable_command-some s.queue c (taken-next s c e)).2 item_id b, tt)
]
flush_loop-blocked ((a, now) ∷ answers) s item_id d b = elim (Option-cases (taken s)) [
  | inl e ↦ rw (e, flush_loop) tt
  | inr (c, e) ↦
      let next = taken-next s c e in
      let head = (next_sendable_command-some s.queue c next).2 item_id b in
      elim (Round-cases (flush_answered c a now s)) [
        | inl (t, r) ↦
            let left =
              round-queue item_id c s.queue t (rw r at (Leaves-flush_answered c a now s)) next d in
            rw (e, r, flush_loop) (head, flush_loop-blocked answers t item_id left.0 (left.2 b))
        | inr (t, r) ↦ rw (e, r, flush_loop) (head, tt)
      ]
]

open_count-next :
    (queue : List Command) (c : Command)
    → Distinct queue
    → next_sendable_command queue ≡ some c
    → 1 ≤ open_count queue
open_count-next queue c d h =
    let (at, free, others) = next_sendable_command-some queue c h in
    omega (arith, (remove_command-queue "" at d free).0)

-- A flush sends at most as many commands as the queue holds without a conflict, and with that many
-- answers it comes to its end; the commands of the queue have different ids.
pub flush_loop-ends :
    (answers : List (Answer × ℕ)) (s : Outbox)
    → Distinct s.queue
    → (length (flush_loop answers s).0 ≤ open_count s.queue)
      × (open_count s.queue ≤ length answers → (flush_loop answers s).1.flushing ≡ false)
unfolding flush_loop
flush_loop-ends [] s d = elim (Option-cases (taken s)) [
  | inl e ↦ rw (e, flush_loop) (omega arith, λ h. refl)
  | inr (c, e) ↦
      let some_left = open_count-next s.queue c d (taken-next s c e) in
      rw (e, flush_loop) (some_left, λ h. absurd (omega (arith, some_left, h)))
]
flush_loop-ends ((a, now) ∷ answers) s d = elim (Option-cases (taken s)) [
  | inl e ↦ rw (e, flush_loop) (omega arith, λ h. refl)
  | inr (c, e) ↦
      let next = taken-next s c e in
      elim (Round-cases (flush_answered c a now s)) [
        | inl (t, r) ↦
            let left =
              round-queue "" c s.queue t (rw r at (Leaves-flush_answered c a now s)) next d in
            let rest = flush_loop-ends answers t left.0 in
            rw (e, r, flush_loop)
              (omega (arith, rest.0, left.1), λ h. rest.1 (omega (arith, left.1, h)))
        | inr (t, r) ↦ rw (e, r, flush_loop) (open_count-next s.queue c d next, λ h. refl)
      ]
]

-- Between half a second and fifteen seconds.
abbrev pub IsDelay : ℕ → Type 0
IsDelay ms = (500 ≤ ms) × (ms ≤ 15000)

abbrev outbox_of : Round → Outbox
outbox_of (go_on t) = t
outbox_of (stop t) = t

IsDelay-flush_answered :
    (c : Command) (a : Answer) (now : ℕ) (s : Outbox)
    → IsDelay s.retry_delay_ms
    → IsDelay (outbox_of (flush_answered c a now s)).retry_delay_ms
unfolding flush_answered flush_failed drop_command retain_conflict schedule_retry
IsDelay-flush_answered c delivered now s h = (omega arith, omega arith)
IsDelay-flush_answered c (failed f) now s h =
    elim (Bool-cases (has_status f.status 0 || has_status f.status 401)) [
      | inl e ↦ rw (e, flush_failed) h
      | inr e ↦ elim (Bool-cases (has_status f.status 409)) [
        | inl k ↦ elim (Bool-cases (is_account s.account_id c.account_id)) [
          | inl a ↦ rw (e, k, a, flush_failed, retain_conflict) h
          | inr a ↦ rw (e, k, a, flush_failed, retain_conflict) h
        ]
        | inr k ↦ elim (Bool-cases (is_permanent_command_failure f.status)) [
          | inl p ↦ rw (e, k, p, flush_failed) h
          | inr p ↦ elim (Bool-cases (is_some s.retry_timer || not s.online)) [
            | inl q ↦ rw (e, k, p, q, flush_failed, schedule_retry) h
            | inr q ↦
                rw (e, k, p, q, flush_failed, schedule_retry)
                  (ground (arith, h.0, h.1), ground (arith, h.0, h.1))
          ]
        ]
      ]
    ]

-- The retry delay stays between half a second and fifteen seconds, whatever the server answers.
pub flush_loop-IsDelay :
    (answers : List (Answer × ℕ)) (s : Outbox)
    → IsDelay s.retry_delay_ms
    → IsDelay (flush_loop answers s).1.retry_delay_ms
unfolding flush_loop
flush_loop-IsDelay [] s h = elim (Option-cases (taken s)) [
  | inl e ↦ rw (e, flush_loop) h
  | inr (c, e) ↦ rw (e, flush_loop) h
]
flush_loop-IsDelay ((a, now) ∷ answers) s h = elim (Option-cases (taken s)) [
  | inl e ↦ rw (e, flush_loop) h
  | inr (c, e) ↦
      let answered = IsDelay-flush_answered c a now s h in
      elim (Round-cases (flush_answered c a now s)) [
        | inl (t, r) ↦ rw (e, r, flush_loop) (flush_loop-IsDelay answers t (rw r at answered))
        | inr (t, r) ↦ rw (e, r, flush_loop) (rw r at answered)
      ]
]
