-- ===== src/Outbox/Queue.antt =====
-- packages/client-core/src/encrypted-outbox.ts: what removing and marking a command does to a queue
-- whose commands have different ids.
use mima.Prelude.{
  ℕ, suc, String, Bool, true, false, ◌&&◌, ◌||◌, not, some, List, [], ◌∷◌, map, ◌≡◌, refl, ap,
  arith, eq_iff, ◌==◌, string_eq, keep, length, includes, In, here, there, In-map, In-includes,
  Bool-cases, Option-cases, find-eq-some, and-eq-true, inl, inr,
}
use mima.Outbox.{
  Command, remove_command, replace_command, is_conflicted, is_blocked, is_item,
  encrypted_command_item_id, may_send, may_send_item, next_sendable_command, with_conflict, Failure,
}

abbrev pub has_id : List Command → String → Bool
has_id queue id = includes (map (λ c. c.id) queue) id

-- No two commands have the same id.
abbrev pub Distinct : List Command → Type 0
Distinct [] = Unit
Distinct (c ∷ queue) = (has_id queue c.id ≡ false) × Distinct queue

-- The commands that are not in conflict.
abbrev pub open_count : List Command → ℕ
open_count queue = length (keep (λ c. not (is_conflicted c)) queue)

In-has_id : {c : Command} {queue : List Command} → In c queue → has_id queue c.id ≡ true
In-has_id i = In-includes (In-map (λ c. c.id) i)

-- An earlier command has another id.
other_id :
    (x : Command) {c : Command} {queue : List Command}
    → Distinct (x ∷ queue)
    → In c queue
    → (x.id == c.id) ≡ false
other_id x {c} {queue} d i = elim (Bool-cases (x.id == c.id)) [
  | inl e ↦ cc (rw ((eq_iff x.id c.id).0 e) at d.0, In-has_id i)
  | inr e ↦ e
]

has_id-remove :
    (queue : List Command) (id j : String)
    → has_id queue j ≡ false
    → has_id (remove_command id queue) j ≡ false
has_id-remove [] id j h = refl
has_id-remove (c ∷ queue) id j h = ground (arith, has_id-remove queue id j)

pub Distinct-remove :
    (queue : List Command) (id : String) → Distinct queue → Distinct (remove_command id queue)
Distinct-remove [] id d = tt
Distinct-remove (c ∷ queue) id d = elim (Bool-cases (c.id == id)) [
  | inl e ↦ rw e d.1
  | inr e ↦ rw e (has_id-remove queue id c.id d.0, Distinct-remove queue id d.1)
]

pub remove_command-queue :
    (item_id : String) {c : Command} {queue : List Command}
    → In c queue
    → Distinct queue
    → is_conflicted c ≡ false
    → (suc (open_count (remove_command c.id queue)) ≡ open_count queue)
      × (is_blocked (remove_command c.id queue) item_id ≡ is_blocked queue item_id)
unfolding is_blocked
remove_command-queue item_id {c} here d n = rw ((eq_iff c.id c.id).1 refl, n) (refl, refl)
remove_command-queue item_id {c} (there {x} {xs = queue} i) d n =
    let rest = remove_command-queue item_id i d.1 n in
    rw (other_id x d i) (
      ground (arith, rest.0),
      ap (λ b. (is_conflicted x && is_item (encrypted_command_item_id x) item_id) || b) rest.1,
    )

or_comm : (a b : Bool) → (a || b) ≡ (b || a)
or_comm a b = ground arith

-- Marking a command keeps the ids.
ids-replace_command :
    (f : Failure) (now : ℕ) {c : Command} {queue : List Command}
    → In c queue
    → map (λ c. c.id) (replace_command (with_conflict c f now) queue) ≡ map (λ c. c.id) queue
ids-replace_command f now {c} here = rw ((eq_iff c.id c.id).1 refl) refl
ids-replace_command f now {c} (there {x} {xs = queue} i) = elim (Bool-cases (x.id == c.id)) [
  | inl e ↦ rw (e, (eq_iff x.id c.id).0 e) refl
  | inr e ↦ rw (e, ids-replace_command f now i) refl
]

pub Distinct-replace_command :
    (f : Failure) (now : ℕ) {c : Command} {queue : List Command}
    → In c queue
    → Distinct queue
    → Distinct (replace_command (with_conflict c f now) queue)
Distinct-replace_command f now {c} here d = rw ((eq_iff c.id c.id).1 refl) d
Distinct-replace_command f now {c} (there {x} i) d =
    rw (other_id x d i) (rw (ids-replace_command f now i) d.0, Distinct-replace_command f now i d.1)

pub replace_command-queue :
    (item_id : String) (f : Failure) (now : ℕ) {c : Command} {queue : List Command}
    → In c queue
    → Distinct queue
    → is_conflicted c ≡ false
    → (suc (open_count (replace_command (with_conflict c f now) queue)) ≡ open_count queue)
      × (is_blocked (replace_command (with_conflict c f now) queue) item_id
          ≡ (is_blocked queue item_id || is_item (encrypted_command_item_id c) item_id))
unfolding is_blocked encrypted_command_item_id
replace_command-queue item_id f now {c} (here {xs = queue}) d n =
    rw ((eq_iff c.id c.id).1 refl, n)
      (refl, or_comm (is_item (encrypted_command_item_id c) item_id) (is_blocked queue item_id))
replace_command-queue item_id f now {c} (there {x} {xs = queue} i) d n =
    let rest = replace_command-queue item_id f now i d.1 n in
    rw (other_id x d i) (ground (arith, rest.0), ground (arith, rest.1))

-- The command that is sent next stands in the queue, is not in conflict, and is on no item that is
-- blocked.
pub next_sendable_command-some :
    (queue : List Command) (c : Command)
    → next_sendable_command queue ≡ some c
    → In c queue
      × (is_conflicted c ≡ false)
      × ((item_id : String)
          → is_blocked queue item_id ≡ true
          → is_item (encrypted_command_item_id c) item_id ≡ false)
unfolding next_sendable_command
next_sendable_command-some queue c h =
    let found = find-eq-some (may_send queue) queue h in
    let parts =
      and-eq-true (not (is_conflicted c)) (may_send_item queue (encrypted_command_item_id c))
        found.1 in
    (
      found.0,
      ground (arith, parts.0),
      λ item_id b. elim (Option-cases (encrypted_command_item_id c)) [
        | inl e ↦ rw e refl
        | inr (id, e) ↦ elim (Bool-cases (id == item_id)) [
          | inr q ↦ rw (e, q) refl
          | inl q ↦ cc (rw b at (rw (e, (eq_iff id item_id).0 q) at parts.1))
        ]
      ],
    )
