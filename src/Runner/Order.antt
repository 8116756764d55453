-- ===== src/Runner/Order.antt =====
-- What the commands publish is what they commit, in the order of the event ids.
use mima.Prelude.{
  ℕ, ◌≤◌, ◌<◌, List, [], ◌∷◌, ◌++◌, find, append-nil, append_assoc, Bool-cases, Option-cases, ◌≡◌,
  refl, sym, ap, ap₂, map, String, ◌∙◌, inl, inr, arith, All,
}
use mima.Feed.{SyncEventRow, RowType}
use mima.Runner.{
  CommandResult, CommandDedup, NewSyncEvent, Answer, returns, throws, Server, Transaction, Request,
  undone, is_duplicate, has_key, is_conflicting, anchor_head, committed, publish, begin, commit,
  replay, run_command, record_sync_event, collect,
}
use mima.Runner.Replay.{Grows, KeepsAnswers, anchor_head-rest, run_commands}

-- The ids grow, from above the first bound up to the second.
unfoldable pub Ascending : ℕ → List SyncEventRow → ℕ → Type 0
Ascending lo [] hi = lo ≤ hi
Ascending lo (row ∷ rows) hi = (lo < row.id) × Ascending row.id rows hi

Ascending-lower :
    (lo mid hi : ℕ) (ys : List SyncEventRow) → lo ≤ mid → Ascending mid ys hi → Ascending lo ys hi
unfolding Ascending
Ascending-lower lo mid hi [] h k = omega arith
Ascending-lower lo mid hi (y ∷ ys) h k = (omega (arith, k.0), k.1)

Ascending-append :
    (lo mid hi : ℕ) (xs ys : List SyncEventRow)
    → Ascending lo xs mid
    → Ascending mid ys hi
    → Ascending lo (xs ++ ys) hi
unfolding Ascending
Ascending-append lo mid hi [] ys h k = Ascending-lower lo mid hi ys h k
Ascending-append lo mid hi (x ∷ xs) ys h k = (h.0, Ascending-append x.id mid hi xs ys h.1 k)

Ascending-upper :
    (lo mid hi : ℕ) (xs : List SyncEventRow) → Ascending lo xs mid → mid ≤ hi → Ascending lo xs hi
unfolding Ascending
Ascending-upper lo mid hi [] h k = omega arith
Ascending-upper lo mid hi (x ∷ xs) h k = (h.0, Ascending-upper x.id mid hi xs h.1 k)

Ascending-le : (lo hi : ℕ) (xs : List SyncEventRow) → Ascending lo xs hi → lo ≤ hi
unfolding Ascending
Ascending-le lo hi [] h = h
Ascending-le lo hi (x ∷ xs) h = omega (arith, h.0, Ascending-le x.id hi xs h.1)

-- A row of the table without its payload, which `migration.cutover` empties.
pub record EventHead : Type 0 where
  pub id : ℕ
  pub type : RowType
  pub vault_id : String
  pub item_id : String

abbrev pub head_of : SyncEventRow → EventHead
head_of row = record {
  id = row.id;
  type = row.type;
  vault_id = row.vault_id;
  item_id = row.item_id;
}

abbrev pub events_of : List SyncEventRow → List EventHead
events_of rows = map head_of rows

events_of-append : (xs ys : List SyncEventRow) → events_of (xs ++ ys) ≡ events_of xs ++ events_of ys
events_of-append [] ys = refl
events_of-append (x ∷ xs) ys = ap (λ zs. head_of x ∷ zs) (events_of-append xs ys)

published_heads :
    (xs ys rows pending : List SyncEventRow)
    → events_of xs ≡ events_of ys
    → pending ≡ rows
    → events_of (xs ++ rows) ≡ events_of (ys ++ pending)
published_heads xs ys rows pending h p =
    events_of-append xs rows
    ∙ ap₂ (λ us vs. us ++ events_of vs) h (sym p)
    ∙ sym (events_of-append ys pending)

module _ {D : Type 0} where
  -- A command's work collects exactly the events that it records, in the order of their ids, and
  -- changes nothing of the earlier rows but their payloads.
  unfoldable pub IsOrderly : (Transaction D → Transaction D × Answer) → Type 0
  IsOrderly fn =
      (t : Transaction D)
      → (rows : List SyncEventRow) × ((fn t).0.pending ≡ t.pending ++ rows)
        × (events_of (fn t).0.tables.sync_events ≡ events_of (t.tables.sync_events ++ rows))
        × Ascending t.event_sequence rows (fn t).0.event_sequence

  -- The events of the table have been published, each once and in the order of their ids.
  unfoldable pub IsPublished : Server D → Type 0
  IsPublished s =
      (events_of s.tables.sync_events ≡ events_of s.published)
      × Ascending 0 s.published s.event_sequence

  unfoldable pub AreOrderly : List (Request × (Transaction D → Transaction D × Answer)) → Type 0
  AreOrderly commands = All (λ c. IsOrderly c.1) commands

  -- The work that records and collects the given events, and answers.
  unfoldable pub record_all : List NewSyncEvent → Transaction D → Transaction D
  unfolding record_sync_event collect
  record_all [] t = t
  record_all (e ∷ es) t = let (t', row) = record_sync_event e t in record_all es (collect row t')

  anchor_head-IsPublished :
      (r : CommandResult) (s : Server D) → IsPublished s → IsPublished (anchor_head r s).0
  unfolding IsPublished
  anchor_head-IsPublished r s h = rw (anchor_head-rest r s) h

  undone-IsPublished :
      (s : Server D) (t : Transaction D)
      → IsPublished s
      → s.event_sequence ≤ t.event_sequence
      → IsPublished (undone s t)
  unfolding IsPublished
  undone-IsPublished s t h k =
      (h.0, Ascending-upper 0 s.event_sequence t.event_sequence s.published h.1 k)

  commit-IsPublished :
      (q : Request) (s : Server D) (done : Transaction D × Answer)
      → IsPublished s
      → ((rows : List SyncEventRow) × (done.0.pending ≡ rows)
          × (events_of done.0.tables.sync_events ≡ events_of (s.tables.sync_events ++ rows))
          × Ascending s.event_sequence rows done.0.event_sequence)
      → IsPublished (commit q s done).0
  unfolding commit IsPublished committed publish
  commit-IsPublished q s (t, throws e) h (rows, p, k, a) =
      undone-IsPublished s t h (Ascending-le s.event_sequence t.event_sequence rows a)
  commit-IsPublished q s (t, returns r) h (rows, p, k, a) = elim (Bool-cases (is_duplicate q r t)) [
    | inl d ↦
        rw d (undone-IsPublished s t h (Ascending-le s.event_sequence t.event_sequence rows a))
    | inr d ↦ rw d (
        anchor_head-IsPublished r (committed q r t s) (
          k ∙ published_heads s.tables.sync_events s.published rows t.pending h.0 p,
          rw p (Ascending-append 0 s.event_sequence t.event_sequence s.published rows h.1 a),
        ))
  ]

  replay-IsPublished :
      (q : Request) (row : CommandDedup) (s : Server D)
      → IsPublished s
      → IsPublished (replay q row s).0
  unfolding replay
  replay-IsPublished q row s h =
      elim (Bool-cases (is_conflicting row.request_digest q.request_digest)) [
        | inl e ↦ rw e h
        | inr e ↦ rw e (anchor_head-IsPublished row.answer s h)
      ]

  run_command-IsPublished :
      (q : Request) (fn : Transaction D → Transaction D × Answer) (s : Server D)
      → IsOrderly fn
      → IsPublished s
      → IsPublished (run_command q fn s).0
  unfolding run_command IsOrderly
  run_command-IsPublished q fn s o h =
      elim (Option-cases (find (has_key q) s.tables.command_dedup)) [
        | inl e ↦ rw e (commit-IsPublished q s (fn (begin s)) h (o (begin s)))
        | inr (row, e) ↦ rw e (replay-IsPublished q row s h)
      ]

  -- Commands run one after another, failing and repeated ones too, and the work of each collects
  -- exactly the events that it records, with ids above the earlier ones, and changes nothing of the
  -- earlier rows of the table but their payloads. If the events published are those of the table (ids,
  -- types, vaults and items in the same order, each once, with growing ids), they are so afterwards.
  pub run_commands-IsPublished :
      (commands : List (Request × (Transaction D → Transaction D × Answer))) (s : Server D)
      → AreOrderly commands
      → IsPublished s
      → IsPublished (run_commands commands s)
  unfolding run_commands AreOrderly
  run_commands-IsPublished [] s o h = h
  run_commands-IsPublished ((q, fn) ∷ rest) s o h =
      run_commands-IsPublished rest (run_command q fn s).0 o.1
        (run_command-IsPublished q fn s o.0 h)

module _ (D : Type 0) where
  pub record_all-IsOrderly :
      (es : List NewSyncEvent) (r : CommandResult)
      → IsOrderly (λ (t : Transaction D). (record_all es t, returns r))
  unfolding record_all IsOrderly Ascending
  record_all-IsOrderly [] r t = (
    [],
    sym (append-nil t.pending),
    ap events_of (sym (append-nil t.tables.sync_events)),
    omega arith,
  )
  record_all-IsOrderly (e ∷ es) r t =
      let step = record_sync_event e t in
      let (rows, p, q, a) = record_all-IsOrderly es r (collect step.1 step.0) in
      (
        step.1 ∷ rows,
        p ∙ append_assoc t.pending (step.1 ∷ []) rows,
        q ∙ ap events_of (append_assoc t.tables.sync_events (step.1 ∷ []) rows),
        (omega arith, a),
      )

  pub record_all-KeepsAnswers :
      (es : List NewSyncEvent) (r : CommandResult)
      → KeepsAnswers (λ (t : Transaction D). (record_all es t, returns r))
  unfolding record_all KeepsAnswers record_sync_event collect Grows
  record_all-KeepsAnswers [] r t = ([], sym (append-nil t.tables.command_dedup))
  record_all-KeepsAnswers (e ∷ es) r t =
      let step = record_sync_event e t in record_all-KeepsAnswers es r (collect step.1 step.0)
