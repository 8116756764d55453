-- ===== src/Runner/Replay.antt =====
-- The second run of a request that was answered.
use mima.Prelude.{
  String, Bool, true, false, Option, none, some, List, [], ◌∷◌, ◌++◌, string_eq, find, append-nil,
  append_assoc, All, subst, Bool-cases, Option-cases, eq_iff, ◌≡◌, refl, ap, sym, ◌∙◌, arith, inl,
  inr,
}
use mima.Anchor.{AuditAnchorStore, Result, ok, err, record_anchor}
use mima.Audit.{AuditEvent, last_row}
use mima.Runner.{
  CommandResult, CommandDedup, Answer, returns, throws, idempotency_conflict, duplicate_key,
  is_duplicate, Server, Transaction, Request, has_key, is_conflicting, is_success, dedup_row,
  remember, set_anchors, anchor_row, anchor_head, committed, begin, commit, replay, run_command,
}

pub find-append :
    {A : Type 0} (p : A → Bool) (xs ys : List A) {a : A}
    → find p xs ≡ some a
    → find p (xs ++ ys) ≡ some a
find-append p [] ys h = cc
find-append p (x ∷ xs) ys {a} h = elim (Bool-cases (p x)) [
  | inl e ↦ rw e (rw e at h)
  | inr e ↦ rw e (find-append p xs ys (rw e at h))
]

pub find-append_none :
    {A : Type 0} (p : A → Bool) (xs : List A) (a : A)
    → find p xs ≡ none
    → p a ≡ true
    → find p (xs ++ a ∷ []) ≡ some a
find-append_none p [] a h k = rw k
find-append_none p (x ∷ xs) a h k = ground (arith, find-append_none p xs a)

has_key-dedup_row : (q : Request) (r : CommandResult) → has_key q (dedup_row q r) ≡ true
has_key-dedup_row q r = rw (
  (eq_iff q.idempotency_key q.idempotency_key).1 refl,
  (eq_iff q.user_id q.user_id).1 refl,
  (eq_iff q.command_name q.command_name).1 refl,
)

is_conflicting-same : (d : Option String) → is_conflicting d d ≡ false
is_conflicting-same none = refl
is_conflicting-same (some d) = rw ((eq_iff d d).1 refl)

find-remember :
    (q : Request) (r : CommandResult) (dedup : List CommandDedup)
    → find (has_key q) dedup ≡ none
    → is_success r ≡ true
    → find (has_key q) (remember q r dedup) ≡ some (dedup_row q r)
unfolding remember
find-remember q r dedup h k =
    rw k (find-append_none (has_key q) dedup (dedup_row q r) h (has_key-dedup_row q r))

-- The table of answers only grows.
unfoldable pub Grows : List CommandDedup → List CommandDedup → Type 0
Grows xs ys = (extra : List CommandDedup) × (ys ≡ xs ++ extra)

remember-Grows :
    (q : Request) (r : CommandResult) (xs : List CommandDedup) → Grows xs (remember q r xs)
unfolding Grows remember
remember-Grows q r xs = elim (Bool-cases (is_success r)) [
  | inl e ↦ (dedup_row q r ∷ [], rw e refl)
  | inr e ↦ ([], rw e (sym (append-nil xs)))
]

Grows-refl : (xs : List CommandDedup) → Grows xs xs
unfolding Grows
Grows-refl xs = ([], sym (append-nil xs))

Grows-trans : (xs ys zs : List CommandDedup) → Grows xs ys → Grows ys zs → Grows xs zs
unfolding Grows
Grows-trans xs ys zs (us, e) (vs, f) = (us ++ vs, f ∙ ap (λ w. w ++ vs) e ∙ append_assoc xs us vs)

module _ {D : Type 0} where
  -- Requests with the work of their commands, run one after another.
  unfoldable pub run_commands :
      List (Request × (Transaction D → Transaction D × Answer)) → Server D → Server D
  run_commands [] s = s
  run_commands ((q, fn) ∷ rest) s = run_commands rest (run_command q fn s).0

  set_anchors-rest :
      (r : CommandResult) (s : Server D) (a : Result AuditAnchorStore)
      → (set_anchors r s a).0 ≡ record s { anchors = (set_anchors r s a).0.anchors }
  set_anchors-rest r s (ok anchors) = refl
  set_anchors-rest r s (err e) = refl

  anchor_row-rest :
      (r : CommandResult) (s : Server D) (head : Option AuditEvent)
      → (anchor_row r s head).0 ≡ record s { anchors = (anchor_row r s head).0.anchors }
  anchor_row-rest r s none = refl
  anchor_row-rest r s (some head) = set_anchors-rest r s (record_anchor s.anchors head.id head.hash)

  pub anchor_head-rest :
      (r : CommandResult) (s : Server D)
      → (anchor_head r s).0 ≡ record s { anchors = (anchor_head r s).0.anchors }
  unfolding anchor_head
  anchor_head-rest r s = anchor_row-rest r s (last_row s.tables.audit_events)

  -- Anchoring gives the answer that it was given, or its own failure.
  set_anchors-returns :
      (r r' : CommandResult) (s : Server D) (a : Result AuditAnchorStore)
      → (set_anchors r s a).1 ≡ returns r'
      → r ≡ r'
  set_anchors-returns r r' s (ok anchors) h = cc
  set_anchors-returns r r' s (err e) h = cc

  anchor_row-returns :
      (r r' : CommandResult) (s : Server D) (head : Option AuditEvent)
      → (anchor_row r s head).1 ≡ returns r'
      → r ≡ r'
  anchor_row-returns r r' s none h = cc
  anchor_row-returns r r' s (some head) h =
      set_anchors-returns r r' s (record_anchor s.anchors head.id head.hash) h

  anchor_head-returns :
      (r r' : CommandResult) (s : Server D) → (anchor_head r s).1 ≡ returns r' → r ≡ r'
  unfolding anchor_head
  anchor_head-returns r r' s h = anchor_row-returns r r' s (last_row s.tables.audit_events) h

  anchor_head-dedup :
      (r : CommandResult) (s : Server D)
      → (anchor_head r s).0.tables.command_dedup ≡ s.tables.command_dedup
  anchor_head-dedup r s = ap (λ t. t.tables.command_dedup) (anchor_head-rest r s)

  -- The answer is kept: a row of the key that holds it and does not conflict.
  IsKept : Request → CommandResult → Server D → Type 0
  IsKept q r s =
      (row : CommandDedup) × (find (has_key q) s.tables.command_dedup ≡ some row)
      × (row.answer ≡ r)
      × (is_conflicting row.request_digest q.request_digest ≡ false)

  IsKept-same_dedup :
      (q : Request) (r : CommandResult) (s t : Server D)
      → t.tables.command_dedup ≡ s.tables.command_dedup
      → IsKept q r s
      → IsKept q r t
  unfolding IsKept
  IsKept-same_dedup q r s t e (row, f, k, l) = (row, ap (find (has_key q)) e ∙ f, k, l)

  is_duplicate-false :
      (q : Request) (r : CommandResult) (t : Transaction D)
      → is_duplicate q r t ≡ false
      → is_success r ≡ true
      → find (has_key q) t.tables.command_dedup ≡ none
  unfolding is_duplicate
  is_duplicate-false q r t h k = elim (Option-cases (find (has_key q) t.tables.command_dedup)) [
    | inl e ↦ e
    | inr (row, e) ↦ let bad : true ≡ false = rw (k, e) at h in cc
  ]

  committed-find :
      (q : Request) (r : CommandResult) (s : Server D) (t : Transaction D)
      → find (has_key q) t.tables.command_dedup ≡ none
      → is_success r ≡ true
      → find (has_key q) (committed q r t s).tables.command_dedup ≡ some (dedup_row q r)
  unfolding committed
  committed-find q r s t f k = find-remember q r t.tables.command_dedup f k

  commit-IsKept :
      (q : Request) (s : Server D) (done : Transaction D × Answer) (r : CommandResult)
      → (commit q s done).1 ≡ returns r
      → is_success r ≡ true
      → IsKept q r (commit q s done).0
  unfolding commit IsKept
  commit-IsKept q s (t, throws e) r h k = cc
  commit-IsKept q s (t, returns r') r h k = elim (Bool-cases (is_duplicate q r' t)) [
    | inl d ↦ let bad : throws duplicate_key ≡ returns r = rw d at h in cc
    | inr d ↦
        let e : r' ≡ r = anchor_head-returns r' r (committed q r' t s) (rw d at h) in
        rw d (
          IsKept-same_dedup q r (committed q r' t s) (anchor_head r' (committed q r' t s)).0
            (anchor_head-dedup r' (committed q r' t s))
            (
              dedup_row q r',
              committed-find q r' s t (is_duplicate-false q r' t d (rw e k)) (rw e k),
              e,
              is_conflicting-same q.request_digest,
            ))
  ]

  replay-IsKept :
      (q : Request) (row : CommandDedup) (s : Server D) (r : CommandResult)
      → find (has_key q) s.tables.command_dedup ≡ some row
      → (replay q row s).1 ≡ returns r
      → IsKept q r (replay q row s).0
  unfolding replay IsKept
  replay-IsKept q row s r f h =
      elim (Bool-cases (is_conflicting row.request_digest q.request_digest)) [
        | inl e ↦ let bad : throws idempotency_conflict ≡ returns r = rw e at h in cc
        | inr e ↦ rw e (
            IsKept-same_dedup q r s (anchor_head row.answer s).0 (anchor_head-dedup row.answer s)
              (row, f, anchor_head-returns row.answer r s (rw e at h), e))
      ]

  -- The runner on a request whose answer is kept.
  run_command-IsKept :
      (q : Request) (fn : Transaction D → Transaction D × Answer) (s : Server D) (r : CommandResult)
      → IsKept q r s
      → run_command q fn s ≡ anchor_head r s
  unfolding run_command IsKept replay
  run_command-IsKept q fn s r (row, f, k, l) = rw (f, l, k) refl

  run_command-keeps :
      (q : Request) (fn : Transaction D → Transaction D × Answer) (s : Server D) (r : CommandResult)
      → (run_command q fn s).1 ≡ returns r
      → is_success r ≡ true
      → IsKept q r (run_command q fn s).0
  unfolding run_command
  run_command-keeps q fn s r h k = elim (Option-cases (find (has_key q) s.tables.command_dedup)) [
    | inl e ↦ rw e (commit-IsKept q s (fn (begin s)) r (rw e at h) k)
    | inr (row, e) ↦ rw e (replay-IsKept q row s r e (rw e at h))
  ]

  -- The work of a command deletes no answer.
  unfoldable pub KeepsAnswers : (Transaction D → Transaction D × Answer) → Type 0
  unfolding Grows
  KeepsAnswers fn = (t : Transaction D) → Grows t.tables.command_dedup (fn t).0.tables.command_dedup

  unfoldable pub AreKeeping : List (Request × (Transaction D → Transaction D × Answer)) → Type 0
  AreKeeping commands = All (λ c. KeepsAnswers c.1) commands

  commit-Grows :
      (q : Request) (s : Server D) (done : Transaction D × Answer)
      → Grows s.tables.command_dedup done.0.tables.command_dedup
      → Grows s.tables.command_dedup (commit q s done).0.tables.command_dedup
  unfolding commit committed
  commit-Grows q s (t, throws e) g = Grows-refl s.tables.command_dedup
  commit-Grows q s (t, returns r) g = elim (Bool-cases (is_duplicate q r t)) [
    | inl d ↦ rw d (Grows-refl s.tables.command_dedup)
    | inr d ↦ rw d (
        subst (λ d. Grows s.tables.command_dedup d) (sym (anchor_head-dedup r (committed q r t s)))
          (Grows-trans s.tables.command_dedup t.tables.command_dedup
            (remember q r t.tables.command_dedup) g (remember-Grows q r t.tables.command_dedup)))
  ]

  replay-Grows :
      (q : Request) (row : CommandDedup) (s : Server D)
      → (replay q row s).0.tables.command_dedup ≡ s.tables.command_dedup
  unfolding replay
  replay-Grows q row s = elim (Bool-cases (is_conflicting row.request_digest q.request_digest)) [
    | inl e ↦ rw e refl
    | inr e ↦ rw e (anchor_head-dedup row.answer s)
  ]

  run_command-Grows :
      (q : Request) (fn : Transaction D → Transaction D × Answer) (s : Server D)
      → KeepsAnswers fn
      → Grows s.tables.command_dedup (run_command q fn s).0.tables.command_dedup
  unfolding run_command Grows KeepsAnswers
  run_command-Grows q fn s g = elim (Option-cases (find (has_key q) s.tables.command_dedup)) [
    | inl e ↦ rw e (commit-Grows q s (fn (begin s)) (g (begin s)))
    | inr (row, e) ↦ rw e ([], replay-Grows q row s ∙ sym (append-nil s.tables.command_dedup))
  ]

  IsKept-Grows :
      (q : Request) (r : CommandResult) (s t : Server D)
      → Grows s.tables.command_dedup t.tables.command_dedup
      → IsKept q r s
      → IsKept q r t
  unfolding IsKept Grows
  IsKept-Grows q r s t (extra, e) (row, f, k, l) =
      (row, ap (find (has_key q)) e ∙ find-append (has_key q) s.tables.command_dedup extra f, k, l)

  run_commands-IsKept :
      (q : Request) (r : CommandResult) (s : Server D)
      (others : List (Request × (Transaction D → Transaction D × Answer)))
      → AreKeeping others
      → IsKept q r s
      → IsKept q r (run_commands others s)
  unfolding run_commands AreKeeping
  run_commands-IsKept q r s [] g k = k
  run_commands-IsKept q r s ((p, fn) ∷ rest) g k =
      run_commands-IsKept q r (run_command p fn s).0 rest g.1
        (IsKept-Grows q r s (run_command p fn s).0 (run_command-Grows p fn s g.0) k)

  -- A request that was answered with success, sent once more after any other commands none of which
  -- deletes answers, gets the same answer, or the failure of the anchor; whatever work comes with it,
  -- the tables, the answers kept, the sequence and the events published are as they were before it.
  -- The first command may be any, `migration.cutover` too, which deletes all earlier answers.
  pub run_command-once :
      (q : Request) (fn again : Transaction D → Transaction D × Answer) (s : Server D)
      (r : CommandResult) (others : List (Request × (Transaction D → Transaction D × Answer)))
      → AreKeeping others
      → (run_command q fn s).1 ≡ returns r
      → is_success r ≡ true
      → let later = run_commands others (run_command q fn s).0 in
        (run_command q again later ≡ anchor_head r later)
        × ((run_command q again later).0
            ≡ record later { anchors = (run_command q again later).0.anchors })
  run_command-once q fn again s r others g h k =
      let later = run_commands others (run_command q fn s).0 in
      let e : run_command q again later ≡ anchor_head r later = run_command-IsKept q again later r (
        run_commands-IsKept q r (run_command q fn s).0 others g (run_command-keeps q fn s r h k)) in
      (e, rw e (anchor_head-rest r later))
