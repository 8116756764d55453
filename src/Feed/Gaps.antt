-- ===== src/Feed/Gaps.antt =====
-- apps/api/src/routes/events.ts: no row is skipped and none is sent twice.
use mima.Prelude.{
  ℕ, max, String, true, false, ◌||◌, Option, none, some, List, [], ◌∷◌, ◌++◌, map, ◌≡◌, refl, sym,
  ap, ◌∙◌, ◌⊎◌, inl, inr, arith, nat_eq, string_eq, if◌then◌else◌, leb, Bool-cases,
}
use mathlib.Core.List.{append_assoc}
use mima.Store.Events.{SyncEvent, event_cursor, sync_ready}
use mima.Feed.{
  SyncEventRow, World, Connection, FeedState, answer, deliver_all, is_seen, see, setup, open_feed,
  set_ready, send_ready, granted,
}
use mima.Feed.Delivery.{cursor-answer_as, deliver-cases, deliver_all-closed}

-- The ids above the cursor, in order, each where it comes first; all of them, where no ids are noted.
abbrev pub fresh_ids : ℕ → Option (List ℕ) → List ℕ → List ℕ
fresh_ids cursor seen [] = []
fresh_ids cursor seen (id ∷ ids) =
    let passed = fresh_ids cursor seen ids in
    let taken = id ∷ fresh_ids cursor (see seen id) ids in
    if leb id cursor || is_seen seen id then passed else taken

abbrev pub cursors : List SyncEvent → List ℕ
cursors events = map event_cursor events

abbrev pub row_ids : List (Option World × SyncEventRow) → List ℕ
row_ids rows = map (λ r. r.1.id) rows

abbrev pub greatest : ℕ → List ℕ → ℕ
greatest n [] = n
greatest n (id ∷ ids) = greatest (max n id) ids

greatest-append :
    (n : ℕ) (ids more : List ℕ) → greatest n (ids ++ more) ≡ greatest (greatest n ids) more
greatest-append n [] more = refl
greatest-append n (id ∷ ids) more = greatest-append (max n id) ids more

cursors-append : (xs ys : List SyncEvent) → cursors (xs ++ ys) ≡ cursors xs ++ cursors ys
cursors-append [] ys = refl
cursors-append (x ∷ xs) ys = ap (λ t. event_cursor x ∷ t) (cursors-append xs ys)

-- What is sent is a beginning of what is to be sent, and all of it if the stream is open.
abbrev pub Prefix : List ℕ → FeedState → Type 0
Prefix ids s = (rest : List ℕ) × (cursors s.sent ++ rest ≡ ids) × (s.closed ≡ false → rest ≡ [])

pub set_ready-cases :
    (s : FeedState) → (set_ready s ≡ s) ⊎ (set_ready s ≡ record s { setup_seen = none })
unfolding set_ready
set_ready-cases s = elim (Bool-cases s.closed) [
  | inl e ↦ inl (ground (arith, e))
  | inr e ↦ inr (ground (arith, e))
]

module _ (pkf : String → String) where
  deliver_all-Prefix :
      (c : Connection) (rows : List (Option World × SyncEventRow)) (s : FeedState)
      → s.closed ≡ false
      → Prefix
          (cursors s.sent ++ fresh_ids c.cursor s.setup_seen (row_ids rows))
          (deliver_all pkf c rows s)
  unfolding deliver_all
  deliver_all-Prefix c [] s h = ([], refl, λ q. refl)
  deliver_all-Prefix c ((world, row) ∷ rows) s h = elim (deliver-cases pkf c world row s) [
    | inl (p, e) ↦
        let passed : (leb row.id c.cursor || is_seen s.setup_seen row.id) ≡ true =
          ground (arith, p, h) in
        rw (passed, e, deliver_all) (deliver_all-Prefix c rows s h)
    | inr (inl (p, e)) ↦
        let taken : (leb row.id c.cursor || is_seen s.setup_seen row.id) ≡ false =
          ground (arith, p) in
        rw
          (
            taken,
            e,
            deliver_all,
            deliver_all-closed pkf c rows
                (record s { setup_seen = see s.setup_seen row.id; closed = true }) refl,
          )
          (row.id ∷ fresh_ids c.cursor (see s.setup_seen row.id) (row_ids rows), refl, λ q. cc q)
    | inr (inr (p, (w, n, v, e))) ↦
        let taken : (leb row.id c.cursor || is_seen s.setup_seen row.id) ≡ false =
          ground (arith, p) in
        let next = record s {
          setup_seen = see s.setup_seen row.id;
          known = (answer pkf c w row s.known).0;
          sent = s.sent ++ (answer pkf c w row s.known).1 ∷ [];
          last_sent = max s.last_sent row.id;
        } in
        let (rest, all, whole) = deliver_all-Prefix c rows next h in
        let id = cursor-answer_as row.type (granted pkf w c.user row.vault_id) w row s.known in
        let step : cursors next.sent ≡ cursors s.sent ++ row.id ∷ [] =
          cursors-append s.sent ((answer pkf c w row s.known).1 ∷ [])
          ∙ ap (λ n. cursors s.sent ++ n ∷ []) (unfold answer in id) in
        let later = fresh_ids c.cursor (see s.setup_seen row.id) (row_ids rows) in
        rw (taken, e, deliver_all)
          (
            rest,
            all ∙ (ap (λ t. t ++ later) step ∙ append_assoc (cursors s.sent) (row.id ∷ []) later),
            whole,
          )
  ]

  last_sent-deliver_all :
      (c : Connection) (rows : List (Option World × SyncEventRow)) (s : FeedState) (n : ℕ)
      → s.last_sent ≡ greatest n (cursors s.sent)
      → (deliver_all pkf c rows s).last_sent ≡ greatest n (cursors (deliver_all pkf c rows s).sent)
  unfolding deliver_all
  last_sent-deliver_all c [] s n h = h
  last_sent-deliver_all c ((world, row) ∷ rows) s n h = elim (deliver-cases pkf c world row s) [
    | inl (p, e) ↦ rw (e, deliver_all) (last_sent-deliver_all c rows s n h)
    | inr (inl (p, e)) ↦
        rw (e, deliver_all)
          (last_sent-deliver_all c rows
            (record s { setup_seen = see s.setup_seen row.id; closed = true }) n h)
    | inr (inr (p, (w, m, v, e))) ↦
        let next = record s {
          setup_seen = see s.setup_seen row.id;
          known = (answer pkf c w row s.known).0;
          sent = s.sent ++ (answer pkf c w row s.known).1 ∷ [];
          last_sent = max s.last_sent row.id;
        } in
        let id = cursor-answer_as row.type (granted pkf w c.user row.vault_id) w row s.known in
        let step : cursors next.sent ≡ cursors s.sent ++ row.id ∷ [] =
          cursors-append s.sent ((answer pkf c w row s.known).1 ∷ [])
          ∙ ap (λ k. cursors s.sent ++ k ∷ []) (unfold answer in id) in
        rw (e, deliver_all)
          (last_sent-deliver_all c rows next n (
            ap (λ k. max k row.id) h
            ∙ sym (ap (greatest n) step ∙ greatest-append n (cursors s.sent) (row.id ∷ []))))
  ]

  setup_last :
      (c : Connection) (w : World) (rows : List (Option World × SyncEventRow))
      → Prefix (fresh_ids c.cursor (some []) (row_ids rows)) (setup pkf c w rows)
        × ((setup pkf c w rows).last_sent ≡ greatest c.cursor (cursors (setup pkf c w rows).sent))
  unfolding setup open_feed set_ready
  setup_last c w rows =
      let end = deliver_all pkf c rows (open_feed pkf c w) in
      let before = deliver_all-Prefix c rows (open_feed pkf c w) refl in
      let last = last_sent-deliver_all c rows (open_feed pkf c w) c.cursor refl in
      elim (set_ready-cases end) [ inl e ↦ rw e (before, last) | inr e ↦ rw e (before, last) ]

  -- What `sync.ready` carries, if it is sent.
  ready_cursor :
      (s : FeedState) (n : ℕ) (ids : List String)
      → s.last_sent ≡ greatest n (cursors s.sent)
      → s.closed ≡ false
      → (send_ready ids s).sent ≡ s.sent ++ sync_ready (greatest n (cursors s.sent)) ids ∷ []
  unfolding send_ready
  ready_cursor s n ids h e = rw (e, h) refl

  not_ready :
      (s : FeedState) (ids : List String) → s.closed ≡ true → (send_ready ids s).sent ≡ s.sent
  unfolding send_ready
  not_ready s ids e = rw e refl

  -- The events that a connection sends while it is set up carry the ids of the rows above the client's
  -- cursor, in order and each once, up to the row at which the stream breaks, and all of them if it
  -- does not; the greatest of these ids and the cursor is noted. Rows may then be delivered while the
  -- last listing is made. If the stream is still open, `sync.ready` follows what was sent, with the
  -- ids of the listing and the greatest of the cursor and the ids of all events sent before it, those
  -- of the rows during the listing too; if it is closed, nothing follows.
  pub setup-gapless :
      (c : Connection) (w : World) (rows during : List (Option World × SyncEventRow))
      (ids : List String)
      → let ready : FeedState = deliver_all pkf c during (setup pkf c w rows) in
        Prefix (fresh_ids c.cursor (some []) (row_ids rows)) (setup pkf c w rows)
        × ((setup pkf c w rows).last_sent ≡ greatest c.cursor (cursors (setup pkf c w rows).sent))
        × (ready.closed ≡ false
            → (send_ready ids ready).sent
              ≡ ready.sent ++ sync_ready (greatest c.cursor (cursors ready.sent)) ids ∷ [])
        × (ready.closed ≡ true → (send_ready ids ready).sent ≡ ready.sent)
  setup-gapless c w rows during ids =
      let (before, last) = setup_last c w rows in
      let ready : FeedState = deliver_all pkf c during (setup pkf c w rows) in
      (
        before,
        last,
        ready_cursor ready c.cursor ids
            (last_sent-deliver_all c during (setup pkf c w rows) c.cursor last),
        not_ready ready ids,
      )
