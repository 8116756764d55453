-- ===== src/EncryptedFeed/Confined.antt =====
-- apps/api/src/routes/e2ee-events.ts: what a connection sends, over all that may happen to it.
use mima.Prelude.{
  ℕ, String, Bool, ◌||◌, Option, none, some, List, [], ◌∷◌, ◌++◌, leb, In, All, All-append,
  Bool-cases, inl, inr, if◌then◌else◌, nat_eq, string_eq,
}
use mima.Access.{SessionUser}
use mima.Feed.{SyncEventRow, Connection}
use mima.Feed.Leaks.{IsWritten}
use mima.EncryptedFeed.{
  Vaults, Phase, setting_up, streaming, thrown, StreamState, is_session_valid, encrypted_sync_ready,
}
use mima.EncryptedFeed.Steps.{
  Step, backlog_row, buffered_row, set_ready, listed, bus_row, ping, hang_up, send, deliver_row,
  try_deliver, or_thrown, or_closed, receive, take_buffered, become_ready, check_ping,
  listed_vaults, step_as, run, open_stream,
}
use mima.EncryptedFeed.Entitled.{IsEntitled, answer_row-IsEntitled}

abbrev pub IsWorld : List Vaults → Option Vaults → Type 0
IsWorld ws none = Unit
IsWorld ws (some w) = In w ws

-- The worlds of a step are among these, and its row names the vault of its item.
abbrev pub Fits : List Vaults → Step → Type 0
Fits ws (backlog_row world row) = IsWorld ws world × IsWritten row
Fits ws (buffered_row world) = IsWorld ws world
Fits ws set_ready = Unit
Fits ws (listed w) = Unit
Fits ws (bus_row world row) = IsWorld ws world × IsWritten row
Fits ws (ping world) = Unit
Fits ws hang_up = Unit

abbrev Holds : (StreamState → Type 0) → Option StreamState → Type 0
Holds P none = Unit
Holds P (some s) = P s

module _ (public_key_fingerprint : String → String)
    (locale_compare_less : String → String → Bool) where
  -- What was sent was allowed, and what waits is written as the server writes it.
  abbrev pub IsClean : List Vaults → SessionUser → StreamState → Type 0
  IsClean ws u s =
      All (IsEntitled public_key_fingerprint locale_compare_less ws u) s.sent
      × All IsWritten s.buffer

  deliver_row-IsClean :
      (ws : List Vaults) (c : Connection) (w : Vaults) (row : SyncEventRow) (s : StreamState)
      → In w ws
      → IsWritten row
      → IsClean ws c.user s
      → IsClean ws c.user (deliver_row public_key_fingerprint locale_compare_less c w row s)
  unfolding deliver_row send
  deliver_row-IsClean ws c w row s i r h = elim (Bool-cases s.closed) [
    | inl e ↦ rw (deliver_row, send, e) h
    | inr e ↦
        rw (deliver_row, send, e)
          (
            All-append (IsEntitled public_key_fingerprint locale_compare_less ws c.user) s.sent _
                h.0
                (
                  answer_row-IsEntitled public_key_fingerprint locale_compare_less row.type ws
                      c.user w row s.known i r,
                  tt,
                ),
            h.1,
          )
  ]

  try_deliver-IsClean :
      (ws : List Vaults) (c : Connection) (world : Option Vaults) (row : SyncEventRow)
      (s : StreamState)
      → IsWorld ws world
      → IsWritten row
      → IsClean ws c.user s
      → Holds
          (IsClean ws c.user)
          (try_deliver public_key_fingerprint locale_compare_less c world row s)
  unfolding try_deliver
  try_deliver-IsClean ws c none row s i r h = elim (Bool-cases (s.closed || leb row.id c.cursor)) [
    | inl e ↦ rw (try_deliver, e) h
    | inr e ↦ rw (try_deliver, e) tt
  ]
  try_deliver-IsClean ws c (some w) row s i r h =
      elim (Bool-cases (s.closed || leb row.id c.cursor)) [
        | inl e ↦ rw (try_deliver, e) h
        | inr e ↦ elim (Bool-cases (is_session_valid c w)) [
          | inl v ↦ rw (try_deliver, e, v) (deliver_row-IsClean ws c w row s i r h)
          | inr v ↦ rw (try_deliver, e, v) h
        ]
      ]

  or_thrown-IsClean :
      (ws : List Vaults) (u : SessionUser) (s : StreamState) (o : Option StreamState)
      → IsClean ws u s
      → Holds (IsClean ws u) o
      → IsClean ws u (or_thrown s o)
  or_thrown-IsClean ws u s none h k = h
  or_thrown-IsClean ws u s (some t) h k = k

  or_closed-IsClean :
      (ws : List Vaults) (u : SessionUser) (s : StreamState) (o : Option StreamState)
      → IsClean ws u s
      → Holds (IsClean ws u) o
      → IsClean ws u (or_closed s o)
  or_closed-IsClean ws u s none h k = h
  or_closed-IsClean ws u s (some t) h k = k

  take_buffered-IsClean :
      (ws : List Vaults) (c : Connection) (world : Option Vaults) (rows : List SyncEventRow)
      (s : StreamState)
      → IsWorld ws world
      → All (IsEntitled public_key_fingerprint locale_compare_less ws c.user) s.sent
      → All IsWritten s.buffer
      → All IsWritten rows
      → IsClean ws c.user (take_buffered public_key_fingerprint locale_compare_less c world rows s)
  take_buffered-IsClean ws c world [] s i h k r = (h, k)
  take_buffered-IsClean ws c world (row ∷ rows) s i h k r =
      let rest = record s { buffer = rows } in
      or_thrown-IsClean ws c.user rest
        (try_deliver public_key_fingerprint locale_compare_less c world row rest) (h, r.1)
        (try_deliver-IsClean ws c world row rest i r.0 (h, r.1))

  become_ready-IsClean :
      (ws : List Vaults) (u : SessionUser) (rows : List SyncEventRow) (s : StreamState)
      → IsClean ws u s
      → IsClean ws u (become_ready rows s)
  become_ready-IsClean ws u [] s h = elim (Bool-cases s.closed) [ inl e ↦ rw e h | inr e ↦ rw e h ]
  become_ready-IsClean ws u (row ∷ rows) s h = h

  check_ping-IsClean :
      (ws : List Vaults) (c : Connection) (world : Option Vaults) (s : StreamState)
      → IsClean ws c.user s
      → IsClean ws c.user (check_ping c world s)
  check_ping-IsClean ws c none s h = h
  check_ping-IsClean ws c (some w) s h = elim (Bool-cases (is_session_valid c w)) [
    | inl e ↦ rw e h
    | inr e ↦ rw e h
  ]

  buffered-IsClean :
      (ws : List Vaults) (u : SessionUser) (row : SyncEventRow) (s : StreamState)
      → IsWritten row
      → IsClean ws u s
      → IsClean ws u (if s.closed then s else record s { buffer = s.buffer ++ row ∷ [] })
  buffered-IsClean ws u row s r h = elim (Bool-cases s.closed) [
    | inl e ↦ rw e h
    | inr e ↦ rw e (h.0, All-append IsWritten s.buffer (row ∷ []) h.1 (r, tt))
  ]

  receive-IsClean :
      (ws : List Vaults) (c : Connection) (world : Option Vaults) (row : SyncEventRow)
      (s : StreamState) (phase : Phase)
      → IsWorld ws world
      → IsWritten row
      → IsClean ws c.user s
      → IsClean ws c.user (receive public_key_fingerprint locale_compare_less c world row s phase)
  receive-IsClean ws c world row s setting_up i r h = buffered-IsClean ws c.user row s r h
  receive-IsClean ws c world row s thrown i r h = buffered-IsClean ws c.user row s r h
  receive-IsClean ws c world row s streaming i r h =
      or_closed-IsClean ws c.user s
        (try_deliver public_key_fingerprint locale_compare_less c world row s) h
        (try_deliver-IsClean ws c world row s i r h)

  ready-IsClean :
      (ws : List Vaults) (u : SessionUser) (n : ℕ) (ids : List String) (s : StreamState)
      → IsClean ws u s
      → IsClean ws u (send (encrypted_sync_ready n ids) s)
  unfolding send
  ready-IsClean ws u n ids s h = elim (Bool-cases s.closed) [
    | inl e ↦ rw (send, e) h
    | inr e ↦
        rw (send, e)
          (
            All-append (IsEntitled public_key_fingerprint locale_compare_less ws u) s.sent
                (encrypted_sync_ready n ids ∷ []) h.0 (tt, tt),
            h.1,
          )
  ]

  step_as-IsClean :
      (ws : List Vaults) (c : Connection) (phase : Phase) (step : Step) (s : StreamState)
      → Fits ws step
      → IsClean ws c.user s
      → IsClean ws c.user (step_as public_key_fingerprint locale_compare_less phase c step s)
  unfolding step_as
  step_as-IsClean ws c setting_up (backlog_row world row) s f h =
      or_thrown-IsClean ws c.user s
        (try_deliver public_key_fingerprint locale_compare_less c world row s) h
        (try_deliver-IsClean ws c world row s f.0 f.1 h)
  step_as-IsClean ws c streaming (backlog_row world row) s f h = h
  step_as-IsClean ws c thrown (backlog_row world row) s f h = h
  step_as-IsClean ws c setting_up (buffered_row world) s f h =
      take_buffered-IsClean ws c world s.buffer s f h.0 h.1 h.1
  step_as-IsClean ws c streaming (buffered_row world) s f h = h
  step_as-IsClean ws c thrown (buffered_row world) s f h = h
  step_as-IsClean ws c setting_up set_ready s f h = become_ready-IsClean ws c.user s.buffer s h
  step_as-IsClean ws c streaming set_ready s f h = h
  step_as-IsClean ws c thrown set_ready s f h = h
  step_as-IsClean ws c setting_up (listed w) s f h = h
  step_as-IsClean ws c streaming (listed w) s f h =
      ready-IsClean ws c.user s.last_sent
        (listed_vaults public_key_fingerprint locale_compare_less w c.user) s h
  step_as-IsClean ws c thrown (listed w) s f h = h
  step_as-IsClean ws c setting_up (bus_row world row) s f h =
      receive-IsClean ws c world row s setting_up f.0 f.1 h
  step_as-IsClean ws c streaming (bus_row world row) s f h =
      receive-IsClean ws c world row s streaming f.0 f.1 h
  step_as-IsClean ws c thrown (bus_row world row) s f h =
      receive-IsClean ws c world row s thrown f.0 f.1 h
  step_as-IsClean ws c setting_up (ping world) s f h = check_ping-IsClean ws c world s h
  step_as-IsClean ws c streaming (ping world) s f h = check_ping-IsClean ws c world s h
  step_as-IsClean ws c thrown (ping world) s f h = check_ping-IsClean ws c world s h
  step_as-IsClean ws c setting_up hang_up s f h = h
  step_as-IsClean ws c streaming hang_up s f h = h
  step_as-IsClean ws c thrown hang_up s f h = h

  run-IsClean :
      (ws : List Vaults) (c : Connection) (steps : List Step) (s : StreamState)
      → All (Fits ws) steps
      → IsClean ws c.user s
      → IsClean ws c.user (run public_key_fingerprint locale_compare_less c steps s)
  unfolding run
  run-IsClean ws c [] s f h = h
  run-IsClean ws c (step ∷ steps) s f h =
      run-IsClean ws c steps (step_as public_key_fingerprint locale_compare_less s.phase c step s)
        f.1 (step_as-IsClean ws c s.phase step s f.0 h)

  -- Whatever happens to a connection, in any order, each item, deletion and change of keys that it
  -- is sent belongs to a vault that the user could open, with a role, in one of the worlds of
  -- these steps; and a vault's encrypted header belongs to such a vault, or to one that was in one
  -- of the worlds a candidate for the recovery of this user's own vaults. The items of the rows
  -- belong to the vaults of the rows.
  pub run-IsEntitled :
      (ws : List Vaults) (c : Connection) (first : Vaults) (steps : List Step)
      → All (Fits ws) steps
      → All
          (IsEntitled public_key_fingerprint locale_compare_less ws c.user)
          (run public_key_fingerprint locale_compare_less c steps
            (open_stream public_key_fingerprint locale_compare_less c first)).sent
  unfolding open_stream
  run-IsEntitled ws c first steps f =
      (run-IsClean ws c steps (open_stream public_key_fingerprint locale_compare_less c first) f
        (tt, tt)).0
