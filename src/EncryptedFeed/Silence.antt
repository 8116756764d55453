-- ===== src/EncryptedFeed/Silence.antt =====
-- apps/api/src/routes/e2ee-events.ts: a query that fails while the backlog is delivered.
use mima.Prelude.{
  String, Bool, false, Option, none, some, List, [], ◌∷◌, ◌++◌, ◌≡◌, refl, leb, map, append-nil,
  append_assoc, arith, ◌<◌, Bool-cases, inl, inr, ap, sym, ◌∙◌,
}
use mima.Feed.{SyncEventRow, Connection}
use mima.EncryptedFeed.{Vaults, StreamState, setting_up, thrown, is_session_valid}
use mima.EncryptedFeed.Steps.{
  Step, backlog_row, buffered_row, set_ready, listed, bus_row, ping, hang_up, step_as, run,
  try_deliver,
}

-- Rows of the bus, with what the queries would find.
abbrev pub bus_rows : List (Option Vaults × SyncEventRow) → List Step
bus_rows [] = []
bus_rows ((world, row) ∷ rows) = bus_row world row ∷ bus_rows rows

abbrev pub rows_of : List (Option Vaults × SyncEventRow) → List SyncEventRow
rows_of rows = map (λ r. r.1) rows

module _ (public_key_fingerprint : String → String)
    (locale_compare_less : String → String → Bool) where
  run-buffers :
      (c : Connection) (rows : List (Option Vaults × SyncEventRow)) (s : StreamState)
      → s.phase ≡ thrown
      → s.closed ≡ false
      → run public_key_fingerprint locale_compare_less c (bus_rows rows) s
        ≡ record s { buffer = s.buffer ++ rows_of rows }
  unfolding run step_as
  run-buffers c [] s p h = ap (λ b. record s { buffer = b }) (sym (append-nil s.buffer))
  run-buffers c ((world, row) ∷ rows) s p h =
      let f = public_key_fingerprint in
      let g = locale_compare_less in
      let next = record s { buffer = s.buffer ++ row ∷ [] } in
      let e : step_as f g s.phase c (bus_row world row) s ≡ next = rw (p, step_as, h) refl in
      ap (run f g c (bus_rows rows)) e
      ∙ run-buffers c rows next p h
      ∙ ap (λ b. record s { buffer = b }) (append_assoc s.buffer (row ∷ []) (rows_of rows))

  -- A step after the throw sends nothing.
  step_as-thrown :
      (c : Connection) (step : Step) (s : StreamState)
      → let t = step_as public_key_fingerprint locale_compare_less thrown c step s in
        (t.phase ≡ s.phase) × (t.sent ≡ s.sent)
  unfolding step_as
  step_as-thrown c (backlog_row world row) s = (refl, refl)
  step_as-thrown c (buffered_row world) s = (refl, refl)
  step_as-thrown c set_ready s = (refl, refl)
  step_as-thrown c (listed w) s = (refl, refl)
  step_as-thrown c (bus_row world row) s = elim (Bool-cases s.closed) [
    | inl e ↦ rw e (refl, refl)
    | inr e ↦ rw e (refl, refl)
  ]
  step_as-thrown c (ping none) s = (refl, refl)
  step_as-thrown c (ping (some w)) s = elim (Bool-cases (is_session_valid c w)) [
    | inl e ↦ rw e (refl, refl)
    | inr e ↦ rw e (refl, refl)
  ]
  step_as-thrown c hang_up s = (refl, refl)

  run-thrown :
      (c : Connection) (steps : List Step) (s : StreamState)
      → s.phase ≡ thrown
      → (run public_key_fingerprint locale_compare_less c steps s).sent ≡ s.sent
  unfolding run
  run-thrown c [] s p = refl
  run-thrown c (step ∷ steps) s p =
      let f = public_key_fingerprint in
      let g = locale_compare_less in
      let t = step_as f g thrown c step s in
      let (same, quiet) = step_as-thrown c step s in
      ap (λ q. (run f g c steps (step_as f g q c step s)).sent) p
      ∙ run-thrown c steps t (same ∙ p)
      ∙ quiet

  -- A query that fails while a row of the backlog is delivered, before the stream is closed, silences
  -- the connection: whatever happens next, nothing more is sent, not even `sync.ready`; and while the
  -- bus gives rows, the stream stays open and the rows pile up in the buffer.
  pub backlog_failure-silent :
      (c : Connection) (row : SyncEventRow) (s : StreamState) (steps : List Step)
      (rows : List (Option Vaults × SyncEventRow))
      → s.phase ≡ setting_up
      → s.closed ≡ false
      → c.cursor < row.id
      → let broken : StreamState =
          step_as public_key_fingerprint locale_compare_less s.phase c (backlog_row none row) s in
        ((run public_key_fingerprint locale_compare_less c steps broken).sent ≡ s.sent)
        × (run public_key_fingerprint locale_compare_less c (bus_rows rows) broken
            ≡ record s { phase = thrown; buffer = s.buffer ++ rows_of rows })
  unfolding step_as try_deliver
  backlog_failure-silent c row s steps rows p h l =
      let f = public_key_fingerprint in
      let g = locale_compare_less in
      let stops = record s { phase = thrown } in
      let above : leb row.id c.cursor ≡ false = ground (arith, l) in
      let e : step_as f g s.phase c (backlog_row none row) s ≡ stops =
        rw (p, step_as, try_deliver, h, above) refl in
      (
        ap (λ t. (run f g c steps t).sent) e ∙ run-thrown c steps stops refl,
        ap (λ t. run f g c (bus_rows rows) t) e ∙ run-buffers c rows stops refl h,
      )
