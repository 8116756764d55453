-- ===== src/Runner/Failure.antt =====
-- What a command that fails has changed.
use mima.Prelude.{◌≡◌}
use mima.Runner.{
  CommandResult, CommandError, Answer, returns, Server, Transaction, Request, anchor_failed,
  committed, begin,
}
use mima.Anchor.{AuditError}

pub IsOfAnchor : CommandError → Type 0
IsOfAnchor e = (f : AuditError) × (e ≡ anchor_failed f)

module _ {D : Type 0} where
  -- All but the sequence of the event ids is as before.
  pub IsUndone : Server D → Server D → Type 0
  IsUndone s t = t ≡ record s { event_sequence = t.event_sequence }

  -- The work was done with a result and committed, its events published and its answer, if it is one
  -- of success, kept; the error is that of the anchor, which failed after it.
  pub IsDone :
      Request
      → (Transaction D → Transaction D × Answer)
      → Server D
      → CommandError
      → Server D
      → Type 0
  IsDone q fn s e t =
      (r : CommandResult) × ((fn (begin s)).1 ≡ returns r)
      × (t ≡ committed q r (fn (begin s)).0 s)
      × IsOfAnchor e
