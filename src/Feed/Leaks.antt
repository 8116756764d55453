-- ===== src/Feed/Leaks.antt =====
-- apps/api/src/routes/events.ts: the events name and show only vaults that the user could open at some
-- time while the connection was set up.
use mima.Prelude.{String, Option, none, some, List, [], ◌∷◌, ◌≡◌, nat_eq, string_eq, All}
use mima.Access
use mima.Access.{SessionUser}
use mima.Access.Listing
use mima.Store.Events.{SyncEvent}
use mima.Feed.{SyncEventRow, World, FeedState}
use mima.Feed.Shown.{Opened, IsShowable}

-- The item of a row belongs to the row's vault.
abbrev pub IsWritten : SyncEventRow → Type 0
IsWritten row = row.payload.item.vault_id ≡ row.vault_id

abbrev pub worlds_of : List (Option World × SyncEventRow) → List World
worlds_of [] = []
worlds_of ((none, row) ∷ rows) = worlds_of rows
worlds_of ((some w, row) ∷ rows) = w ∷ worlds_of rows

abbrev pub AreWritten : List (Option World × SyncEventRow) → Type 0
AreWritten rows = All (λ r. IsWritten r.1) rows

module _ (pkf : String → String) where
  -- What is known after an answer was opened before, and the answer shows only such vaults.
  abbrev Stays : List World → SessionUser → List String × SyncEvent → Type 0
  Stays ws u r = All (Opened pkf ws u) r.0 × IsShowable pkf ws u r.1

  -- What is known and what was sent was opened in one of the worlds.
  abbrev Clean : List World → SessionUser → FeedState → Type 0
  Clean ws u s = All (Opened pkf ws u) s.known × All (IsShowable pkf ws u) s.sent
