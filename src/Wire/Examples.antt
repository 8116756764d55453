-- ===== src/Wire/Examples.antt =====
-- A greeting, an event and a ping in three chunks, as apps/api/src/routes/events.ts writes them.
use mima.Prelude.{ℕ, Text, Option, some, List, [], ◌∷◌, ◌++◌, ◌≡◌, refl, nat_eq}
use mima.Store.Events.{SyncEvent, sync_cursor}
use mima.Stream.{consume}
use mima.Stream.Framing.{concat}
use mima.Wire.{Written, event, connected, ping, frame_of, wire, read_events}
use mima.Wire.Reading.{OneLine, read_events-consume}

abbrev seven : ℕ → Text
seven n = b'7' ∷ []

-- '"cursor":7'
abbrev cursor_member : SyncEvent → Text
cursor_member e = 34 ∷ b'c' ∷ b'u' ∷ b'r' ∷ b's' ∷ b'o' ∷ b'r' ∷ 34 ∷ b':' ∷ b'7' ∷ []

abbrev parse_cursor : Text → Option SyncEvent
parse_cursor t = some (sync_cursor 7)

abbrev written : List Written
written = connected ∷ event (sync_cursor 7) ∷ ping ∷ []

seven-OneLine : (n : ℕ) → OneLine (seven n)
seven-OneLine n = (refl, tt)

cursor_member-OneLine : (e : SyncEvent) → OneLine (cursor_member e)
cursor_member-OneLine e =
    (refl, (refl, (refl, (refl, (refl, (refl, (refl, (refl, (refl, (refl, tt))))))))))

-- The first chunk ends inside the first line end.
abbrev chunks : List Text
chunks =
    (frame_of seven cursor_member connected ++ 10 ∷ [])
    ∷ (10 ∷ [])
    ∷ wire seven cursor_member (event (sync_cursor 7) ∷ ping ∷ [])
    ∷ []

chunks-wire : concat chunks ≡ wire seven cursor_member written
unfolding frame_of
chunks-wire = refl

read_events-consume_example :
    (read_events parse_cursor (consume [] chunks).0 ≡ sync_cursor 7 ∷ [])
    × ((consume [] chunks).1 ≡ [])
read_events-consume_example =
    read_events-consume seven cursor_member seven-OneLine cursor_member-OneLine parse_cursor written
      chunks (refl, tt) chunks-wire
