-- ===== src/Wire.antt =====
-- What apps/api/src/routes/events.ts writes to a stream, for packages/client-core/src/sync.ts to read.
-- The digits of a number and the members of an object's JSON text are the platform's.
pub mod Reading
pub mod Examples
use mima.Prelude.{ℕ, Text, Option, none, some, List, [], ◌∷◌, ◌++◌}
use mima.Stream.{frame_data}
use mima.Store.Events.{SyncEvent, event_cursor}

-- What `reply.raw.write` is called with: an event, the greeting, or a ping.
pub data Written : Type 0 where
  event : SyncEvent → Written
  connected ping : Written

module _ (digits : ℕ → Text) (members : SyncEvent → Text) where
  -- `JSON.stringify` of an event.
  unfoldable pub stringify : SyncEvent → Text
  stringify e = b'{' ∷ (members e ++ b'}' ∷ [])

  abbrev pub id_line : SyncEvent → Text
  id_line e = b'i' ∷ b'd' ∷ b':' ∷ 32 ∷ digits (event_cursor e)

  abbrev pub data_line : SyncEvent → Text
  data_line e = b'd' ∷ b'a' ∷ b't' ∷ b'a' ∷ b':' ∷ 32 ∷ stringify e

  -- A frame without the empty line that ends it.
  unfoldable pub frame_of : Written → Text
  unfolding stringify
  frame_of (event e) = id_line e ++ 10 ∷ data_line e
  frame_of connected = b':' ∷ b'c' ∷ b'o' ∷ b'n' ∷ b'n' ∷ b'e' ∷ b'c' ∷ b't' ∷ b'e' ∷ b'd' ∷ []
  frame_of ping = b':' ∷ b'p' ∷ b'i' ∷ b'n' ∷ b'g' ∷ []

  abbrev pub wire : List Written → Text
  wire [] = []
  wire (w ∷ ws) = frame_of w ++ 10 ∷ 10 ∷ wire ws

abbrev pub events_of : List Written → List SyncEvent
events_of [] = []
events_of (event e ∷ ws) = e ∷ events_of ws
events_of (connected ∷ ws) = events_of ws
events_of (ping ∷ ws) = events_of ws

-- `SyncClient.handleFrame`, for what the schema and the JSON parser make of a text; a frame that they
-- refuse is dropped.
unfoldable pub handle_frame : (Text → Option SyncEvent) → Text → Option SyncEvent
handle_frame parse frame = elim (frame_data frame) [ none ↦ none | some text ↦ parse text ]

abbrev pub prepend : Option SyncEvent → List SyncEvent → List SyncEvent
prepend none events = events
prepend (some e) events = e ∷ events

-- The events that the client applies, frame by frame.
unfoldable pub read_events : (Text → Option SyncEvent) → List Text → List SyncEvent
read_events parse [] = []
read_events parse (frame ∷ frames) = prepend (handle_frame parse frame) (read_events parse frames)
