-- ===== src/Stream.antt =====
-- The event streams of packages/client-core/src/sync.ts and encrypted-sync.ts: how a stream of
-- decoded chunks is cut into frames, and the data of a frame. The text decoder gives the chunks.
pub mod Framing
pub mod LineEnds
pub mod Examples
use mima.Prelude.{
  ℕ, zero, suc, Text, Bool, true, false, Option, none, some, List, [], ◌∷◌, ◌++◌, map, length,
  if◌then◌else◌, ◌==◌, ◌&&◌, nat_eq, keep, trim, starts_with, split_on, join_with,
}
use mathlib.Core.Option

-- `indexOf('\n\n')` with both slices: what stands before the first empty line, and after it.
unfoldable pub split_frame : Text → Option (Text × Text)
split_frame [] = none
split_frame (c ∷ []) = none
split_frame (c ∷ d ∷ t) =
    let rest = split_frame (d ∷ t) in
    if c == 10 && d == 10 then some ([], t) else Option.map (λ p. (c ∷ p.0, p.1)) rest

-- `while ((sep = buffer.indexOf('\n\n')) >= 0)`: the frames, and the buffer that is left. Each round
-- takes two units at least, so the buffer's length is fuel enough.
pub frames_loop : ℕ → Text → List Text × Text
frames_loop zero buffer = ([], buffer)
frames_loop (suc fuel) buffer = elim (split_frame buffer) [
  | none ↦ ([], buffer)
  | some (frame, rest) ↦ let (frames, left) = frames_loop fuel rest in (frame ∷ frames, left)
]

unfoldable pub take_frames : Text → List Text × Text
unfolding frames_loop split_frame
take_frames buffer = frames_loop (length buffer) buffer

-- `SyncClient.consume` from a buffer on: all frames that are handled, and the buffer at the end.
unfoldable pub consume : Text → List Text → List Text × Text
unfolding take_frames
consume buffer [] = ([], buffer)
consume buffer (chunk ∷ chunks) =
    let (frames, left) = take_frames (buffer ++ chunk) in
    let (later, final) = consume left chunks in (frames ++ later, final)

-- `replaceAll('\r\n', '\n')`
unfoldable pub replace_crlf : Text → Text
replace_crlf [] = []
replace_crlf (c ∷ []) = c ∷ []
replace_crlf (c ∷ d ∷ t) =
    let rest = replace_crlf (d ∷ t) in
    let skipped = replace_crlf t in if c == 13 && d == 10 then 10 ∷ skipped else c ∷ rest

-- `EncryptedSyncClient.consume`, as long as the client is not stopped and no frame is refused: each
-- chunk is rewritten alone.
unfoldable pub consume_encrypted : Text → List Text → List Text × Text
unfolding consume replace_crlf
consume_encrypted buffer chunks = consume buffer (map replace_crlf chunks)

-- 'data:'
abbrev pub data_prefix : Text
data_prefix = b'd' ∷ b'a' ∷ b't' ∷ b'a' ∷ b':' ∷ []

-- `line.slice(5)` of a line that begins with the prefix.
abbrev pub after_prefix : Text → Text
after_prefix (a ∷ b ∷ c ∷ d ∷ e ∷ t) = t
after_prefix t = []

unfoldable pub data_lines : Text → List Text
data_lines frame =
    map (λ line. trim (after_prefix line))
      (keep (λ line. starts_with line data_prefix) (split_on 10 frame))

-- What `SyncClient.handleFrame` gives to the parser; none for a comment or a ping.
unfoldable pub frame_data : Text → Option Text
unfolding data_lines
frame_data frame = elim (data_lines frame) [
  | [] ↦ none
  | line ∷ lines ↦ some (join_with 10 (line ∷ lines))
]

-- What `EncryptedSyncClient.handleFrame` gives to the parser; none if it is empty.
unfoldable pub encrypted_frame_data : Text → Option Text
unfolding data_lines
encrypted_frame_data frame = elim (join_with 10 (data_lines frame)) [
  | [] ↦ none
  | c ∷ t ↦ some (c ∷ t)
]
