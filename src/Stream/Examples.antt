-- ===== src/Stream/Examples.antt =====
-- Runs of the frame readers of packages/client-core/src/sync.ts and encrypted-sync.ts.
use mima.Prelude.{
  Text, ◌≡◌, refl, [], ◌∷◌, ◌++◌, some, none, split_on, starts_with, join_with, trim,
}
use mima.Stream.{consume, consume_encrypted, frame_data, encrypted_frame_data}
use mima.Stream.Framing.{consume_chunking}
use mima.Stream.LineEnds.{IsLine, consume_encrypted_split}

-- 'id: 7\ndata: {}'
abbrev event : Text
event =
    b'i' ∷ b'd' ∷ b':' ∷ 32 ∷ b'7' ∷ 10 ∷ b'd' ∷ b'a' ∷ b't' ∷ b'a' ∷ b':' ∷ 32 ∷ b'{' ∷ b'}' ∷ []

-- ':ping'
abbrev ping : Text
ping = b':' ∷ b'p' ∷ b'i' ∷ b'n' ∷ b'g' ∷ []

event_data : frame_data event ≡ some (b'{' ∷ b'}' ∷ [])
unfolding frame_data split_on starts_with join_with trim
event_data = refl

ping_data : frame_data ping ≡ none
unfolding frame_data split_on starts_with join_with trim
ping_data = refl

-- An empty data line reaches the parser in one client and is skipped in the other.
empty_data :
    (frame_data (b'd' ∷ b'a' ∷ b't' ∷ b'a' ∷ b':' ∷ []) ≡ some [])
    × (encrypted_frame_data (b'd' ∷ b'a' ∷ b't' ∷ b'a' ∷ b':' ∷ []) ≡ none)
unfolding frame_data encrypted_frame_data split_on starts_with join_with trim
empty_data = (refl, refl)

two_frames :
    consume [] ((event ++ 10 ∷ []) ∷ (10 ∷ ping) ∷ (10 ∷ 10 ∷ b'x' ∷ []) ∷ [])
    ≡ (event ∷ ping ∷ [], b'x' ∷ [])
unfolding consume
two_frames = refl

consume_chunking_example :
    consume [] ((event ++ 10 ∷ []) ∷ (10 ∷ ping) ∷ []) ≡ consume [] ((event ++ 10 ∷ 10 ∷ ping) ∷ [])
consume_chunking_example =
    consume_chunking ((event ++ 10 ∷ []) ∷ (10 ∷ ping) ∷ []) ((event ++ 10 ∷ 10 ∷ ping) ∷ []) refl

ping-IsLine : IsLine ping
ping-IsLine = ((refl, refl), ((refl, refl), ((refl, refl), ((refl, refl), ((refl, refl), tt)))))

consume_encrypted_split_example :
    (consume_encrypted [] ((ping ++ 13 ∷ 10 ∷ 13 ∷ 10 ∷ []) ∷ []) ≡ (ping ∷ [], []))
    × (consume_encrypted [] ((ping ++ 13 ∷ 10 ∷ 13 ∷ []) ∷ (10 ∷ []) ∷ [])
        ≡ ([], ping ++ 10 ∷ 13 ∷ 10 ∷ []))
consume_encrypted_split_example = consume_encrypted_split ping ping-IsLine
