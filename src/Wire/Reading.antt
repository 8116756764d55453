-- ===== src/Wire/Reading.antt =====
-- What the server writes is what the client of packages/client-core/src/sync.ts reads.
use mima.Prelude.{
  ℕ, Text, Bool, true, false, not, ◌&&◌, Option, none, some, List, [], ◌∷◌, ◌++◌, map, ◌≡◌, refl,
  ap, ◌∙◌, inl, inr, arith, ◌==◌, nat_eq, All, All-append, keep, trim, trim_start, trim_end,
  starts_with, split_on, join_with, is_space, Bool-cases,
}
use mima.Store.Events.{SyncEvent}
use mima.Stream.{
  split_frame, take_frames, consume, frame_data, data_lines, data_prefix, after_prefix,
}
use mima.Stream.Framing.{concat, consume-concat, take_frames-none, take_frames-some}
use mima.Wire.{
  Written, event, connected, ping, stringify, handle_frame, read_events, frame_of, wire, events_of,
  id_line, data_line,
}

-- Text of one line.
abbrev pub OneLine : Text → Type 0
OneLine t = All (λ c. (c == 10) ≡ false) t

-- No empty line, and no line end at the end.
abbrev is_body : Text → Bool
is_body [] = true
is_body (c ∷ []) = not (c == 10)
is_body (c ∷ d ∷ t) = not (c == 10 && d == 10) && is_body (d ∷ t)

split_frame-body : (t u : Text) → is_body t ≡ true → split_frame (t ++ 10 ∷ 10 ∷ u) ≡ some (t, u)
unfolding split_frame
split_frame-body [] u h = refl
split_frame-body (c ∷ []) u h = ground (arith, h)
split_frame-body (c ∷ d ∷ t) u h = elim (Bool-cases (c == 10 && d == 10)) [
  | inl e ↦ cc (rw e at h)
  | inr e ↦ rw (e, split_frame-body (d ∷ t) u (ground (arith, h)))
]

is_body-line : (t : Text) → OneLine t → is_body t ≡ true
is_body-line [] h = refl
is_body-line (c ∷ []) h = rw h.0 refl
is_body-line (c ∷ d ∷ t) h = rw h.0 (is_body-line (d ∷ t) h.1)

-- Two lines, the second not empty.
is_body-lines :
    (t : Text) (c : ℕ) (u : Text) → OneLine t → OneLine (c ∷ u) → is_body (t ++ 10 ∷ c ∷ u) ≡ true
is_body-lines [] c u h k = rw k.0 (is_body-line (c ∷ u) k)
is_body-lines (a ∷ []) c u h k = rw (h.0, k.0) (is_body-line (c ∷ u) k)
is_body-lines (a ∷ b ∷ t) c u h k = rw h.0 (is_body-lines (b ∷ t) c u h.1 k)

split_on-line : (t : Text) → OneLine t → split_on 10 t ≡ t ∷ []
unfolding split_on
split_on-line [] h = refl
split_on-line (c ∷ t) h = rw (split_on-line t h.1, h.0)

split_on-lines : (t u : Text) → OneLine t → split_on 10 (t ++ 10 ∷ u) ≡ t ∷ split_on 10 u
unfolding split_on
split_on-lines [] u h = refl
split_on-lines (c ∷ t) u h = rw (split_on-lines t u h.1, h.0)

-- A text that ends in no space keeps its end.
trim_end-last : (t : Text) (c : ℕ) → is_space c ≡ false → trim_end (t ++ c ∷ []) ≡ t ++ c ∷ []
unfolding trim_end
trim_end-last [] c h = rw h
trim_end-last (d ∷ []) c h = rw (trim_end-last [] c h, trim_end) refl
trim_end-last (d ∷ e ∷ t) c h = rw (trim_end-last (e ∷ t) c h, trim_end) refl

module _ (digits : ℕ → Text) (members : SyncEvent → Text) where
  module _ (digits-OneLine : (n : ℕ) → OneLine (digits n))
      (members-OneLine : (e : SyncEvent) → OneLine (members e)) where
    OneLine-stringify : (e : SyncEvent) → OneLine (stringify digits members e)
    unfolding stringify
    OneLine-stringify e = (
      refl,
      All-append (λ c. (c == 10) ≡ false) (members e) (b'}' ∷ []) (members-OneLine e) (refl, tt),
    )

    OneLine-id_line : (e : SyncEvent) → OneLine (id_line digits members e)
    OneLine-id_line e = (refl, (refl, (refl, (refl, digits-OneLine _))))

    OneLine-data_line : (e : SyncEvent) → OneLine (data_line digits members e)
    OneLine-data_line e = (refl, (refl, (refl, (refl, (refl, (refl, OneLine-stringify e))))))

    is_body-frame_of : (w : Written) → is_body (frame_of digits members w) ≡ true
    unfolding frame_of
    is_body-frame_of (event e) =
        is_body-lines (id_line digits members e) b'd' _ (OneLine-id_line e) (OneLine-data_line e)
    is_body-frame_of connected = refl
    is_body-frame_of ping = refl

    take_frames-wire :
        (ws : List Written)
        → take_frames (wire digits members ws) ≡ (map (frame_of digits members) ws, [])
    take_frames-wire [] = take_frames-none [] (unfold split_frame in refl)
    take_frames-wire (w ∷ ws) =
        let cut =
          split_frame-body (frame_of digits members w) (wire digits members ws)
            (is_body-frame_of w) in
        take_frames-some _ _ _ cut ∙ rw (take_frames-wire ws)

    trim-stringify :
        (e : SyncEvent) → trim (32 ∷ stringify digits members e) ≡ stringify digits members e
    unfolding trim trim_start stringify
    trim-stringify e = trim_end-last (b'{' ∷ members e) b'}' refl

    data_lines-event :
        (e : SyncEvent)
        → data_lines (frame_of digits members (event e)) ≡ stringify digits members e ∷ []
    unfolding data_lines frame_of starts_with
    data_lines-event e =
        let first = id_line digits members e in
        let second = data_line digits members e in
        let split : split_on 10 (first ++ 10 ∷ second) ≡ first ∷ second ∷ [] =
          split_on-lines first second (OneLine-id_line e)
          ∙ ap (λ ls. first ∷ ls) (split_on-line second (OneLine-data_line e)) in
        ap
          (λ ls.
            map (λ line. trim (after_prefix line)) (keep (λ line. starts_with line data_prefix) ls))
          split
        ∙ ap (λ t. t ∷ []) (trim-stringify e)

    frame_data-event :
        (e : SyncEvent)
        → frame_data (frame_of digits members (event e)) ≡ some (stringify digits members e)
    unfolding join_with
    frame_data-event e = unfold frame_data in rw (data_lines-event e, frame_data)

    module _ (parse : Text → Option SyncEvent) where
      read_events-frame_of :
          (ws : List Written)
          → All (λ e. parse (stringify digits members e) ≡ some e) (events_of ws)
          → read_events parse (map (frame_of digits members) ws) ≡ events_of ws
      unfolding read_events handle_frame
      read_events-frame_of [] h = refl
      read_events-frame_of (event e ∷ ws) h =
          rw (frame_data-event e, h.0, read_events-frame_of ws h.1, handle_frame) refl
      read_events-frame_of (connected ∷ ws) h =
          let comment : frame_data (frame_of digits members connected) ≡ none =
            unfold frame_data frame_of starts_with split_on in refl in
          rw (comment, read_events-frame_of ws h, handle_frame) refl
      read_events-frame_of (ping ∷ ws) h =
          let comment : frame_data (frame_of digits members ping) ≡ none =
            unfold frame_data frame_of starts_with split_on in refl in
          rw (comment, read_events-frame_of ws h, handle_frame) refl

      -- However the network cuts what the server wrote into chunks, the client reads the events that
      -- were written, in order, and nothing stays in its buffer; the greeting and the pings are passed
      -- over. The digits of a number and the members of a JSON text hold no line feed, and the
      -- parser gives each written event back from its JSON text.
      pub read_events-consume :
          (ws : List Written) (chunks : List Text)
          → All (λ e. parse (stringify digits members e) ≡ some e) (events_of ws)
          → concat chunks ≡ wire digits members ws
          → (read_events parse (consume [] chunks).0 ≡ events_of ws) × ((consume [] chunks).1 ≡ [])
      read_events-consume ws chunks back h =
          let whole : consume [] chunks ≡ (map (frame_of digits members) ws, []) =
            consume-concat [] chunks (unfold split_frame in refl)
            ∙ (ap take_frames h ∙ take_frames-wire ws) in
          rw whole (read_events-frame_of ws back, refl)
