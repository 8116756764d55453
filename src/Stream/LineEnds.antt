-- ===== src/Stream/LineEnds.antt =====
-- packages/client-core/src/encrypted-sync.ts: each chunk has its line ends rewritten alone, so here
-- the place of a chunk's end can matter.
use mima.Prelude.{
  ℕ, Text, ◌≡◌, refl, sym, ap, ◌∙◌, Bool, true, false, none, some, List, [], ◌∷◌, ◌++◌, map,
  if◌then◌else◌, ◌==◌, ◌&&◌, nat_eq, Bool-cases, inl, inr, All,
}
use mathlib.Core.List.{append_assoc, append-nil}
use mima.Stream.{take_frames, replace_crlf, consume_encrypted, split_frame}
use mima.Stream.Framing.{
  concat, consume-concat, take_frames-none, take_frames-some, consume_chunking,
}

-- The text does not end in a carriage return.
abbrev pub whole_line_end : Text → Bool
whole_line_end [] = true
whole_line_end (c ∷ []) = if c == 13 then false else true
whole_line_end (c ∷ d ∷ t) = whole_line_end (d ∷ t)

whole_line_end-tail : (d : ℕ) (t : Text) → whole_line_end (d ∷ t) ≡ true → whole_line_end t ≡ true
whole_line_end-tail d [] h = refl
whole_line_end-tail d (e ∷ t) h = h

replace_crlf-append :
    (t u : Text)
    → whole_line_end t ≡ true
    → replace_crlf (t ++ u) ≡ replace_crlf t ++ replace_crlf u
unfolding replace_crlf
replace_crlf-append [] u h = refl
replace_crlf-append (c ∷ []) [] h = refl
replace_crlf-append (c ∷ []) (d ∷ u) h = elim (Bool-cases (c == 13)) [
  | inl e ↦ cc (rw e at h)
  | inr e ↦ rw e
]
replace_crlf-append (c ∷ d ∷ t) u h = elim (Bool-cases (c == 13 && d == 10)) [
  | inl e ↦ rw (e, replace_crlf-append t u (whole_line_end-tail d t h))
  | inr e ↦ rw (e, replace_crlf-append (d ∷ t) u h)
]

concat-replace_crlf :
    (chunks : List Text)
    → All (λ t. whole_line_end t ≡ true) chunks
    → concat (map replace_crlf chunks) ≡ replace_crlf (concat chunks)
unfolding replace_crlf
concat-replace_crlf [] h = refl
concat-replace_crlf (t ∷ ts) h =
    rw (concat-replace_crlf ts h.1) (sym (replace_crlf-append t (concat ts) h.0))

-- If no chunk ends in a carriage return, then the frames that the encrypted client handles depend on
-- the text of the stream alone.
pub consume_encrypted_chunking :
    (chunks others : List Text)
    → All (λ t. whole_line_end t ≡ true) chunks
    → All (λ t. whole_line_end t ≡ true) others
    → concat chunks ≡ concat others
    → consume_encrypted [] chunks ≡ consume_encrypted [] others
unfolding consume_encrypted
consume_encrypted_chunking chunks others h k e =
    consume_chunking (map replace_crlf chunks) (map replace_crlf others)
      (concat-replace_crlf chunks h ∙ ap replace_crlf e ∙ sym (concat-replace_crlf others k))

-- A text of one line.
abbrev pub IsLine : Text → Type 0
IsLine t = All (λ c. ((c == 10) ≡ false) × ((c == 13) ≡ false)) t

replace_crlf-line :
    (t u : Text) → IsLine t → replace_crlf (t ++ 13 ∷ 10 ∷ u) ≡ t ++ 10 ∷ replace_crlf u
unfolding replace_crlf
replace_crlf-line [] u h = refl
replace_crlf-line (c ∷ []) u h = rw (h.0.1, replace_crlf)
replace_crlf-line (c ∷ d ∷ t) u h = rw (h.0.1, replace_crlf-line (d ∷ t) u h.1)

split_frame-line : (t u : Text) → IsLine t → split_frame (t ++ 10 ∷ 10 ∷ u) ≡ some (t, u)
unfolding split_frame
split_frame-line [] u h = refl
split_frame-line (c ∷ []) u h = rw h.0.0
split_frame-line (c ∷ d ∷ t) u h = rw (h.0.0, split_frame-line (d ∷ t) u h.1)

split_frame-open : (t : Text) → IsLine t → split_frame (t ++ 10 ∷ 13 ∷ 10 ∷ []) ≡ none
unfolding split_frame
split_frame-open [] h = refl
split_frame-open (c ∷ []) h = rw h.0.0
split_frame-open (c ∷ d ∷ t) h = rw (h.0.0, split_frame-open (d ∷ t) h.1)

consume_encrypted-whole :
    (chunks : List Text)
    → consume_encrypted [] chunks ≡ take_frames (concat (map replace_crlf chunks))
unfolding consume_encrypted split_frame
consume_encrypted-whole chunks = consume-concat [] (map replace_crlf chunks) refl

-- A one-line frame that ends in two CRLF is handled if it comes in one chunk. If the chunk ends
-- before the last line feed, then the encrypted client handles nothing, and the frame stays in its
-- buffer together with a carriage return.
pub consume_encrypted_split :
    (t : Text)
    → IsLine t
    → (consume_encrypted [] ((t ++ 13 ∷ 10 ∷ 13 ∷ 10 ∷ []) ∷ []) ≡ (t ∷ [], []))
      × (consume_encrypted [] ((t ++ 13 ∷ 10 ∷ 13 ∷ []) ∷ (10 ∷ []) ∷ [])
          ≡ ([], t ++ 10 ∷ 13 ∷ 10 ∷ []))
unfolding replace_crlf split_frame
consume_encrypted_split t h =
    let whole = t ++ 13 ∷ 10 ∷ 13 ∷ 10 ∷ [] in
    let cut = t ++ 13 ∷ 10 ∷ 13 ∷ [] in
    (
      consume_encrypted-whole (whole ∷ [])
          ∙ rw (append-nil, replace_crlf-line t (13 ∷ 10 ∷ []) h)
              (take_frames-some (t ++ 10 ∷ 10 ∷ []) t [] (split_frame-line t [] h)
                ∙ rw (take_frames-none [] refl)),
      consume_encrypted-whole (cut ∷ (10 ∷ []) ∷ [])
          ∙ rw (replace_crlf-line t (13 ∷ []) h, append_assoc)
              (take_frames-none (t ++ 10 ∷ 13 ∷ 10 ∷ []) (split_frame-open t h)),
    )
