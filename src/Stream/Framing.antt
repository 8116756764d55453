-- ===== src/Stream/Framing.antt =====
-- packages/client-core/src/sync.ts: how the network cuts the stream into chunks does not matter.
use mima.Prelude.{
  ℕ, zero, suc, ◌+◌, ◌≤◌, Text, ◌≡◌, refl, sym, ap, ◌∙◌, none, some, List, [], ◌∷◌, ◌++◌, arith,
  length, ◌==◌, ◌&&◌, nat_eq, Bool-cases, Option-cases, inl, inr,
}
use mathlib.Core.List.{append_assoc, append-nil}
use mima.Stream.{split_frame, frames_loop, take_frames, consume}

split_frame-append :
    (b c f r : Text) → split_frame b ≡ some (f, r) → split_frame (b ++ c) ≡ some (f, r ++ c)
unfolding split_frame
split_frame-append [] c f r h = cc
split_frame-append (x ∷ []) c f r h = cc
split_frame-append (x ∷ y ∷ b) c f r h = elim (Bool-cases (x == 10 && y == 10)) [
  | inl e ↦ rw e (ground arith)
  | inr e ↦ elim (Option-cases (split_frame (y ∷ b))) [
    | inl n ↦ cc (rw (e, n) at h)
    | inr ((g, s), n) ↦
        let parts : (x ∷ g ≡ f) × (s ≡ r) = ground arith in
        rw (e, split_frame-append (y ∷ b) c g s n, ← parts.0, ← parts.1)
  ]
]

length-split_frame : (b f r : Text) → split_frame b ≡ some (f, r) → length r + 2 ≤ length b
unfolding split_frame
length-split_frame [] f r h = cc
length-split_frame (x ∷ []) f r h = cc
length-split_frame (x ∷ y ∷ b) f r h = elim (Bool-cases (x == 10 && y == 10)) [
  | inl e ↦ let parts : b ≡ r = ground arith in rw (← parts) (omega arith)
  | inr e ↦ elim (Option-cases (split_frame (y ∷ b))) [
    | inl n ↦ cc (rw (e, n) at h)
    | inr ((g, s), n) ↦
        let parts : s ≡ r = ground arith in
        rw (← parts) (omega (arith, length-split_frame (y ∷ b) g s n))
  ]
]

-- Any fuel from the length of the buffer on gives the same frames.
frames_loop-enough :
    (n m : ℕ) (b : Text) → length b ≤ n → length b ≤ m → frames_loop n b ≡ frames_loop m b
unfolding frames_loop split_frame
frames_loop-enough zero zero b h k = refl
frames_loop-enough zero (suc m) [] h k = refl
frames_loop-enough zero (suc m) (x ∷ b) h k = absurd (omega arith)
frames_loop-enough (suc n) zero [] h k = refl
frames_loop-enough (suc n) zero (x ∷ b) h k = absurd (omega arith)
frames_loop-enough (suc n) (suc m) b h k = elim (Option-cases (split_frame b)) [
  | inl e ↦ rw (e, frames_loop)
  | inr ((f, r), e) ↦
      let shorter = length-split_frame b f r e in
      rw (e, frames_loop, frames_loop-enough n m r (omega arith) (omega arith))
]

frames_loop-none : (n : ℕ) (b : Text) → split_frame b ≡ none → frames_loop n b ≡ ([], b)
unfolding frames_loop
frames_loop-none zero b h = refl
frames_loop-none (suc n) b h = rw (h, frames_loop)

frames_loop-some :
    (n : ℕ) (b f r : Text)
    → split_frame b ≡ some (f, r)
    → frames_loop (suc n) b ≡ (f ∷ (frames_loop n r).0, (frames_loop n r).1)
unfolding frames_loop
frames_loop-some n b f r h = rw (h, frames_loop)

pub take_frames-none : (b : Text) → split_frame b ≡ none → take_frames b ≡ ([], b)
unfolding take_frames
take_frames-none b h = frames_loop-none (length b) b h

pub take_frames-some :
    (b f r : Text)
    → split_frame b ≡ some (f, r)
    → take_frames b ≡ (f ∷ (take_frames r).0, (take_frames r).1)
unfolding take_frames
take_frames-some b f r h =
    let shorter = length-split_frame b f r h in
    frames_loop-enough (length b) (suc (length b)) b (omega arith) (omega arith)
    ∙ frames_loop-some (length b) b f r h
    ∙ rw (frames_loop-enough (length b) (length r) r (omega arith) (omega arith))

-- Taking the frames of a longer buffer is taking those of its beginning first.
take_frames-append :
    (n : ℕ) (b c : Text)
    → length b ≤ n
    → take_frames (b ++ c) ≡ (
      (take_frames b).0 ++ (take_frames ((take_frames b).1 ++ c)).0,
      (take_frames ((take_frames b).1 ++ c)).1,
    )
unfolding split_frame
take_frames-append zero [] c h = rw (take_frames-none [] refl)
take_frames-append zero (x ∷ b) c h = absurd (omega arith)
take_frames-append (suc n) b c h = elim (Option-cases (split_frame b)) [
  | inl e ↦ rw (take_frames-none b e)
  | inr ((f, r), e) ↦
      let shorter = length-split_frame b f r e in
      rw (
        take_frames-some b f r e,
        take_frames-some (b ++ c) f (r ++ c) (split_frame-append b c f r e),
        take_frames-append n r c (omega arith),
      )
]

-- No frame is left in the buffer.
left-take_frames : (n : ℕ) (b : Text) → length b ≤ n → split_frame (take_frames b).1 ≡ none
unfolding split_frame
left-take_frames zero [] h = rw (take_frames-none [] refl)
left-take_frames zero (x ∷ b) h = absurd (omega arith)
left-take_frames (suc n) b h = elim (Option-cases (split_frame b)) [
  | inl e ↦ rw (take_frames-none b e) e
  | inr ((f, r), e) ↦
      let shorter = length-split_frame b f r e in
      rw (take_frames-some b f r e) (left-take_frames n r (omega arith))
]

abbrev pub concat : List Text → Text
concat [] = []
concat (t ∷ ts) = t ++ concat ts

pub consume-concat :
    (buffer : Text) (chunks : List Text)
    → split_frame buffer ≡ none
    → consume buffer chunks ≡ take_frames (buffer ++ concat chunks)
unfolding consume
consume-concat buffer [] h = rw append-nil (sym (take_frames-none buffer h))
consume-concat buffer (chunk ∷ chunks) h =
    let whole =
      take_frames-append (length (buffer ++ chunk)) (buffer ++ chunk) (concat chunks)
        (omega arith) in
    let left = left-take_frames (length (buffer ++ chunk)) (buffer ++ chunk) (omega arith) in
    rw (
      consume-concat (take_frames (buffer ++ chunk)).1 chunks left,
      ← append_assoc buffer chunk (concat chunks),
      whole,
    )

-- The frames that a client handles, and what stays in its buffer, depend on the text of the stream
-- alone, and not on how it comes in chunks.
pub consume_chunking :
    (chunks others : List Text)
    → concat chunks ≡ concat others
    → consume [] chunks ≡ consume [] others
unfolding split_frame
consume_chunking chunks others e =
    consume-concat [] chunks refl ∙ ap take_frames e ∙ sym (consume-concat [] others refl)
