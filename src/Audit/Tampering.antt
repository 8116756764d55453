-- ===== src/Audit/Tampering.antt =====
-- packages/crypto/src/audit-chain.ts and apps/api/src/services/audit.ts: two chains that check and
-- end in one hash tell one history.
use mima.Prelude.{
  ◌≡◌, ◌≢◌, refl, sym, ap, ap₂, subst, ◌∙◌, ◌⊎◌, inl, inr, List, [], ◌∷◌, ◌++◌, map, arith, In,
  In-cons, here, there, All,
}
use mima.Json.{Text, canonical_json}
use mima.Anchor.{ok}
use mima.Audit.{
  AuditEvent, audit_chain_genesis, input_json, compute_audit_hash, message, check_rows,
}
use mima.Json.Words.{FieldsHaveNumbers}
use mima.Audit.Hashed.{SameContent, canonical_json-SameContent}
use mima.Audit.Chain.{check_rows-cons}

-- No line break occurs in the text, as in a hash written in hexadecimal.
abbrev pub IsOneLine : Text → Type 0
IsOneLine t = All (λ c. c ≢ 10) t

-- A text before the first line break is determined, and so is the text behind it.
split_at_line :
    (a b c d : Text) → IsOneLine a → IsOneLine b → a ++ 10 ∷ c ≡ b ++ 10 ∷ d → (a ≡ b) × (c ≡ d)
split_at_line [] [] c d h k e = (refl, cc)
split_at_line [] (y ∷ b) c d h k e = absurd (k.0 (cc))
split_at_line (x ∷ a) [] c d h k e = absurd (h.0 (cc))
split_at_line (x ∷ a) (y ∷ b) c d h k e =
    let rest = split_at_line a b c d h.1 k.1 (cc) in (ground arith, rest.1)

-- The newest first.
abbrev pub newest_first : List AuditEvent → List AuditEvent → List AuditEvent
newest_first seen [] = seen
newest_first seen (row ∷ rows) = newest_first (row ∷ seen) rows

In-newest_first :
    {r : AuditEvent} (seen rows : List AuditEvent)
    → In r (newest_first seen rows)
    → In r seen ⊎ In r rows
In-newest_first seen [] i = inl i
In-newest_first seen (row ∷ rows) i = elim (In-newest_first (row ∷ seen) rows i) [
  | inr j ↦ inr (there j)
  | inl j ↦ elim (In-cons j) [ inl e ↦ inr (rw e here) | inr k ↦ inl k ]
]

In-of_newest_first :
    {r : AuditEvent} (rows : List AuditEvent) → In r (newest_first [] rows) → In r rows
In-of_newest_first rows i = elim (In-newest_first [] rows i) [ inl j ↦ elim j [ ] | inr j ↦ j ]

genesis_line : IsOneLine audit_chain_genesis
genesis_line = omega arith

-- The numbers in the details are printed like numbers.
abbrev pub HaveDetails : List AuditEvent → Type 0
HaveDetails rows = (r : AuditEvent) → In r rows → FieldsHaveNumbers r.content.details

head_eq : {x y : Text} {xs ys : List Text} → x ∷ xs ≡ y ∷ ys → x ≡ y
head_eq e = cc

tail_eq : {x y : Text} {xs ys : List Text} → x ∷ xs ≡ y ∷ ys → xs ≡ ys
tail_eq e = cc

module _ (hmac : Text → Text) (quote : Text → Text) where
  check_rows-nil : (p q : Text) → check_rows hmac quote p [] ≡ ok q → p ≡ q
  unfolding check_rows
  check_rows-nil p q h = cc

  -- What is hashed of a record.
  abbrev pub content_of : AuditEvent → Text
  content_of row = canonical_json quote (input_json row.content)

  -- The message whose HMAC the check of a record takes.
  abbrev pub message_of : AuditEvent → Text
  message_of row = message hmac quote row.prev_hash row.content

  -- The chain read backwards from a hash.
  abbrev Backward : List AuditEvent → Text → Type 0
  Backward [] h = h ≡ audit_chain_genesis
  Backward (row ∷ older) h = (h ≡ hmac (message_of row)) × Backward older row.prev_hash

  Backward-check_rows :
      (p q : Text) (seen rows : List AuditEvent)
      → check_rows hmac quote p rows ≡ ok q
      → Backward seen p
      → Backward (newest_first seen rows) q
  unfolding compute_audit_hash
  Backward-check_rows p q seen [] h b = subst (Backward seen) (check_rows-nil p q h) b
  Backward-check_rows p q seen (row ∷ rows) h b =
      let (linked, right, rest) = check_rows-cons hmac quote p q row rows h in
      Backward-check_rows row.hash q (row ∷ seen) rows rest (
        right ∙ ap (λ t. hmac (message hmac quote t row.content)) (sym linked),
        subst (Backward seen) (sym linked) b,
      )

  -- No two different messages of two histories have one HMAC.
  abbrev pub CollisionFree : List AuditEvent → List AuditEvent → Type 0
  CollisionFree rows others =
      (r s : AuditEvent)
      → In r rows
      → In s others
      → hmac (message_of r) ≡ hmac (message_of s)
      → message_of r ≡ message_of s

  -- The records of two histories have, one by one, the same content.
  unfoldable pub SameHistory : List AuditEvent → List AuditEvent → Type 0
  SameHistory [] [] = Unit
  SameHistory [] (y ∷ ys) = ⊥
  SameHistory (x ∷ xs) [] = ⊥
  SameHistory (x ∷ xs) (y ∷ ys) = SameContent quote x.content y.content × SameHistory xs ys

  module _ (one_line : (m : Text) → IsOneLine (hmac m))
      (not_genesis : (m : Text) → hmac m ≢ audit_chain_genesis) where
    Backward-IsOneLine : (rows : List AuditEvent) (h : Text) → Backward rows h → IsOneLine h
    Backward-IsOneLine [] h b = subst IsOneLine (sym b) genesis_line
    Backward-IsOneLine (row ∷ rows) h b = subst IsOneLine (sym b.0) (one_line (message_of row))

    Backward-agree :
        (xs ys : List AuditEvent) (h : Text)
        → CollisionFree xs ys
        → Backward xs h
        → Backward ys h
        → map content_of xs ≡ map content_of ys
    Backward-agree [] [] h free b c = refl
    Backward-agree [] (y ∷ ys) h free b c = absurd (not_genesis _ (sym c.0 ∙ b))
    Backward-agree (x ∷ xs) [] h free b c = absurd (not_genesis _ (sym b.0 ∙ c))
    Backward-agree (x ∷ xs) (y ∷ ys) h free b c =
        let same = free x y here here (sym b.0 ∙ c.0) in
        let (prev, content) =
          split_at_line x.prev_hash y.prev_hash (content_of x) (content_of y)
            (Backward-IsOneLine xs x.prev_hash b.1) (Backward-IsOneLine ys y.prev_hash c.1) same in
        let rest =
          Backward-agree xs ys x.prev_hash (λ r s i j. free r s (there i) (there j)) b.1
            (subst (Backward ys) (sym prev) c.1) in
        ap₂ (λ t ts. t ∷ ts) content rest

    Backward-same_texts :
        (rows others : List AuditEvent) (h : Text)
        → CollisionFree rows others
        → check_rows hmac quote audit_chain_genesis rows ≡ ok h
        → check_rows hmac quote audit_chain_genesis others ≡ ok h
        → map content_of (newest_first [] rows) ≡ map content_of (newest_first [] others)
    Backward-same_texts rows others h free v w =
        Backward-agree (newest_first [] rows) (newest_first [] others) h
          (λ r s i j. free r s (In-of_newest_first rows i) (In-of_newest_first others j))
          (Backward-check_rows audit_chain_genesis h [] rows v refl)
          (Backward-check_rows audit_chain_genesis h [] others w refl)

    module _ (quote_delimits : (a b r s : Text) → quote a ++ r ≡ quote b ++ s → (a ≡ b) × (r ≡ s))
        (quote_begins : (a : Text) → (u : Text) × (quote a ≡ b'"' ∷ u)) where
      SameHistory-same_texts :
          (xs ys : List AuditEvent)
          → ((r : AuditEvent) → In r xs → FieldsHaveNumbers r.content.details)
          → ((r : AuditEvent) → In r ys → FieldsHaveNumbers r.content.details)
          → map content_of xs ≡ map content_of ys
          → SameHistory xs ys
      unfolding SameHistory
      SameHistory-same_texts [] [] n m e = tt
      SameHistory-same_texts [] (y ∷ ys) n m e = cc
      SameHistory-same_texts (x ∷ xs) [] n m e = cc
      SameHistory-same_texts (x ∷ xs) (y ∷ ys) n m e = (
        canonical_json-SameContent quote quote_delimits quote_begins x.content y.content (n x here)
            (m y here) (head_eq e),
        SameHistory-same_texts xs ys (λ r i. n r (there i)) (λ r i. m r (there i)) (tail_eq e),
      )

      -- Two histories that pass the check and end in one hash hold the same records, newest first and
      -- one for one: each with the same time, user, action, vault, item and success, and the same
      -- hashed text of its details; only the row ids, which are not hashed, may differ. No two
      -- messages of the two histories have one HMAC, an HMAC is one line and not the text `genesis`, a
      -- text begins with the quoted form of at most one text, which begins with a quotation mark, and
      -- the numbers of the details are printed with digits, signs, points and exponents.
      pub check_rows_tamper_evident :
          (rows others : List AuditEvent) (h : Text)
          → CollisionFree rows others
          → HaveDetails rows
          → HaveDetails others
          → check_rows hmac quote audit_chain_genesis rows ≡ ok h
          → check_rows hmac quote audit_chain_genesis others ≡ ok h
          → SameHistory (newest_first [] rows) (newest_first [] others)
      check_rows_tamper_evident rows others h free n m v w =
          SameHistory-same_texts (newest_first [] rows) (newest_first [] others)
            (λ r i. n r (In-of_newest_first rows i)) (λ r i. m r (In-of_newest_first others i))
            (Backward-same_texts rows others h free v w)
