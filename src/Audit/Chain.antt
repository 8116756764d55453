-- ===== src/Audit/Chain.antt =====
-- apps/api/src/services/audit.ts: what the check of the chain accepts, and that it accepts a record
-- that `appendAudit` adds.
use mima.Prelude.{
  ◌≡◌, refl, sym, ap, ◌∙◌, true, Option, none, some, List, [], ◌∷◌, ◌++◌, arith, nat_eq,
  nat_beq_iff, Bool-cases, inl, inr,
}
use mima.Json.{Text}
use mima.Anchor.{ok, same_text}
use mima.Audit.{AuditEvent, hash_by_id, last_row, compute_audit_hash, check_rows}

pub same_text-eq : (a b : Text) → same_text a b ≡ true → a ≡ b
unfolding same_text
same_text-eq [] [] h = refl
same_text-eq [] (y ∷ ys) h = cc
same_text-eq (x ∷ xs) [] h = cc
same_text-eq (x ∷ xs) (y ∷ ys) h = ground (arith, same_text-eq xs ys)

pub same_text_refl : (a : Text) → same_text a a ≡ true
unfolding same_text
same_text_refl [] = refl
same_text_refl (x ∷ xs) = ground (arith, same_text_refl xs)

pub last_row-append :
    (rows : List AuditEvent) (row : AuditEvent) → last_row (rows ++ row ∷ []) ≡ some row
unfolding last_row
last_row-append [] row = refl
last_row-append (r ∷ []) row = refl
last_row-append (r ∷ s ∷ rows) row = last_row-append (s ∷ rows) row

pub hash_by_id-append :
    (rows : List AuditEvent) (row : AuditEvent)
    → hash_by_id row.id (rows ++ row ∷ []) ≡ some row.hash
unfolding hash_by_id
hash_by_id-append [] row = ground (arith, nat_beq_iff row.id row.id)
hash_by_id-append (r ∷ rows) row = rw (hash_by_id-append rows row)

pub hash_by_id-last_row :
    (rows : List AuditEvent) (head : AuditEvent)
    → last_row rows ≡ some head
    → hash_by_id head.id rows ≡ some head.hash
unfolding hash_by_id last_row
hash_by_id-last_row [] head h = cc
hash_by_id-last_row (r ∷ []) head h = ground arith
hash_by_id-last_row (r ∷ s ∷ rows) head h = ground (arith, hash_by_id-last_row (s ∷ rows) head)

abbrev pub hash_or : Text → Option AuditEvent → Text
hash_or p none = p
hash_or p (some row) = row.hash

-- A list with a row has a last one, so the other text does not matter.
hash_or-last_row :
    (p q : Text) (r : AuditEvent) (rows : List AuditEvent)
    → hash_or p (last_row (r ∷ rows)) ≡ hash_or q (last_row (r ∷ rows))
unfolding last_row
hash_or-last_row p q r [] = refl
hash_or-last_row p q r (s ∷ rows) = hash_or-last_row p q s rows

module _ (hmac : Text → Text) (quote : Text → Text) where
  -- A row passes exactly if it links to the hash before it and its own hash is right.
  pub check_rows-cons :
      (p q : Text) (r : AuditEvent) (rows : List AuditEvent)
      → check_rows hmac quote p (r ∷ rows) ≡ ok q
      → (r.prev_hash ≡ p)
        × (r.hash ≡ compute_audit_hash hmac quote p r.content)
        × (check_rows hmac quote r.hash rows ≡ ok q)
  unfolding check_rows
  check_rows-cons p q r rows h = elim (Bool-cases (same_text r.prev_hash p)) [
    | inr e ↦ cc (rw e at h)
    | inl e ↦ elim (Bool-cases (same_text r.hash (compute_audit_hash hmac quote p r.content))) [
      | inr f ↦ cc (rw (e, f) at h)
      | inl f ↦ (same_text-eq _ _ e, same_text-eq _ _ f, rw (e, f) at h)
    ]
  ]

  check_rows-cons_of :
      (p : Text) (r : AuditEvent) (rows : List AuditEvent)
      → r.prev_hash ≡ p
      → r.hash ≡ compute_audit_hash hmac quote p r.content
      → check_rows hmac quote p (r ∷ rows) ≡ check_rows hmac quote r.hash rows
  unfolding check_rows
  check_rows-cons_of p r rows e f =
      let linked : same_text r.prev_hash p ≡ true = ap (λ t. same_text t p) e ∙ same_text_refl p in
      let right : same_text r.hash (compute_audit_hash hmac quote p r.content) ≡ true =
        ap (λ t. same_text t (compute_audit_hash hmac quote p r.content)) f ∙ same_text_refl _ in
      rw (linked, right)

  -- The check ends with the hash of the last row, or with the one that it began with.
  pub check_rows-last_row :
      (p q : Text) (rows : List AuditEvent)
      → check_rows hmac quote p rows ≡ ok q
      → q ≡ hash_or p (last_row rows)
  unfolding check_rows last_row
  check_rows-last_row p q [] h = cc
  check_rows-last_row p q (r ∷ []) h = cc ((check_rows-cons p q r [] h).2)
  check_rows-last_row p q (r ∷ s ∷ rows) h =
      check_rows-last_row r.hash q (s ∷ rows) ((check_rows-cons p q r (s ∷ rows) h).2)
      ∙ hash_or-last_row r.hash p s rows

  pub check_rows-append :
      (p q : Text) (rows : List AuditEvent) (row : AuditEvent)
      → check_rows hmac quote p rows ≡ ok q
      → row.prev_hash ≡ q
      → row.hash ≡ compute_audit_hash hmac quote q row.content
      → check_rows hmac quote p (rows ++ row ∷ []) ≡ ok row.hash
  check_rows-append p q [] row h e f =
      unfold check_rows in
      let same : p ≡ q = cc in
      check_rows-cons_of p row [] (e ∙ sym same)
        (f ∙ ap (λ t. compute_audit_hash hmac quote t row.content) (sym same))
  check_rows-append p q (r ∷ rows) row h e f =
      let first = check_rows-cons p q r rows h in
      check_rows-cons_of p r (rows ++ row ∷ []) first.0 first.1
      ∙ check_rows-append r.hash q rows row first.2 e f
