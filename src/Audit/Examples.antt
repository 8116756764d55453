-- ===== src/Audit/Examples.antt =====
-- The theorems on the audit chain, with a stand-in for the HMAC: the text with its line breaks
-- rewritten, between two marks.
use mima.Prelude.{
  ◌≡◌, ◌≢◌, refl, sym, ℕ, ap₂, ◌++◌, true, some, none, List, [], ◌∷◌, arith, here, there, ◌==◌,
  nat_eq, if◌then◌else◌,
}
use mima.Json.{Text, json_number, no_fields, field, canonical_json}
use mima.Json.Words.{FieldsHaveNumbers}
use mima.Anchor.{AuditAnchorStore, ok, same_text, record_anchor}
use mima.Audit.{
  AuditHashInput, AuditEvent, advanced, Inspected, audit_chain_genesis, AuditHead, append_audit,
  inspect_audit_chain, compute_audit_hash, check_rows, verify_audit_chain, repair_audit_anchor,
  new_row,
}
use mima.Audit.Anchors.{verify_audit_chain-append_audit, verify_audit_chain-repair_audit_anchor}
use mima.Audit.Tampering.{
  IsOneLine, CollisionFree, HaveDetails, SameHistory, newest_first, check_rows_tamper_evident,
}

abbrev plain_quote : Text → Text
plain_quote t = t

-- Line breaks become `n`, behind a mark that the first hash does not begin with.
abbrev one_line_of : Text → Text
one_line_of [] = []
one_line_of (c ∷ t) = (if c == 10 then b'n' else c) ∷ one_line_of t

abbrev toy_hmac : Text → Text
toy_hmac m = b'#' ∷ one_line_of m

one_line_of-IsOneLine : (t : Text) → IsOneLine (one_line_of t)
one_line_of-IsOneLine [] = tt
one_line_of-IsOneLine (c ∷ t) = (ground arith, one_line_of-IsOneLine t)

toy_hmac-IsOneLine : (m : Text) → IsOneLine (toy_hmac m)
toy_hmac-IsOneLine m = (omega arith, one_line_of-IsOneLine m)

toy_hmac-ne_genesis : (m : Text) → toy_hmac m ≢ audit_chain_genesis
toy_hmac-ne_genesis m e = ground arith

toy_hmac-ne_nil : (m : Text) → toy_hmac m ≢ []
toy_hmac-ne_nil m e = cc

abbrev login : AuditHashInput
login = record {
  ts = b'1' ∷ [];
  actor_user_id = some (b'u' ∷ []);
  action = b'l' ∷ [];
  vault_id = none;
  item_id = none;
  success = true;
  details = no_fields;
}

abbrev empty_anchor : AuditAnchorStore
empty_anchor = record { current = none; on_disk = none }

abbrev one_row : List AuditEvent
one_row = new_row toy_hmac plain_quote [] 1 login ∷ []

abbrev anchored : AuditAnchorStore
anchored = record {
  current = some (record { id = 1; hash = (new_row toy_hmac plain_quote [] 1 login).hash });
  on_disk = some (record { id = 1; hash = (new_row toy_hmac plain_quote [] 1 login).hash });
}

abbrev first_anchor : AuditAnchorStore
first_anchor = record {
  current = some (record { id = 1; hash = [] });
  on_disk = some (record { id = 1; hash = [] });
}

verify_empty :
    verify_audit_chain toy_hmac plain_quote [] empty_anchor
    ≡ ok (record { record_count = 0; head_id = none; anchor_id = none; head_hash = none })
unfolding verify_audit_chain inspect_audit_chain check_rows
verify_empty = refl

abbrev appended : List AuditEvent × AuditHead
appended = append_audit toy_hmac plain_quote [] 1 login

verify_audit_chain-append_audit_example :
    (t : AuditAnchorStore) × (record_anchor empty_anchor appended.1.id appended.1.hash ≡ ok t)
    × (verify_audit_chain toy_hmac plain_quote appended.0 t
        ≡ ok (record {
          record_count = 1;
          head_id = some 1;
          anchor_id = some 1;
          head_hash = some appended.1.hash;
        }))
verify_audit_chain-append_audit_example =
    verify_audit_chain-append_audit toy_hmac plain_quote [] empty_anchor 1 login _ verify_empty
      (omega arith) toy_hmac-ne_nil

two_rows : List AuditEvent
two_rows = (append_audit toy_hmac plain_quote one_row 2 login).0

abbrev two_rows_anchor : AuditAnchorStore
two_rows_anchor = record {
  current = some (record { id = 2; hash = (new_row toy_hmac plain_quote one_row 2 login).hash });
  on_disk = some (record { id = 2; hash = (new_row toy_hmac plain_quote one_row 2 login).hash });
}

repairs :
    repair_audit_anchor toy_hmac plain_quote two_rows anchored ≡ ok (two_rows_anchor, advanced)
unfolding repair_audit_anchor inspect_audit_chain check_rows two_rows append_audit
    compute_audit_hash canonical_json same_text
repairs = refl

verify_audit_chain-repair_audit_anchor_example :
    (i : Inspected) × (verify_audit_chain toy_hmac plain_quote two_rows two_rows_anchor ≡ ok i)
verify_audit_chain-repair_audit_anchor_example =
    verify_audit_chain-repair_audit_anchor toy_hmac plain_quote two_rows anchored two_rows_anchor
      advanced repairs toy_hmac-ne_nil

-- A quoted text: a backslash before each character, between quotation marks.
abbrev escaped : Text → Text
escaped [] = []
escaped (c ∷ t) = 92 ∷ c ∷ escaped t

abbrev toy_quote : Text → Text
toy_quote t = b'"' ∷ (escaped t ++ b'"' ∷ [])

first_eq : {c d : ℕ} {t u : Text} → c ∷ t ≡ d ∷ u → c ≡ d
first_eq e = cc

rest_eq : {c d : ℕ} {t u : Text} → c ∷ t ≡ d ∷ u → t ≡ u
rest_eq e = cc

quote_ne_backslash : (c : ℕ) → c ≡ b'"' → c ≢ 92
quote_ne_backslash c e f = omega (arith, e, f)

escaped_delimits :
    (a b r s : Text)
    → (escaped a ++ b'"' ∷ []) ++ r ≡ (escaped b ++ b'"' ∷ []) ++ s
    → (a ≡ b) × (r ≡ s)
escaped_delimits [] [] r s e = (refl, rest_eq e)
escaped_delimits [] (y ∷ b) r s e = absurd (quote_ne_backslash _ refl (first_eq e))
escaped_delimits (x ∷ a) [] r s e = absurd (quote_ne_backslash _ refl (sym (first_eq e)))
escaped_delimits (x ∷ a) (y ∷ b) r s e =
    let (rest, left) = escaped_delimits a b r s (rest_eq (rest_eq e)) in
    (ap₂ (λ c t. c ∷ t) (first_eq (rest_eq e)) rest, left)

toy_quote_delimits : (a b r s : Text) → toy_quote a ++ r ≡ toy_quote b ++ s → (a ≡ b) × (r ≡ s)
toy_quote_delimits a b r s e = escaped_delimits a b r s (rest_eq e)

toy_quote_begins : (a : Text) → (u : Text) × (toy_quote a ≡ b'"' ∷ u)
toy_quote_begins a = (escaped a ++ b'"' ∷ [], refl)

abbrev export : AuditHashInput
export = record login { details = field (b'n' ∷ []) (json_number (b'1' ∷ b'2' ∷ [])) no_fields }

-- The same record under two row ids.
abbrev quoted_rows : List AuditEvent
quoted_rows = new_row toy_hmac toy_quote [] 1 export ∷ []

abbrev renumbered_rows : List AuditEvent
renumbered_rows = new_row toy_hmac toy_quote [] 2 export ∷ []

rows-CollisionFree : CollisionFree toy_hmac toy_quote quoted_rows renumbered_rows
unfolding new_row
rows-CollisionFree r s here here e = refl
rows-CollisionFree r s here (there i) e = elim i [ ]
rows-CollisionFree r s (there i) j e = elim i [ ]

quoted_rows-HaveDetails : HaveDetails quoted_rows
unfolding new_row FieldsHaveNumbers
quoted_rows-HaveDetails r here = (refl, tt)
quoted_rows-HaveDetails r (there i) = elim i [ ]

renumbered_rows-HaveDetails : HaveDetails renumbered_rows
unfolding new_row FieldsHaveNumbers
renumbered_rows-HaveDetails r here = (refl, tt)
renumbered_rows-HaveDetails r (there i) = elim i [ ]

quoted_rows_check :
    check_rows toy_hmac toy_quote audit_chain_genesis quoted_rows
    ≡ ok (new_row toy_hmac toy_quote [] 1 export).hash
unfolding check_rows new_row compute_audit_hash canonical_json same_text
quoted_rows_check = refl

renumbered_rows_check :
    check_rows toy_hmac toy_quote audit_chain_genesis renumbered_rows
    ≡ ok (new_row toy_hmac toy_quote [] 1 export).hash
unfolding check_rows new_row compute_audit_hash canonical_json same_text
renumbered_rows_check = refl

check_rows_tamper_evident_example :
    SameHistory toy_hmac toy_quote (newest_first [] quoted_rows) (newest_first [] renumbered_rows)
check_rows_tamper_evident_example =
    check_rows_tamper_evident toy_hmac toy_quote toy_hmac-IsOneLine toy_hmac-ne_genesis
      toy_quote_delimits toy_quote_begins quoted_rows renumbered_rows
      (new_row toy_hmac toy_quote [] 1 export).hash rows-CollisionFree quoted_rows-HaveDetails
      renumbered_rows-HaveDetails quoted_rows_check renumbered_rows_check
