-- ===== src/Audit.antt =====
-- packages/crypto/src/audit-chain.ts and apps/api/src/services/audit.ts: the chain of audit records
-- and the anchor kept outside the database. HMAC-SHA256, the quoting of `JSON.stringify` and the id
-- and time of a new record are the platform's and the database's, and arguments here. The rows of
-- `audit_events` stand in the order of their ids, as every query asks for them.
pub mod Chain
pub mod Hashed
pub mod Tampering
pub mod Anchors
pub mod Examples
use mima.Prelude.{
  ℕ, ◌+◌, Bool, true, false, ◌&&◌, not, Option, none, some, List, [], ◌∷◌, ◌++◌, if◌then◌else◌, ltb,
  length, nat_eq, ◌==◌,
}
use mima.Anchor.{
  AuditAnchor, AuditAnchorStore, Result, ok, err, ◌>>=◌, chain_link_mismatch, hmac_mismatch,
  anchor_missing, anchor_ahead, anchor_record_missing, anchor_hash_mismatch, anchor_behind,
  same_text, record_anchor,
}
use mima.Json.{
  Text, Json, Fields, json_null, json_bool, json_string, json_object, no_fields, field,
  canonical_json,
}

-- 'genesis'
abbrev pub audit_chain_genesis : Text
audit_chain_genesis = b'g' ∷ b'e' ∷ b'n' ∷ b'e' ∷ b's' ∷ b'i' ∷ b's' ∷ []

pub record AuditHashInput : Type 0 where
  pub ts : Text
  pub actor_user_id : Option Text
  pub action : Text
  pub vault_id : Option Text
  pub item_id : Option Text
  pub success : Bool
  pub details : Fields

pub record AuditEvent : Type 0 where
  pub id : ℕ
  pub content : AuditHashInput
  pub prev_hash : Text
  pub hash : Text

abbrev pub nullable : Option Text → Json
nullable none = json_null
nullable (some t) = json_string t

-- The names of the fields that are hashed.
abbrev pub key_ts : Text
key_ts = b't' ∷ b's' ∷ []

abbrev pub key_actor : Text
key_actor = b'a' ∷ b'c' ∷ b't' ∷ b'o' ∷ b'r' ∷ b'U' ∷ b's' ∷ b'e' ∷ b'r' ∷ b'I' ∷ b'd' ∷ []

abbrev pub key_action : Text
key_action = b'a' ∷ b'c' ∷ b't' ∷ b'i' ∷ b'o' ∷ b'n' ∷ []

abbrev pub key_vault : Text
key_vault = b'v' ∷ b'a' ∷ b'u' ∷ b'l' ∷ b't' ∷ b'I' ∷ b'd' ∷ []

abbrev pub key_item : Text
key_item = b'i' ∷ b't' ∷ b'e' ∷ b'm' ∷ b'I' ∷ b'd' ∷ []

abbrev pub key_success : Text
key_success = b's' ∷ b'u' ∷ b'c' ∷ b'c' ∷ b'e' ∷ b's' ∷ b's' ∷ []

abbrev pub key_details : Text
key_details = b'd' ∷ b'e' ∷ b't' ∷ b'a' ∷ b'i' ∷ b'l' ∷ b's' ∷ []

abbrev pub input_json : AuditHashInput → Json
input_json i = json_object (
    field key_ts (json_string i.ts) (
      field key_actor (nullable i.actor_user_id) (
        field key_action (json_string i.action) (
          field key_vault (nullable i.vault_id) (
            field key_item (nullable i.item_id) (
              field key_success (json_bool i.success)
                (field key_details (json_object i.details) no_fields)))))))

pub record AuditHead : Type 0 where
  pub id : ℕ
  pub hash : Text

pub record Inspected : Type 0 where
  pub record_count : ℕ
  pub head_id : Option ℕ
  pub anchor_id : Option ℕ
  pub head_hash : Option Text

-- `hashesById.get`: the last row of an id.
pub hash_by_id : ℕ → List AuditEvent → Option Text
hash_by_id id [] = none
hash_by_id id (row ∷ rows) = elim (hash_by_id id rows) [
  | some hash ↦ some hash
  | none ↦ if row.id == id then some row.hash else none
]

-- `rows.at(-1)`
unfoldable pub last_row : List AuditEvent → Option AuditEvent
last_row [] = none
last_row (row ∷ []) = some row
last_row (row ∷ next ∷ rows) = last_row (next ∷ rows)

-- `last[0]?.hash ?? AUDIT_CHAIN_GENESIS`
abbrev pub head_hash_of : Option AuditEvent → Text
head_hash_of none = audit_chain_genesis
head_hash_of (some row) = row.hash

pub data RepairStatus : Type 0 where
  advanced already_current empty : RepairStatus

abbrev same_id : Option ℕ → ℕ → Bool
same_id none n = false
same_id (some m) n = m == n

advance : AuditAnchorStore → ℕ → Option Text → Result (AuditAnchorStore × RepairStatus)
unfolding record_anchor
advance store head_id none = ok (store, already_current)
advance store head_id (some hash) = record_anchor store head_id hash >>= λ s. ok (s, advanced)

-- What `repairAuditAnchor` does with an inspected chain.
repair_with : AuditAnchorStore → Inspected → Result (AuditAnchorStore × RepairStatus)
unfolding advance
repair_with store inspected = elim inspected.head_id [
  | none ↦ ok (store, empty)
  | some head_id ↦
      if same_id inspected.anchor_id head_id
      then ok (store, already_current)
      else advance store head_id inspected.head_hash
]

abbrev pub check_behind : Bool → AuditAnchor → AuditEvent → List AuditEvent → Result Inspected
check_behind allow_behind anchor head rows =
    if not allow_behind && ltb anchor.id head.id
    then err anchor_behind
    else ok (record {
      record_count = length rows;
      head_id = some head.id;
      anchor_id = some anchor.id;
      head_hash = some head.hash;
    })

-- `!anchoredHash` also holds of the empty text.
abbrev pub check_anchored :
    Bool → AuditAnchor → AuditEvent → List AuditEvent → Option Text → Result Inspected
check_anchored allow_behind anchor head rows none = err anchor_record_missing
check_anchored allow_behind anchor head rows (some []) = err anchor_record_missing
check_anchored allow_behind anchor head rows (some (c ∷ cs)) =
    if same_text (c ∷ cs) anchor.hash
    then check_behind allow_behind anchor head rows
    else err anchor_hash_mismatch

abbrev pub check_anchor : Bool → AuditAnchor → AuditEvent → List AuditEvent → Result Inspected
check_anchor allow_behind anchor head rows =
    if ltb head.id anchor.id
    then err anchor_ahead
    else check_anchored allow_behind anchor head rows (hash_by_id anchor.id rows)

abbrev pub check_empty : Option AuditAnchor → Result Inspected
check_empty (some anchor) = err anchor_ahead
check_empty none =
    ok (record { record_count = 0; head_id = none; anchor_id = none; head_hash = none })

abbrev pub check_head : Bool → Option AuditAnchor → AuditEvent → List AuditEvent → Result Inspected
check_head allow_behind none head rows = err anchor_missing
check_head allow_behind (some anchor) head rows = check_anchor allow_behind anchor head rows

module _ (hmac : Text → Text) (quote : Text → Text) where
  -- What the HMAC is taken of.
  abbrev pub message : Text → AuditHashInput → Text
  message prev_hash input = prev_hash ++ 10 ∷ canonical_json quote (input_json input)

  unfoldable pub compute_audit_hash : Text → AuditHashInput → Text
  compute_audit_hash prev_hash input = hmac (message prev_hash input)

  -- The loop over the rows; it ends with the hash of the last.
  unfoldable pub check_rows : Text → List AuditEvent → Result Text
  check_rows previous [] = ok previous
  check_rows previous (row ∷ rows) =
      if same_text row.prev_hash previous
      then if same_text row.hash (compute_audit_hash previous row.content)
        then check_rows row.hash rows
        else err hmac_mismatch
      else err chain_link_mismatch

  unfoldable pub inspect_audit_chain :
      List AuditEvent → Option AuditAnchor → Bool → Result Inspected
  unfolding hash_by_id last_row
  inspect_audit_chain rows anchor allow_behind = check_rows audit_chain_genesis rows >>= λ checked.
      elim (last_row rows) [
        | none ↦ check_empty anchor
        | some head ↦ check_head allow_behind anchor head rows
      ]

  unfoldable pub verify_audit_chain : List AuditEvent → AuditAnchorStore → Result Inspected
  verify_audit_chain rows store = inspect_audit_chain rows store.current false

  -- The row that `appendAudit` inserts under a new id.
  pub new_row : List AuditEvent → ℕ → AuditHashInput → AuditEvent
  unfolding last_row
  new_row rows id input =
      let prev_hash = head_hash_of (last_row rows) in
      record {
        id = id;
        content = input;
        prev_hash = prev_hash;
        hash = compute_audit_hash prev_hash input;
      }

  -- The rows after it, and the new head that it returns.
  unfoldable pub append_audit : List AuditEvent → ℕ → AuditHashInput → List AuditEvent × AuditHead
  unfolding new_row
  append_audit rows id input =
      let row = new_row rows id input in (rows ++ row ∷ [], record { id = row.id; hash = row.hash })

  -- `repairAuditAnchor`: the store after it, and what it reports.
  unfoldable pub repair_audit_anchor :
      List AuditEvent → AuditAnchorStore → Result (AuditAnchorStore × RepairStatus)
  unfolding repair_with
  repair_audit_anchor rows store =
      inspect_audit_chain rows store.current true >>= λ inspected. repair_with store inspected
