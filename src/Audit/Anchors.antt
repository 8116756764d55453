-- ===== src/Audit/Anchors.antt =====
-- The audit chain with its anchor: packages/crypto/src/audit-chain.ts (`AuditAnchorStore`) and
-- apps/api/src/services/audit.ts (`verifyAuditChain`, `appendAudit`, `repairAuditAnchor`).
use mima.Prelude.{
  ℕ, ◌+◌, ◌≤◌, ◌<◌, ◌≡◌, ◌≢◌, refl, sym, ap, ◌∙◌, Bool, true, false, Option, none, some, List, [],
  ◌∷◌, ◌++◌, arith, length, length-append, nat_eq, nat_beq_iff, Option-cases, inl, inr, ◌⊎◌,
}
use mima.Json.{Text}
use mima.Anchor.{AuditAnchor, AuditAnchorStore, Result, ok, err, ◌>>=◌, same_text, record_anchor}
use mima.Audit.{
  AuditHashInput, AuditEvent, audit_chain_genesis, Inspected, RepairStatus, last_row, head_hash_of,
  compute_audit_hash, check_rows, check_head, check_empty, check_anchor, check_anchored,
  inspect_audit_chain, verify_audit_chain, append_audit, new_row, repair_with, repair_audit_anchor,
}
use mima.Audit.Chain.{
  same_text_refl, last_row-append, hash_by_id-last_row, hash_or, check_rows-cons,
  check_rows-last_row, check_rows-append,
}

abbrev pub anchor_id_of : Option AuditAnchor → ℕ
anchor_id_of none = 0
anchor_id_of (some a) = a.id

-- Recording a head never moves the anchor back, keeps the file equal to the anchor held in memory,
-- and ends with the anchor at the id that was recorded.
pub record_anchor-monotone :
    (s t : AuditAnchorStore) (id : ℕ) (hash : Text)
    → s.on_disk ≡ s.current
    → record_anchor s id hash ≡ ok t
    → (anchor_id_of s.current ≤ anchor_id_of t.current)
      × (anchor_id_of t.current ≡ id)
      × (t.on_disk ≡ t.current)
unfolding record_anchor
record_anchor-monotone s t id hash d h = ground arith

-- What the check reports for an anchor at the last row.
abbrev pub at_head : List AuditEvent → AuditEvent → Inspected
at_head rows head = record {
  record_count = length rows;
  head_id = some head.id;
  anchor_id = some head.id;
  head_hash = some head.hash;
}

abbrev anchor_at : AuditEvent → AuditAnchor
anchor_at head = record { id = head.id; hash = head.hash }

check_anchored-at_head :
    (allow : Bool) (head : AuditEvent) (rows : List AuditEvent) (t : Text)
    → head.hash ≡ t
    → t ≢ []
    → check_anchored allow (anchor_at head) head rows (some t) ≡ ok (at_head rows head)
check_anchored-at_head allow head rows [] e n = absurd (n refl)
check_anchored-at_head allow head rows (c ∷ cs) e n =
    let equal : same_text (c ∷ cs) head.hash ≡ true = rw e (same_text_refl (c ∷ cs)) in
    rw equal (ground arith)

bound_ok :
    {A B : Type 0} {y : B} (r : Result A) (k : A → Result B)
    → (r >>= k) ≡ ok y
    → (x : A) × (r ≡ ok x) × (k x ≡ ok y)
bound_ok (err e) k h = cc
bound_ok (ok x) k h = (x, refl, h)

some_eq : {x y : AuditEvent} → some x ≡ some y → x ≡ y
some_eq h = cc

repair_with-empty :
    (store store' : AuditAnchorStore) (status : RepairStatus) (i : Inspected)
    → check_empty none ≡ ok i
    → repair_with store i ≡ ok (store', status)
    → store' ≡ store
unfolding repair_with
repair_with-empty store store' status i e r = ground arith

repair_with-cases :
    (store store' : AuditAnchorStore) (status : RepairStatus) (a : AuditAnchor) (id : ℕ)
    (hash : Text) (i : Inspected)
    → store.current ≡ some a
    → i.head_id ≡ some id
    → i.anchor_id ≡ some a.id
    → i.head_hash ≡ some hash
    → repair_with store i ≡ ok (store', status)
    → ((store' ≡ store) × (a.id ≡ id)) ⊎ (store'.current ≡ some (record { id = id; hash = hash }))
unfolding repair_with record_anchor
repair_with-cases store store' status a id hash i c hid aid hh r = ground arith

module _ (hmac : Text → Text) (quote : Text → Text) where
  -- An anchor at the last row of a chain that checks is accepted.
  anchored_at_head :
      (rows : List AuditEvent) (head : AuditEvent) (q : Text) (allow : Bool)
      → check_rows hmac quote audit_chain_genesis rows ≡ ok q
      → last_row rows ≡ some head
      → head.hash ≢ []
      → inspect_audit_chain hmac quote rows (some (anchor_at head)) allow ≡ ok (at_head rows head)
  unfolding inspect_audit_chain
  anchored_at_head rows head q allow h k n =
      rw (h, k, inspect_audit_chain)
        (rw (hash_by_id-last_row rows head k)
          (ground (arith, check_anchored-at_head allow head rows head.hash refl n)))

  -- What an inspection that succeeds has found.
  inspected_rows :
      (rows : List AuditEvent) (o : Option AuditAnchor) (allow : Bool) (i : Inspected)
      → inspect_audit_chain hmac quote rows o allow ≡ ok i
      → (q : Text) × (check_rows hmac quote audit_chain_genesis rows ≡ ok q)
  unfolding inspect_audit_chain
  inspected_rows rows o allow i v = let (q, e, _) = bound_ok _ _ v in (q, e)

  hash_or-head_hash_of : (o : Option AuditEvent) → hash_or audit_chain_genesis o ≡ head_hash_of o
  hash_or-head_hash_of none = refl
  hash_or-head_hash_of (some row) = refl

  check_rows-new_row :
      (rows : List AuditEvent) (id : ℕ) (input : AuditHashInput) (q : Text)
      → check_rows hmac quote audit_chain_genesis rows ≡ ok q
      → check_rows hmac quote audit_chain_genesis (rows ++ new_row hmac quote rows id input ∷ [])
        ≡ ok (new_row hmac quote rows id input).hash
  unfolding new_row
  check_rows-new_row rows id input q h =
      let ends : head_hash_of (last_row rows) ≡ q = sym (
        check_rows-last_row hmac quote audit_chain_genesis q rows h
        ∙ hash_or-head_hash_of (last_row rows)) in
      check_rows-append hmac quote audit_chain_genesis q rows (new_row hmac quote rows id input) h
        ends (ap (λ t. compute_audit_hash hmac quote t input) ends)

  recorded :
      (store : AuditAnchorStore) (id : ℕ) (hash : Text)
      → anchor_id_of store.current < id
      → (t : AuditAnchorStore) × (record_anchor store id hash ≡ ok t)
        × (t.current ≡ some (record { id = id; hash = hash }))
  unfolding record_anchor
  recorded store id hash later =
      let anchor : Option AuditAnchor = some (record { id = id; hash = hash }) in
      (
        record { current = anchor; on_disk = anchor },
        ground (arith, nat_beq_iff id (anchor_id_of store.current)),
        refl,
      )

  new_row-id :
      (rows : List AuditEvent) (id : ℕ) (input : AuditHashInput)
      → (new_row hmac quote rows id input).id ≡ id
  unfolding new_row
  new_row-id rows id input = refl

  new_row-hash_ne :
      (rows : List AuditEvent) (id : ℕ) (input : AuditHashInput)
      → ((m : Text) → hmac m ≢ [])
      → (new_row hmac quote rows id input).hash ≢ []
  unfolding new_row compute_audit_hash
  new_row-hash_ne rows id input n = n _

  -- A record added to a chain that checks, and then anchored, gives a chain that checks again, with
  -- one record more and the anchor at its head. The new id is above the anchored one, and no HMAC is
  -- the empty text.
  pub verify_audit_chain-append_audit :
      (rows : List AuditEvent) (store : AuditAnchorStore) (id : ℕ) (input : AuditHashInput)
      (i : Inspected)
      → verify_audit_chain hmac quote rows store ≡ ok i
      → anchor_id_of store.current < id
      → ((m : Text) → hmac m ≢ [])
      → let (rows', head) = append_audit hmac quote rows id input in
        (t : AuditAnchorStore) × (record_anchor store head.id head.hash ≡ ok t)
        × (verify_audit_chain hmac quote rows' t
            ≡ ok (record {
              record_count = length rows + 1;
              head_id = some id;
              anchor_id = some id;
              head_hash = some head.hash;
            }))
  unfolding verify_audit_chain append_audit
  verify_audit_chain-append_audit rows store id input i v later n =
      let row = new_row hmac quote rows id input in
      let (t, stored, current) = recorded store id row.hash later in
      let (q, h) = inspected_rows rows store.current false i v in
      let anchored =
        anchored_at_head (rows ++ row ∷ []) row row.hash false
          (check_rows-new_row rows id input q h) (last_row-append rows row)
          (new_row-hash_ne rows id input n) in
      let report = λ (k : ℕ). record (at_head (rows ++ row ∷ []) row) { record_count = k } in
      (
        t,
        stored,
        ap (λ o. inspect_audit_chain hmac quote (rows ++ row ∷ []) o false) current
            ∙ anchored
            ∙ ap (λ k. ok (report k)) (length-append rows (row ∷ [])),
      )

  -- What the inspection of a chain with a head and an anchor says, with lagging allowed or not.
  allowed_lag :
      (a : AuditAnchor) (head : AuditEvent) (rows : List AuditEvent) (i : Inspected)
      → check_anchor true a head rows ≡ ok i
      → (i.head_id ≡ some head.id)
        × (i.anchor_id ≡ some a.id)
        × (i.head_hash ≡ some head.hash)
        × ((a.id ≡ head.id) → check_anchor false a head rows ≡ ok i)
  allowed_lag a head rows i h = (ground arith, ground arith, ground arith, λ e. ground arith)

  last_row-hash_ne :
      (p q : Text) (rows : List AuditEvent) (head : AuditEvent)
      → ((m : Text) → hmac m ≢ [])
      → check_rows hmac quote p rows ≡ ok q
      → last_row rows ≡ some head
      → head.hash ≢ []
  unfolding last_row compute_audit_hash
  last_row-hash_ne p q [] head n h l = cc
  last_row-hash_ne p q (r ∷ []) head n h l =
      let (_, right, _) = check_rows-cons hmac quote p q r [] h in
      λ e. n _ (sym right ∙ ap (λ (x : AuditEvent). x.hash) (some_eq l) ∙ e)
  last_row-hash_ne p q (r ∷ s ∷ rows) head n h l =
      let (_, _, rest) = check_rows-cons hmac quote p q r (s ∷ rows) h in
      last_row-hash_ne r.hash q (s ∷ rows) head n rest l

  module _ (rows : List AuditEvent) (q : Text)
      (checked : check_rows hmac quote audit_chain_genesis rows ≡ ok q) where
    inspect-head :
        (head : AuditEvent) (o : Option AuditAnchor) (allow : Bool)
        → last_row rows ≡ some head
        → inspect_audit_chain hmac quote rows o allow ≡ check_head allow o head rows
    unfolding inspect_audit_chain
    inspect-head head o allow l = rw (checked, l, inspect_audit_chain)

    inspect-none :
        (o : Option AuditAnchor) (allow : Bool)
        → last_row rows ≡ none
        → inspect_audit_chain hmac quote rows o allow ≡ check_empty o
    unfolding inspect_audit_chain
    inspect-none o allow l = rw (checked, l, inspect_audit_chain)

    module _ (store store' : AuditAnchorStore) (status : RepairStatus) where
      repair_head :
          (head : AuditEvent) (a : AuditAnchor) (i : Inspected)
          → head.hash ≢ []
          → last_row rows ≡ some head
          → store.current ≡ some a
          → check_anchor true a head rows ≡ ok i
          → repair_with store i ≡ ok (store', status)
          → (k : Inspected) × (verify_audit_chain hmac quote rows store' ≡ ok k)
      unfolding verify_audit_chain
      repair_head head a i n l c e r =
          let (hid, aid, hh, same) = allowed_lag a head rows i e in
          elim (repair_with-cases store store' status a head.id head.hash i c hid aid hh r) [
            | inl (kept, level) ↦
                (i, rw (kept, c) (inspect-head head (some a) false l ∙ same level))
            | inr moved ↦
                (at_head rows head, rw moved (anchored_at_head rows head q false checked l n))
          ]

      repair_none :
          (o : Option AuditAnchor)
          → store.current ≡ o
          → last_row rows ≡ none
          → repair_audit_anchor hmac quote rows store ≡ ok (store', status)
          → (k : Inspected) × (verify_audit_chain hmac quote rows store' ≡ ok k)
      unfolding verify_audit_chain repair_audit_anchor
      repair_none none c l r =
          let (i, ins, rep) = bound_ok _ _ r in
          let nothing =
            sym (inspect-none none true l)
            ∙ ap (λ o. inspect_audit_chain hmac quote rows o true) (sym c)
            ∙ ins in
          (
            i,
            rw (repair_with-empty store store' status i nothing rep, c)
                (inspect-none none false l ∙ nothing),
          )
      repair_none (some a) c l r = cc (rw (c, inspect-none (some a) true l) at r)

  -- After a repair that succeeds, the chain is accepted at the start of the service, provided no
  -- HMAC is the empty text.
  pub verify_audit_chain-repair_audit_anchor :
      (rows : List AuditEvent) (store store' : AuditAnchorStore) (status : RepairStatus)
      → repair_audit_anchor hmac quote rows store ≡ ok (store', status)
      → ((m : Text) → hmac m ≢ [])
      → (i : Inspected) × (verify_audit_chain hmac quote rows store' ≡ ok i)
  unfolding repair_audit_anchor
  verify_audit_chain-repair_audit_anchor rows store store' status h n =
      let (i, ins, rep) = bound_ok _ _ h in
      let (q, checked) = inspected_rows rows store.current true i ins in
      elim (Option-cases (last_row rows)) [
        | inl l ↦ repair_none rows q checked store store' status store.current refl l h
        | inr (head, l) ↦
            let whole = sym (inspect-head rows q checked head store.current true l) ∙ ins in
            elim (Option-cases store.current) [
              | inl c ↦ cc (rw c at whole)
              | inr (a, c) ↦
                  repair_head rows q checked store store' status head a i
                    (last_row-hash_ne audit_chain_genesis q rows head n checked l) l c
                    (rw c at whole) rep
            ]
      ]
