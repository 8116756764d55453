-- ===== src/Audit/Hashed.antt =====
-- packages/crypto/src/audit-chain.ts: what is hashed of an audit record determines its fields.
use mima.Prelude.{Bool, true, false, Option, none, some, [], ◌∷◌, ◌++◌, ◌≡◌, refl, sym, ap, ◌∙◌}
use mima.Json.{Text, json_object, canonical_json, bool_text, less}
use mima.Json.Trees.{
  word, quoted, object, Members, no_members, member, insert_member, tree_of, members_of, print,
  print-tree_of,
}
use mima.Json.Words.{HasNumbers, FieldsHaveNumbers, tree_of-IsGood}
use mima.Json.Delimited.{print_delimits}
use mima.Audit.{
  AuditHashInput, nullable, input_json, key_ts, key_actor, key_action, key_vault, key_item,
  key_success, key_details,
}

nullable-HasNumbers : (o : Option Text) → HasNumbers (nullable o)
unfolding HasNumbers
nullable-HasNumbers none = tt
nullable-HasNumbers (some t) = tt

input_json-HasNumbers :
    (c : AuditHashInput) → FieldsHaveNumbers c.details → HasNumbers (input_json c)
unfolding HasNumbers
input_json-HasNumbers c h = (
  tt,
  (
    nullable-HasNumbers c.actor_user_id,
    (tt, (nullable-HasNumbers c.vault_id, (nullable-HasNumbers c.item_id, (tt, (h, tt))))),
  ),
)

module _ (quote : Text → Text) where
  -- The fields in the order of their names.
  sorted_fields : AuditHashInput → Members
  unfolding tree_of
  sorted_fields c = member key_action (quoted c.action) (
      member key_actor (tree_of quote (nullable c.actor_user_id)) (
        member key_details (object (members_of quote c.details)) (
          member key_item (tree_of quote (nullable c.item_id)) (
            member key_success (word (bool_text quote c.success)) (
              member key_ts (quoted c.ts)
                (member key_vault (tree_of quote (nullable c.vault_id)) no_members))))))

  tree_of-input_json :
      (c : AuditHashInput) → tree_of quote (input_json c) ≡ object (sorted_fields c)
  unfolding tree_of insert_member less sorted_fields
  tree_of-input_json c = refl

  -- Two records have the same fields; of their details, the texts that are hashed are the same.
  pub record SameContent (c d : AuditHashInput) : Type 0 where
    pub ts : c.ts ≡ d.ts
    pub actor_user_id : c.actor_user_id ≡ d.actor_user_id
    pub action : c.action ≡ d.action
    pub vault_id : c.vault_id ≡ d.vault_id
    pub item_id : c.item_id ≡ d.item_id
    pub success : c.success ≡ d.success
    pub details :
        canonical_json quote (json_object c.details) ≡ canonical_json quote (json_object d.details)

  nullable_eq :
      (o p : Option Text) → tree_of quote (nullable o) ≡ tree_of quote (nullable p) → o ≡ p
  unfolding tree_of
  nullable_eq none none e = refl
  nullable_eq none (some t) e = cc
  nullable_eq (some t) none e = cc
  nullable_eq (some t) (some u) e = ap some (cc)

  bool_eq : (a b : Bool) → word (bool_text quote a) ≡ word (bool_text quote b) → a ≡ b
  bool_eq true true e = refl
  bool_eq true false e = cc
  bool_eq false true e = cc
  bool_eq false false e = refl

  details_tree :
      (c d : AuditHashInput)
      → members_of quote c.details ≡ members_of quote d.details
      → tree_of quote (json_object c.details) ≡ tree_of quote (json_object d.details)
  unfolding tree_of
  details_tree c d e = ap object e

  sorted_fields-SameContent :
      (c d : AuditHashInput) → object (sorted_fields c) ≡ object (sorted_fields d) → SameContent c d
  unfolding sorted_fields
  sorted_fields-SameContent c d e = record {
    ts = cc;
    actor_user_id = nullable_eq c.actor_user_id d.actor_user_id (cc);
    action = cc;
    vault_id = nullable_eq c.vault_id d.vault_id (cc);
    item_id = nullable_eq c.item_id d.item_id (cc);
    success = bool_eq c.success d.success (cc);
    details =
        print-tree_of quote (json_object c.details)
        ∙ ap (print quote) (details_tree c d (cc))
        ∙ sym (print-tree_of quote (json_object d.details));
  }

  -- A text that is hashed belongs to the fields of one record only.
  module _ (quote_delimits : (a b r s : Text) → quote a ++ r ≡ quote b ++ s → (a ≡ b) × (r ≡ s))
      (quote_begins : (a : Text) → (u : Text) × (quote a ≡ b'"' ∷ u)) where
    pub canonical_json-SameContent :
        (c d : AuditHashInput)
        → FieldsHaveNumbers c.details
        → FieldsHaveNumbers d.details
        → canonical_json quote (input_json c) ≡ canonical_json quote (input_json d)
        → SameContent c d
    canonical_json-SameContent c d h k e =
        let good = tree_of-IsGood quote (input_json c) (input_json-HasNumbers c h) in
        let goods = tree_of-IsGood quote (input_json d) (input_json-HasNumbers d k) in
        let printed : print quote (tree_of quote (input_json c)) ++ b',' ∷ []
            ≡ print quote (tree_of quote (input_json d)) ++ b',' ∷ [] =
          ap (λ t. t ++ b',' ∷ [])
            (sym (print-tree_of quote (input_json c)) ∙ e ∙ print-tree_of quote (input_json d)) in
        let same =
          print_delimits quote quote_delimits quote_begins (tree_of quote (input_json c))
            (tree_of quote (input_json d)) (b',' ∷ []) (b',' ∷ []) good goods refl refl printed in
        sorted_fields-SameContent c d (sym (tree_of-input_json c) ∙ same.0 ∙ tree_of-input_json d)
