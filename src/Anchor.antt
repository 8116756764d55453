-- ===== src/Anchor.antt =====
-- `AuditAnchorStore` of packages/crypto/src/audit-chain.ts: the last committed audit record, kept
-- outside the database; and the errors of the audit chain with it.
use mima.Prelude.{
  ℕ, Bool, true, false, ◌&&◌, Option, none, some, [], ◌∷◌, if◌then◌else◌, ltb, nat_eq, ◌==◌,
}
use mima.Json.{Text}

pub record AuditAnchor : Type 0 where
  pub id : ℕ
  pub hash : Text

-- `AuditAnchorStore`: what the object holds, and what its file holds.
pub record AuditAnchorStore : Type 0 where
  pub current : Option AuditAnchor
  pub on_disk : Option AuditAnchor

pub data AuditError : Type 0 where
  chain_link_mismatch hmac_mismatch anchor_missing anchor_ahead : AuditError
  anchor_record_missing anchor_hash_mismatch anchor_behind anchor_regression : AuditError

pub data Result {ℓ} (A : Type ℓ) : Type ℓ where
  ok : A → Result A
  err : AuditError → Result A

infixl 5 ◌>>=◌
abbrev pub ◌>>=◌ {ℓ κ} : {A : Type ℓ} {B : Type κ} → Result A → (A → Result B) → Result B
ok a >>= f = f a
err e >>= f = err e

-- `a === b` on texts.
unfoldable pub same_text : Text → Text → Bool
same_text [] [] = true
same_text [] (y ∷ ys) = false
same_text (x ∷ xs) [] = false
same_text (x ∷ xs) (y ∷ ys) = x == y && same_text xs ys

-- `AuditAnchorStore.record`. The new file replaces the old one at once, by a rename.
unfoldable pub record_anchor : AuditAnchorStore → ℕ → Text → Result AuditAnchorStore
record_anchor s id hash = elim s.current [
  | none ↦ ok (record {
    current = some (record { id = id; hash = hash });
    on_disk = some (record { id = id; hash = hash });
  })
  | some anchor ↦
      if ltb id anchor.id
      then err anchor_regression
      else if anchor.id == id
      then ok s
      else ok (record {
        current = some (record { id = id; hash = hash });
        on_disk = some (record { id = id; hash = hash });
      })
]
