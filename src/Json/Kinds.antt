-- ===== src/Json/Kinds.antt =====
-- What the text of a value begins with, as `canonicalJson` of packages/crypto/src/audit-chain.ts
-- prints it.
use mima.Prelude.{
  ℕ, ◌≤◌, false, [], ◌∷◌, ◌++◌, ◌==◌, nat_eq, if◌then◌else◌, ◌≡◌, refl, sym, ap, ◌∙◌, arith,
}
use mima.Json.{Text}
use mima.Json.Trees.{Tree, word, quoted, array, object, print}
use mima.Json.Words.{is_stop, is_opening, IsGood}

-- What a value begins with tells its kind.
abbrev kind_of : ℕ → ℕ
kind_of c =
    if c == b'"'
    then 1
    else if c == b'['
    then 2
    else if c == b'{'
    then 3
    else if is_stop c
    then 4
    else 0

abbrev kind : Tree → ℕ
kind (word t) = 0
kind (quoted t) = 1
kind (array ts) = 2
kind (object ms) = 3

kind-le : (v : Tree) → kind v ≤ 3
kind-le (word t) = omega arith
kind-le (quoted t) = omega arith
kind-le (array ts) = omega arith
kind-le (object ms) = omega arith

word-kind : (c : ℕ) → is_opening c ≡ false → kind_of c ≡ 0
word-kind c h = ground (arith, h)

module _ (quote : Text → Text) (quote_begins : (a : Text) → (u : Text) × (quote a ≡ b'"' ∷ u)) where
  print-kind :
      (v : Tree) → IsGood v → (c : ℕ) × (u : Text) × (print quote v ≡ c ∷ u) × (kind_of c ≡ kind v)
  unfolding print IsGood
  print-kind (word []) h = cc
  print-kind (word (c ∷ t)) h = (c, t, refl, word-kind c (ground (arith, h)))
  print-kind (quoted t) h = let (u, e) = quote_begins t in (b'"', u, e, refl)
  print-kind (array ts) h = (b'[', _, refl, refl)
  print-kind (object ms) h = (b'{', _, refl, refl)

  same_kind :
      (v w : Tree) (r s : Text)
      → IsGood v
      → IsGood w
      → print quote v ++ r ≡ print quote w ++ s
      → kind v ≡ kind w
  same_kind v w r s h k e =
      let (c, t, p, m) = print-kind v h in
      let (d, u, q, n) = print-kind w k in
      let both : c ∷ (t ++ r) ≡ d ∷ (u ++ s) = rw (p, q) at e in
      let head : c ≡ d = cc in sym m ∙ ap kind_of head ∙ n

  pub no_value :
      (c : ℕ) (v : Tree) (r s : Text) → IsGood v → kind_of c ≡ 4 → c ∷ r ≡ print quote v ++ s → ⊥
  no_value c v r s h k e =
      let (d, u, q, n) = print-kind v h in
      let both : c ∷ r ≡ d ∷ (u ++ s) = rw q at e in
      let head : c ≡ d = cc in absurd (omega (arith, kind-le v, sym k ∙ ap kind_of head ∙ n))

  -- Values of two kinds do not begin one text.
  pub clash :
      {A : Type 0} (v w : Tree) (r s : Text)
      → IsGood v
      → IsGood w
      → (kind v == kind w) ≡ false
      → print quote v ++ r ≡ print quote w ++ s
      → A
  clash v w r s h k n e = absurd (ground (arith, same_kind v w r s h k e, n))
