-- ===== src/Json/Delimited.antt =====
-- The text of `canonicalJson` of packages/crypto/src/audit-chain.ts determines the tree that it is
-- printed from, and where it ends.
use mima.Prelude.{
  ℕ, true, false, not, [], ◌∷◌, ◌++◌, ◌==◌, nat_eq, all, ◌≡◌, refl, sym, ap, ap₂, ◌∙◌, append_assoc,
  arith,
}
use mima.Json.{Text, bracket}
use mima.Json.Trees.{
  Tree, word, quoted, array, object, Trees, no_trees, tree, Members, no_members, member, print,
  print_rest, print_members, print_first, print_first_member,
}
use mima.Json.Kinds.{no_value, clash}
use mima.Json.Words.{is_stop, is_word, stops, IsGood, AreGood, MembersAreGood}

free_delimits :
    (t u r s : Text)
    → all (λ d. not (is_stop d)) t ≡ true
    → all (λ d. not (is_stop d)) u ≡ true
    → stops r ≡ true
    → stops s ≡ true
    → t ++ r ≡ u ++ s
    → (t ≡ u) × (r ≡ s)
free_delimits [] [] r s h k m n e = (refl, e)
free_delimits [] (y ∷ u) r s h k m n e =
    let bad : is_stop y ≡ true = rw e at m in absurd (ground (arith, bad, k))
free_delimits (x ∷ t) [] r s h k m n e =
    let bad : is_stop x ≡ true = rw (← e) at n in absurd (ground (arith, bad, h))
free_delimits (x ∷ t) (y ∷ u) r s h k m n e =
    let head : x ≡ y = cc in
    let (rest, left) = free_delimits t u r s (ground (arith, h)) (ground (arith, k)) m n (cc) in
    (ap₂ (λ c v. c ∷ v) head rest, left)

is_word-free : (t : Text) → is_word t ≡ true → all (λ d. not (is_stop d)) t ≡ true
is_word-free [] h = cc
is_word-free (c ∷ t) h = ground (arith, h)

tail_eq : {c : ℕ} {t u : Text} → c ∷ t ≡ c ∷ u → t ≡ u
tail_eq e = cc

-- What ends a list is no comma.
end_ne_comma : {c : ℕ} {r s : Text} → (c == b',') ≡ false → c ∷ r ≡ b',' ∷ s → ⊥
end_ne_comma {c} n e = let head : c ≡ b',' = cc in ground (arith, head, n)

bracket_tail :
    (a b : ℕ) (t u r s : Text) → bracket a t b ++ r ≡ bracket a u b ++ s → t ++ b ∷ r ≡ u ++ b ∷ s
bracket_tail a b t u r s e =
    let tail : (t ++ b ∷ []) ++ r ≡ (u ++ b ∷ []) ++ s = cc in
    sym (append_assoc t (b ∷ []) r) ∙ tail ∙ append_assoc u (b ∷ []) s

module _ (quote : Text → Text)
    (quote_delimits : (a b r s : Text) → quote a ++ r ≡ quote b ++ s → (a ≡ b) × (r ≡ s))
    (quote_begins : (a : Text) → (u : Text) × (quote a ≡ b'"' ∷ u)) where
  rest-stops : (ts : Trees) (r : Text) → stops (print_rest quote ts ++ b']' ∷ r) ≡ true
  unfolding print
  rest-stops no_trees r = refl
  rest-stops (tree t ts) r = refl

  members-stop : (ms : Members) (r : Text) → stops (print_members quote ms ++ b'}' ∷ r) ≡ true
  unfolding print
  members-stop no_members r = refl
  members-stop (member k t ms) r = refl

  -- Two values that any stops delimit.
  abbrev AreDelimited : Tree → Tree → Type 0
  AreDelimited t u =
      (r s : Text)
      → stops r ≡ true
      → stops s ≡ true
      → print quote t ++ r ≡ print quote u ++ s
      → (t ≡ u) × (r ≡ s)

  tree_delimits :
      (t u : Tree) (ts us : Trees) (r s : Text)
      → AreDelimited t u
      → (print_rest quote ts ++ b']' ∷ r ≡ print_rest quote us ++ b']' ∷ s → (ts ≡ us) × (r ≡ s))
      → print_first quote (tree t ts) ++ b']' ∷ r ≡ print_first quote (tree u us) ++ b']' ∷ s
      → (tree t ts ≡ tree u us) × (r ≡ s)
  unfolding print
  tree_delimits t u ts us r s head tail e =
      let (same, left) =
        head (print_rest quote ts ++ b']' ∷ r) (print_rest quote us ++ b']' ∷ s) (rest-stops ts r)
          (rest-stops us s)
          (sym (append_assoc (print quote t) (print_rest quote ts) (b']' ∷ r))
            ∙ e
            ∙ append_assoc (print quote u) (print_rest quote us) (b']' ∷ s)) in
      let (sames, end) = tail left in (ap₂ tree same sames, end)

  member_delimits :
      (j l : Text) (t u : Tree) (ms ns : Members) (r s : Text)
      → AreDelimited t u
      → (print_members quote ms ++ b'}' ∷ r ≡ print_members quote ns ++ b'}' ∷ s
          → (ms ≡ ns) × (r ≡ s))
      → print_first_member quote (member j t ms) ++ b'}' ∷ r
        ≡ print_first_member quote (member l u ns) ++ b'}' ∷ s
      → (member j t ms ≡ member l u ns) × (r ≡ s)
  unfolding print
  member_delimits j l t u ms ns r s head tail e =
      let more : Text = print quote t ++ print_members quote ms in
      let mores : Text = print quote u ++ print_members quote ns in
      let (key, left) =
        quote_delimits j l ((b':' ∷ more) ++ b'}' ∷ r) ((b':' ∷ mores) ++ b'}' ∷ s) (
          sym (append_assoc (quote j) (b':' ∷ more) (b'}' ∷ r))
          ∙ e
          ∙ append_assoc (quote l) (b':' ∷ mores) (b'}' ∷ s)) in
      let inner : more ++ b'}' ∷ r ≡ mores ++ b'}' ∷ s = tail_eq left in
      let (same, behind) =
        head (print_members quote ms ++ b'}' ∷ r) (print_members quote ns ++ b'}' ∷ s)
          (members-stop ms r) (members-stop ns s)
          (sym (append_assoc (print quote t) (print_members quote ms) (b'}' ∷ r))
            ∙ inner
            ∙ append_assoc (print quote u) (print_members quote ns) (b'}' ∷ s)) in
      let (sames, end) = tail behind in
      (ap (λ x. member x t ms) key ∙ ap₂ (member l) same sames, end)

  mutual
    unfolding print IsGood

    pub print_delimits :
        (v w : Tree) (r s : Text)
        → IsGood v
        → IsGood w
        → stops r ≡ true
        → stops s ≡ true
        → print quote v ++ r ≡ print quote w ++ s
        → (v ≡ w) × (r ≡ s)
    print_delimits (word t) (word u) r s h k m n e =
        let (same, left) = free_delimits t u r s (is_word-free t h) (is_word-free u k) m n e in
        (ap word same, left)
    print_delimits (quoted t) (quoted u) r s h k m n e =
        let (same, left) = quote_delimits t u r s e in (ap quoted same, left)
    print_delimits (array ts) (array us) r s h k m n e =
        let (same, left) =
          first_delimits ts us r s h k
            (bracket_tail b'[' b']' (print_first quote ts) (print_first quote us) r s e) in
        (ap array same, left)
    print_delimits (object ms) (object ns) r s h k m n e =
        let (same, left) = first_member_delimits ms ns r s h k (
          bracket_tail b'{' b'}' (print_first_member quote ms) (print_first_member quote ns) r s
            e) in
        (ap object same, left)
    print_delimits (word t) (quoted u) r s h k m n e =
        clash quote quote_begins (word t) (quoted u) r s h k refl e
    print_delimits (word t) (array u) r s h k m n e =
        clash quote quote_begins (word t) (array u) r s h k refl e
    print_delimits (word t) (object u) r s h k m n e =
        clash quote quote_begins (word t) (object u) r s h k refl e
    print_delimits (quoted t) (word u) r s h k m n e =
        clash quote quote_begins (quoted t) (word u) r s h k refl e
    print_delimits (quoted t) (array u) r s h k m n e =
        clash quote quote_begins (quoted t) (array u) r s h k refl e
    print_delimits (quoted t) (object u) r s h k m n e =
        clash quote quote_begins (quoted t) (object u) r s h k refl e
    print_delimits (array t) (word u) r s h k m n e =
        clash quote quote_begins (array t) (word u) r s h k refl e
    print_delimits (array t) (quoted u) r s h k m n e =
        clash quote quote_begins (array t) (quoted u) r s h k refl e
    print_delimits (array t) (object u) r s h k m n e =
        clash quote quote_begins (array t) (object u) r s h k refl e
    print_delimits (object t) (word u) r s h k m n e =
        clash quote quote_begins (object t) (word u) r s h k refl e
    print_delimits (object t) (quoted u) r s h k m n e =
        clash quote quote_begins (object t) (quoted u) r s h k refl e
    print_delimits (object t) (array u) r s h k m n e =
        clash quote quote_begins (object t) (array u) r s h k refl e

    first_delimits :
        (ts us : Trees) (r s : Text)
        → AreGood ts
        → AreGood us
        → print_first quote ts ++ b']' ∷ r ≡ print_first quote us ++ b']' ∷ s
        → (ts ≡ us) × (r ≡ s)
    first_delimits no_trees no_trees r s h k e = (refl, tail_eq e)
    first_delimits no_trees (tree u us) r s h k e =
        absurd
          (no_value quote quote_begins b']' u r _ k.0 refl (e ∙ append_assoc (print quote u) _ _))
    first_delimits (tree t ts) no_trees r s h k e =
        absurd (
          no_value quote quote_begins b']' t s _ h.0 refl
            (sym e ∙ append_assoc (print quote t) _ _))
    first_delimits (tree t ts) (tree u us) r s h k e =
        tree_delimits t u ts us r s (λ v w m n. print_delimits t u v w h.0 k.0 m n)
          (rest_delimits ts us r s h.1 k.1) e

    rest_delimits :
        (ts us : Trees) (r s : Text)
        → AreGood ts
        → AreGood us
        → print_rest quote ts ++ b']' ∷ r ≡ print_rest quote us ++ b']' ∷ s
        → (ts ≡ us) × (r ≡ s)
    rest_delimits no_trees no_trees r s h k e = (refl, tail_eq e)
    rest_delimits no_trees (tree u us) r s h k e = absurd (end_ne_comma refl e)
    rest_delimits (tree t ts) no_trees r s h k e = absurd (end_ne_comma refl (sym e))
    rest_delimits (tree t ts) (tree u us) r s h k e =
        tree_delimits t u ts us r s (λ v w m n. print_delimits t u v w h.0 k.0 m n)
          (rest_delimits ts us r s h.1 k.1) (tail_eq e)

    first_member_delimits :
        (ms ns : Members) (r s : Text)
        → MembersAreGood ms
        → MembersAreGood ns
        → print_first_member quote ms ++ b'}' ∷ r ≡ print_first_member quote ns ++ b'}' ∷ s
        → (ms ≡ ns) × (r ≡ s)
    first_member_delimits no_members no_members r s h k e = (refl, tail_eq e)
    first_member_delimits no_members (member l u ns) r s h k e =
        absurd
          (no_value quote quote_begins b'}' (quoted l) r _ tt refl (e ∙ append_assoc (quote l) _ _))
    first_member_delimits (member j t ms) no_members r s h k e = absurd (
        no_value quote quote_begins b'}' (quoted j) s _ tt refl
          (sym e ∙ append_assoc (quote j) _ _))
    first_member_delimits (member j t ms) (member l u ns) r s h k e =
        member_delimits j l t u ms ns r s (λ v w m n. print_delimits t u v w h.0 k.0 m n)
          (members_delimit ms ns r s h.1 k.1) e

    members_delimit :
        (ms ns : Members) (r s : Text)
        → MembersAreGood ms
        → MembersAreGood ns
        → print_members quote ms ++ b'}' ∷ r ≡ print_members quote ns ++ b'}' ∷ s
        → (ms ≡ ns) × (r ≡ s)
    members_delimit no_members no_members r s h k e = (refl, tail_eq e)
    members_delimit no_members (member l u ns) r s h k e = absurd (end_ne_comma refl e)
    members_delimit (member j t ms) no_members r s h k e = absurd (end_ne_comma refl (sym e))
    members_delimit (member j t ms) (member l u ns) r s h k e =
        member_delimits j l t u ms ns r s (λ v w m n. print_delimits t u v w h.0 k.0 m n)
          (members_delimit ms ns r s h.1 k.1) (tail_eq e)
