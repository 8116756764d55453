-- ===== src/Password/Generated.antt =====
-- packages/domain/src/password.ts: what every generated password is made of.
use mima.Prelude.{
  ℕ, zero, suc, ◌+◌, ◌-◌, ◌≤◌, Text, Bool, true, false, ◌||◌, some, List, [], ◌∷◌, ◌++◌, ◌≡◌, refl,
  ap, ◌∙◌, arith, ltb, length, Bool-cases, Option-cases, inl, inr, In, here, there, includes,
  In-includes, nat_eq, In-append_left, In-append_right, In-cons, length-append,
}
use mima.Password.{
  PasswordOptions, pick, pick_all, fill, draw, generate_password, pools, join_all, is_invalid,
}
use mima.Password.Chance.{count, pick-In, count-append, count-shuffle}

In-join_all :
    {c : ℕ} {set : Text} {sets : List Text} → In c set → In set sets → In c (join_all sets)
In-join_all {sets = []} i j = elim j [ ]
In-join_all {sets = set ∷ sets} i here = In-append_left (join_all sets) i
In-join_all {sets = first ∷ sets} i (there j) = In-append_right first (In-join_all i j)

-- The first characters: one of each set, and no other.
pub pick_all-count :
    (sets : List Text) (bits : List ℕ) (chars : Text) (rest : List ℕ)
    → pick_all sets bits ≡ some (chars, rest)
    → (length chars ≡ length sets)
      × ((p : ℕ → Bool)
          → ((set : Text) (c : ℕ) → In set sets → In c set → p c ≡ true)
          → count p chars ≡ length chars)
      × ((set : Text) → In set sets → 1 ≤ count (includes set) chars)
unfolding pick_all
pick_all-count [] bits chars rest h =
    let same : [] ≡ chars = ground (arith, h) in
    rw (← same) (refl, (λ p q. refl), λ set i. elim i [ ])
pick_all-count (first ∷ sets) bits chars rest h = elim (Option-cases (pick first bits)) [
  | inl e ↦ cc (rw (e, pick_all) at h)
  | inr ((c, left), e) ↦ elim (Option-cases (pick_all sets left)) [
    | inl k ↦ cc (rw (e, k, pick_all) at h)
    | inr ((others, last), k) ↦
        let same : c ∷ others ≡ chars = ground (arith, (rw (e, k, pick_all) at h)) in
        let at = pick-In first bits left c e in
        let (long, only, each) = pick_all-count sets left others last k in
        rw (← same) (
          ap suc long,
          (λ p q. rw (q first c here at) (ap suc (only p (λ set d i j. q set d (there i) j)))),
          λ set i. elim (In-cons i) [
            | inl f ↦ rw (f, In-includes at) (omega arith)
            | inr j ↦ ground (arith, each set j)
          ],
        )
  ]
]

pub fill-count :
    (p : ℕ → Bool) (missing : ℕ) (alphabet chars : Text) (bits : List ℕ) (u : Text) (rest : List ℕ)
    → fill missing alphabet chars bits ≡ some (u, rest)
    → (length u ≡ length chars + missing)
      × (count p chars ≤ count p u)
      × (((c : ℕ) → In c alphabet → p c ≡ true) → count p u ≡ count p chars + missing)
unfolding fill
fill-count p zero alphabet chars bits u rest h =
    let same : chars ≡ u = ground (arith, h) in rw same (omega arith, omega arith, λ q. omega arith)
fill-count p (suc missing) alphabet chars bits u rest h = elim (Option-cases (pick alphabet bits)) [
  | inl e ↦ cc (rw (e, fill) at h)
  | inr ((c, left), e) ↦
      let later = fill-count p missing alphabet (chars ++ c ∷ []) left u rest (rw (e, fill) at h) in
      let added = count-append p chars (c ∷ []) in
      (
        omega (arith, later.0, length-append chars (c ∷ [])),
        omega (arith, later.1, added),
        λ q.
            let one : count p (c ∷ []) ≡ 1 = rw (q c (pick-In alphabet bits left c e)) refl in
            omega (arith, later.2 q, added, one),
      )
]

pub enough_length : (a b : ℕ) → (ltb a 1 || (ltb b a || ltb 128 b)) ≡ false → a ≤ b
enough_length a b h = ground (arith, h)

-- A password that is generated has the length asked for, every character of it is of the alphabet of
-- the chosen sets, and each chosen set gives at least one character.
pub generate_password-count :
    (o : PasswordOptions) (bits : List ℕ) (password : Text) (rest : List ℕ)
    → generate_password o bits ≡ some (password, rest)
    → (length password ≡ o.length)
      × (count (includes (join_all (pools o))) password ≡ o.length)
      × ((set : Text) → In set (pools o) → 1 ≤ count (includes set) password)
unfolding generate_password draw
generate_password-count o bits password rest h = elim (Bool-cases (is_invalid o)) [
  | inl e ↦ cc (rw (e, generate_password) at h)
  | inr e ↦ elim (Option-cases (pick_all (pools o) bits)) [
    | inl k ↦ cc (rw (e, k, generate_password, draw) at h)
    | inr ((chars, left), k) ↦
        elim (Option-cases (fill (o.length - length chars) (join_all (pools o)) chars left)) [
          | inl f ↦ cc (rw (e, k, f, generate_password, draw) at h)
          | inr ((full, last), f) ↦
              let (long, only, each) = pick_all-count (pools o) bits chars left k in
              let filled = λ (p : ℕ → Bool).
                fill-count p (o.length - length chars) (join_all (pools o)) chars left full last
                  f in
              let mixed = λ (p : ℕ → Bool).
                count-shuffle p (length full - 1) full last password rest
                  (rw (e, k, f, generate_password, draw) at h) in
              let enough = enough_length (length (pools o)) o.length e in
              let letters = includes (join_all (pools o)) in
              let size : length chars + (o.length - length chars) ≡ o.length =
                omega (arith, long, enough) in
              (
                (mixed letters).1 ∙ ((filled letters).0 ∙ size),
                (mixed letters).0
                    ∙ ((filled letters).2 (λ c i. In-includes i)
                        ∙ (ap (λ n. n + (o.length - length chars))
                              (only letters (λ set c i j. In-includes (In-join_all j i)))
                            ∙ size)),
                λ set i.
                    omega (arith, each set i, (filled (includes set)).1, (mixed (includes set)).0),
              )
        ]
  ]
]
