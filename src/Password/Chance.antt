-- ===== src/Password/Chance.antt =====
-- packages/domain/src/password.ts: numbers below a bound, and what an exchange of characters keeps.
use mima.Prelude.{
  ℕ, zero, suc, ◌+◌, ◌<◌, Text, Bool, true, false, some, List, [], ◌∷◌, ◌++◌, ◌≡◌, refl, ap, ◌∙◌,
  arith, length, keep, Option-cases, inl, inr, In, here, there, keep-append, length-append,
}
use mima.Password.{random_int, char_at, put, pick, swap, shuffle}

-- How many characters pass a test.
abbrev pub count : (ℕ → Bool) → Text → ℕ
count p t = length (keep p t)

abbrev as_number : Bool → ℕ
as_number true = 1
as_number false = 0

length-put : (t : Text) (i v : ℕ) → length (put t i v) ≡ length t
length-put [] i v = refl
length-put (c ∷ t) zero v = refl
length-put (c ∷ t) (suc i) v = ap suc (length-put t i v)

count-put :
    (p : ℕ → Bool) (t : Text) (i a v : ℕ)
    → char_at t i ≡ some a
    → count p (put t i v) + as_number (p a) ≡ count p t + as_number (p v)
count-put p [] i a v h = cc
count-put p (c ∷ t) zero a v h = ground (arith, h)
count-put p (c ∷ t) (suc i) a v h = ground (arith, count-put p t i a v h)

char_at-put : (t : Text) (i j b : ℕ) → char_at t j ≡ some b → char_at (put t i b) j ≡ some b
char_at-put [] i j b h = h
char_at-put (c ∷ t) zero zero b h = refl
char_at-put (c ∷ t) zero (suc j) b h = h
char_at-put (c ∷ t) (suc i) zero b h = h
char_at-put (c ∷ t) (suc i) (suc j) b h = char_at-put t i j b h

pub count-swap :
    (p : ℕ → Bool) (i j : ℕ) (t u : Text)
    → swap i j t ≡ some u
    → (count p u ≡ count p t) × (length u ≡ length t)
unfolding swap
count-swap p i j t u h = elim (Option-cases (char_at t i)) [
  | inl e ↦ cc (rw (e, swap) at h)
  | inr (a, e) ↦ elim (Option-cases (char_at t j)) [
    | inl k ↦ cc (rw (e, k, swap) at h)
    | inr (b, k) ↦
        let made : put (put t i b) j a ≡ u = ground (arith, (rw (e, k, swap) at h)) in
        let first = count-put p t i a b e in
        let second = count-put p (put t i b) j b a (char_at-put t i j b k) in
        rw (← made) (omega (arith, first, second), length-put (put t i b) j a ∙ length-put t i b)
  ]
]

pub char_at-some : (t : Text) (i : ℕ) → i < length t → (c : ℕ) × (char_at t i ≡ some c)
char_at-some [] i h = absurd (omega arith)
char_at-some (c ∷ t) zero h = (c, refl)
char_at-some (c ∷ t) (suc i) h = char_at-some t i (omega arith)

pub char_at-In : (t : Text) (i c : ℕ) → char_at t i ≡ some c → In c t
char_at-In [] i c h = cc
char_at-In (d ∷ t) zero c h = let same : d ≡ c = ground (arith, h) in rw same here
char_at-In (d ∷ t) (suc i) c h = there (char_at-In t i c h)

pub pick-In : (set : Text) (bits rest : List ℕ) (c : ℕ) → pick set bits ≡ some (c, rest) → In c set
unfolding pick
pick-In set bits rest c h = elim (Option-cases (random_int (length set) bits)) [
  | inl e ↦ cc (rw (e, pick) at h)
  | inr ((i, left), e) ↦ elim (Option-cases (char_at set i)) [
    | inl k ↦ cc (rw (e, k, pick) at h)
    | inr (d, k) ↦
        let same : d ≡ c = ground (arith, (rw (e, k, pick) at h)) in
        char_at-In set i c (k ∙ ap some same)
  ]
]

pub count-append : (p : ℕ → Bool) (t u : Text) → count p (t ++ u) ≡ count p t + count p u
count-append p t u = rw keep-append (length-append (keep p t) (keep p u))

-- The shuffle keeps how many characters pass a test, and how many there are.
pub count-shuffle :
    (p : ℕ → Bool) (i : ℕ) (t : Text) (bits : List ℕ) (u : Text) (rest : List ℕ)
    → shuffle i t bits ≡ some (u, rest)
    → (count p u ≡ count p t) × (length u ≡ length t)
unfolding shuffle
count-shuffle p zero t bits u rest h = let same : t ≡ u = ground (arith, h) in rw same (refl, refl)
count-shuffle p (suc i) t bits u rest h = elim (Option-cases (random_int (suc i + 1) bits)) [
  | inl e ↦ cc (rw (e, shuffle) at h)
  | inr ((j, left), e) ↦ elim (Option-cases (swap (suc i) j t)) [
    | inl k ↦ cc (rw (e, k, shuffle) at h)
    | inr (next, k) ↦
        let later = count-shuffle p i next left u rest (rw (e, k, shuffle) at h) in
        let first = count-swap p (suc i) j t next k in (later.0 ∙ first.0, later.1 ∙ first.1)
  ]
]
