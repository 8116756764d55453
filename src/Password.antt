-- ===== src/Password.antt =====
-- packages/domain/src/password.ts: the password generator. The 32-bit numbers that the platform's
-- random source gives are a list; a run that needs more of them than the list has gives none.
pub mod Chance
pub mod Generated
pub mod Enough
pub mod Examples
use mima.Prelude.{
  ℕ, zero, suc, ◌+◌, ◌-◌, ◌*◌, ◌/◌, ◌%◌, Text, Bool, true, false, ◌&&◌, ◌||◌, Option, none, some,
  List, [], ◌∷◌, ◌++◌, ltb, length, if◌then◌else◌,
}

pub record PasswordOptions : Type 0 where
  pub length : ℕ
  pub upper : Bool
  pub lower : Bool
  pub digits : Bool
  pub symbols : Bool

abbrev pub default_password_options : PasswordOptions
default_password_options = record {
  length = 20;
  upper = true;
  lower = true;
  digits = true;
  symbols = true;
}

-- SETS.upper
abbrev pub upper_set : Text
upper_set =
    b'A' ∷ b'B' ∷ b'C' ∷ b'D' ∷ b'E' ∷ b'F' ∷ b'G' ∷ b'H' ∷ b'J' ∷ b'K' ∷ b'L' ∷ b'M' ∷ b'N' ∷ b'P'
    ∷ b'Q' ∷ b'R' ∷ b'S' ∷ b'T' ∷ b'U' ∷ b'V' ∷ b'W' ∷ b'X' ∷ b'Y' ∷ b'Z' ∷ []

-- SETS.lower
abbrev pub lower_set : Text
lower_set =
    b'a' ∷ b'b' ∷ b'c' ∷ b'd' ∷ b'e' ∷ b'f' ∷ b'g' ∷ b'h' ∷ b'i' ∷ b'j' ∷ b'k' ∷ b'm' ∷ b'n' ∷ b'p'
    ∷ b'q' ∷ b'r' ∷ b's' ∷ b't' ∷ b'u' ∷ b'v' ∷ b'w' ∷ b'x' ∷ b'y' ∷ b'z' ∷ []

-- SETS.digits
abbrev pub digits_set : Text
digits_set = b'2' ∷ b'3' ∷ b'4' ∷ b'5' ∷ b'6' ∷ b'7' ∷ b'8' ∷ b'9' ∷ []

-- SETS.symbols
abbrev pub symbols_set : Text
symbols_set =
    33 ∷ 64 ∷ 35 ∷ 36 ∷ 37 ∷ 94 ∷ 38 ∷ 42 ∷ 40 ∷ 41 ∷ 45 ∷ 95 ∷ 61 ∷ 43 ∷ 91 ∷ 93 ∷ 123 ∷ 125 ∷ 59
    ∷ 58 ∷ 44 ∷ 46 ∷ 63 ∷ []

-- The multiple of the bound below which a random number is accepted.
abbrev pub limit : ℕ → ℕ
limit max_exclusive = 4294967295 / max_exclusive * max_exclusive

-- Rejection sampling: the number, and the random numbers that are left.
unfoldable pub random_int : ℕ → List ℕ → Option (ℕ × List ℕ)
random_int max_exclusive [] = none
random_int max_exclusive (v ∷ bits) =
    let rest = random_int max_exclusive bits in
    if ltb v (limit max_exclusive) then some (v % max_exclusive, bits) else rest

abbrev pub char_at : Text → ℕ → Option ℕ
char_at [] i = none
char_at (c ∷ t) zero = some c
char_at (c ∷ t) (suc i) = char_at t i

abbrev pub put : Text → ℕ → ℕ → Text
put [] i v = []
put (c ∷ t) zero v = v ∷ t
put (c ∷ t) (suc i) v = c ∷ put t i v

unfoldable pub pick : Text → List ℕ → Option (ℕ × List ℕ)
unfolding random_int
pick set bits = elim (random_int (length set) bits) [
  | none ↦ none
  | some (i, rest) ↦ elim (char_at set i) [ none ↦ none | some c ↦ some (c, rest) ]
]

-- `pools.map((k) => pick(SETS[k]))`
unfoldable pub pick_all : List Text → List ℕ → Option (Text × List ℕ)
unfolding pick
pick_all [] bits = some ([], bits)
pick_all (set ∷ sets) bits = elim (pick set bits) [
  | none ↦ none
  | some (c, rest) ↦ elim (pick_all sets rest) [
    | none ↦ none
    | some (chars, last) ↦ some (c ∷ chars, last)
  ]
]

-- The loop that fills up, with the number of characters that are missing.
unfoldable pub fill : ℕ → Text → Text → List ℕ → Option (Text × List ℕ)
unfolding pick
fill zero alphabet chars bits = some (chars, bits)
fill (suc missing) alphabet chars bits = elim (pick alphabet bits) [
  | none ↦ none
  | some (c, rest) ↦ fill missing alphabet (chars ++ c ∷ []) rest
]

-- The exchange of the characters at two places.
unfoldable pub swap : ℕ → ℕ → Text → Option Text
swap i j chars = elim (char_at chars i) [
  | none ↦ none
  | some a ↦ elim (char_at chars j) [ none ↦ none | some b ↦ some (put (put chars i b) j a) ]
]

-- The shuffle from an index on downwards.
unfoldable pub shuffle : ℕ → Text → List ℕ → Option (Text × List ℕ)
unfolding random_int swap
shuffle zero chars bits = some (chars, bits)
shuffle (suc i) chars bits = elim (random_int (suc i + 1) bits) [
  | none ↦ none
  | some (j, rest) ↦ elim (swap (suc i) j chars) [ none ↦ none | some next ↦ shuffle i next rest ]
]

abbrev pub pool : Bool → Text → List Text → List Text
pool true set sets = set ∷ sets
pool false set sets = sets

abbrev pub pools : PasswordOptions → List Text
pools o =
    pool o.upper upper_set
      (pool o.lower lower_set (pool o.digits digits_set (pool o.symbols symbols_set [])))

abbrev pub join_all : List Text → Text
join_all [] = []
join_all (t ∷ ts) = t ++ join_all ts

abbrev pub is_invalid : PasswordOptions → Bool
is_invalid o = ltb (length (pools o)) 1 || (ltb o.length (length (pools o)) || ltb 128 o.length)

-- The characters before they are shuffled.
unfoldable pub draw : PasswordOptions → List ℕ → Option (Text × List ℕ)
unfolding pick_all fill
draw o bits = elim (pick_all (pools o) bits) [
  | none ↦ none
  | some (chars, rest) ↦ fill (o.length - length chars) (join_all (pools o)) chars rest
]

-- None stands for the error on invalid options, too.
unfoldable pub generate_password : PasswordOptions → List ℕ → Option (Text × List ℕ)
unfolding draw shuffle
generate_password o bits = if is_invalid o then none else elim (draw o bits) [
  | none ↦ none
  | some (chars, rest) ↦ shuffle (length chars - 1) chars rest
]
