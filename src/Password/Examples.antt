-- ===== src/Password/Examples.antt =====
-- A run of the generator of packages/domain/src/password.ts.
use mima.Prelude.{
  ℕ, arith, All, ◌≤◌, Text, true, false, none, some, List, [], ◌∷◌, ◌≡◌, refl, length, In, includes,
  nat_eq,
}
use mima.Password.{
  PasswordOptions, generate_password, random_int, pools, join_all, default_password_options,
}
use mima.Password.Chance.{count}
use mima.Password.Generated.{generate_password-count}
use mima.Password.Enough.{IsLow, generate_password-enough}

abbrev short : PasswordOptions
short = record { length = 4; upper = true; lower = false; digits = true; symbols = false }

abbrev random_bits : List ℕ
random_bits = 24 ∷ 4294967295 ∷ 9 ∷ 1 ∷ 30 ∷ 7 ∷ 5 ∷ 2 ∷ 77 ∷ []

-- A number above the limit is thrown away.
rejected : random_int 24 (4294967295 ∷ 25 ∷ 3 ∷ []) ≡ some (1, 3 ∷ [])
unfolding random_int
rejected = refl

too_short : generate_password (record default_password_options { length = 3 }) random_bits ≡ none
unfolding generate_password
too_short = refl

-- '3AB8'
abbrev password_text : Text
password_text = b'3' ∷ b'A' ∷ b'B' ∷ b'8' ∷ []

short_password : generate_password short random_bits ≡ some (password_text, 77 ∷ [])
unfolding generate_password
short_password = refl

generate_password-count_example :
    (length password_text ≡ 4)
    × (count (includes (join_all (pools short))) password_text ≡ 4)
    × ((set : Text) → In set (pools short) → 1 ≤ count (includes set) password_text)
generate_password-count_example =
    generate_password-count short random_bits password_text (77 ∷ []) short_password

abbrev low_bits : List ℕ
low_bits = 24 ∷ 9 ∷ 1 ∷ 30 ∷ 7 ∷ 5 ∷ 2 ∷ 77 ∷ []

low_bits-IsLow : All IsLow low_bits
low_bits-IsLow = (
  omega arith,
  (
    omega arith,
    (omega arith, (omega arith, (omega arith, (omega arith, (omega arith, (omega arith, tt)))))),
  ),
)

generate_password-enough_example :
    (password : Text) × (rest : List ℕ) × (generate_password short low_bits ≡ some (password, rest))
generate_password-enough_example =
    generate_password-enough short low_bits refl low_bits-IsLow (omega arith)
