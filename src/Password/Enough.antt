-- ===== src/Password/Enough.antt =====
-- packages/domain/src/password.ts: valid options and enough random numbers give a password.
use mima.Prelude.{
  ℕ, zero, suc, ◌+◌, ◌-◌, ◌*◌, ◌%◌, ◌≤◌, ◌<◌, Text, Bool, true, false, ◌||◌, some, List, [], ◌∷◌,
  ◌++◌, ◌≡◌, refl, arith, ltb, length, All, length-append,
}
use native.Mathlib.Nat.{div-add-mod', mod-lt}
use mima.Password.{
  PasswordOptions, limit, random_int, put, pick, pick_all, fill, swap, shuffle, draw,
  generate_password, pools, pool, join_all, is_invalid, upper_set, lower_set, digits_set,
  symbols_set,
}
use mima.Password.Chance.{char_at-some, count-swap}
use mima.Password.Generated.{pick_all-count, fill-count}

-- A number that each bound up to 128 accepts.
abbrev pub IsLow : ℕ → Type 0
IsLow v = v < 4294967168

-- A bound that the generator uses.
abbrev IsBound : ℕ → Type 0
IsBound m = (1 ≤ m) × (m ≤ 128)

ltb_of : {a b : ℕ} → a < b → ltb a b ≡ true
ltb_of h = ground (arith, h)

below_limit : (v m p r : ℕ) → p + r ≡ 4294967295 → r < m → m ≤ 128 → IsLow v → v < p
below_limit v m p r whole small b low = omega (arith, whole, small, b, low)

random_int-IsLow :
    (m v : ℕ) (bits : List ℕ)
    → IsBound m
    → IsLow v
    → (i : ℕ) × (random_int m (v ∷ bits) ≡ some (i, bits)) × (i < m)
unfolding random_int
random_int-IsLow m v bits b low =
    let whole = div-add-mod' 4294967295 m in
    let small = mod-lt 4294967295 {m = m} b.0 in
    let below : ltb v (limit m) ≡ true =
      ltb_of (below_limit v m (limit m) (4294967295 % m) whole small b.1 low) in
    (v % m, rw below, mod-lt v {m = m} b.0)

pick-IsLow :
    (set : Text) (v : ℕ) (bits : List ℕ)
    → IsBound (length set)
    → IsLow v
    → (c : ℕ) × (pick set (v ∷ bits) ≡ some (c, bits))
unfolding pick
pick-IsLow set v bits b low =
    let (i, e, under) = random_int-IsLow (length set) v bits b low in
    let (c, k) = char_at-some set i under in (c, rw (e, k, pick))

swap-some : (i j : ℕ) (t : Text) → i < length t → j < length t → (u : Text) × (swap i j t ≡ some u)
unfolding swap
swap-some i j t h k =
    let (a, e) = char_at-some t i h in
    let (b, f) = char_at-some t j k in (put (put t i b) j a, rw (e, f, swap))

pick_all-IsLow :
    (sets : List Text) (bits : List ℕ)
    → All (λ s. IsBound (length s)) sets
    → All IsLow bits
    → length sets ≤ length bits
    → (chars : Text) × (rest : List ℕ) × (pick_all sets bits ≡ some (chars, rest))
      × All IsLow rest
      × (length rest + length sets ≡ length bits)
unfolding pick_all
pick_all-IsLow [] bits b low h = ([], bits, refl, low, omega arith)
pick_all-IsLow (set ∷ sets) [] b low h = absurd (omega arith)
pick_all-IsLow (set ∷ sets) (v ∷ bits) b low h =
    let (c, e) = pick-IsLow set v bits b.0 low.0 in
    let (chars, rest, k, left, size) = pick_all-IsLow sets bits b.1 low.1 (omega arith) in
    (c ∷ chars, rest, rw (e, k, pick_all), left, omega (arith, size))

fill-IsLow :
    (missing : ℕ) (alphabet chars : Text) (bits : List ℕ)
    → IsBound (length alphabet)
    → All IsLow bits
    → missing ≤ length bits
    → (u : Text) × (rest : List ℕ) × (fill missing alphabet chars bits ≡ some (u, rest))
      × All IsLow rest
      × (length rest + missing ≡ length bits)
unfolding fill
fill-IsLow zero alphabet chars bits b low h = (chars, bits, refl, low, omega arith)
fill-IsLow (suc missing) alphabet chars [] b low h = absurd (omega arith)
fill-IsLow (suc missing) alphabet chars (v ∷ bits) b low h =
    let (c, e) = pick-IsLow alphabet v bits b low.0 in
    let (u, rest, k, left, size) =
      fill-IsLow missing alphabet (chars ++ c ∷ []) bits b low.1 (omega arith) in
    (u, rest, rw (e, k, fill), left, omega (arith, size))

shuffle-IsLow :
    (i : ℕ) (t : Text) (bits : List ℕ)
    → i < length t
    → length t ≤ 128
    → All IsLow bits
    → i ≤ length bits
    → (u : Text) × (rest : List ℕ) × (shuffle i t bits ≡ some (u, rest))
unfolding shuffle
shuffle-IsLow zero t bits h k low n = (t, bits, refl)
shuffle-IsLow (suc i) t [] h k low n = absurd (omega arith)
shuffle-IsLow (suc i) t (v ∷ bits) h k low n =
    let (j, e, under) = random_int-IsLow (suc i + 1) v bits (omega arith, omega arith) low.0 in
    let (next, f) = swap-some (suc i) j t h (omega (arith, under, h)) in
    let size = (count-swap (λ c. true) (suc i) j t next f).1 in
    let (u, rest, g) =
      shuffle-IsLow i next bits (omega (arith, size)) (omega (arith, size)) low.1 (omega arith) in
    (u, rest, rw (e, f, g, shuffle))

pool-IsBound :
    (b : Bool) (set : Text) (sets : List Text)
    → IsBound (length set)
    → All (λ t. IsBound (length t)) sets
    → All (λ t. IsBound (length t)) (pool b set sets)
pool-IsBound true set sets h all = (h, all)
pool-IsBound false set sets h all = all

length-pool :
    (b : Bool) (set : Text) (sets : List Text)
    → length (join_all (pool b set sets)) ≤ length set + length (join_all sets)
length-pool true set sets = omega (arith, length-append set (join_all sets))
length-pool false set sets = omega arith

pools-IsBound : (o : PasswordOptions) → All (λ t. IsBound (length t)) (pools o)
pools-IsBound o =
    let symbols = pool-IsBound o.symbols symbols_set [] (omega arith, omega arith) tt in
    let digits =
      pool-IsBound o.digits digits_set (pool o.symbols symbols_set []) (omega arith, omega arith)
        symbols in
    let lower =
      pool-IsBound o.lower lower_set (pool o.digits digits_set (pool o.symbols symbols_set []))
        (omega arith, omega arith) digits in
    pool-IsBound o.upper upper_set
      (pool o.lower lower_set (pool o.digits digits_set (pool o.symbols symbols_set [])))
      (omega arith, omega arith) lower

short_alphabet : (o : PasswordOptions) → length (join_all (pools o)) ≤ 128
short_alphabet o =
    let fourth = length-pool o.symbols symbols_set [] in
    let third = length-pool o.digits digits_set (pool o.symbols symbols_set []) in
    let second =
      length-pool o.lower lower_set (pool o.digits digits_set (pool o.symbols symbols_set [])) in
    let first =
      length-pool o.upper upper_set
        (pool o.lower lower_set (pool o.digits digits_set (pool o.symbols symbols_set []))) in
    omega (arith, first, second, third, fourth)

some_alphabet :
    (sets : List Text)
    → All (λ t. IsBound (length t)) sets
    → 1 ≤ length sets
    → 1 ≤ length (join_all sets)
some_alphabet [] all h = absurd (omega arith)
some_alphabet (set ∷ sets) all h = omega (arith, all.0.0, length-append set (join_all sets))

valid_sizes :
    (a b : ℕ) → (ltb a 1 || (ltb b a || ltb 128 b)) ≡ false → (1 ≤ a) × (a ≤ b) × (b ≤ 128)
valid_sizes a b h = (ground (arith, h), ground (arith, h), ground (arith, h))

-- The characters that are drawn, from sets and an alphabet of fitting sizes.
filled-IsLow :
    (sets : List Text) (alphabet : Text) (n : ℕ) (bits : List ℕ)
    → All (λ t. IsBound (length t)) sets
    → IsBound (length alphabet)
    → length sets ≤ n
    → All IsLow bits
    → 2 * n ≤ length bits
    → (chars : Text) × (rest : List ℕ) × (full : Text) × (last : List ℕ) × (pick_all sets bits
        ≡ some (chars, rest))
      × (fill (n - length chars) alphabet chars rest ≡ some (full, last))
      × All IsLow last
      × (length full ≡ n)
      × (n ≤ length last)
filled-IsLow sets alphabet n bits all bound fits low h =
    let (chars, rest, e, left, size) = pick_all-IsLow sets bits all low (omega (arith, fits, h)) in
    let long = (pick_all-count sets bits chars rest e).0 in
    let (full, last, f, over, used) =
      fill-IsLow (n - length chars) alphabet chars rest bound left
        (omega (arith, fits, h, size, long)) in
    let whole = (fill-count (λ c. true) (n - length chars) alphabet chars rest full last f).0 in
    (
      chars,
      rest,
      full,
      last,
      e,
      f,
      over,
      omega (arith, whole, long, fits),
      omega (arith, used, size, long, fits, h),
    )

-- Valid options and twice as many random numbers below 4294967168 as the length give a password.
pub generate_password-enough :
    (o : PasswordOptions) (bits : List ℕ)
    → is_invalid o ≡ false
    → All IsLow bits
    → 2 * o.length ≤ length bits
    → (password : Text) × (rest : List ℕ) × (generate_password o bits ≡ some (password, rest))
unfolding generate_password draw
generate_password-enough o bits valid low h =
    let (one, fits, most) = valid_sizes (length (pools o)) o.length valid in
    let sets = pools-IsBound o in
    let (chars, rest, full, last, e, f, over, long, left) =
      filled-IsLow (pools o) (join_all (pools o)) o.length bits sets
        (some_alphabet (pools o) sets one, short_alphabet o) fits low h in
    let (password, end, g) =
      shuffle-IsLow (length full - 1) full last (omega (arith, one, fits, long))
        (omega (arith, most, long)) over (omega (arith, left, long)) in
    (password, end, rw (valid, e, f, generate_password, draw) g)
