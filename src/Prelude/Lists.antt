-- ===== src/Prelude/Lists.antt =====
-- Lists: the array methods that the program uses, with Boolean tests, and their laws.
use Prim.Native.Nat.{ℕ, suc, ◌+◌, ◌≤◌}
use mathlib.Core.Path.{◌≡◌, refl, ap}
use mathlib.Core.Logic.{◌⊎◌, inl, inr}
use mathlib.Core.Bool.{Bool, true, false, ◌&&◌, ◌||◌}
use mathlib.Core.Option.{Option, none, some}
use mathlib.Core.List.{List, [], ◌∷◌, ◌++◌, map}
use native.Mathlib.Omega.{arith}
use mima.Prelude.Tests.{if◌then◌else◌, Bool-cases, Eq, ◌==◌}

module _ {ℓ} {A : Type ℓ} where
  abbrev pub length : List A → ℕ
  length [] = 0
  length (x ∷ xs) = suc (length xs)

  -- `find`
  abbrev pub find : (A → Bool) → List A → Option A
  find p [] = none
  find p (x ∷ xs) = if p x then some x else find p xs

  -- `filter`
  abbrev pub keep : (A → Bool) → List A → List A
  keep p [] = []
  keep p (x ∷ xs) = let rest = keep p xs in if p x then x ∷ rest else rest

  -- `some`
  abbrev pub any : (A → Bool) → List A → Bool
  any p [] = false
  any p (x ∷ xs) = p x || any p xs

  -- `every`
  abbrev pub all : (A → Bool) → List A → Bool
  all p [] = true
  all p (x ∷ xs) = p x && all p xs

  pub List-cases : (xs : List A) → (xs ≡ []) ⊎ ((x : A) × (ys : List A) × (xs ≡ x ∷ ys))
  List-cases [] = inl refl
  List-cases (x ∷ xs) = inr (x, xs, refl)

  -- A member of a list, with its place.
  pub data In (a : A) : List A → Type ℓ where
    here : {xs : List A} → In a (a ∷ xs)
    there : {x : A} {xs : List A} → In a xs → In a (x ∷ xs)

  abbrev pub All {κ} : (A → Type κ) → List A → Type κ
  All P [] = Unit
  All P (x ∷ xs) = P x × All P xs

  pub All-In {κ} : (P : A → Type κ) {a : A} {xs : List A} → In a xs → All P xs → P a
  All-In P here h = h.0
  All-In P (there i) h = All-In P i h.1

  pub All-append {κ} : (P : A → Type κ) (xs ys : List A) → All P xs → All P ys → All P (xs ++ ys)
  All-append P [] ys h k = k
  All-append P (x ∷ xs) ys h k = (h.0, All-append P xs ys h.1 k)

  pub All-keep {κ} : (P : A → Type κ) (p : A → Bool) (xs : List A) → All P xs → All P (keep p xs)
  All-keep P p [] h = tt
  All-keep P p (x ∷ xs) h = elim (Bool-cases (p x)) [
    | inl e ↦ rw e (h.0, All-keep P p xs h.1)
    | inr e ↦ rw e (All-keep P p xs h.1)
  ]

  pub In-append_left : {a : A} {xs : List A} (ys : List A) → In a xs → In a (xs ++ ys)
  In-append_left ys here = here
  In-append_left ys (there i) = there (In-append_left ys i)

  pub In-append_right : {a : A} (xs : List A) {ys : List A} → In a ys → In a (xs ++ ys)
  In-append_right [] i = i
  In-append_right (x ∷ xs) i = there (In-append_right xs i)

  pub append-nil : (xs : List A) → xs ++ [] ≡ xs
  append-nil [] = refl
  append-nil (x ∷ xs) = ap (λ ys. x ∷ ys) (append-nil xs)

  pub append_assoc : (xs ys zs : List A) → (xs ++ ys) ++ zs ≡ xs ++ (ys ++ zs)
  append_assoc [] ys zs = refl
  append_assoc (x ∷ xs) ys zs = ap (λ ws. x ∷ ws) (append_assoc xs ys zs)

  pub length-append : (xs ys : List A) → length (xs ++ ys) ≡ length xs + length ys
  length-append [] ys = omega arith
  length-append (x ∷ xs) ys = omega (arith, length-append xs ys)

  pub keep-append : (p : A → Bool) (xs ys : List A) → keep p (xs ++ ys) ≡ keep p xs ++ keep p ys
  keep-append p [] ys = refl
  keep-append p (x ∷ xs) ys = ground (arith, keep-append p xs ys)

  pub length-keep-le : (p : A → Bool) (xs : List A) → length (keep p xs) ≤ length xs
  length-keep-le p [] = omega arith
  length-keep-le p (x ∷ xs) = ground (arith, length-keep-le p xs)

  pub In-cons : {a x : A} {xs : List A} → In a (x ∷ xs) → (a ≡ x) ⊎ In a xs
  In-cons here = inl refl
  In-cons (there i) = inr i

  pub In-of_append : {a : A} (xs ys : List A) → In a (xs ++ ys) → In a xs ⊎ In a ys
  In-of_append [] ys i = inr i
  In-of_append (x ∷ xs) ys i = elim (In-cons i) [
    | inl e ↦ inl (rw e here)
    | inr j ↦ elim (In-of_append xs ys j) [ inl k ↦ inl (there k) | inr k ↦ inr k ]
  ]

  pub find-eq-none : (p : A → Bool) {a : A} {xs : List A} → In a xs → find p xs ≡ none → p a ≡ false
  find-eq-none p {a} here h = ground arith
  find-eq-none p (there {x} {xs = ys} i) h = find-eq-none p i (ground arith)

  pub find-eq-some :
      (p : A → Bool) {a : A} (xs : List A) → find p xs ≡ some a → In a xs × (p a ≡ true)
  find-eq-some p [] h = cc
  find-eq-some p {a} (x ∷ xs) h = elim (Bool-cases (p x)) [
    | inl e ↦ let q : x ≡ a = ground arith in rw (← q) (here, e)
    | inr e ↦ let rest = find-eq-some p xs (ground arith) in (there rest.0, rest.1)
  ]

  pub In-any : (p : A → Bool) {a : A} {xs : List A} → In a xs → p a ≡ true → any p xs ≡ true
  In-any p here h = rw h refl
  In-any p (there {x} i) h = ground (arith, In-any p i h)

  -- A member that passes the test is kept, and what is kept is a member that passes it.
  pub In-keep : (p : A → Bool) {a : A} {xs : List A} → In a xs → p a ≡ true → In a (keep p xs)
  In-keep p here h = rw h here
  In-keep p (there {x} i) h = elim (Bool-cases (p x)) [
    | inl e ↦ rw e (there (In-keep p i h))
    | inr e ↦ rw e (In-keep p i h)
  ]

  pub In-of_keep : (p : A → Bool) {a : A} (xs : List A) → In a (keep p xs) → In a xs × (p a ≡ true)
  In-of_keep p [] i = elim i [ ]
  In-of_keep p {a} (x ∷ xs) i = elim (Bool-cases (p x)) [
    | inl e ↦ elim (In-cons (rw e at i)) [
      | inl q ↦ rw q (here, e)
      | inr j ↦ let rest = In-of_keep p xs j in (there rest.0, rest.1)
    ]
    | inr e ↦ let rest = In-of_keep p xs (rw e at i) in (there rest.0, rest.1)
  ]

module _ {ℓ} {A : Type ℓ} ⦃e : Eq A⦄ where
  -- `includes`
  abbrev pub includes : List A → A → Bool
  includes xs a = any (λ x. x == a) xs

  pub includes-In : (xs : List A) (a : A) → includes xs a ≡ true → In a xs
  includes-In [] a h = cc
  includes-In (x ∷ xs) a h = elim (Bool-cases (x == a)) [
    | inl q ↦ rw ((e.equals_iff x a).0 q) here
    | inr q ↦ there (includes-In xs a (ground arith))
  ]

  pub In-includes : {a : A} {xs : List A} → In a xs → includes xs a ≡ true
  In-includes {a} here = rw ((e.equals_iff a a).1 refl)
  In-includes {a} (there {x} i) = ground (arith, In-includes i)

module _ {ℓ κ} {A : Type ℓ} {B : Type κ} (f : A → B) where
  pub In-map : {a : A} {xs : List A} → In a xs → In (f a) (map f xs)
  In-map here = here
  In-map (there i) = there (In-map i)

  pub In-of_map : {b : B} (xs : List A) → In b (map f xs) → (a : A) × In a xs × (b ≡ f a)
  In-of_map [] i = elim i [ ]
  In-of_map (x ∷ xs) i = elim (In-cons i) [
    | inl e ↦ (x, here, e)
    | inr j ↦ let r = In-of_map xs j in (r.0, there r.1, r.2)
  ]
