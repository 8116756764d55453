-- ===== src/Sessions/Groups.antt =====
-- `sameGroups` of apps/api/src/services/session-service.ts compares the sizes of two sets and looks
-- for the members of one in the other; that tells whether the lists have the same members.
use mima.Prelude.{
  In-of_append, ◌≤◌, ◌<◌, String, true, false, not, List, [], ◌∷◌, ◌++◌, ◌==◌, nat_eq, string_eq,
  if◌then◌else◌, keep, all, includes, includes-In, In-includes, length, length-keep-le, In, here,
  there, In-cons, In-keep, In-append_left, In-append_right, Bool-cases, and-eq-true, eq_iff,
  nat_beq_iff, ◌≡◌, ◌↔◌, ◌⊎◌, inl, inr, refl, arith,
}
use mima.Sessions.{to_set, same_groups}

-- No member comes twice.
IsDistinct : List String → Type 0
IsDistinct [] = Unit
IsDistinct (x ∷ xs) = (includes xs x ≡ false) × IsDistinct xs

Sub : List String → List String → Type 0
Sub xs ys = (a : String) → In a xs → In a ys

abbrev drop : String → List String → List String
drop x ys = keep (λ y. not (y == x)) ys

length-drop : (x : String) (ys : List String) → In x ys → length (drop x ys) < length ys
length-drop x _ (here {xs = ys}) =
    rw ((eq_iff x x).1 refl) (omega (arith, length-keep-le (λ y. not (y == x)) ys))
length-drop x _ (there {x = y} {xs = ys} i) = elim (Bool-cases (y == x)) [
  | inl e ↦ rw e (omega (arith, length-keep-le (λ z. not (z == x)) ys))
  | inr e ↦ rw e (omega (arith, length-drop x ys i))
]

In-drop :
    (x : String) {a : String} {ys : List String} → In a ys → (a == x) ≡ false → In a (drop x ys)
In-drop x i e = In-keep (λ y. not (y == x)) i (rw e refl)

absent : (xs : List String) (x a : String) → includes xs x ≡ false → In a xs → (a == x) ≡ false
absent xs x a h i = elim (Bool-cases (a == x)) [
  | inl e ↦ cc (rw ((eq_iff a x).0 e) at (In-includes i), h)
  | inr e ↦ e
]

length-Sub : (xs ys : List String) → IsDistinct xs → Sub xs ys → length xs ≤ length ys
unfolding IsDistinct Sub
length-Sub [] ys d s = omega arith
length-Sub (x ∷ xs) ys d s =
    let fits : Sub xs (drop x ys) =
      unfold Sub in λ a i. In-drop x (s a (there i)) (absent xs x a d.0 i) in
    omega (arith, length-Sub xs (drop x ys) d.1 fits, length-drop x ys (s x here))

-- A set that is in another and is as large is all of it.
Sub-full : (xs ys : List String) → IsDistinct xs → Sub xs ys → length xs ≡ length ys → Sub ys xs
unfolding IsDistinct Sub
Sub-full xs ys d s e a i = elim (Bool-cases (includes xs a)) [
  | inl h ↦ includes-In xs a h
  | inr h ↦
      let more : Sub (a ∷ xs) ys =
        unfold Sub in λ b j. elim (In-cons j) [ inl q ↦ rw q i | inr k ↦ s b k ] in
      absurd (omega (arith, length-Sub (a ∷ xs) ys (h, d) more, e))
]

includes-append :
    (xs : List String) (x a : String)
    → includes xs a ≡ false
    → (x == a) ≡ false
    → includes (xs ++ x ∷ []) a ≡ false
includes-append [] x a h e = rw e refl
includes-append (y ∷ ys) x a h e = ground (arith, includes-append ys x a)

differs-sym : (x y : String) → (x == y) ≡ false → (y == x) ≡ false
differs-sym x y h = ground (arith, eq_iff x y, eq_iff y x)

IsDistinct-snoc :
    (xs : List String) (x : String)
    → IsDistinct xs
    → includes xs x ≡ false
    → IsDistinct (xs ++ x ∷ [])
unfolding IsDistinct
IsDistinct-snoc [] x d h = (refl, tt)
IsDistinct-snoc (y ∷ ys) x d h =
    let other : (y == x) ≡ false = ground (arith, h) in
    let rest : includes ys x ≡ false = ground (arith, h) in
    (includes-append ys x y d.0 (differs-sym y x other), IsDistinct-snoc ys x d.1 rest)

to_set-IsDistinct : (seen xs : List String) → IsDistinct seen → IsDistinct (to_set seen xs)
unfolding to_set
to_set-IsDistinct seen [] d = d
to_set-IsDistinct seen (x ∷ xs) d = elim (Bool-cases (includes seen x)) [
  | inl e ↦ rw e (to_set-IsDistinct seen xs d)
  | inr e ↦ rw e (to_set-IsDistinct (seen ++ x ∷ []) xs (IsDistinct-snoc seen x d e))
]

-- A set has the members of its list.
In-to_set_seen : {a : String} (seen xs : List String) → In a seen → In a (to_set seen xs)
unfolding to_set
In-to_set_seen seen [] i = i
In-to_set_seen seen (x ∷ xs) i = elim (Bool-cases (includes seen x)) [
  | inl e ↦ rw e (In-to_set_seen seen xs i)
  | inr e ↦ rw e (In-to_set_seen (seen ++ x ∷ []) xs (In-append_left (x ∷ []) i))
]

pub In-to_set : {a : String} (seen xs : List String) → In a xs → In a (to_set seen xs)
unfolding to_set
In-to_set {a} seen _ (here {xs}) = elim (Bool-cases (includes seen a)) [
  | inl e ↦ rw e (In-to_set_seen seen xs (includes-In seen a e))
  | inr e ↦ rw e (In-to_set_seen (seen ++ a ∷ []) xs (In-append_right seen here))
]
In-to_set {a} seen _ (there {x} {xs} i) =
    In-to_set (if includes seen x then seen else seen ++ x ∷ []) xs i

In-of_to_set : {a : String} (seen xs : List String) → In a (to_set seen xs) → In a seen ⊎ In a xs
unfolding to_set
In-of_to_set seen [] i = inl i
In-of_to_set seen (x ∷ xs) i = elim (Bool-cases (includes seen x)) [
  | inl e ↦ elim (In-of_to_set seen xs (rw e at i)) [ inl j ↦ inl j | inr j ↦ inr (there j) ]
  | inr e ↦ elim (In-of_to_set (seen ++ x ∷ []) xs (rw e at i)) [
    | inl j ↦ elim (In-of_append seen (x ∷ []) j) [
      | inl k ↦ inl k
      | inr k ↦ elim (In-cons k) [ inl q ↦ inr (rw q here) | inr l ↦ elim l [ ] ]
    ]
    | inr j ↦ inr (there j)
  ]
]

all-Sub : (xs ys : List String) → all (λ x. includes ys x) xs ≡ true → Sub xs ys
unfolding Sub
all-Sub [] ys h a i = elim i [ ]
all-Sub (x ∷ xs) ys h a i =
    let parts = and-eq-true (includes ys x) (all (λ z. includes ys z) xs) h in
    elim (In-cons i) [ inl e ↦ includes-In ys a (rw e parts.0) | inr j ↦ all-Sub xs ys parts.1 a j ]

Sub-all : (xs ys : List String) → Sub xs ys → all (λ x. includes ys x) xs ≡ true
unfolding Sub
Sub-all [] ys s = refl
Sub-all (x ∷ xs) ys s = rw (In-includes (s x here)) (Sub-all xs ys (λ a i. s a (there i)))

of_set : {a : String} (xs : List String) → In a (to_set [] xs) → In a xs
of_set xs i = elim (In-of_to_set [] xs i) [ inl j ↦ elim j [ ] | inr j ↦ j ]

set-IsDistinct : (xs : List String) → IsDistinct (to_set [] xs)
unfolding IsDistinct
set-IsDistinct xs = to_set-IsDistinct [] xs tt

-- The comparison is true exactly where each group of the one list is in the other, whatever their
-- order and however often they come.
pub same_groups_iff :
    (left right : List String)
    → (same_groups left right ≡ true)
      ↔ (((g : String) → In g left → In g right) × ((g : String) → In g right → In g left))
unfolding same_groups Sub
same_groups_iff left right = (
  λ h.
      let parts =
        and-eq-true (length (to_set [] left) == length (to_set [] right))
          (all (λ g. includes (to_set [] right) g) (to_set [] left)) h in
      let there_in = all-Sub (to_set [] left) (to_set [] right) parts.1 in
      let back_in =
        Sub-full (to_set [] left) (to_set [] right) (set-IsDistinct left) there_in
          ((nat_beq_iff _ _).0 parts.0) in
      (
        λ g i. of_set right (there_in g (In-to_set [] left i)),
        λ g i. of_set left (back_in g (In-to_set [] right i)),
      ),
  λ (h, k).
      let left_right : Sub (to_set [] left) (to_set [] right) =
        λ g i. In-to_set [] right (h g (of_set left i)) in
      let right_left : Sub (to_set [] right) (to_set [] left) =
        λ g i. In-to_set [] left (k g (of_set right i)) in
      let sizes : length (to_set [] left) ≡ length (to_set [] right) = omega (
        arith,
        length-Sub (to_set [] left) (to_set [] right) (set-IsDistinct left) left_right,
        length-Sub (to_set [] right) (to_set [] left) (set-IsDistinct right) right_left,
      ) in
      rw
        (
          (nat_beq_iff (length (to_set [] left)) (length (to_set [] right))).1 sizes,
          Sub-all (to_set [] left) (to_set [] right) left_right,
        )
        refl,
)
