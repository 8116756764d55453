-- ===== src/Roles/Resolution.antt =====
-- What `resolve_effective_role` of packages/domain/src/roles.ts computes, said without its loops.
use mima.Prelude.{
  ◌≤◌, ◌≡◌, refl, sym, ◌⊎◌, inl, inr, true, false, Option, none, some, List, [], ◌∷◌, map, arith,
  eq_iff, string_eq, Bool-cases, Option-cases, find, keep, In, here, In-cons, In-map, In-of_map,
  ltb, there, In-keep, In-of_keep, includes-In, In-includes, find-eq-none, find-eq-some,
}
use mima.Roles.{
  MembershipRole, user, group, Membership, SubjectRef, role_rank, is_direct, is_via_group, better,
  best_role, highest_role, role_of, resolve_effective_role, can_reveal,
}

-- The membership names the user.
abbrev pub IsDirect : SubjectRef → Membership → Type 0
IsDirect s m = (m.subject_kind ≡ user) × (m.subject_id ≡ s.user_id)

-- The membership names one of the user's groups.
abbrev pub IsViaGroup : SubjectRef → Membership → Type 0
IsViaGroup s m = (m.subject_kind ≡ group) × In m.subject_id s.groups

-- What a role found for a subject means. The role is that of a direct membership, or no direct
-- membership exists and it is the highest role of the group memberships.
abbrev pub IsEffective : List Membership → SubjectRef → MembershipRole → Type 0
IsEffective ms s r =
    ((m : Membership) × In m ms × IsDirect s m × (m.role ≡ r))
    ⊎ (((m : Membership) → In m ms → ¬ IsDirect s m)
        × ((m : Membership) × In m ms × IsViaGroup s m × (m.role ≡ r))
        × ((m : Membership) → In m ms → IsViaGroup s m → role_rank m.role ≤ role_rank r))

-- That no role was found means that no membership concerns the subject.
abbrev pub HasNoRole : List Membership → SubjectRef → Type 0
HasNoRole ms s = (m : Membership) → In m ms → (¬ IsDirect s m) × (¬ IsViaGroup s m)

abbrev pub Resolves : List Membership → SubjectRef → Option MembershipRole → Type 0
Resolves ms s none = HasNoRole ms s
Resolves ms s (some r) = IsEffective ms s r

is_direct-IsDirect : (s : SubjectRef) (m : Membership) → is_direct s m ≡ true → IsDirect s m
is_direct-IsDirect s m h = ground (arith, eq_iff m.subject_id s.user_id)

IsDirect-is_direct : (s : SubjectRef) (m : Membership) → IsDirect s m → is_direct s m ≡ true
IsDirect-is_direct s m h = ground (arith, eq_iff m.subject_id s.user_id)

is_via_group-IsViaGroup :
    (s : SubjectRef) (m : Membership) → is_via_group s m ≡ true → IsViaGroup s m
is_via_group-IsViaGroup s m h = (ground arith, includes-In s.groups m.subject_id (ground arith))

IsViaGroup-is_via_group :
    (s : SubjectRef) (m : Membership) → IsViaGroup s m → is_via_group s m ≡ true
IsViaGroup-is_via_group s m h = ground (arith, In-includes h.1)

not-IsDirect : (s : SubjectRef) (m : Membership) → is_direct s m ≡ false → ¬ IsDirect s m
not-IsDirect s m h d = cc (IsDirect-is_direct s m d)

-- The running best is above the start and above every role of the rest, and is one of them.
best_role-ge :
    (r : MembershipRole) (rs : List MembershipRole) → role_rank r ≤ role_rank (best_role r rs)
unfolding best_role
best_role-ge r [] = omega arith
best_role-ge r (x ∷ rs) = ground (arith, best_role-ge (better r x) rs)

best_role-ge_In :
    {x : MembershipRole} (r : MembershipRole) {rs : List MembershipRole}
    → In x rs
    → role_rank x ≤ role_rank (best_role r rs)
unfolding best_role
best_role-ge_In {x} r (here {xs}) = ground (arith, best_role-ge (better r x) xs)
best_role-ge_In r (there {x = y} i) = best_role-ge_In (better r y) i

better-In : (r x : MembershipRole) (rs : List MembershipRole) → In (better r x) (r ∷ x ∷ rs)
better-In r x rs = elim (Bool-cases (ltb (role_rank r) (role_rank x))) [
  | inl e ↦ rw e (there here)
  | inr e ↦ rw e here
]

best_role-In : (r : MembershipRole) (rs : List MembershipRole) → In (best_role r rs) (r ∷ rs)
unfolding best_role
best_role-In r [] = here
best_role-In r (x ∷ rs) = elim (In-cons (best_role-In (better r x) rs)) [
  | inl e ↦ rw e (better-In r x rs)
  | inr j ↦ there (there j)
]

highest_role-none : (rs : List MembershipRole) → highest_role rs ≡ none → rs ≡ []
unfolding highest_role
highest_role-none rs h = ground arith

highest_role-some :
    (rs : List MembershipRole) (r : MembershipRole)
    → highest_role rs ≡ some r
    → In r rs × ((x : MembershipRole) → In x rs → role_rank x ≤ role_rank r)
unfolding highest_role
highest_role-some [] r h = cc
highest_role-some (y ∷ ys) r h =
    let e : best_role y ys ≡ r = ground arith in
    rw (← e) (
      best_role-In y ys,
      λ x i. elim (In-cons i) [ inl q ↦ rw q (best_role-ge y ys) | inr j ↦ best_role-ge_In y j ],
    )

none_In : {r : MembershipRole} → ¬ In r []
none_In i = elim i [ ]

module _ (ms : List Membership) (s : SubjectRef) where
  group_roles : List MembershipRole
  group_roles = map role_of (keep (is_via_group s) ms)

  In-group_roles : {m : Membership} → In m ms → IsViaGroup s m → In m.role group_roles
  unfolding group_roles
  In-group_roles {m} i v = In-map role_of (In-keep _ i (IsViaGroup-is_via_group s m v))

  direct-Resolves : (m : Membership) → find (is_direct s) ms ≡ some m → IsEffective ms s m.role
  direct-Resolves m e =
      let found = find-eq-some _ ms e in inl (m, found.0, is_direct-IsDirect s m found.1, refl)

  no-IsDirect : find (is_direct s) ms ≡ none → (m : Membership) → In m ms → ¬ IsDirect s m
  no-IsDirect e m i = not-IsDirect s m (find-eq-none _ i e)

  group-Resolves :
      find (is_direct s) ms ≡ none
      → (o : Option MembershipRole) → highest_role group_roles ≡ o
      → Resolves ms s o
  unfolding group_roles
  group-Resolves e none q =
      λ m i. (no-IsDirect e m i, λ v. none_In (rw (highest_role-none _ q) at (In-group_roles i v)))
  group-Resolves e (some r) q =
      let h = highest_role-some group_roles r q in
      let found = In-of_map role_of _ h.0 in
      let kept = In-of_keep (is_via_group s) ms found.1 in
      inr (
        no-IsDirect e,
        (found.0, kept.0, is_via_group-IsViaGroup s found.0 kept.1, sym found.2),
        λ m i v. h.1 m.role (In-group_roles i v),
      )

  -- A role that is found is that of a membership naming the user, or, where none names the user,
  -- the highest among those that name the user's groups; if no role is found, no membership names
  -- the user or one of the groups.
  pub resolve_effective_role-Resolves : Resolves ms s (resolve_effective_role ms s)
  unfolding resolve_effective_role group_roles
  resolve_effective_role-Resolves = elim (Option-cases (find (is_direct s) ms)) [
    | inl e ↦ rw (e, resolve_effective_role) (group-Resolves e _ refl)
    | inr (m, e) ↦ rw (e, resolve_effective_role) (direct-Resolves m e)
  ]

none_reveals : ¬ (can_reveal none ≡ true)
unfolding can_reveal
none_reveals h = cc

-- A user who may read secrets has a membership, direct or of a group, whose role may read them: the
-- role of an auditor never gives access to secrets, however many memberships the user has.
pub can_reveal-resolve_effective_role :
    (ms : List Membership) (s : SubjectRef)
    → can_reveal (resolve_effective_role ms s) ≡ true
    → (m : Membership) × In m ms
      × (IsDirect s m ⊎ IsViaGroup s m)
      × (can_reveal (some m.role) ≡ true)
can_reveal-resolve_effective_role ms s h = from _ (resolve_effective_role-Resolves ms s) h
  where
    from :
        (o : Option MembershipRole)
        → Resolves ms s o
        → can_reveal o ≡ true
        → (m : Membership) × In m ms
          × (IsDirect s m ⊎ IsViaGroup s m)
          × (can_reveal (some m.role) ≡ true)
    from none res q = absurd (none_reveals q)
    from (some r) (inl (m, i, d, e)) q = (m, i, inl d, rw e q)
    from (some r) (inr (_, (m, i, v, e), _)) q = (m, i, inr v, rw e q)
