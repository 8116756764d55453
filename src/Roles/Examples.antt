-- ===== src/Roles/Examples.antt =====
-- The theorems on roles at a user who is an auditor by one group and an editor by another.
use mima.Prelude.{◌≡◌, refl, some, List, [], ◌∷◌, nat_eq, string_eq}
use mima.Roles.{auditor, editor, user, group, Membership, SubjectRef, resolve_effective_role}
use mima.Roles.Resolution.{Resolves, resolve_effective_role-Resolves}

abbrev memberships : List Membership
memberships =
    record { subject_kind = group; subject_id = "ops"; role = auditor }
    ∷ record { subject_kind = user; subject_id = "bob"; role = auditor }
    ∷ record { subject_kind = group; subject_id = "dev"; role = editor }
    ∷ []

abbrev alice : SubjectRef
alice = record { user_id = "alice"; groups = "dev" ∷ "ops" ∷ [] }

editor_by_group : resolve_effective_role memberships alice ≡ some editor
unfolding resolve_effective_role
editor_by_group = refl

resolve_effective_role-Resolves_example :
    Resolves memberships alice (resolve_effective_role memberships alice)
resolve_effective_role-Resolves_example = resolve_effective_role-Resolves memberships alice
