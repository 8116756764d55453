-- ===== src/Roles.antt =====
-- packages/domain/src/roles.ts: the role that a user has in a vault, and what a role may do.
pub mod Resolution
pub mod Examples
use mima.Prelude.{
  ℕ, String, Bool, true, false, ◌&&◌, ◌||◌, Option, none, some, List, [], ◌∷◌, map, ◌==◌, string_eq,
  if◌then◌else◌, ltb, find, keep, includes,
}

pub data MembershipRole : Type 0 where
  auditor viewer editor owner : MembershipRole

pub data SubjectKind : Type 0 where
  user group custom_group : SubjectKind

pub record Membership : Type 0 where
  pub subject_kind : SubjectKind
  pub subject_id : String
  pub role : MembershipRole

pub record SubjectRef : Type 0 where
  pub user_id : String
  pub groups : List String

abbrev pub role_rank : MembershipRole → ℕ
role_rank auditor = 0
role_rank viewer = 1
role_rank editor = 2
role_rank owner = 3

abbrev pub is_user : SubjectKind → Bool
is_user user = true
is_user group = false
is_user custom_group = false

abbrev pub is_group : SubjectKind → Bool
is_group user = false
is_group group = true
is_group custom_group = false

-- The test of the `find`: a membership of the user itself.
abbrev pub is_direct : SubjectRef → Membership → Bool
is_direct s m = is_user m.subject_kind && m.subject_id == s.user_id

-- The test of the `filter`: a membership of one of the user's groups.
abbrev pub is_via_group : SubjectRef → Membership → Bool
is_via_group s m = is_group m.subject_kind && includes s.groups m.subject_id

abbrev pub better : MembershipRole → MembershipRole → MembershipRole
better best r = if ltb (role_rank best) (role_rank r) then r else best

-- `reduce` from the first role on.
pub best_role : MembershipRole → List MembershipRole → MembershipRole
best_role best [] = best
best_role best (r ∷ rs) = best_role (better best r) rs

pub highest_role : List MembershipRole → Option MembershipRole
unfolding best_role
highest_role [] = none
highest_role (r ∷ rs) = some (best_role r rs)

abbrev pub role_of : Membership → MembershipRole
role_of m = m.role

unfoldable pub resolve_effective_role : List Membership → SubjectRef → Option MembershipRole
unfolding highest_role
resolve_effective_role memberships subject = elim (find (is_direct subject) memberships) [
  | some direct ↦ some direct.role
  | none ↦ highest_role (map role_of (keep (is_via_group subject) memberships))
]

unfoldable pub can_read_metadata : Option MembershipRole → Bool
can_read_metadata none = false
can_read_metadata (some r) = true

unfoldable pub can_reveal : Option MembershipRole → Bool
can_reveal (some viewer) = true
can_reveal (some editor) = true
can_reveal (some owner) = true
can_reveal _ = false

unfoldable pub can_edit_items : Option MembershipRole → Bool
can_edit_items (some editor) = true
can_edit_items (some owner) = true
can_edit_items _ = false

unfoldable pub can_manage_members : Option MembershipRole → Bool
can_manage_members (some owner) = true
can_manage_members _ = false

unfoldable pub can_manage_vault : Option MembershipRole → Bool → Bool
can_manage_vault (some owner) platform_admin = true
can_manage_vault _ platform_admin = platform_admin

unfoldable pub can_read_audit : Option MembershipRole → Bool → Bool
can_read_audit (some auditor) platform_admin = true
can_read_audit (some owner) platform_admin = true
can_read_audit _ platform_admin = platform_admin
