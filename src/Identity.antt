-- ===== src/Identity.antt =====
-- Actors and their permissions: identity/models.py.
use night_voyager.Base.{
  if◌then◌else◌, HasEq, ◌==◌, nat_eq, string_eq, option_eq, contains, list_eq, ℕ, String, ◌≡◌, ◌↔◌,
  Bool, true, false, Option, none, some, List, [], ◌∷◌, arith,
}

pub data ActorRole : Type 0 where
  advisor student parent : ActorRole

abbrev pub actor_role_beq : ActorRole → ActorRole → Bool
actor_role_beq advisor advisor = true
actor_role_beq student student = true
actor_role_beq parent parent = true
actor_role_beq _ _ = false

pub actor_role_beq_iff : (a b : ActorRole) → (actor_role_beq a b ≡ true) ↔ (a ≡ b)
actor_role_beq_iff a b = ground arith

instance abbrev pub actor_role_eq : HasEq ActorRole
actor_role_eq = record { eqb = actor_role_beq; eqb_iff = actor_role_beq_iff }

abbrev pub actor_role_value : ActorRole → String
actor_role_value advisor = "advisor"
actor_role_value student = "student"
actor_role_value parent = "parent"

pub data Permission : Type 0 where
  read draft review decide : Permission

abbrev pub permission_beq : Permission → Permission → Bool
permission_beq read read = true
permission_beq draft draft = true
permission_beq review review = true
permission_beq decide decide = true
permission_beq _ _ = false

pub permission_beq_iff : (a b : Permission) → (permission_beq a b ≡ true) ↔ (a ≡ b)
permission_beq_iff a b = ground arith

instance abbrev pub permission_eq : HasEq Permission
permission_eq = record { eqb = permission_beq; eqb_iff = permission_beq_iff }

abbrev pub permission_value : Permission → String
permission_value read = "read"
permission_value draft = "draft"
permission_value review = "review"
permission_value decide = "decide"

pub record ActorContext : Type 0 where
  pub organization_id : ℕ
  pub actor_id : ℕ
  pub role : ActorRole
  pub session_id : ℕ

-- `PERMISSIONS`
abbrev pub permissions : ActorRole → List Permission
permissions advisor = read ∷ draft ∷ review ∷ []
permissions student = read ∷ decide ∷ []
permissions parent = read ∷ decide ∷ []

-- `ActorRole(text)` and `Permission(text)`, which raise on another text.
abbrev pub role_of : String → Option ActorRole
role_of s =
    if s == "advisor"
    then some advisor
    else if s == "student"
    then some student
    else if s == "parent"
    then some parent
    else none

abbrev pub permission_of : String → Option Permission
permission_of s =
    if s == "read"
    then some read
    else if s == "draft"
    then some draft
    else if s == "review"
    then some review
    else if s == "decide"
    then some decide
    else none

unfoldable pub is_allowed : String → String → Bool
is_allowed role permission = elim (role_of role) [
  | none ↦ false
  | some r ↦ elim (permission_of permission) [ none ↦ false | some p ↦ contains p (permissions r) ]
]
