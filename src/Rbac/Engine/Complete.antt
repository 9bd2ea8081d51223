-- ===== src/Rbac/Engine/Complete.antt =====
-- `CheckPermission` of internal/rbac/rbac.go in an engine with an empty cache.
use codeai.Base.{
  In, ◌≡◌, refl, sym, subst, inl, inr, ◌↔◌, Bool, true, false, String, List, [], ◌∷◌, Option, none,
  some, any, Bool-cases,
}
use codeai.Base.Dict.{Dict, lookup}
use codeai.Rbac.Permission.{matches}
use codeai.Rbac.Role.{Role, Inherits, here, up}
use codeai.Rbac.Engine.{
  User, Engine, Shared, ◌>>=◌, resolve_each, resolve_role, fuel_for, resolve_user_permissions,
  grants, check_permission, new_engine,
}
use codeai.Rbac.Engine.Sound.{Carries}
use codeai.Rbac.Engine.Check.{Reason, own, carried_by, Checked, check_permission-Checked}
use codeai.Rbac.Engine.Emitted.{Emits, Emitted, resolve_each-Emitted, resolve_role-Emitted}

module _ (storage : Dict Role) where
  Emits-Inherits :
      (names base out : List String) (s s' : Shared) (x y : String)
      → s.seen ≡ []
      → Emits storage names base s out s'
      → In x s'.seen
      → Inherits storage x y
      → In y s'.seen
  Emits-Inherits names base out s s' x y nothing h i here = i
  Emits-Inherits names base out s s' x y nothing h i (up {y = z} e path) = elim (h.closed x z i e) [
    | inl old ↦ absurd (subst (In x) nothing old)
    | inr new ↦ Emits-Inherits names base out s s' z y nothing h new path
  ]

  Emits-Carries :
      (names base out : List String) (s s' : Shared) (n p : String)
      → s.seen ≡ []
      → Emits storage names base s out s'
      → In n names
      → Carries storage n p
      → In p out
  Emits-Carries names base out s s' n p nothing h i c =
      let at = Emits-Inherits names base out s s' n c.from nothing h (h.reached n i) c.path in
      elim (h.emitted c.from c.role at c.stored) [
        | inl old ↦ absurd (subst (In c.from) nothing old)
        | inr new ↦ new p c.listed
      ]

any_of :
    (f : String → Bool) (x : String) (xs : List String) → In x xs → f x ≡ true → any f xs ≡ true
any_of f x [] i e = absurd i
any_of f x (y ∷ ys) (inl same) e = rw (sym same, e) refl
any_of f x (y ∷ ys) (inr i) e = elim (Bool-cases (f y)) [
  | inl h ↦ rw h refl
  | inr h ↦ rw h (any_of f x ys i e)
]

-- Whatever there is a reason for is granted.
abbrev Grants : Dict Role → User → String → Option (Bool × Engine) → Type 0
Grants storage u permission none = Unit
Grants storage u permission (some (granted, later)) = Reason storage u permission → granted ≡ true

check_permission-Grants :
    (storage : Dict Role) (u : User) (permission : String)
    → Grants storage u permission (check_permission (new_engine storage) (some u) permission)
unfolding check_permission resolve_user_permissions new_engine lookup
check_permission-Grants storage u permission = elim (Bool-cases (grants permission u.permissions)) [
  | inl direct ↦ rw direct (λ r. refl)
  | inr indirect ↦ rw indirect (
      go (resolve_each (resolve_role (fuel_for storage) storage) u.roles [] start)
        (resolve_each-Emitted storage (resolve_role (fuel_for storage) storage)
          (resolve_role-Emitted storage (fuel_for storage)) u.roles [] start (λ x perms at. cc at))
        indirect)
]
  where
    start : Shared
    start = record { seen = []; cache = [] }

    by_reason :
        (perms : List String) (s : Shared)
        → Emits storage u.roles [] start perms s
        → grants permission u.permissions ≡ false
        → Reason storage u permission
        → grants permission perms ≡ true
    by_reason perms s h indirect (own p i m) =
        cc (any_of (λ q. matches q permission) p u.permissions i m, indirect)
    by_reason perms s h indirect (carried_by n p i c m) =
        any_of (λ q. matches q permission) p perms
          (Emits-Carries storage u.roles [] perms start s n p refl h i c) m

    go :
        (r : Option (List String × Shared))
        → Emitted storage u.roles [] start r
        → grants permission u.permissions ≡ false
        → Grants storage u permission (
            (r >>= λ (perms, s). some (perms, record (new_engine storage) { cache = s.cache }))
            >>= λ (perms, later). some (grants permission perms, later))
    go none h indirect = tt
    go (some (perms, s)) h indirect = by_reason perms s h indirect

-- CheckPermission of an engine with an empty cache always ends, and grants exactly if a permission
-- of the user, or of a role at or above one of the user's roles, matches the one asked for, whether
-- or not the stored roles are cyclic.
pub new_engine-grants_iff :
    (storage : Dict Role) (u : User) (permission : String)
    → (granted : Bool) × (later : Engine) × (check_permission
          (new_engine storage)
          (some u)
          permission
        ≡ some (granted, later))
      × ((granted ≡ true) ↔ Reason storage u permission)
unfolding new_engine lookup
new_engine-grants_iff storage u permission =
    go (check_permission (new_engine storage) (some u) permission) refl
      (check_permission-Checked (new_engine storage) u permission (λ n perms at. cc at))
      (check_permission-Grants storage u permission)
  where
    go :
        (r : Option (Bool × Engine))
        → check_permission (new_engine storage) (some u) permission ≡ r
        → Checked (new_engine storage) u permission r
        → Grants storage u permission r
        → (granted : Bool) × (later : Engine) × (check_permission
              (new_engine storage)
              (some u)
              permission
            ≡ some (granted, later))
          × ((granted ≡ true) ↔ Reason storage u permission)
    go none e h k = absurd h
    go (some (granted, later)) e h k = (granted, later, e, (h.reason, k))
