-- ===== src/Rbac/Engine/Ranked.antt =====
-- `CheckRole` (internal/rbac/rbac.go) on roles that inherit without a cycle.
use codeai.Base.{
  In, ℕ, zero, suc, ◌<◌, ◌≡◌, refl, inl, inr, Bool, true, false, String, List, [], ◌∷◌, Option,
  none, some, arith, Bool-cases, str_eq, if◌then◌else◌,
}
use codeai.Base.Dict.{Dict, lookup}
use codeai.Rbac.Role.{Role, contains, IsParent}
use codeai.Rbac.Engine.{
  User, Engine, ◌>>=◌, inherited_from, has_inherited_role, any_inherited, check_role,
}
use codeai.Rbac.Engine.Inherited.{Answers, Has, check_role-Answers}

abbrev pub Ends : Option Bool → Type 0
Ends none = ⊥
Ends (some b) = Unit

Ends-then :
    (r next : Option Bool)
    → Ends r
    → Ends next
    → Ends (r >>= λ has. if has then some true else next)
Ends-then none next h k = h
Ends-then (some true) next h k = tt
Ends-then (some false) next h k = k

inherited_from-Ends :
    (recurse : String → Option Bool) (target : String) (names : List String)
    → ((n : String) → In n names → Ends (recurse n))
    → Ends (inherited_from recurse target names)
unfolding inherited_from
inherited_from-Ends recurse target [] h = tt
inherited_from-Ends recurse target (n ∷ names) h =
    let rest = inherited_from-Ends recurse target names (λ m i. h m (inr i)) in
    elim (Bool-cases (str_eq n target)) [
      | inl t ↦ rw t tt
      | inr t ↦ rw t (Ends-then (recurse n) _ (h n (inl refl)) rest)
    ]

any_inherited-Ends :
    (has : String → Option Bool) (names : List String)
    → ((n : String) → In n names → Ends (has n))
    → Ends (any_inherited has names)
unfolding any_inherited
any_inherited-Ends has [] h = tt
any_inherited-Ends has (n ∷ names) h =
    Ends-then (has n) (any_inherited has names) (h n (inl refl))
      (any_inherited-Ends has names (λ m i. h m (inr i)))

module _ (storage : Dict Role) (rank : String → ℕ)
    (descends : (name parent : String)
      → IsParent storage name parent
      → rank parent < rank name) where
  has_inherited_role-Ends :
      (fuel : ℕ) (target name : String)
      → rank name < fuel
      → Ends (has_inherited_role fuel storage target name)
  unfolding has_inherited_role
  has_inherited_role-Ends zero target name h = absurd (omega (arith, h))
  has_inherited_role-Ends (suc fuel) target name h = go (lookup name storage) refl (λ role at.
      inherited_from-Ends (has_inherited_role fuel storage target) target role.parents (λ p i.
        let lower = descends name p (record { role = role; stored = at; listed = i }) in
        has_inherited_role-Ends fuel target p (omega (arith, lower, h))))
    where
      go :
          (found : Option Role)
          → lookup name storage ≡ found
          → ((role : Role)
              → lookup name storage ≡ some role
              → Ends (inherited_from (has_inherited_role fuel storage target) target role.parents))
          → Ends (has_inherited_role (suc fuel) storage target name)
      go none e rest = rw (e, has_inherited_role) tt
      go (some role) e rest = rw (e, has_inherited_role) (rest role e)

-- When ranks can be given such that every stored role has a higher rank than its parents, CheckRole
-- ends within a depth above the ranks of the user's roles, and answers whether the user has the
-- role, itself or by inheritance.
pub check_role-decides :
    (e : Engine) (rank : String → ℕ) (fuel : ℕ) (u : User) (role : String)
    → ((name parent : String) → IsParent e.storage name parent → rank parent < rank name)
    → ((name : String) → In name u.roles → rank name < fuel)
    → (answer : Bool) × (check_role fuel e (some u) role ≡ some answer)
      × Answers e.storage role (Has e.storage role u.roles) (some answer)
unfolding check_role
check_role-decides e rank fuel u role descends enough =
    go (check_role fuel e (some u) role) refl
      (if_Ends (contains role u.roles) _ (
        any_inherited-Ends (has_inherited_role fuel e.storage role) u.roles
          (λ n i. has_inherited_role-Ends e.storage rank descends fuel role n (enough n i))))
      (check_role-Answers fuel e u role)
  where
    if_Ends : (b : Bool) (rest : Option Bool) → Ends rest → Ends (if b then some true else rest)
    if_Ends true rest h = tt
    if_Ends false rest h = h

    go :
        (r : Option Bool)
        → check_role fuel e (some u) role ≡ r
        → Ends r
        → Answers e.storage role (Has e.storage role u.roles) r
        → (answer : Bool) × (check_role fuel e (some u) role ≡ some answer)
          × Answers e.storage role (Has e.storage role u.roles) (some answer)
    go none eq h k = absurd h
    go (some b) eq h k = (b, eq, k)
