-- ===== src/Rbac/Engine/Inherited.antt =====
-- `CheckRole` and `hasInheritedRole` of internal/rbac/rbac.go, on any stored roles, cyclic ones
-- too.
use codeai.Base.{
  In, ℕ, zero, suc, ◌≡◌, ◌≢◌, refl, sym, ◌∙◌, subst, ◌⊎◌, inl, inr, Bool, true, false, String, List,
  [], ◌∷◌, Option, none, some, arith, Bool-cases, Option-cases, str_eq_cases, eq_iff, if◌then◌else◌,
}
use codeai.Base.Dict.{Dict, lookup, insert, lookup-insert_self, lookup-insert_ne}
use codeai.Rbac.Permission.{validate_role_name}
use codeai.Rbac.Policy.{validate_permissions}
use codeai.Rbac.Role.{Role, contains, contains-In, In-contains, IsParent, Inherits, here, up}
use codeai.Rbac.Storage.{new_memory_storage, save_role}
use codeai.Rbac.Engine.{
  User, Engine, ◌>>=◌, inherited_from, has_inherited_role, any_inherited, check_role, new_engine,
}

module _ (storage : Dict Role) (target : String) where
  -- The target is reached from one of the names.
  abbrev pub FromOne : List String → Type 0
  FromOne names = (n : String) × In n names × Inherits storage n target

  abbrev pub Answers : Type 0 → Option Bool → Type 0
  Answers P none = Unit
  Answers P (some true) = P
  Answers P (some false) = ¬ P

  abbrev pub Ancestor : String → Type 0
  Ancestor name = (p : String) × IsParent storage name p × Inherits storage p target

  Ancestor-or_self :
      (name : String) → Inherits storage name target → (name ≡ target) ⊎ Ancestor name
  Ancestor-or_self name here = inl refl
  Ancestor-or_self name (up {y} e path) = inr (y, e, path)

  not_from_first :
      (n : String) (names : List String)
      → n ≢ target
      → ¬ Ancestor n
      → ¬ FromOne names
      → ¬ FromOne (n ∷ names)
  not_from_first n names differ above rest (m, inr i, path) = rest (m, i, path)
  not_from_first n names differ above rest (m, inl same, path) =
      elim (Ancestor-or_self n (subst (λ x. Inherits storage x target) same path)) [
        | inl self ↦ differ self
        | inr a ↦ above a
      ]

  Answers-cons :
      (n : String) (names : List String) (r next : Option Bool)
      → n ≢ target
      → Answers (Ancestor n) r
      → Answers (FromOne names) next
      → Answers (FromOne (n ∷ names)) (r >>= λ has. if has then some true else next)
  Answers-cons n names none next differ h k = tt
  Answers-cons n names (some true) next differ (p, e, path) k = (n, inl refl, up e path)
  Answers-cons n names (some false) none differ h k = tt
  Answers-cons n names (some false) (some true) differ h (m, i, path) = (m, inr i, path)
  Answers-cons n names (some false) (some false) differ h k = not_from_first n names differ h k

  inherited_from-Answers :
      (recurse : String → Option Bool)
      → ((n : String) → Answers (Ancestor n) (recurse n))
      → (names : List String) → Answers (FromOne names) (inherited_from recurse target names)
  unfolding inherited_from
  inherited_from-Answers recurse ih [] = λ (n, i, path). i
  inherited_from-Answers recurse ih (n ∷ names) =
      let rest = inherited_from-Answers recurse ih names in
      elim (str_eq_cases n target) [
        | inl (same, t) ↦ rw t (n, inl refl, subst (Inherits storage n) same here)
        | inr (differ, t) ↦ rw t (
            Answers-cons n names (recurse n) (inherited_from recurse target names) differ (ih n)
              rest)
      ]

  Answers-parents :
      (name : String) (role : Role) (r : Option Bool)
      → lookup name storage ≡ some role
      → Answers (FromOne role.parents) r
      → Answers (Ancestor name) r
  Answers-parents name role none stored h = tt
  Answers-parents name role (some true) stored (p, i, path) =
      (p, record { role = role; stored = stored; listed = i }, path)
  Answers-parents name role (some false) stored h = λ (p, e, path).
      let is_role : e.role ≡ role = cc (e.stored, stored) in
      h (p, subst (λ (s : Role). In p s.parents) is_role e.listed, path)

  has_inherited_role-Answers :
      (fuel : ℕ) (name : String)
      → Answers (Ancestor name) (has_inherited_role fuel storage target name)
  unfolding has_inherited_role
  has_inherited_role-Answers zero name = tt
  has_inherited_role-Answers (suc fuel) name = elim (Option-cases (lookup name storage)) [
    | inl absent ↦ rw (absent, Answers) (λ (p, e, path). cc (absent, e.stored))
    | inr (role, stored) ↦
        rw (stored, Answers)
          (Answers-parents name role
            (inherited_from (has_inherited_role fuel storage target) target role.parents) stored
            (inherited_from-Answers (has_inherited_role fuel storage target)
              (has_inherited_role-Answers fuel) role.parents))
  ]

  -- Some role of the user is the target, or inherits from it.
  abbrev pub Has : List String → Type 0
  Has roles = (r : String) × In r roles × Inherits storage r target

  any_inherited-Answers :
      (has : String → Option Bool)
      → ((r : String) → Answers (Ancestor r) (has r))
      → (rs : List String) → ¬ In target rs
      → Answers (Has rs) (any_inherited has rs)
  unfolding any_inherited
  any_inherited-Answers has ih [] n = λ (r, i, path). i
  any_inherited-Answers has ih (r ∷ rs) n =
      Answers-cons r rs (has r) (any_inherited has rs) (λ e. n (inl (sym e))) (ih r)
        (any_inherited-Answers has ih rs (λ i. n (inr i)))

-- Where `CheckRole` ends, it says whether the user has the role, itself or by inheritance.
pub check_role-Answers :
    (fuel : ℕ) (e : Engine) (u : User) (role : String)
    → Answers e.storage role (Has e.storage role u.roles) (check_role fuel e (some u) role)
unfolding check_role
check_role-Answers fuel e u role = elim (Bool-cases (contains role u.roles)) [
  | inl direct ↦ rw direct (role, contains-In role u.roles direct, here)
  | inr indirect ↦ rw indirect (
      any_inherited-Answers e.storage role (has_inherited_role fuel e.storage role)
        (has_inherited_role-Answers e.storage role fuel) u.roles
        (λ i. cc (indirect, In-contains role u.roles i)))
]

module _ (storage : Dict Role) (target x y : String) (a b : Role) (ps qs : List String)
    (a_stored : lookup x storage ≡ some a) (b_stored : lookup y storage ≡ some b)
    (a_parents : a.parents ≡ y ∷ ps) (b_parents : b.parents ≡ x ∷ qs) (x_other : x ≢ target)
    (y_other : y ≢ target) where
  endless :
      (fuel : ℕ)
      → (has_inherited_role fuel storage target x ≡ none)
        × (has_inherited_role fuel storage target y ≡ none)
  unfolding has_inherited_role inherited_from
  endless zero = (refl, refl)
  endless (suc fuel) =
      let (on_x, on_y) = endless fuel in
      (
        ground (arith, a_stored, a_parents, eq_iff y target, on_y),
        ground (arith, b_stored, b_parents, eq_iff x target, on_x),
      )

  -- Two roles that list each other first: `CheckRole` for a third role does not end.
  pub check_role-endless :
      (fuel : ℕ)
      → check_role fuel
          (record { storage = storage; cache = [] })
          (some (record { roles = x ∷ []; permissions = [] }))
          target
        ≡ none
  unfolding check_role any_inherited contains
  check_role-endless fuel = ground (arith, eq_iff target x, (endless fuel).0)

save_role_valid :
    (storage : Dict Role) (r : Role)
    → validate_role_name r.name ≡ none
    → validate_permissions r.permissions ≡ none
    → save_role storage r ≡ (insert r.name r storage, none)
unfolding save_role
save_role_valid storage r n p = ground arith

-- The storage after two roles are saved.
abbrev pub saved : Role → Role → Dict Role
saved a b = insert b.name b (insert a.name a [])

-- SaveRole accepts two roles with different names that have valid names and permissions and list
-- each other as their only parents, and CheckRole of a user with the first of them, for a third
-- role, then has no result at any depth.
pub saved_cycle-endless :
    (a b : Role) (target : String)
    → validate_role_name a.name ≡ none
    → validate_role_name b.name ≡ none
    → validate_permissions a.permissions ≡ none
    → validate_permissions b.permissions ≡ none
    → a.parents ≡ b.name ∷ []
    → b.parents ≡ a.name ∷ []
    → a.name ≢ b.name
    → a.name ≢ target
    → b.name ≢ target
    → (save_role new_memory_storage a ≡ (insert a.name a [], none))
      × (save_role (insert a.name a []) b ≡ (saved a b, none))
      × ((fuel : ℕ)
          → check_role fuel
              (new_engine (saved a b))
              (some (record { roles = a.name ∷ []; permissions = [] }))
              target
            ≡ none)
unfolding new_memory_storage new_engine
saved_cycle-endless a b target na nb pa pb ab ba differ at bt = (
  save_role_valid [] a na pa,
  save_role_valid (insert a.name a []) b nb pb,
  check_role-endless (saved a b) target a.name b.name a b [] []
      (lookup-insert_ne b.name a.name b (insert a.name a []) (λ e. differ (sym e))
        ∙ lookup-insert_self a.name a [])
      (lookup-insert_self b.name b (insert a.name a [])) ab ba at bt,
)
