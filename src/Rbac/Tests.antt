-- ===== src/Rbac/Tests.antt =====
-- Roles, policies and the engine of internal/rbac at concrete inputs.
use codeai.Base.{
  ℕ, ◌<◌, ◌≡◌, refl, sym, subst, ◌↔◌, inl, inr, Bool, true, false, if◌then◌else◌, In, str_eq,
  str_eq_cases, String, List, [], ◌∷◌, none, some, arith, eq_iff,
}
use codeai.Base.Dict.{Dict, lookup, insert}
use codeai.Rbac.Permission.{
  validate_permission, matches, resource, action, split_n2, validate_role_name, invalid_permission,
  cyclic_inheritance,
}
use codeai.Rbac.Role.{Role, contains, IsParent}
use codeai.Rbac.Policy.{
  new_policy, new_default_policy, validate_permissions, check_cyclic_inheritance, detect_cycle,
  search_parents, err, update_role, put_role,
}
use codeai.Rbac.Policy.Cycles.{Verdict, check_cyclic_inheritance-Verdict}
use codeai.Rbac.Policy.Invariant.{
  IsValidPolicy, Change, adds, updates, removes, run, run-IsValidPolicy,
}
use codeai.Rbac.Storage.{new_memory_storage, save_role, new_cached_storage}
use codeai.Rbac.Storage.Refinement.{
  gets, lists, saves, answers, cached_answers, new_cached_storage-answers,
}
use codeai.Rbac.Engine.{Engine, check_permission, check_role, new_engine}
use codeai.Rbac.Engine.Complete.{new_engine-grants_iff}
use codeai.Rbac.Engine.Check.{Checked, Reason, check_permission-Checked}
use codeai.Rbac.Engine.Poisoned.{with_roles, order_poisons}
use codeai.Rbac.Engine.Ranked.{check_role-decides}
use codeai.Rbac.Engine.Inherited.{Answers, Has, saved, saved_cycle-endless}

abbrev viewer : Role
viewer = record {
  name = "viewer";
  description = "";
  permissions = "health:read" ∷ [];
  parents = [];
}

abbrev editor : Role
editor = record {
  name = "editor";
  description = "";
  permissions = "configs:update" ∷ [];
  parents = "viewer" ∷ [];
}

abbrev roles : Dict Role
roles = ("editor", editor) ∷ ("viewer", viewer) ∷ []

three_parts : validate_permission "a:b:c" ≡ some invalid_permission
unfolding validate_permission
three_parts = refl

default_editor_cycle :
    update_role new_default_policy (record viewer { parents = "editor" ∷ [] })
    ≡ err cyclic_inheritance
unfolding update_role new_default_policy validate_role_name lookup insert put_role
    validate_permissions validate_permission check_cyclic_inheritance detect_cycle search_parents
    contains
default_editor_cycle = refl

check_cyclic_inheritance-Verdict_example :
    Verdict roles "viewer" ("editor" ∷ []) (check_cyclic_inheritance roles "viewer" ("editor" ∷ []))
check_cyclic_inheritance-Verdict_example =
    check_cyclic_inheritance-Verdict roles "viewer" ("editor" ∷ [])

abbrev changes : List Change
changes =
    adds viewer
    ∷ adds editor
    ∷ updates (record viewer { parents = "editor" ∷ [] })
    ∷ removes "viewer"
    ∷ []

run-IsValidPolicy_example : IsValidPolicy (run new_policy changes)
run-IsValidPolicy_example = run-IsValidPolicy changes

new_cached_storage-answers_example :
    cached_answers (new_cached_storage roles) (
      gets "viewer" 1 2
      ∷ saves (record viewer { description = "new" })
      ∷ lists
      ∷ gets "viewer" 3 4
      ∷ [])
    ≡ answers roles (
        gets "viewer" 1 2
        ∷ saves (record viewer { description = "new" })
        ∷ lists
        ∷ gets "viewer" 3 4
        ∷ [])
new_cached_storage-answers_example = new_cached_storage-answers roles (
    gets "viewer" 1 2
    ∷ saves (record viewer { description = "new" })
    ∷ lists
    ∷ gets "viewer" 3 4
    ∷ [])

abbrev engine : Engine
engine = record { storage = roles; cache = [] }

check_permission-Checked_example :
    Checked engine
      (with_roles ("editor" ∷ []))
      "health:read"
      (check_permission engine (some (with_roles ("editor" ∷ []))) "health:read")
unfolding lookup
check_permission-Checked_example =
    check_permission-Checked engine (with_roles ("editor" ∷ [])) "health:read" (λ n ps h. cc)

new_engine-grants_iff_example :
    (granted : Bool) × (later : Engine) × (check_permission
        (new_engine roles)
        (some (with_roles ("editor" ∷ [])))
        "health:read"
      ≡ some (granted, later))
    × ((granted ≡ true) ↔ Reason roles (with_roles ("editor" ∷ [])) "health:read")
new_engine-grants_iff_example =
    new_engine-grants_iff roles (with_roles ("editor" ∷ [])) "health:read"

abbrev rank : String → ℕ
rank name = if str_eq name "editor" then 1 else 0

-- Only the editor has a parent here, the viewer.
rank-below :
    (name parent : String) (role : Role)
    → lookup name roles ≡ some role
    → In parent role.parents
    → rank parent < rank name
unfolding lookup
rank-below name parent role at i = elim (str_eq_cases "editor" name) [
  | inl (e, t) ↦
      let is_editor : editor ≡ role = cc (rw t at at) in
      elim (subst (λ (r : Role). In parent r.parents) (sym is_editor) i) [
        | inl same ↦ rw (sym e, same) (omega arith)
        | inr never ↦ absurd never
      ]
  | inr (n, t) ↦ elim (str_eq_cases "viewer" name) [
    | inl (e, s) ↦
        let is_viewer : viewer ≡ role = cc (rw (t, s) at at) in
        absurd (subst (λ (r : Role). In parent r.parents) (sym is_viewer) i)
    | inr (m, s) ↦ cc (rw (t, s) at at)
  ]
]

rank-descends : (name parent : String) → IsParent roles name parent → rank parent < rank name
rank-descends name parent p = rank-below name parent p.role p.stored p.listed

editor-enough : (name : String) → In name ("editor" ∷ []) → rank name < 2
editor-enough name (inl e) = rw e (omega arith)
editor-enough name (inr never) = absurd never

check_role-decides_example :
    (answer : Bool) × (check_role 2 engine (some (with_roles ("editor" ∷ []))) "viewer"
      ≡ some answer)
    × Answers roles "viewer" (Has roles "viewer" ("editor" ∷ [])) (some answer)
check_role-decides_example =
    check_role-decides engine rank 2 (with_roles ("editor" ∷ [])) "viewer" rank-descends
      editor-enough

order_poisons_example :
    (later : Engine) × (check_permission
        (new_engine roles)
        (some (with_roles ("viewer" ∷ "editor" ∷ [])))
        "health:read"
      ≡ some (true, later))
    × (check_permission later (some (with_roles ("editor" ∷ []))) "health:read"
        ≡ some (false, later))
    × (new : Engine) × (check_permission
          (new_engine roles)
          (some (with_roles ("editor" ∷ [])))
          "health:read"
        ≡ some (true, new))
unfolding lookup matches resource action split_n2
order_poisons_example =
    order_poisons roles "editor" "viewer" editor viewer (ground (arith, eq_iff "editor" "viewer"))
      refl refl refl refl "health:read" refl refl

abbrev first : Role
first = record { name = "a"; description = ""; permissions = []; parents = "b" ∷ [] }

abbrev second_role : Role
second_role = record { name = "b"; description = ""; permissions = []; parents = "a" ∷ [] }

saved_cycle-endless_example :
    (save_role new_memory_storage first ≡ (insert "a" first [], none))
    × (save_role (insert "a" first []) second_role ≡ (saved first second_role, none))
    × ((fuel : ℕ)
        → check_role fuel
            (new_engine (saved first second_role))
            (some (record { roles = "a" ∷ []; permissions = [] }))
            "c"
          ≡ none)
unfolding validate_role_name validate_permissions
saved_cycle-endless_example =
    saved_cycle-endless first second_role "c" refl refl refl refl refl refl
      (ground (arith, eq_iff "a" "b")) (ground (arith, eq_iff "a" "c"))
      (ground (arith, eq_iff "b" "c"))
