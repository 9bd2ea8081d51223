-- ===== src/Rbac/Policy/Invariant.antt =====
-- The invariant of a policy under `AddRole`, `UpdateRole` and `RemoveRole` (internal/rbac/policy.go).
use codeai.Base.{In, ◌≡◌, subst, inl, inr, String, List, [], ◌∷◌, none, some, Option-cases}
use codeai.Base.Dict.{lookup, insert, delete, lookup-insert_cases, lookup-delete_cases}
use codeai.Rbac.Permission.{validate_role_name}
use codeai.Rbac.Role.{Role, Inherits}
use codeai.Rbac.Policy.{
  Policy, new_policy, Search, clear, cyclic, out_of_fuel, check_cyclic_inheritance,
  validate_permissions, Result, ok, err, fuel_ran_out, store_checked, put_role, add_role,
  update_role, remove_role,
}
use codeai.Rbac.Policy.Cycles.{Verdict, check_cyclic_inheritance-Verdict}
use codeai.Rbac.Policy.Acyclic.{IsAcyclic, insert-IsAcyclic, IsParent-delete, Inherits-delete}

pub record IsValidPolicy (p : Policy) : Type 0 where
  pub acyclic : IsAcyclic p.roles
  pub named : (k : String) (r : Role) → lookup k p.roles ≡ some r → r.name ≡ k
  pub name_checked :
      (k : String) (r : Role) → lookup k p.roles ≡ some r → validate_role_name k ≡ none
  pub permissions_checked :
      (k : String) (r : Role)
      → lookup k p.roles ≡ some r
      → validate_permissions r.permissions ≡ none

pub new_policy-IsValidPolicy : IsValidPolicy new_policy
unfolding new_policy lookup
new_policy-IsValidPolicy = record {
  acyclic = λ x y e. cc e.stored;
  named = λ k r h. cc;
  name_checked = λ k r h. cc;
  permissions_checked = λ k r h. cc;
}

insert-IsValidPolicy :
    (p : Policy) (role : Role)
    → IsValidPolicy p
    → validate_role_name role.name ≡ none
    → validate_permissions role.permissions ≡ none
    → ¬ ((q : String) × In q role.parents × Inherits p.roles q role.name)
    → IsValidPolicy (record p { roles = insert role.name role p.roles })
insert-IsValidPolicy p role v name_good permissions_good clean = record {
  acyclic = insert-IsAcyclic p.roles role clean v.acyclic;
  named = λ k r h. elim (lookup-insert_cases role.name k role p.roles h) [
    | inl (same, is_role) ↦ cc
    | inr (_, old) ↦ v.named k r old
  ];
  name_checked = λ k r h. elim (lookup-insert_cases role.name k role p.roles h) [
    | inl (same, is_role) ↦ subst (λ n. validate_role_name n ≡ none) same name_good
    | inr (_, old) ↦ v.name_checked k r old
  ];
  permissions_checked = λ k r h. elim (lookup-insert_cases role.name k role p.roles h) [
    | inl (same, is_role) ↦
        subst (λ (s : Role). validate_permissions s.permissions ≡ none) is_role permissions_good
    | inr (_, old) ↦ v.permissions_checked k r old
  ];
}

-- What a call of `AddRole`, `UpdateRole` or `RemoveRole` may give back.
abbrev pub Keeps : Policy → Result → Type 0
Keeps p (ok p') = IsValidPolicy p'
Keeps p (err e) = Unit
Keeps p fuel_ran_out = ⊥

store_checked-Keeps :
    (p : Policy) (role : Role) (s : Search)
    → IsValidPolicy p
    → validate_role_name role.name ≡ none
    → validate_permissions role.permissions ≡ none
    → Verdict p.roles role.name role.parents s
    → Keeps p (store_checked p role s)
unfolding store_checked Verdict
store_checked-Keeps p role (clear w) v n g clean = insert-IsValidPolicy p role v n g clean
store_checked-Keeps p role cyclic v n g h = tt
store_checked-Keeps p role out_of_fuel v n g h = h

put_role-Keeps :
    (p : Policy) (role : Role)
    → IsValidPolicy p
    → validate_role_name role.name ≡ none
    → Keeps p (put_role p role)
unfolding put_role
put_role-Keeps p role v n = elim (Option-cases (validate_permissions role.permissions)) [
  | inr (e, bad) ↦ rw (bad, put_role) tt
  | inl good ↦
      rw (good, put_role)
        (store_checked-Keeps p role (check_cyclic_inheritance p.roles role.name role.parents) v n
          good (check_cyclic_inheritance-Verdict p.roles role.name role.parents))
]

-- `AddRole` on a valid policy ends, with a valid policy or an error.
pub add_role-Keeps : (p : Policy) (role : Role) → IsValidPolicy p → Keeps p (add_role p role)
unfolding add_role
add_role-Keeps p role v = elim (Option-cases (validate_role_name role.name)) [
  | inr (e, bad) ↦ rw (bad, add_role) tt
  | inl good ↦ elim (Option-cases (lookup role.name p.roles)) [
    | inr (r, there) ↦ rw (good, there, add_role) tt
    | inl absent ↦ rw (good, absent, add_role) (put_role-Keeps p role v good)
  ]
]

pub update_role-Keeps : (p : Policy) (role : Role) → IsValidPolicy p → Keeps p (update_role p role)
unfolding update_role
update_role-Keeps p role v = elim (Option-cases (validate_role_name role.name)) [
  | inr (e, bad) ↦ rw (bad, update_role) tt
  | inl good ↦ elim (Option-cases (lookup role.name p.roles)) [
    | inr (r, there) ↦ rw (good, there, update_role) (put_role-Keeps p role v good)
    | inl absent ↦ rw (good, absent, update_role) tt
  ]
]

delete-IsValidPolicy :
    (p : Policy) (name : String)
    → IsValidPolicy p
    → IsValidPolicy (record p { roles = delete name p.roles })
delete-IsValidPolicy p name v = record {
  acyclic = λ x y e path.
      v.acyclic x y (IsParent-delete p.roles name x y e) (Inherits-delete p.roles name path);
  named = λ k r h. v.named k r (lookup-delete_cases name k p.roles h).1;
  name_checked = λ k r h. v.name_checked k r (lookup-delete_cases name k p.roles h).1;
  permissions_checked = λ k r h. v.permissions_checked k r (lookup-delete_cases name k p.roles h).1;
}

pub remove_role-Keeps :
    (p : Policy) (name : String) → IsValidPolicy p → Keeps p (remove_role p name)
unfolding remove_role
remove_role-Keeps p name v = elim (Option-cases (lookup name p.roles)) [
  | inr (r, there) ↦ rw (there, remove_role) (delete-IsValidPolicy p name v)
  | inl absent ↦ rw (absent, remove_role) tt
]

pub data Change : Type 0 where
  adds updates : Role → Change
  removes : String → Change

unfoldable pub apply : Policy → Change → Result
apply p (adds role) = add_role p role
apply p (updates role) = update_role p role
apply p (removes name) = remove_role p name

-- After a call that failed the policy is as before.
abbrev pub after : Policy → Result → Policy
after p (ok p') = p'
after p _ = p

unfoldable pub run : Policy → List Change → Policy
run p [] = p
run p (c ∷ cs) = run (after p (apply p c)) cs

apply-Keeps : (p : Policy) (c : Change) → IsValidPolicy p → Keeps p (apply p c)
unfolding apply
apply-Keeps p (adds role) v = add_role-Keeps p role v
apply-Keeps p (updates role) v = update_role-Keeps p role v
apply-Keeps p (removes name) v = remove_role-Keeps p name v

Keeps-after : (p : Policy) (r : Result) → IsValidPolicy p → Keeps p r → IsValidPolicy (after p r)
Keeps-after p (ok p') v k = k
Keeps-after p (err e) v k = v
Keeps-after p fuel_ran_out v k = v

run-IsValid_from : (p : Policy) (cs : List Change) → IsValidPolicy p → IsValidPolicy (run p cs)
unfolding run
run-IsValid_from p [] v = v
run-IsValid_from p (c ∷ cs) v =
    run-IsValid_from (after p (apply p c)) cs (Keeps-after p (apply p c) v (apply-Keeps p c v))

-- After any sequence of AddRole, UpdateRole and RemoveRole on an empty policy, accepted or refused,
-- no role inherits from itself through its parents, each role is stored under its own name, and the
-- names and permissions of all roles pass their validation.
pub run-IsValidPolicy : (cs : List Change) → IsValidPolicy (run new_policy cs)
run-IsValidPolicy cs = run-IsValid_from new_policy cs new_policy-IsValidPolicy
