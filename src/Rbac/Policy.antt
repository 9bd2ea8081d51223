-- ===== src/Rbac/Policy.antt =====
-- Policies (internal/rbac/policy.go): their operations, and the search for cyclic inheritance.
pub mod Cycles
pub mod Acyclic
pub mod Invariant
use codeai.Base.{
  ℕ, zero, suc, ◌≡◌, Bool, true, false, String, List, [], ◌∷◌, Option, none, some, str_eq, length,
  if◌then◌else◌, map,
}
use codeai.Base.Dict.{Dict, lookup, insert, delete}
use codeai.Rbac.Permission.{
  Error, role_not_found, role_already_exists, cyclic_inheritance, validate_permission,
  validate_role_name,
}
use codeai.Rbac.Role.{Role, contains}

pub record Policy : Type 0 where
  pub roles : Dict Role
  pub description : String
  pub version : String

unfoldable pub new_policy : Policy
new_policy = record { roles = []; description = ""; version = "1.0" }

abbrev pub default_roles : List Role
default_roles =
    record {
      name = "admin";
      description = "Full system access";
      permissions = "*:*" ∷ [];
      parents = [];
    }
    ∷ record {
      name = "editor";
      description = "Can read and modify resources";
      permissions =
          "configs:read" ∷ "configs:create" ∷ "configs:update" ∷ "configs:delete"
          ∷ "executions:read" ∷ "executions:create" ∷ "deployments:read" ∷ "deployments:create"
          ∷ [];
      parents = "viewer" ∷ [];
    }
    ∷ record {
      name = "viewer";
      description = "Read-only access";
      permissions = "configs:read" ∷ "executions:read" ∷ "deployments:read" ∷ "health:read" ∷ [];
      parents = [];
    }
    ∷ []

-- The loop that fills a map with the default roles.
unfoldable pub store_roles : List Role → Dict Role → Dict Role
store_roles [] roles = roles
store_roles (r ∷ rs) roles = store_roles rs (insert r.name r roles)

unfoldable pub new_default_policy : Policy
unfolding new_policy store_roles
new_default_policy = record new_policy { roles = store_roles default_roles [] }

-- `detectCycle` returns an error, or leaves the names that it has visited.
pub data Search : Type 0 where
  clear : List String → Search
  cyclic : Search
  out_of_fuel : Search

-- An error ends the search.
infixl 5 ◌>>=◌
abbrev pub ◌>>=◌ : Search → (List String → Search) → Search
clear visited >>= k = k visited
cyclic >>= k = cyclic
out_of_fuel >>= k = out_of_fuel

-- The loop over the parents; `recurse` is the call for the parents of a stored role.
unfoldable pub search_parents :
    (List String → List String → Search) → Dict Role → String → List String → List String → Search
search_parents recurse roles name [] visited = clear visited
search_parents recurse roles name (parent ∷ parents) visited =
    let skip = search_parents recurse roles name parents visited in
    let missing = search_parents recurse roles name parents (parent ∷ visited) in
    if str_eq parent name
    then cyclic
    else if contains parent visited
    then skip
    else elim (lookup parent roles) [
      | none ↦ missing
      | some role ↦ do
        visited' ← recurse role.parents (parent ∷ visited)
        search_parents recurse roles name parents visited'
    ]

unfoldable pub detect_cycle : ℕ → Dict Role → String → List String → List String → Search
detect_cycle zero roles name parents visited = out_of_fuel
detect_cycle (suc fuel) roles name parents visited =
    search_parents (detect_cycle fuel roles name) roles name parents visited

-- Each call below the first one visits a stored role, so there are no more than there are roles.
unfoldable pub check_cyclic_inheritance : Dict Role → String → List String → Search
check_cyclic_inheritance roles name parents =
    detect_cycle (suc (length roles)) roles name parents []

-- The loop that validates the permissions of a role.
unfoldable pub validate_permissions : List String → Option Error
validate_permissions [] = none
validate_permissions (p ∷ ps) = elim (validate_permission p) [
  | some e ↦ some e
  | none ↦ validate_permissions ps
]

pub data Result : Type 0 where
  ok : Policy → Result
  err : Error → Result
  fuel_ran_out : Result

store_checked : Policy → Role → Search → Result
store_checked p role (clear _) = ok (record p { roles = insert role.name role p.roles })
store_checked p role cyclic = err cyclic_inheritance
store_checked p role out_of_fuel = fuel_ran_out

-- The second half of `AddRole` and `UpdateRole`, which is the same text in both.
unfoldable pub put_role : Policy → Role → Result
unfolding store_checked
put_role p role = elim (validate_permissions role.permissions) [
  | some e ↦ err e
  | none ↦ store_checked p role (check_cyclic_inheritance p.roles role.name role.parents)
]

unfoldable pub add_role : Policy → Role → Result
add_role p role = elim (validate_role_name role.name) [
  | some e ↦ err e
  | none ↦ elim (lookup role.name p.roles) [
    | some _ ↦ err role_already_exists
    | none ↦ put_role p role
  ]
]

unfoldable pub update_role : Policy → Role → Result
update_role p role = elim (validate_role_name role.name) [
  | some e ↦ err e
  | none ↦ elim (lookup role.name p.roles) [ none ↦ err role_not_found | some _ ↦ put_role p role ]
]

unfoldable pub remove_role : Policy → String → Result
remove_role p name = elim (lookup name p.roles) [
  | none ↦ err role_not_found
  | some _ ↦ ok (record p { roles = delete name p.roles })
]

unfoldable pub get_role : Policy → String → Option Role
get_role p name = lookup name p.roles

unfoldable pub list_roles : Policy → List Role
list_roles p = map (λ e. e.1) p.roles
