-- ===== src/Rbac/Engine.antt =====
-- The engine of internal/rbac/rbac.go: it resolves the permissions and roles of a user, with
-- inheritance and a cache of resolved permissions. Its storage is a map of roles; an error and a
-- missing role are one case in the source. Fuel bounds the depth of the recursion, and `none` means
-- that it ran out.
pub mod Sound
pub mod Check
pub mod Emitted
pub mod Complete
pub mod Poisoned
pub mod Roles
pub mod Collect
pub mod Inherited
pub mod Ranked
use codeai.Base.{
  ℕ, zero, suc, Bool, true, false, ◌||◌, String, List, [], ◌∷◌, ◌++◌, Option, none, some, any,
  length, str_eq, if◌then◌else◌, reverse,
}
use mathlib.Core.Option
use codeai.Base.Dict.{Dict, lookup, insert}
use codeai.Rbac.Permission.{matches}
use codeai.Rbac.Role.{Role, contains}

-- The fields of `auth.User` that the engine reads.
pub record User : Type 0 where
  pub roles : List String
  pub permissions : List String

pub record Engine : Type 0 where
  pub storage : Dict Role
  pub cache : Dict (List String)

unfoldable pub new_engine : Dict Role → Engine
new_engine storage = record { storage = storage; cache = [] }

unfoldable pub invalidate_cache : Engine → Engine
invalidate_cache e = record e { cache = [] }

infixl 5 ◌>>=◌
abbrev pub ◌>>=◌ : {A B : Type 0} → Option A → (A → Option B) → Option B
none >>= f = none
some a >>= f = f a

-- What the calls of one resolution share: the names seen, and the engine's cache.
pub record Shared : Type 0 where
  pub seen : List String
  pub cache : Dict (List String)

abbrev pub Resolve : Type 0
Resolve = String → Shared → Option (List String × Shared)

-- The loops over a role's parents and over a user's roles: what each name gives is appended.
unfoldable pub resolve_each :
    Resolve → List String → List String → Shared → Option (List String × Shared)
resolve_each resolve [] perms s = some (perms, s)
resolve_each resolve (name ∷ names) perms s = do
  (more, s') ← resolve name s
  resolve_each resolve names (perms ++ more) s'

unfoldable pub resolve_role : ℕ → Dict Role → Resolve
resolve_role zero storage name s = none
resolve_role (suc fuel) storage name s =
    let marked = record s { seen = name ∷ s.seen } in
    if contains name s.seen then some ([], s) else elim (lookup name s.cache) [
      | some cached ↦ some (cached, marked)
      | none ↦ elim (lookup name storage) [
        | none ↦ some ([], marked)
        | some role ↦ do
          (perms, s') ←
              resolve_each (resolve_role fuel storage) role.parents role.permissions marked
          some (perms, record s' { cache = insert name perms s'.cache })
      ]
    ]

-- Each call below another has seen one more stored role.
abbrev pub fuel_for : Dict Role → ℕ
fuel_for storage = suc (length storage)

unfoldable pub resolve_user_permissions : Engine → List String → Option (List String × Engine)
resolve_user_permissions e roles = do
  (perms, s) ←
      resolve_each (resolve_role (fuel_for e.storage) e.storage) roles []
        (record { seen = []; cache = e.cache })
  some (perms, record e { cache = s.cache })

abbrev pub grants : String → List String → Bool
grants permission = any (λ p. matches p permission)

unfoldable pub check_permission : Engine → Option User → String → Option (Bool × Engine)
check_permission e none permission = some (false, e)
check_permission e (some user) permission =
    if grants permission user.permissions
    then some (true, e)
    else do (perms, e') ← resolve_user_permissions e user.roles; some (grants permission perms, e')

-- Keeps the first of each.
unfoldable pub unique : List String → List String → List String
unique seen [] = []
unique seen (p ∷ ps) =
    let again = unique seen ps in
    let first = p ∷ unique (p ∷ seen) ps in if contains p seen then again else first

unfoldable pub get_user_permissions : Engine → Option User → Option (List String × Engine)
unfolding unique
get_user_permissions e none = some ([], e)
get_user_permissions e (some user) = do
  (perms, e') ← resolve_user_permissions e user.roles
  some (unique [] (user.permissions ++ perms), e')

-- `hasInheritedRole` keeps no record of what it has visited.
unfoldable pub inherited_from : (String → Option Bool) → String → List String → Option Bool
inherited_from recurse target [] = some false
inherited_from recurse target (parent ∷ parents) =
    let next = inherited_from recurse target parents in
    if str_eq parent target
    then some true
    else do has ← recurse parent; if has then some true else next

unfoldable pub has_inherited_role : ℕ → Dict Role → String → String → Option Bool
unfolding inherited_from
has_inherited_role zero storage target name = none
has_inherited_role (suc fuel) storage target name = elim (lookup name storage) [
  | none ↦ some false
  | some role ↦ inherited_from (has_inherited_role fuel storage target) target role.parents
]

-- The second loop of `CheckRole`.
unfoldable pub any_inherited : (String → Option Bool) → List String → Option Bool
any_inherited has [] = some false
any_inherited has (r ∷ rs) =
    let next = any_inherited has rs in do found ← has r; if found then some true else next

unfoldable pub check_role : ℕ → Engine → Option User → String → Option Bool
unfolding any_inherited
check_role fuel e none role = some false
check_role fuel e (some user) role =
    let inherited = any_inherited (has_inherited_role fuel e.storage role) user.roles in
    if contains role user.roles then some true else inherited

-- `collectRoles` adds to the names seen and to the list of roles, latest first here and in order in
-- the result. The two always hold the same names, and are one list.
unfoldable pub collect_each :
    (String → List String → Option (List String)) → List String → List String → Option (List String)
collect_each collect [] seen = some seen
collect_each collect (r ∷ rs) seen = do seen' ← collect r seen; collect_each collect rs seen'

unfoldable pub collect_roles : ℕ → Dict Role → String → List String → Option (List String)
unfolding collect_each
collect_roles zero storage name seen = none
collect_roles (suc fuel) storage name seen =
    if contains name seen then some seen else elim (lookup name storage) [
      | none ↦ some (name ∷ seen)
      | some role ↦ collect_each (collect_roles fuel storage) role.parents (name ∷ seen)
    ]

unfoldable pub get_user_roles : Engine → Option User → Option (List String)
unfolding collect_each
get_user_roles e none = some []
get_user_roles e (some user) =
    Option.map reverse (collect_each (collect_roles (fuel_for e.storage) e.storage) user.roles [])
