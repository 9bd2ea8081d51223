-- ===== src/Rbac/Storage.antt =====
-- `MemoryStorage` and `CachedStorage` (internal/rbac/storage.go). A role that is stored or returned
-- is a copy. A time is a number, and an argument of the call that reads the clock.
-- A call on the cache is one step here, as it is where no other call overlaps with it: `GetRole`,
-- `SaveRole` and `DeleteRole` hold no lock between the backend and the cache.
pub mod Coherence
mod Races
pub mod Refinement
use codeai.Base.{ℕ, ◌+◌, ◌*◌, String, List, [], ◌∷◌, Option, none, some, map, ltb, if◌then◌else◌}
use codeai.Base.Dict.{Dict, lookup, insert, delete}
use codeai.Rbac.Permission.{Error, role_not_found, validate_role_name}
use codeai.Rbac.Policy.{default_roles, store_roles, validate_permissions}
use codeai.Rbac.Role.{Role}

pub data Outcome : Type 0 where
  found : Role → Outcome
  failed : Error → Outcome

-- The roles of a `MemoryStorage`.
abbrev pub MemoryStorage : Type 0
MemoryStorage = Dict Role

unfoldable pub new_memory_storage : MemoryStorage
new_memory_storage = []

unfoldable pub new_memory_storage_with_defaults : MemoryStorage
unfolding store_roles
new_memory_storage_with_defaults = store_roles default_roles []

outcome : Option Role → Outcome
outcome none = failed role_not_found
outcome (some role) = found role

unfoldable pub get_role : MemoryStorage → String → Outcome
unfolding outcome
get_role s name = outcome (lookup name s)

unfoldable pub list_roles : MemoryStorage → List Role
list_roles s = map (λ e. e.1) s

-- `SaveRole` checks names and permissions, and no inheritance.
unfoldable pub save_role : MemoryStorage → Role → MemoryStorage × Option Error
save_role s role = elim (validate_role_name role.name) [
  | some e ↦ (s, some e)
  | none ↦ elim (validate_permissions role.permissions) [
    | some e ↦ (s, some e)
    | none ↦ (insert role.name role s, none)
  ]
]

unfoldable pub delete_role : MemoryStorage → String → MemoryStorage × Option Error
delete_role s name = elim (lookup name s) [
  | none ↦ (s, some role_not_found)
  | some _ ↦ (delete name s, none)
]

pub record CachedRole : Type 0 where
  pub role : Role
  pub expires_at : ℕ

pub record CachedStorage : Type 0 where
  pub backend : MemoryStorage
  pub cache : Dict CachedRole
  pub ttl : ℕ
  pub list_ttl : ℕ

abbrev pub minute : ℕ
minute = 60_000_000_000

unfoldable pub new_cached_storage : MemoryStorage → CachedStorage
new_cached_storage backend = record {
  backend = backend;
  cache = [];
  ttl = 5 * minute;
  list_ttl = 1 * minute;
}

-- The part of `GetRole` behind the answer of the backend.
fetch : CachedStorage → String → ℕ → Outcome → CachedStorage × Outcome
fetch s name now (failed e) = (s, failed e)
fetch s name now (found role) = (
  record s { cache = insert name (record { role = role; expires_at = now + s.ttl }) s.cache },
  found role,
)

-- `now` is when the entry's age is tested, `later` when a new entry is made.
unfoldable pub cached_get_role : CachedStorage → String → ℕ → ℕ → CachedStorage × Outcome
unfolding fetch
cached_get_role s name now later =
    let miss = fetch s name later (get_role s.backend name) in
    elim (lookup name s.cache) [
      | none ↦ miss
      | some c ↦ if ltb now c.expires_at then (s, found c.role) else miss
    ]

unfoldable pub cached_list_roles : CachedStorage → List Role
cached_list_roles s = list_roles s.backend

-- A write goes to the backend first; the entry is dropped if that succeeded.
unfoldable pub written :
    CachedStorage → String → MemoryStorage × Option Error → CachedStorage × Option Error
written s name (b, some e) = (record s { backend = b }, some e)
written s name (b, none) = (record s { backend = b; cache = delete name s.cache }, none)

unfoldable pub cached_save_role : CachedStorage → Role → CachedStorage × Option Error
unfolding written
cached_save_role s role = written s role.name (save_role s.backend role)

unfoldable pub cached_delete_role : CachedStorage → String → CachedStorage × Option Error
unfolding written
cached_delete_role s name = written s name (delete_role s.backend name)

unfoldable pub invalidate_cache : CachedStorage → CachedStorage
invalidate_cache s = record s { cache = [] }

unfoldable pub invalidate_role : CachedStorage → String → CachedStorage
invalidate_role s name = record s { cache = delete name s.cache }
