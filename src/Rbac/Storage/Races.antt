-- ===== src/Rbac/Storage/Races.antt =====
-- A race of `GetRole` and `SaveRole` of the cached storage in internal/rbac/storage.go. `GetRole` lets
-- go of its lock between the backend's answer and the writing of the cache.
use codeai.Base.{ℕ, ◌+◌, ◌<◌, ◌≡◌, refl, ap, ◌∙◌, true, none, ltb, arith}
use codeai.Base.Dict.{lookup, insert, lookup-insert_self}
use codeai.Rbac.Permission.{validate_role_name}
use codeai.Rbac.Policy.{validate_permissions}
use codeai.Rbac.Role.{Role}
use codeai.Rbac.Storage.{
  MemoryStorage, found, get_role, save_role, CachedStorage, fetch, cached_get_role,
  cached_save_role, written,
}

save_role_valid :
    (b : MemoryStorage) (new : Role)
    → validate_role_name new.name ≡ none
    → validate_permissions new.permissions ≡ none
    → save_role b new ≡ (insert new.name new b, none)
unfolding save_role
save_role_valid b new name_valid permissions_valid =
    rw (name_valid, permissions_valid, save_role) refl

saved_role :
    (s : CachedStorage) (new : Role)
    → validate_role_name new.name ≡ none
    → validate_permissions new.permissions ≡ none
    → (cached_save_role s new).0.backend ≡ insert new.name new s.backend
unfolding cached_save_role written
saved_role s new name_valid permissions_valid =
    let stored : save_role s.backend new ≡ (insert new.name new s.backend, none) =
      save_role_valid s.backend new name_valid permissions_valid in
    ap (λ w. (written s new.name w).0.backend) stored

-- GetRole has the role `old` from the backend, SaveRole stores a valid role under its name and drops
-- the entry, and then GetRole writes what it had into the cache. From then on, up to the time to live,
-- GetRole gives the old role, while the backend has the new one.
stale_role :
    (s : CachedStorage) (old new : Role) (now at later : ℕ)
    → validate_role_name new.name ≡ none
    → validate_permissions new.permissions ≡ none
    → at < now + (cached_save_role s new).0.ttl
    → let raced = (fetch (cached_save_role s new).0 new.name now (found old)).0 in
      ((cached_get_role raced new.name at later).1 ≡ found old)
      × (get_role raced.backend new.name ≡ found new)
unfolding fetch cached_get_role get_role
stale_role s old new now at later name_valid permissions_valid fresh =
    let saved = (cached_save_role s new).0 in
    let entry =
      lookup-insert_self new.name (record { role = old; expires_at = now + saved.ttl })
        saved.cache in
    let in_time : ltb at (now + saved.ttl) ≡ true = ground arith in
    let backend =
      ap (lookup new.name) (saved_role s new name_valid permissions_valid)
      ∙ lookup-insert_self new.name new s.backend in
    (rw (entry, in_time, cached_get_role) refl, rw (backend, get_role) refl)
