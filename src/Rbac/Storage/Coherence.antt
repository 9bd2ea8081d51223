-- ===== src/Rbac/Storage/Coherence.antt =====
-- The entries of the cache in front of a storage (internal/rbac/storage.go) against the storage.
use codeai.Base.{
  ℕ, ◌+◌, ◌≡◌, ◌≢◌, refl, sym, ◌∙◌, ap, subst, inl, inr, String, Option, none, some, arith,
  Option-cases, Bool-cases, ltb, eq_iff,
}
use codeai.Base.Dict.{
  lookup, lookup-insert_cases, lookup-delete_cases, lookup-insert_ne, lookup-delete,
}
use codeai.Rbac.Permission.{Error}
use codeai.Rbac.Role.{Role}
use codeai.Rbac.Storage.{
  Outcome, found, failed, MemoryStorage, get_role, save_role, delete_role, CachedRole,
  CachedStorage, new_cached_storage, fetch, cached_get_role, written, cached_save_role,
  cached_delete_role,
}

-- Every entry is what the backend holds.
abbrev pub IsCoherent : CachedStorage → Type 0
IsCoherent s =
    (k : String) (c : CachedRole) → lookup k s.cache ≡ some c → lookup k s.backend ≡ some c.role

get_role-found :
    (b : MemoryStorage) (name : String) (r : Role)
    → get_role b name ≡ found r
    → lookup name b ≡ some r
unfolding get_role
get_role-found b name r h = ground arith

get_role_stored :
    (b : MemoryStorage) (name : String) (r : Role)
    → lookup name b ≡ some r
    → get_role b name ≡ found r
unfolding get_role
get_role_stored b name r h = ground arith

pub new_cached_storage-IsCoherent : (b : MemoryStorage) → IsCoherent (new_cached_storage b)
unfolding new_cached_storage lookup
new_cached_storage-IsCoherent b k c h = cc

-- What `GetRole` of the cached storage gives, and the storage that it leaves.
pub record IsTransparent (s : CachedStorage) (name : String) (r : CachedStorage × Outcome)
    : Type 0 where
  pub same_outcome : r.1 ≡ get_role s.backend name
  pub same_backend : r.0.backend ≡ s.backend
  pub still_coherent : IsCoherent r.0

fetch-IsTransparent :
    (s : CachedStorage) (name : String) (now : ℕ) (o : Outcome)
    → IsCoherent s
    → get_role s.backend name ≡ o
    → IsTransparent s name (fetch s name now o)
unfolding fetch
fetch-IsTransparent s name now (failed e) c h = record {
  same_outcome = sym h;
  same_backend = refl;
  still_coherent = c;
}
fetch-IsTransparent s name now (found role) c h = record {
  same_outcome = sym h;
  same_backend = refl;
  still_coherent = λ k d at.
      elim (lookup-insert_cases name k (record { role = role; expires_at = now + s.ttl }) s.cache
        at) [
          | inl (same, entry) ↦
              subst (λ n. lookup n s.backend ≡ some d.role) same
                (get_role-found s.backend name role h ∙ ap (λ (x : CachedRole). some x.role) entry)
          | inr (_, old) ↦ c k d old
        ];
}

-- `GetRole` of the cached storage answers as its backend does, at any two times, and keeps the
-- entries what the backend holds.
pub cached_get_role-IsTransparent :
    (s : CachedStorage) (name : String) (now later : ℕ)
    → IsCoherent s
    → IsTransparent s name (cached_get_role s name now later)
unfolding cached_get_role
cached_get_role-IsTransparent s name now later c =
    let miss = fetch-IsTransparent s name later (get_role s.backend name) c refl in
    elim (Option-cases (lookup name s.cache)) [
      | inl absent ↦ rw (absent, cached_get_role) miss
      | inr (entry, there) ↦ elim (Bool-cases (ltb now entry.expires_at)) [
        | inr old ↦ rw (there, old, cached_get_role) miss
        | inl fresh ↦
            rw (there, fresh, cached_get_role)
              (record {
                same_outcome = sym (get_role_stored s.backend name entry.role (c name entry there));
                same_backend = refl;
                still_coherent = c;
              })
      ]
    ]

-- A backend that differs at one name at most, under a cache without that name.
written-IsCoherent :
    (s : CachedStorage) (name : String) (w : MemoryStorage × Option Error)
    → IsCoherent s
    → ((e : Error) → w.1 ≡ some e → w.0 ≡ s.backend)
    → ((k : String) → name ≢ k → lookup k w.0 ≡ lookup k s.backend)
    → IsCoherent (written s name w).0
unfolding written
written-IsCoherent s name (b, some e) c unchanged others k d at = rw (unchanged e refl) (c k d at)
written-IsCoherent s name (b, none) c unchanged others k d at =
    let (other, old) = lookup-delete_cases name k s.cache at in others k other ∙ c k d old

save_role_failed :
    (b : MemoryStorage) (role : Role) (e : Error)
    → (save_role b role).1 ≡ some e
    → (save_role b role).0 ≡ b
unfolding save_role
save_role_failed b role e h = ground arith

save_role_others :
    (b : MemoryStorage) (role : Role) (k : String)
    → role.name ≢ k
    → lookup k (save_role b role).0 ≡ lookup k b
unfolding save_role
save_role_others b role k h = ground (arith, lookup-insert_ne role.name k role b h)

delete_role_failed :
    (b : MemoryStorage) (name : String) (e : Error)
    → (delete_role b name).1 ≡ some e
    → (delete_role b name).0 ≡ b
unfolding delete_role
delete_role_failed b name e h = ground arith

delete_role_others :
    (b : MemoryStorage) (name k : String) → name ≢ k → lookup k (delete_role b name).0 ≡ lookup k b
unfolding delete_role
delete_role_others b name k h = ground (arith, lookup-delete name k b, eq_iff name k)

pub cached_save_role-IsCoherent :
    (s : CachedStorage) (role : Role) → IsCoherent s → IsCoherent (cached_save_role s role).0
unfolding cached_save_role
cached_save_role-IsCoherent s role c =
    written-IsCoherent s role.name (save_role s.backend role) c (save_role_failed s.backend role)
      (save_role_others s.backend role)

pub cached_delete_role-IsCoherent :
    (s : CachedStorage) (name : String) → IsCoherent s → IsCoherent (cached_delete_role s name).0
unfolding cached_delete_role
cached_delete_role-IsCoherent s name c =
    written-IsCoherent s name (delete_role s.backend name) c (delete_role_failed s.backend name)
      (delete_role_others s.backend name)

pub written-backend :
    (s : CachedStorage) (name : String) (w : MemoryStorage × Option Error)
    → ((written s name w).0.backend ≡ w.0) × ((written s name w).1 ≡ w.1)
unfolding written
written-backend s name (b, some e) = (refl, refl)
written-backend s name (b, none) = (refl, refl)
