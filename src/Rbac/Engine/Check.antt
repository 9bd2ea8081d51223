-- ===== src/Rbac/Engine/Check.antt =====
-- `CheckPermission` of internal/rbac/rbac.go, and the reasons for a grant.
use codeai.Base.{
  In, ◌≡◌, refl, inl, inr, Bool, true, String, List, [], ◌∷◌, Option, none, some, arith, any,
  Bool-cases,
}
use codeai.Base.Dict.{Dict}
use codeai.Rbac.Permission.{matches}
use codeai.Rbac.Role.{Role, unseen-le}
use codeai.Rbac.Engine.{
  User, Engine, Shared, ◌>>=◌, resolve_each, resolve_role, fuel_for, resolve_user_permissions,
  grants, check_permission,
}
use codeai.Rbac.Engine.Sound.{Carries, IsSound, Post, resolve_each-Post, resolve_role-Post}

pub any-In :
    (f : String → Bool) (xs : List String) → any f xs ≡ true → (x : String) × In x xs × (f x ≡ true)
any-In f [] h = cc
any-In f (x ∷ xs) h = elim (Bool-cases (f x)) [
  | inl yes_x ↦ (x, inl refl, yes_x)
  | inr no_x ↦ let (y, i, e) = any-In f xs (ground arith) in (y, inr i, e)
]

-- A reason to grant: a permission of the user's own, or one that a role of the user carries.
pub data Reason (storage : Dict Role) (u : User) (permission : String) : Type 0 where
  own :
      (p : String) → In p u.permissions → matches p permission ≡ true → Reason storage u permission
  carried_by :
      (role p : String)
      → In role u.roles
      → Carries storage role p
      → matches p permission ≡ true
      → Reason storage u permission

pub record IsChecked (e : Engine) (u : User) (permission : String) (granted : Bool) (e' : Engine)
    : Type 0 where
  pub reason : granted ≡ true → Reason e.storage u permission
  pub same_storage : e'.storage ≡ e.storage
  pub sound_cache : IsSound e.storage e'.cache

abbrev pub Checked : Engine → User → String → Option (Bool × Engine) → Type 0
Checked e u permission none = ⊥
Checked e u permission (some (granted, e')) = IsChecked e u permission granted e'

Checked-roles :
    (e : Engine) (u : User) (permission : String) (r : Option (List String × Shared))
    → Post e.storage (fuel_for e.storage) u.roles [] (record { seen = []; cache = e.cache }) r
    → Checked e u permission (
        r >>= (λ (perms, s). some (perms, record e { cache = s.cache })) >>= λ (perms, e').
        some (grants permission perms, e'))
Checked-roles e u permission none h = omega (arith, unseen-le e.storage)
Checked-roles e u permission (some (perms, s)) h = record {
  reason = λ g.
      let (p, i, m) = any-In (λ q. matches q permission) perms g in
      elim (h.carried p i) [
        | inl nothing ↦ absurd nothing
        | inr (n, listed, c) ↦ carried_by n p listed c m
      ];
  same_storage = refl;
  sound_cache = h.still_sound;
}

-- From a sound cache, CheckPermission always ends. If it grants, then a permission of the user, or
-- of a role at or above one of the user's roles, matches the one asked for. The storage is
-- unchanged, and the cache is sound again: what it holds for a role are permissions of roles at or
-- above it.
pub check_permission-Checked :
    (e : Engine) (u : User) (permission : String)
    → IsSound e.storage e.cache
    → Checked e u permission (check_permission e (some u) permission)
unfolding check_permission resolve_user_permissions
check_permission-Checked e u permission sound =
    elim (Bool-cases (grants permission u.permissions)) [
      | inl direct ↦ rw direct (record {
        reason = λ _.
            let (p, i, m) = any-In (λ q. matches q permission) u.permissions direct in own p i m;
        same_storage = refl;
        sound_cache = sound;
      })
      | inr indirect ↦ rw indirect (
          Checked-roles e u permission
            (resolve_each (resolve_role (fuel_for e.storage) e.storage) u.roles []
              (record { seen = []; cache = e.cache }))
            (resolve_each-Post e.storage (fuel_for e.storage)
              (resolve_role (fuel_for e.storage) e.storage)
              (resolve_role-Post e.storage (fuel_for e.storage)) u.roles []
              (record { seen = []; cache = e.cache }) sound))
    ]
