-- ===== src/Rbac/Engine/Poisoned.antt =====
-- The cache of internal/rbac/rbac.go and the order of a user's roles.
use codeai.Base.{
  ℕ, suc, ◌≡◌, ◌≢◌, refl, Bool, true, false, String, List, [], ◌∷◌, ◌++◌, some, arith, length,
  eq_iff, append-nil, any, ◌||◌,
}
use codeai.Base.Dict.{Dict, lookup, insert, lookup-insert_self}
use codeai.Rbac.Permission.{matches}
use codeai.Rbac.Role.{Role, contains}
use codeai.Rbac.Engine.{
  User, Engine, Shared, resolve_each, resolve_role, resolve_user_permissions, grants,
  check_permission, new_engine,
}

stored-length :
    (storage : Dict Role) (x : String) {r : Role}
    → lookup x storage ≡ some r
    → (k : ℕ) × (length storage ≡ suc k)
unfolding lookup
stored-length [] x h = cc
stored-length (e ∷ storage) x h = (length storage, refl)

any-append : (f : String → Bool) (xs ys : List String) → any f (xs ++ ys) ≡ (any f xs || any f ys)
any-append f [] ys = refl
any-append f (x ∷ xs) ys = ground (arith, any-append f xs ys)

abbrev pub with_roles : List String → User
with_roles roles = record { roles = roles; permissions = [] }

module _ (storage : Dict Role) (a b : String) (child parent : Role) (differ : a ≢ b)
    (child_stored : lookup a storage ≡ some child) (parent_stored : lookup b storage ≡ some parent)
    (child_parents : child.parents ≡ b ∷ []) (parent_parents : parent.parents ≡ []) where
  abbrev after_parent : Dict (List String)
  after_parent = insert b parent.permissions []

  resolve_parent :
      (fuel : ℕ)
      → resolve_role (suc fuel) storage b (record { seen = []; cache = [] })
        ≡ some (parent.permissions, record { seen = b ∷ []; cache = after_parent })
  unfolding resolve_role resolve_each contains lookup
  resolve_parent fuel = rw (parent_stored, parent_parents)

  resolve_child_second :
      (fuel : ℕ)
      → resolve_role (suc (suc fuel)) storage a (record { seen = b ∷ []; cache = after_parent })
        ≡ some (
          child.permissions ++ [],
          record { seen = a ∷ b ∷ []; cache = insert a (child.permissions ++ []) after_parent },
        )
  unfolding resolve_role resolve_each contains lookup insert
  resolve_child_second fuel =
      ground (arith, eq_iff a b, eq_iff b a, eq_iff b b, child_stored, child_parents)

  pub poisoned_cache : Dict (List String)
  poisoned_cache = insert a (child.permissions ++ []) after_parent

  resolve_child_alone :
      (fuel : ℕ)
      → (s : Shared) × (resolve_role (suc (suc fuel)) storage a (record { seen = []; cache = [] })
          ≡ some (child.permissions ++ parent.permissions, s))
  unfolding resolve_role resolve_each contains lookup insert
  resolve_child_alone fuel = (
    record {
      seen = b ∷ a ∷ [];
      cache = insert a (child.permissions ++ parent.permissions) (insert b parent.permissions []);
    },
    ground
        (arith, eq_iff a b, eq_iff b a, child_stored, child_parents, parent_stored, parent_parents),
  )

  resolve_child_poisoned :
      (fuel : ℕ)
      → resolve_role (suc fuel) storage a (record { seen = []; cache = poisoned_cache })
        ≡ some (child.permissions ++ [], record { seen = a ∷ []; cache = poisoned_cache })
  unfolding resolve_role contains poisoned_cache
  resolve_child_poisoned fuel = rw (lookup-insert_self a (child.permissions ++ []) after_parent)

  -- A check of a user with the parent's role before the child's makes a later check of a user with
  -- the child's role alone fail, though the parent grants it and a new engine says so.
  module _ (permission : String) (parent_grants : grants permission parent.permissions ≡ true)
      (child_does_not : grants permission child.permissions ≡ false) where
    check_both :
        check_permission (new_engine storage) (some (with_roles (b ∷ a ∷ []))) permission
        ≡ some (true, record { storage = storage; cache = poisoned_cache })
    unfolding check_permission resolve_user_permissions resolve_each new_engine poisoned_cache
    check_both =
        let (k, e) = stored-length storage b parent_stored in
        rw (e, resolve_parent (suc k), resolve_child_second k)
          (ground (
            arith,
            any-append (λ p. matches p permission) parent.permissions (child.permissions ++ []),
            parent_grants,
          ))

    abbrev after : Engine
    after = record { storage = storage; cache = poisoned_cache }

    check_child_after :
        check_permission after (some (with_roles (a ∷ []))) permission ≡ some (false, after)
    unfolding check_permission resolve_user_permissions resolve_each
    check_child_after =
        rw (resolve_child_poisoned (length storage), append-nil) (ground (arith, child_does_not))

    check_child_new :
        (e : Engine) × (check_permission
            (new_engine storage)
            (some (with_roles (a ∷ [])))
            permission
          ≡ some (true, e))
    unfolding check_permission resolve_user_permissions resolve_each new_engine
    check_child_new =
        let (k, e) = stored-length storage b parent_stored in
        let (s, alone) = resolve_child_alone k in
        (
          record { storage = storage; cache = s.cache },
          rw (e, alone)
              (ground (
                arith,
                any-append (λ p. matches p permission) child.permissions parent.permissions,
                parent_grants,
              )),
        )

    -- Let a child's only parent have no parents, and grant a permission that the child does not
    -- list. Once the engine has checked that permission for a user with the parent's role and then
    -- the child's, it refuses it to a user with the child's role alone, though a new engine grants
    -- it.
    pub order_poisons :
        (later : Engine) × (check_permission
            (new_engine storage)
            (some (with_roles (b ∷ a ∷ [])))
            permission
          ≡ some (true, later))
        × (check_permission later (some (with_roles (a ∷ []))) permission ≡ some (false, later))
        × (new : Engine) × (check_permission
              (new_engine storage)
              (some (with_roles (a ∷ [])))
              permission
            ≡ some (true, new))
    order_poisons =
        let (new, granted) = check_child_new in (after, check_both, check_child_after, new, granted)
