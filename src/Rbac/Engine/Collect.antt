-- ===== src/Rbac/Engine/Collect.antt =====
-- `GetUserRoles` of internal/rbac/rbac.go, and the roles at or above those of a user.
use codeai.Base.{
  In, All-In, ◌≡◌, sym, ◌⊎◌, inl, inr, ◌↔◌, String, List, [], ◌∷◌, ◌++◌, Option, none, some, arith,
  reverse,
}
use mathlib.Core.Option
use mathlib.Core.List.{reverse-cons}
use codeai.Base.Dict.{Dict}
use codeai.Rbac.Role.{Role, Inherits, unseen-le}
use codeai.Rbac.Engine.{User, Engine, fuel_for, collect_each, collect_roles, get_user_roles}
use codeai.Rbac.Engine.Roles.{
  Distinct, IsCollected, Post, collect_each-Post, collect_roles-Post, Inherits-closed,
}

-- The roles are those at or above one of the user's, each once.
pub record AreRolesOf (storage : Dict Role) (u : User) (roles : List String) : Type 0 where
  pub exact : (x : String) → In x roles ↔ ((r : String) × In r u.roles × Inherits storage r x)
  pub once : Distinct roles

In-snoc : (x y : String) (xs : List String) → In x (xs ++ y ∷ []) ↔ (In x xs ⊎ (x ≡ y))
In-snoc x y [] = (
  λ i. elim i [ inl e ↦ inr e | inr b ↦ absurd b ],
  λ i. elim i [ inl b ↦ absurd b | inr e ↦ inl e ],
)
In-snoc x y (z ∷ xs) =
    let (to, from) = In-snoc x y xs in
    (
      λ i. elim i [
        | inl e ↦ inl (inl e)
        | inr j ↦ elim (to j) [ inl k ↦ inl (inr k) | inr e ↦ inr e ]
      ],
      λ i. elim i [
        | inl (inl e) ↦ inl e
        | inl (inr k) ↦ inr (from (inl k))
        | inr e ↦ inr (from (inr e))
      ],
    )

In-reverse : (x : String) (xs : List String) → In x (reverse xs) ↔ In x xs
In-reverse x [] = (λ i. i, λ i. i)
In-reverse x (y ∷ xs) =
    let (to, from) = In-snoc x y (reverse xs) in
    let (back, forth) = In-reverse x xs in
    rw (reverse-cons y xs) (
      λ i. elim (to i) [ inl j ↦ inr (back j) | inr e ↦ inl e ],
      λ i. elim i [ inl e ↦ from (inr e) | inr j ↦ from (inl (forth j)) ],
    )

Distinct-snoc : (y : String) (xs : List String) → ¬ In y xs → Distinct xs → Distinct (xs ++ y ∷ [])
Distinct-snoc y [] n d = (λ i. i, tt)
Distinct-snoc y (x ∷ xs) n d = (
  λ i. elim ((In-snoc x y xs).0 i) [ inl j ↦ d.0 j | inr e ↦ n (inl (sym e)) ],
  Distinct-snoc y xs (λ i. n (inr i)) d.1,
)

Distinct-reverse : (xs : List String) → Distinct xs → Distinct (reverse xs)
Distinct-reverse [] d = tt
Distinct-reverse (x ∷ xs) d =
    rw (reverse-cons x xs)
      (Distinct-snoc x (reverse xs) (λ i. d.0 ((In-reverse x xs).0 i)) (Distinct-reverse xs d.1))

IsCollected-AreRolesOf :
    (storage : Dict Role) (u : User) (seen : List String)
    → IsCollected storage u.roles [] seen
    → AreRolesOf storage u (reverse seen)
IsCollected-AreRolesOf storage u seen h = record {
  exact = λ x. (
    λ i. elim (h.inherited x ((In-reverse x seen).0 i)) [ inl b ↦ absurd b | inr path ↦ path ],
    λ (r, listed, path). (In-reverse x seen).1 (
        Inherits-closed storage seen
          (λ y p j e. elim (h.closed y p j e) [ inl b ↦ absurd b | inr k ↦ k ]) path
          (All-In (λ n. In n seen) r u.roles h.reached listed)),
  );
  once = Distinct-reverse seen (h.distinct tt);
}

abbrev pub Collects : Dict Role → User → Option (List String) → Type 0
Collects storage u none = ⊥
Collects storage u (some roles) = AreRolesOf storage u roles

Post-Collects :
    (storage : Dict Role) (u : User) (r : Option (List String))
    → Post storage (fuel_for storage) u.roles [] r
    → Collects storage u (Option.map reverse r)
Post-Collects storage u none h = omega (arith, unseen-le storage)
Post-Collects storage u (some seen) h = IsCollected-AreRolesOf storage u seen h

-- GetUserRoles always ends, with the names at or above the roles of the user, and no others, each
-- once, whether or not the stored roles are cyclic.
get_user_roles-Collects : (e : Engine) (u : User) → Collects e.storage u (get_user_roles e (some u))
unfolding get_user_roles
get_user_roles-Collects e u =
    Post-Collects e.storage u
      (collect_each (collect_roles (fuel_for e.storage) e.storage) u.roles [])
      (collect_each-Post e.storage (fuel_for e.storage)
        (collect_roles (fuel_for e.storage) e.storage)
        (collect_roles-Post e.storage (fuel_for e.storage)) u.roles [])
