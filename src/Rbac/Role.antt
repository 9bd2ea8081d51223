-- ===== src/Rbac/Role.antt =====
-- Roles (internal/rbac/rbac.go) and the relation of inheritance that their parents make.
use codeai.Base.{
  In, ℕ, suc, ◌≤◌, ◌<◌, ◌≡◌, refl, inr, Bool, true, false, String, List, [], ◌∷◌, some, arith, ◌||◌,
  str_eq, eq_iff, length, if◌then◌else◌,
}
use codeai.Base.Dict.{Dict, lookup}

pub record Role : Type 0 where
  pub name : String
  pub description : String
  pub permissions : List String
  pub parents : List String

-- `seen[name]`, where the map is the list of the names set to true.
unfoldable pub contains : String → List String → Bool
contains x [] = false
contains x (y ∷ ys) = str_eq x y || contains x ys

pub contains-In : (x : String) (ys : List String) → contains x ys ≡ true → In x ys
unfolding contains
contains-In x [] h = cc
contains-In x (y ∷ ys) h = ground (arith, eq_iff x y, contains-In x ys)

pub In-contains : (x : String) (ys : List String) → In x ys → contains x ys ≡ true
unfolding contains
In-contains x [] h = absurd h
In-contains x (y ∷ ys) h = ground (arith, eq_iff x y, In-contains x ys)

-- `p` is listed among the parents of the role that is stored under `x`.
pub record IsParent (roles : Dict Role) (x p : String) : Type 0 where
  pub role : Role
  pub stored : lookup x roles ≡ some role
  pub listed : In p role.parents

-- Inheritance through any number of roles, none included.
pub data Inherits (roles : Dict Role) : String → String → Type 0 where
  here : {x : String} → Inherits roles x x
  up : {x y z : String} → IsParent roles x y → Inherits roles y z → Inherits roles x z

-- The names under which a role is stored that a list does not hold yet.
pub unseen : Dict Role → List String → ℕ
unfolding contains
unseen [] seen = 0
unseen ((k, r) ∷ roles) seen =
    let rest = unseen roles seen in if contains k seen then rest else suc rest

unseen-nil : (roles : Dict Role) → unseen roles [] ≡ length roles
unfolding unseen
unseen-nil [] = refl
unseen-nil (e ∷ roles) = omega (arith, unseen-nil roles)

contains-cons :
    (k : String) (seen seen' : List String)
    → ((x : String) → In x seen → In x seen')
    → contains k seen ≡ true
    → contains k seen' ≡ true
contains-cons k seen seen' sub h = In-contains k seen' (sub k (contains-In k seen h))

-- The more is seen, the less is left.
pub unseen-anti :
    (roles : Dict Role) (seen seen' : List String)
    → ((x : String) → In x seen → In x seen')
    → unseen roles seen' ≤ unseen roles seen
unfolding unseen
unseen-anti [] seen seen' sub = omega arith
unseen-anti ((k, r) ∷ roles) seen seen' sub =
    ground (arith, unseen-anti roles seen seen' sub, contains-cons k seen seen' sub)

-- To see a stored name for the first time leaves less.
pub unseen-lt :
    (roles : Dict Role) (seen : List String) (x : String) (r : Role)
    → lookup x roles ≡ some r
    → contains x seen ≡ false
    → unseen roles (x ∷ seen) < unseen roles seen
unfolding unseen lookup contains
unseen-lt [] seen x r h n = cc
unseen-lt ((k, r') ∷ roles) seen x r h n =
    ground (
      arith,
      eq_iff k x,
      unseen-lt roles seen x r,
      unseen-anti roles seen (x ∷ seen) (λ y i. inr i),
    )

pub unseen-le : (roles : Dict Role) → unseen roles [] ≤ length roles
unseen-le roles = omega (arith, unseen-nil roles)
