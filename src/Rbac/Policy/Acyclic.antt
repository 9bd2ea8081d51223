-- ===== src/Rbac/Policy/Acyclic.antt =====
-- How a stored or removed role changes the graph of inheritance (internal/rbac/policy.go).
use codeai.Base.{In, ◌≡◌, ◌≢◌, refl, sym, subst, ◌⊎◌, inl, inr, String}
use codeai.Base.Dict.{Dict, insert, delete, lookup-insert_cases, lookup-delete_cases}
use codeai.Rbac.Role.{Role, IsParent, Inherits, here, up}

-- No role inherits from itself.
abbrev pub IsAcyclic : Dict Role → Type 0
IsAcyclic roles = (x y : String) → IsParent roles x y → ¬ Inherits roles y x

module _ (roles : Dict Role) (role : Role) where
  abbrev pub stored : Dict Role
  stored = insert role.name role roles

  IsParent-insert :
      (x y : String)
      → IsParent stored x y
      → ((x ≡ role.name) × In y role.parents) ⊎ ((x ≢ role.name) × IsParent roles x y)
  IsParent-insert x y e = elim (lookup-insert_cases role.name x role roles e.stored) [
    | inl (same, is_role) ↦
        inl (sym same, subst (λ (r : Role). In y r.parents) (sym is_role) e.listed)
    | inr (other, old) ↦
        inr (λ s. other (sym s), record { role = e.role; stored = old; listed = e.listed })
  ]

  -- A path to the stored role has, up to its first visit, old edges only.
  Inherits-to_stored :
      {x y : String} → Inherits stored x y → y ≡ role.name → Inherits roles x role.name
  Inherits-to_stored {x} here s = subst (λ z. Inherits roles z role.name) (sym s) here
  Inherits-to_stored (up {x} {y} e path) s = elim (IsParent-insert x y e) [
    | inl (same, _) ↦ subst (λ z. Inherits roles z role.name) (sym same) here
    | inr (_, old) ↦ up old (Inherits-to_stored path s)
  ]

  -- A path has old edges only, or goes through the stored role.
  Inherits-avoids :
      {x y : String}
      → Inherits stored x y
      → Inherits roles x y ⊎ (Inherits stored x role.name × Inherits stored role.name y)
  Inherits-avoids here = inl here
  Inherits-avoids (up {x} {y} {z} e path) = elim (IsParent-insert x y e) [
    | inl (same, _) ↦ inr (
      subst (λ w. Inherits stored w role.name) (sym same) here,
      subst (λ w. Inherits stored w z) same (up e path),
    )
    | inr (_, old) ↦ elim (Inherits-avoids path) [
      | inl clean ↦ inl (up old clean)
      | inr (before, after) ↦ inr (up e before, after)
    ]
  ]

  Inherits-trans :
      {x y z : String} → Inherits stored x y → Inherits stored y z → Inherits stored x z
  Inherits-trans here q = q
  Inherits-trans (up e p) q = up e (Inherits-trans p q)

  module _ (clean : ¬ ((p : String) × In p role.parents × Inherits roles p role.name)) where
    no_return :
        {x y : String}
        → x ≡ role.name
        → y ≢ role.name
        → Inherits stored x y
        → ¬ Inherits stored y role.name
    no_return s n here back = n s
    no_return s n (up {x} {y = q} e path) back = elim (IsParent-insert x q e) [
      | inl (_, listed) ↦ clean (q, listed, Inherits-to_stored (Inherits-trans path back) refl)
      | inr (other, _) ↦ other s
    ]

    pub insert-IsAcyclic : IsAcyclic roles → IsAcyclic stored
    insert-IsAcyclic a x y e path = elim (IsParent-insert x y e) [
      | inl (same, listed) ↦ clean (y, listed, Inherits-to_stored path same)
      | inr (other, old) ↦ elim (Inherits-avoids path) [
        | inl clean_path ↦ a x y old clean_path
        | inr (to, from) ↦ no_return refl other from (up e to)
      ]
    ]

pub IsParent-delete :
    (roles : Dict Role) (name x y : String) → IsParent (delete name roles) x y → IsParent roles x y
IsParent-delete roles name x y e = record {
  role = e.role;
  stored = (lookup-delete_cases name x roles e.stored).1;
  listed = e.listed;
}

pub Inherits-delete :
    (roles : Dict Role) (name : String) {x y : String}
    → Inherits (delete name roles) x y
    → Inherits roles x y
Inherits-delete roles name here = here
Inherits-delete roles name (up {x} {y} e path) =
    up (IsParent-delete roles name x y e) (Inherits-delete roles name path)
