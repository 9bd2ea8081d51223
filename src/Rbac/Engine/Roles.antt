-- ===== src/Rbac/Engine/Roles.antt =====
-- The roles that `GetUserRoles` collects, and what `CheckRole` looks for (internal/rbac/rbac.go).
use codeai.Base.{
  In, All-In, ℕ, zero, suc, ◌≡◌, ◌≤◌, refl, sym, subst, ◌⊎◌, inl, inr, false, String, List, [], ◌∷◌,
  Option, none, some, arith, Bool-cases, Option-cases, All,
}
use codeai.Base.Dict.{Dict, lookup}
use codeai.Rbac.Role.{
  Role, contains, contains-In, In-contains, IsParent, Inherits, here, up, unseen, unseen-anti,
  unseen-lt,
}
use codeai.Rbac.Engine.{◌>>=◌, collect_each, collect_roles}

-- No name twice.
abbrev pub Distinct : List String → Type 0
Distinct [] = Unit
Distinct (x ∷ xs) = (¬ In x xs) × Distinct xs

module _ (storage : Dict Role) where
  pub record IsCollected (names seen seen' : List String) : Type 0 where
    pub kept : (x : String) → In x seen → In x seen'
    pub reached : All (λ n. In n seen') names
    pub closed : (x p : String) → In x seen' → IsParent storage x p → In x seen ⊎ In p seen'
    pub inherited :
        (x : String) → In x seen' → In x seen ⊎ ((n : String) × In n names × Inherits storage n x)
    pub distinct : Distinct seen → Distinct seen'

  abbrev pub Post : ℕ → List String → List String → Option (List String) → Type 0
  Post fuel names seen none = fuel ≤ unseen storage seen
  Post fuel names seen (some seen') = IsCollected names seen seen'

  IsCollected-nil : (seen : List String) → IsCollected [] seen seen
  IsCollected-nil seen = record {
    kept = λ x i. i;
    reached = tt;
    closed = λ x p i _. inl i;
    inherited = λ x i. inl i;
    distinct = λ d. d;
  }

  IsCollected-cons :
      (name : String) (names seen mid seen' : List String)
      → IsCollected (name ∷ []) seen mid
      → IsCollected names mid seen'
      → IsCollected (name ∷ names) seen seen'
  IsCollected-cons name names seen mid seen' h k = record {
    kept = λ x i. k.kept x (h.kept x i);
    reached = (k.kept name h.reached.0, k.reached);
    closed = λ x p i e. elim (k.closed x p i e) [
      | inr new ↦ inr new
      | inl before ↦ elim (h.closed x p before e) [
        | inl old ↦ inl old
        | inr new ↦ inr (k.kept p new)
      ]
    ];
    inherited = λ x i. elim (k.inherited x i) [
      | inr (n, listed, path) ↦ inr (n, inr listed, path)
      | inl before ↦ elim (h.inherited x before) [
        | inl old ↦ inl old
        | inr (n, inl same, path) ↦ inr (n, inl same, path)
        | inr (n, inr nothing, path) ↦ absurd nothing
      ]
    ];
    distinct = λ d. k.distinct (h.distinct d);
  }

  Post-cons :
      (fuel : ℕ) (name : String) (names seen : List String) (r : Option (List String))
      (k : List String → Option (List String))
      → Post fuel (name ∷ []) seen r
      → ((mid : List String) → Post fuel names mid (k mid))
      → Post fuel (name ∷ names) seen (r >>= k)
  Post-cons fuel name names seen none k h next = h
  Post-cons fuel name names seen (some mid) k h next = go (k mid) (next mid)
    where
      go : (r : Option (List String)) → Post fuel names mid r → Post fuel (name ∷ names) seen r
      go none short = omega (arith, unseen-anti storage seen mid h.kept)
      go (some seen') rest = IsCollected-cons name names seen mid seen' h rest

  pub collect_each-Post :
      (fuel : ℕ) (collect : String → List String → Option (List String))
      → ((name : String) (seen : List String) → Post fuel (name ∷ []) seen (collect name seen))
      → (names seen : List String) → Post fuel names seen (collect_each collect names seen)
  unfolding collect_each
  collect_each-Post fuel collect ih [] seen = IsCollected-nil seen
  collect_each-Post fuel collect ih (name ∷ names) seen =
      Post-cons fuel name names seen (collect name seen) (collect_each collect names) (ih name seen)
        (collect_each-Post fuel collect ih names)

  Post-seen :
      (name : String) (seen : List String) → In name seen → IsCollected (name ∷ []) seen seen
  Post-seen name seen i = record {
    kept = λ x i. i;
    reached = (i, tt);
    closed = λ x p i _. inl i;
    inherited = λ x i. inl i;
    distinct = λ d. d;
  }

  fresh_not-In : (name : String) (seen : List String) → contains name seen ≡ false → ¬ In name seen
  fresh_not-In name seen e i = cc (In-contains name seen i)

  Post-absent :
      (name : String) (seen : List String)
      → contains name seen ≡ false
      → lookup name storage ≡ none
      → IsCollected (name ∷ []) seen (name ∷ seen)
  Post-absent name seen fresh absent = record {
    kept = λ x i. inr i;
    reached = (inl refl, tt);
    closed = λ x p i e. elim i [ inl same ↦ cc (absent, same, e.stored) | inr old ↦ inl old ];
    inherited = λ x i. elim i [
      | inl same ↦ inr (name, inl refl, subst (Inherits storage name) (sym same) here)
      | inr old ↦ inl old
    ];
    distinct = λ d. (fresh_not-In name seen fresh, d);
  }

  Post-stored :
      (fuel : ℕ) (name : String) (role : Role) (seen : List String) (r : Option (List String))
      → contains name seen ≡ false
      → lookup name storage ≡ some role
      → Post fuel role.parents (name ∷ seen) r
      → Post (suc fuel) (name ∷ []) seen r
  Post-stored fuel name role seen none fresh stored h =
      omega (arith, unseen-lt storage seen name role stored fresh)
  Post-stored fuel name role seen (some seen') fresh stored h = record {
    kept = λ x i. h.kept x (inr i);
    reached = (h.kept name (inl refl), tt);
    closed = λ x p i e. elim (h.closed x p i e) [
      | inr new ↦ inr new
      | inl (inr old) ↦ inl old
      | inl (inl same) ↦
          let is_role : e.role ≡ role = cc (e.stored, stored, same) in
          inr (
            All-In (λ n. In n seen') p role.parents h.reached
              (subst (λ (s : Role). In p s.parents) is_role e.listed))
    ];
    inherited = λ x i. elim (h.inherited x i) [
      | inl (inl same) ↦ inr (name, inl refl, subst (Inherits storage name) (sym same) here)
      | inl (inr old) ↦ inl old
      | inr (n, listed, path) ↦
          inr (name, inl refl, up (record { role = role; stored = stored; listed = listed }) path)
    ];
    distinct = λ d. h.distinct (fresh_not-In name seen fresh, d);
  }

  pub collect_roles-Post :
      (fuel : ℕ) (name : String) (seen : List String)
      → Post fuel (name ∷ []) seen (collect_roles fuel storage name seen)
  unfolding collect_roles
  collect_roles-Post zero name seen = omega arith
  collect_roles-Post (suc fuel) name seen = elim (Bool-cases (contains name seen)) [
    | inl old ↦ rw old (Post-seen name seen (contains-In name seen old))
    | inr fresh ↦ elim (Option-cases (lookup name storage)) [
      | inl absent ↦ rw (fresh, absent) (Post-absent name seen fresh absent)
      | inr (role, stored) ↦
          rw (fresh, stored)
            (Post-stored fuel name role seen
              (collect_each (collect_roles fuel storage) role.parents (name ∷ seen)) fresh stored
              (collect_each-Post fuel (collect_roles fuel storage) (collect_roles-Post fuel)
                role.parents (name ∷ seen)))
    ]
  ]

  pub Inherits-closed :
      (w : List String)
      → ((x p : String) → In x w → IsParent storage x p → In p w)
      → {x y : String} → Inherits storage x y
      → In x w
      → In y w
  Inherits-closed w c here i = i
  Inherits-closed w c (up {x} {y} e path) i = Inherits-closed w c path (c x y i e)
