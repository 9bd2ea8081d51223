-- ===== src/Rbac/Engine/Sound.antt =====
-- The resolution of permissions in internal/rbac/rbac.go, and which permissions a role carries.
use codeai.Base.{
  In, ℕ, zero, suc, ◌≡◌, ◌≤◌, refl, sym, subst, ◌⊎◌, inl, inr, false, String, List, [], ◌∷◌, ◌++◌,
  Option, none, some, arith, Bool-cases, Option-cases,
}
use codeai.Base.Dict.{Dict, lookup, insert, lookup-insert_cases}
use codeai.Rbac.Role.{Role, contains, IsParent, Inherits, here, up, unseen, unseen-anti, unseen-lt}
use codeai.Rbac.Engine.{Shared, Resolve, ◌>>=◌, resolve_each, resolve_role}

module _ (storage : Dict Role) where
  -- A role that carries the permission itself, at or above the name.
  pub record Carries (name perm : String) : Type 0 where
    pub from : String
    pub role : Role
    pub path : Inherits storage name from
    pub stored : lookup from storage ≡ some role
    pub listed : In perm role.permissions

  -- The cache holds nothing that the roles do not carry.
  abbrev pub IsSound : Dict (List String) → Type 0
  IsSound cache =
      (name : String) (perms : List String)
      → lookup name cache ≡ some perms
      → (p : String) → In p perms
      → Carries name p

  -- After names are resolved: they carry all that was added to the permissions.
  pub record IsResolved (names perms : List String) (s : Shared) (perms' : List String)
      (s' : Shared) : Type 0 where
    pub carried :
        (p : String) → In p perms' → In p perms ⊎ ((n : String) × In n names × Carries n p)
    pub still_sound : IsSound s'.cache
    pub kept : (x : String) → In x s.seen → In x s'.seen

  abbrev pub Post : ℕ → List String → List String → Shared → Option (List String × Shared) → Type 0
  Post fuel names perms s none = fuel ≤ unseen storage s.seen
  Post fuel names perms s (some (perms', s')) = IsResolved names perms s perms' s'

  Carries-up : {x y p : String} → IsParent storage x y → Carries y p → Carries x p
  Carries-up e c = record {
    from = c.from;
    role = c.role;
    path = up e c.path;
    stored = c.stored;
    listed = c.listed;
  }

  pub In-append : (p : String) (xs ys : List String) → In p (xs ++ ys) → In p xs ⊎ In p ys
  In-append p [] ys i = inr i
  In-append p (x ∷ xs) ys (inl e) = inl (inl e)
  In-append p (x ∷ xs) ys (inr i) = elim (In-append p xs ys i) [
    | inl a ↦ inl (inr a)
    | inr b ↦ inr b
  ]

  Post-cons :
      (fuel : ℕ) (name : String) (names perms more : List String) (s t : Shared)
      (r : Option (List String × Shared))
      → IsResolved (name ∷ []) [] s more t
      → Post fuel names (perms ++ more) t r
      → Post fuel (name ∷ names) perms s r
  Post-cons fuel name names perms more s t none h k =
      omega (arith, unseen-anti storage s.seen t.seen h.kept)
  Post-cons fuel name names perms more s t (some (perms', s')) h k = record {
    carried = λ p i. elim (k.carried p i) [
      | inr (n, listed, c) ↦ inr (n, inr listed, c)
      | inl before ↦ elim (In-append p perms more before) [
        | inl old ↦ inl old
        | inr new ↦ elim (h.carried p new) [
          | inl nothing ↦ absurd nothing
          | inr (n, inl same, c) ↦ inr (n, inl same, c)
          | inr (n, inr nothing, c) ↦ absurd nothing
        ]
      ]
    ];
    still_sound = k.still_sound;
    kept = λ x i. k.kept x (h.kept x i);
  }

  Post-bind :
      (fuel : ℕ) (name : String) (names perms : List String) (s : Shared)
      (r : Option (List String × Shared)) (k : List String × Shared → Option (List String × Shared))
      → Post fuel (name ∷ []) [] s r
      → ((more : List String) (t : Shared)
          → IsSound t.cache
          → Post fuel names (perms ++ more) t (k (more, t)))
      → Post fuel (name ∷ names) perms s (r >>= k)
  Post-bind fuel name names perms s none k h next = h
  Post-bind fuel name names perms s (some (more, t)) k h next =
      Post-cons fuel name names perms more s t (k (more, t)) h (next more t h.still_sound)

  pub resolve_each-Post :
      (fuel : ℕ) (resolve : Resolve)
      → ((name : String) (s : Shared)
          → IsSound s.cache
          → Post fuel (name ∷ []) [] s (resolve name s))
      → (names perms : List String) (s : Shared) → IsSound s.cache
      → Post fuel names perms s (resolve_each resolve names perms s)
  unfolding resolve_each
  resolve_each-Post fuel resolve ih [] perms s sound = record {
    carried = λ p i. inl i;
    still_sound = sound;
    kept = λ x i. i;
  }
  resolve_each-Post fuel resolve ih (name ∷ names) perms s sound =
      Post-bind fuel name names perms s (resolve name s)
        (λ (more, t). resolve_each resolve names (perms ++ more) t) (ih name s sound)
        (λ more t sound'. resolve_each-Post fuel resolve ih names (perms ++ more) t sound')

  Post-role :
      (fuel : ℕ) (name : String) (role : Role) (s : Shared) (inner : Option (List String × Shared))
      → lookup name storage ≡ some role
      → contains name s.seen ≡ false
      → Post fuel role.parents role.permissions (record s { seen = name ∷ s.seen }) inner
      → Post
          (suc fuel)
          (name ∷ [])
          []
          s
          (inner >>= λ (perms, s'). some (perms, record s' { cache = insert name perms s'.cache }))
  Post-role fuel name role s none stored fresh h =
      omega (arith, unseen-lt storage s.seen name role stored fresh)
  Post-role fuel name role s (some (perms, s')) stored fresh h = record {
    carried = λ p i. inr (name, inl refl, all_carried p i);
    still_sound = λ n ps at. elim (lookup-insert_cases name n perms s'.cache at) [
      | inl (same, new) ↦
          λ p i. subst (λ m. Carries m p) same (all_carried p (subst (In p) (sym new) i))
      | inr (_, old) ↦ h.still_sound n ps old
    ];
    kept = λ x i. h.kept x (inr i);
  }
    where
      all_carried : (p : String) → In p perms → Carries name p
      all_carried p i = elim (h.carried p i) [
        | inl own ↦ record { from = name; role = role; path = here; stored = stored; listed = own }
        | inr (n, listed, c) ↦
            Carries-up (record { role = role; stored = stored; listed = listed }) c
      ]

  pub resolve_role-Post :
      (fuel : ℕ) (name : String) (s : Shared)
      → IsSound s.cache
      → Post fuel (name ∷ []) [] s (resolve_role fuel storage name s)
  unfolding resolve_role
  resolve_role-Post zero name s sound = omega arith
  resolve_role-Post (suc fuel) name s sound = elim (Bool-cases (contains name s.seen)) [
    | inl old ↦ rw old (record { carried = λ p i. inl i; still_sound = sound; kept = λ x i. i })
    | inr fresh ↦ elim (Option-cases (lookup name s.cache)) [
      | inr (perms, hit) ↦
          rw (fresh, hit)
            (record {
              carried = λ p i. inr (name, inl refl, sound name perms hit p i);
              still_sound = sound;
              kept = λ x i. inr i;
            })
      | inl miss ↦ elim (Option-cases (lookup name storage)) [
        | inl absent ↦
            rw (fresh, miss, absent)
              (record { carried = λ p i. inl i; still_sound = sound; kept = λ x i. inr i })
        | inr (role, stored) ↦
            rw (fresh, miss, stored)
              (Post-role fuel name role s
                (resolve_each (resolve_role fuel storage) role.parents role.permissions
                  (record s { seen = name ∷ s.seen }))
                stored fresh
                (resolve_each-Post fuel (resolve_role fuel storage) (resolve_role-Post fuel)
                  role.parents role.permissions (record s { seen = name ∷ s.seen }) sound))
      ]
    ]
  ]
