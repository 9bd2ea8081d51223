-- ===== src/Rbac/Engine/Emitted.antt =====
-- The resolution of roles in internal/rbac/rbac.go with an empty cache, and the permissions that it
-- puts out.
use codeai.Base.{
  In, ℕ, zero, suc, ◌≡◌, sym, subst, ◌⊎◌, inl, inr, String, List, [], ◌∷◌, ◌++◌, Option, none, some,
  Bool-cases, Option-cases,
}
use codeai.Base.Dict.{Dict, lookup, insert, lookup-insert_cases}
use codeai.Rbac.Role.{Role, contains, contains-In, In-contains, IsParent}
use codeai.Rbac.Engine.{Shared, ◌>>=◌, resolve_each, resolve_role}

module _ (storage : Dict Role) where
  -- The cache holds only names that were seen in this resolution.
  abbrev pub IsTidy : Shared → Type 0
  IsTidy s = (x : String) (perms : List String) → lookup x s.cache ≡ some perms → In x s.seen

  -- The names seen newly have their own permissions in the result, and their parents were seen.
  pub record Emits (names base : List String) (s : Shared) (out : List String) (s' : Shared)
      : Type 0 where
    pub kept : (x : String) → In x s.seen → In x s'.seen
    pub reached : (x : String) → In x names → In x s'.seen
    pub closed : (x p : String) → In x s'.seen → IsParent storage x p → In x s.seen ⊎ In p s'.seen
    pub emitted :
        (x : String) (role : Role)
        → In x s'.seen
        → lookup x storage ≡ some role
        → In x s.seen ⊎ ((p : String) → In p role.permissions → In p out)
    pub based : (p : String) → In p base → In p out
    pub tidy : IsTidy s'

  abbrev pub Emitted : List String → List String → Shared → Option (List String × Shared) → Type 0
  Emitted names base s none = Unit
  Emitted names base s (some (out, s')) = Emits names base s out s'

  In-append_left : (p : String) (xs ys : List String) → In p xs → In p (xs ++ ys)
  In-append_left p (x ∷ xs) ys (inl e) = inl e
  In-append_left p (x ∷ xs) ys (inr i) = inr (In-append_left p xs ys i)
  In-append_left p [] ys i = absurd i

  In-append_right : (p : String) (xs ys : List String) → In p ys → In p (xs ++ ys)
  In-append_right p [] ys i = i
  In-append_right p (x ∷ xs) ys i = inr (In-append_right p xs ys i)

  Emits-cons :
      (name : String) (names base more out : List String) (s t s' : Shared)
      → Emits (name ∷ []) [] s more t
      → Emits names (base ++ more) t out s'
      → Emits (name ∷ names) base s out s'
  Emits-cons name names base more out s t s' h k = record {
    kept = λ x i. k.kept x (h.kept x i);
    reached = λ x i. elim i [
      | inl same ↦ k.kept x (h.reached x (inl same))
      | inr later ↦ k.reached x later
    ];
    closed = λ x p i e. elim (k.closed x p i e) [
      | inr new ↦ inr new
      | inl mid ↦ elim (h.closed x p mid e) [ inl old ↦ inl old | inr new ↦ inr (k.kept p new) ]
    ];
    emitted = λ x role i at. elim (k.emitted x role i at) [
      | inr new ↦ inr new
      | inl mid ↦ elim (h.emitted x role mid at) [
        | inl old ↦ inl old
        | inr new ↦ inr (λ p l. k.based p (In-append_right p base more (new p l)))
      ]
    ];
    based = λ p i. k.based p (In-append_left p base more i);
    tidy = k.tidy;
  }

  pub resolve_each-Emitted :
      (resolve : String → Shared → Option (List String × Shared))
      → ((name : String) (s : Shared) → IsTidy s → Emitted (name ∷ []) [] s (resolve name s))
      → (names base : List String) (s : Shared) → IsTidy s
      → Emitted names base s (resolve_each resolve names base s)
  unfolding resolve_each
  resolve_each-Emitted resolve ih [] base s tidy = record {
    kept = λ x i. i;
    reached = λ x i. absurd i;
    closed = λ x p i e. inl i;
    emitted = λ x role i at. inl i;
    based = λ p i. i;
    tidy = tidy;
  }
  resolve_each-Emitted resolve ih (name ∷ names) base s tidy =
      go (resolve name s) (ih name s tidy) (resolve_each-Emitted resolve ih names)
    where
      after_rest :
          (more : List String) (t : Shared)
          → Emits (name ∷ []) [] s more t
          → (r : Option (List String × Shared)) → Emitted names (base ++ more) t r
          → Emitted (name ∷ names) base s r
      after_rest more t h none k = tt
      after_rest more t h (some (out, s')) k = Emits-cons name names base more out s t s' h k

      go :
          (r : Option (List String × Shared))
          → Emitted (name ∷ []) [] s r
          → ((base : List String) (t : Shared)
              → IsTidy t
              → Emitted names base t (resolve_each resolve names base t))
          → Emitted
              (name ∷ names)
              base
              s
              (r >>= λ (more, t). resolve_each resolve names (base ++ more) t)
      go none h rest = tt
      go (some (more, t)) h rest =
          after_rest more t h (resolve_each resolve names (base ++ more) t)
            (rest (base ++ more) t h.tidy)

  Emits-seen :
      (name : String) (s : Shared) → In name s.seen → IsTidy s → Emits (name ∷ []) [] s [] s
  Emits-seen name s i tidy = record {
    kept = λ x j. j;
    reached = λ x j. elim j [
      | inl same ↦ subst (λ y. In y s.seen) (sym same) i
      | inr never ↦ absurd never
    ];
    closed = λ x p j e. inl j;
    emitted = λ x role j at. inl j;
    based = λ p j. absurd j;
    tidy = tidy;
  }

  Emits-absent :
      (name : String) (s : Shared)
      → lookup name storage ≡ none
      → IsTidy s
      → Emits (name ∷ []) [] s [] (record s { seen = name ∷ s.seen })
  Emits-absent name s absent tidy = record {
    kept = λ x j. inr j;
    reached = λ x j. elim j [ inl same ↦ inl same | inr never ↦ absurd never ];
    closed = λ x p j e. elim j [ inl same ↦ cc (absent, same, e.stored) | inr old ↦ inl old ];
    emitted = λ x role j at. elim j [ inl same ↦ cc (absent, same, at) | inr old ↦ inl old ];
    based = λ p j. absurd j;
    tidy = λ x perms at. inr (tidy x perms at);
  }

  Emitted-stored :
      (name : String) (role : Role) (s : Shared) (r : Option (List String × Shared))
      → lookup name storage ≡ some role
      → Emitted role.parents role.permissions (record s { seen = name ∷ s.seen }) r
      → Emitted
          (name ∷ [])
          []
          s
          (r >>= λ (perms, s'). some (perms, record s' { cache = insert name perms s'.cache }))
  Emitted-stored name role s none stored h = tt
  Emitted-stored name role s (some (perms, s')) stored h = record {
    kept = λ x i. h.kept x (inr i);
    reached = λ x j. elim j [ inl same ↦ h.kept x (inl same) | inr never ↦ absurd never ];
    closed = λ x p i e. elim (h.closed x p i e) [
      | inr new ↦ inr new
      | inl (inr old) ↦ inl old
      | inl (inl same) ↦
          let is_role : e.role ≡ role = cc (e.stored, stored, same) in
          inr (h.reached p (subst (λ (r : Role). In p r.parents) is_role e.listed))
    ];
    emitted = λ x other i at. elim (h.emitted x other i at) [
      | inr new ↦ inr new
      | inl (inr old) ↦ inl old
      | inl (inl same) ↦
          let is_role : other ≡ role = cc (at, stored, same) in
          inr (λ p l. h.based p (subst (λ (r : Role). In p r.permissions) is_role l))
    ];
    based = λ p j. absurd j;
    tidy = λ x ps at. elim (lookup-insert_cases name x perms s'.cache at) [
      | inl (same, _) ↦ h.kept x (inl (sym same))
      | inr (_, old) ↦ h.tidy x ps old
    ];
  }

  pub resolve_role-Emitted :
      (fuel : ℕ) (name : String) (s : Shared)
      → IsTidy s
      → Emitted (name ∷ []) [] s (resolve_role fuel storage name s)
  unfolding resolve_role
  resolve_role-Emitted zero name s tidy = tt
  resolve_role-Emitted (suc fuel) name s tidy =
      let marked : Shared = record s { seen = name ∷ s.seen } in
      let parents : (role : Role)
          → Emitted role.parents role.permissions marked
              (resolve_each (resolve_role fuel storage) role.parents role.permissions marked) =
        λ role.
          resolve_each-Emitted (resolve_role fuel storage) (resolve_role-Emitted fuel) role.parents
            role.permissions marked (λ x perms at. inr (tidy x perms at)) in
      elim (Bool-cases (contains name s.seen)) [
        | inl seen ↦ rw seen (Emits-seen name s (contains-In name s.seen seen) tidy)
        | inr fresh ↦ elim (Option-cases (lookup name s.cache)) [
          | inr (cached, at) ↦ cc (In-contains name s.seen (tidy name cached at), fresh)
          | inl uncached ↦ elim (Option-cases (lookup name storage)) [
            | inl absent ↦
                rw (fresh, uncached, absent, resolve_role) (Emits-absent name s absent tidy)
            | inr (role, stored) ↦
                rw (fresh, uncached, stored, resolve_role)
                  (Emitted-stored name role s
                    (resolve_each (resolve_role fuel storage) role.parents role.permissions marked)
                    stored (parents role))
          ]
        ]
      ]
