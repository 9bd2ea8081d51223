-- ===== src/Rbac/Policy/Cycles.antt =====
-- What `detectCycle` of internal/rbac/policy.go finds: whether a role is among the ancestors.
use codeai.Base.{
  In, All-In, ℕ, zero, suc, ◌≡◌, ◌≢◌, ◌≤◌, refl, sym, subst, ◌⊎◌, inl, inr, false, String, List, [],
  ◌∷◌, none, some, length, All, arith, str_eq_cases, Bool-cases, Option-cases,
}
use codeai.Base.Dict.{Dict, lookup}
use codeai.Rbac.Role.{
  Role, contains, contains-In, IsParent, Inherits, here, up, unseen, unseen-anti, unseen-lt,
  unseen-le,
}
use codeai.Rbac.Policy.{
  Search, ◌>>=◌, clear, cyclic, out_of_fuel, search_parents, detect_cycle, check_cyclic_inheritance,
}

module _ (roles : Dict Role) (name : String) where
  -- What a search from `ps` has done when it ends with no cycle: it keeps what was visited, reaches
  -- `ps`, visits with a role all its parents, and does not meet `name`.
  pub record IsSearched (ps v v' : List String) : Type 0 where
    pub kept : (x : String) → In x v → In x v'
    pub reached : All (λ p. In p v') ps
    pub closed : (x p : String) → In x v' → IsParent roles x p → In x v ⊎ In p v'
    pub avoided : In name v' → In name v

  abbrev pub Post : ℕ → List String → List String → Search → Type 0
  Post fuel ps v (clear v') = IsSearched ps v v'
  Post fuel ps v cyclic = (p : String) × In p ps × Inherits roles p name
  Post fuel ps v out_of_fuel = fuel ≤ unseen roles v

  IsSearched-trans :
      (p : String) (ps v w v' : List String)
      → IsSearched (p ∷ []) v w
      → IsSearched ps w v'
      → IsSearched (p ∷ ps) v v'
  IsSearched-trans p ps v w v' s t = record {
    kept = λ x h. t.kept x (s.kept x h);
    reached = (t.kept p s.reached.0, t.reached);
    closed = λ x q h i. elim (t.closed x q h i) [
      | inr done ↦ inr done
      | inl before ↦ elim (s.closed x q before i) [
        | inl old ↦ inl old
        | inr new ↦ inr (t.kept q new)
      ]
    ];
    avoided = λ h. s.avoided (t.avoided h);
  }

  -- To search `p` and then the rest is to search all.
  Post-cons :
      (fuel : ℕ) (p : String) (ps v w : List String) (r : Search)
      → IsSearched (p ∷ []) v w
      → Post fuel ps w r
      → Post fuel (p ∷ ps) v r
  Post-cons fuel p ps v w (clear v') s t = IsSearched-trans p ps v w v' s t
  Post-cons fuel p ps v w cyclic s (q, i, path) = (q, inr i, path)
  Post-cons fuel p ps v w out_of_fuel s h = omega (arith, unseen-anti roles v w s.kept)

  IsSearched-skip : (p : String) (v : List String) → In p v → IsSearched (p ∷ []) v v
  IsSearched-skip p v h = record {
    kept = λ x i. i;
    reached = (h, tt);
    closed = λ x q i _. inl i;
    avoided = λ i. i;
  }

  IsSearched-missing :
      (p : String) (v : List String)
      → p ≢ name
      → lookup p roles ≡ none
      → IsSearched (p ∷ []) v (p ∷ v)
  IsSearched-missing p v differ absent = record {
    kept = λ x i. inr i;
    reached = (inl refl, tt);
    closed =
        λ x q i parent. elim i [ inr old ↦ inl old | inl same ↦ cc (absent, same, parent.stored) ];
    avoided = λ i. elim i [ inl same ↦ absurd (differ (sym same)) | inr old ↦ old ];
  }

  IsSearched-stored :
      (p : String) (r : Role) (v w : List String)
      → p ≢ name
      → lookup p roles ≡ some r
      → IsSearched r.parents (p ∷ v) w
      → IsSearched (p ∷ []) v w
  IsSearched-stored p r v w differ found s = record {
    kept = λ x i. s.kept x (inr i);
    reached = (s.kept p (inl refl), tt);
    closed = λ x q i parent. elim (s.closed x q i parent) [
      | inr done ↦ inr done
      | inl (inr old) ↦ inl old
      | inl (inl same) ↦
          let e : parent.role ≡ r = cc (parent.stored, found, same) in
          inr (
            All-In (λ y. In y w) q r.parents s.reached
              (subst (λ (o : Role). In q o.parents) e parent.listed))
    ];
    avoided = λ i. elim (s.avoided i) [ inl same ↦ absurd (differ (sym same)) | inr old ↦ old ];
  }

  -- What the loop does after the search from a stored parent.
  Post-recurse :
      (fuel : ℕ) (p : String) (ps v : List String) (r : Role) (inner : Search)
      (k : List String → Search)
      → p ≢ name
      → lookup p roles ≡ some r
      → contains p v ≡ false
      → Post fuel r.parents (p ∷ v) inner
      → ((w : List String) → Post (suc fuel) ps w (k w))
      → Post (suc fuel) (p ∷ ps) v (inner >>= k)
  Post-recurse fuel p ps v r (clear w) k differ found fresh h next =
      Post-cons (suc fuel) p ps v w (k w) (IsSearched-stored p r v w differ found h) (next w)
  Post-recurse fuel p ps v r cyclic k differ found fresh (q, i, path) next =
      (p, inl refl, up (record { role = r; stored = found; listed = i }) path)
  Post-recurse fuel p ps v r out_of_fuel k differ found fresh h next =
      omega (arith, unseen-lt roles v p r found fresh)

  search_parents-Post :
      (fuel : ℕ) (recurse : List String → List String → Search)
      → ((ps v : List String) → Post fuel ps v (recurse ps v))
      → (ps v : List String) → Post (suc fuel) ps v (search_parents recurse roles name ps v)
  unfolding search_parents
  search_parents-Post fuel recurse ih [] v = record {
    kept = λ x i. i;
    reached = tt;
    closed = λ x q i _. inl i;
    avoided = λ i. i;
  }
  search_parents-Post fuel recurse ih (p ∷ ps) v =
      let rest = search_parents-Post fuel recurse ih ps in
      elim (str_eq_cases p name) [
        | inl (same, t) ↦ rw t (p, inl refl, subst (Inherits roles p) same here)
        | inr (differ, t) ↦ elim (Bool-cases (contains p v)) [
          | inl seen ↦
              rw (t, seen)
                (Post-cons (suc fuel) p ps v v (search_parents recurse roles name ps v)
                  (IsSearched-skip p v (contains-In p v seen)) (rest v))
          | inr fresh ↦ elim (Option-cases (lookup p roles)) [
            | inl absent ↦
                rw (t, fresh, absent)
                  (Post-cons (suc fuel) p ps v (p ∷ v)
                    (search_parents recurse roles name ps (p ∷ v))
                    (IsSearched-missing p v differ absent) (rest (p ∷ v)))
            | inr (r, found) ↦
                rw (t, fresh, found)
                  (Post-recurse fuel p ps v r (recurse r.parents (p ∷ v))
                    (search_parents recurse roles name ps) differ found fresh (ih r.parents (p ∷ v))
                    rest)
          ]
        ]
      ]

  detect_cycle-Post :
      (fuel : ℕ) (ps v : List String) → Post fuel ps v (detect_cycle fuel roles name ps v)
  unfolding detect_cycle
  detect_cycle-Post zero ps v = omega arith
  detect_cycle-Post (suc fuel) ps v =
      search_parents-Post fuel (detect_cycle fuel roles name) (detect_cycle-Post fuel) ps v

  -- From names that a finished search reached, inheritance leads to such names only.
  Inherits-closed :
      (w : List String)
      → ((x p : String) → In x w → IsParent roles x p → In p w)
      → {x y : String} → Inherits roles x y
      → In x w
      → In y w
  Inherits-closed w c here i = i
  Inherits-closed w c (up {x} {y} e path) i = Inherits-closed w c path (c x y i e)

  -- The check reports a cycle, ends without one, and is never short of fuel.
  unfoldable pub Verdict : List String → Search → Type 0
  Verdict ps (clear v) = ¬ ((p : String) × In p ps × Inherits roles p name)
  Verdict ps cyclic = (p : String) × In p ps × Inherits roles p name
  Verdict ps out_of_fuel = ⊥

  Post-Verdict : (ps : List String) (s : Search) → Post (suc (length roles)) ps [] s → Verdict ps s
  unfolding Verdict
  Post-Verdict ps (clear w) s = λ (p, i, path). s.avoided (
      Inherits-closed w
        (λ x q j e. elim (s.closed x q j e) [ inl old ↦ absurd old | inr new ↦ new ]) path
        (All-In (λ y. In y w) p ps s.reached i))
  Post-Verdict ps cyclic h = h
  Post-Verdict ps out_of_fuel h = omega (arith, unseen-le roles)

  -- checkCyclicInheritance always ends, and reports a cycle exactly if one of the parents is the
  -- role, or inherits from it through the stored roles.
  pub check_cyclic_inheritance-Verdict :
      (ps : List String) → Verdict ps (check_cyclic_inheritance roles name ps)
  unfolding check_cyclic_inheritance
  check_cyclic_inheritance-Verdict ps = Post-Verdict ps _ (detect_cycle-Post _ ps [])
