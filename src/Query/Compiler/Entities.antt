-- ===== src/Query/Compiler/Entities.antt =====
-- The look-up of entities in internal/query/compiler.go, and `Compile` without one.
use codeai.Base.{
  ℕ, ◌≡◌, ◌≢◌, refl, ap, ap₂, sym, ◌∙◌, inl, inr, true, false, List, [], ◌∷◌, map, Option, none,
  some, ◌==◌, In, Bool-cases, arith,
}
use codeai.Query.Consumed.{if_elim}
use codeai.Query.Tokens.{bytes_eq, to_lower}
use codeai.Query.Ast.{Query, EntityMeta}
use codeai.Query.Compiler.Sql.{SqlCompiler, failed, unknown_entity}
use codeai.Query.Compiler.Names.{find, find_lower, or_else, get_entity}
use codeai.Query.Compiler.Statements.{compile, compile_found}

pub bytes_eq→≡ : (a b : List ℕ) → bytes_eq a b ≡ true → a ≡ b
bytes_eq→≡ [] [] h = refl
bytes_eq→≡ [] (y ∷ ys) h = cc h
bytes_eq→≡ (x ∷ xs) [] h = cc h
bytes_eq→≡ (x ∷ xs) (y ∷ ys) h = elim (Bool-cases (x == y)) [
  | inl e ↦ ap (λ z. z ∷ xs) (ground arith) ∙ ap (λ zs. y ∷ zs) (bytes_eq→≡ xs ys (rw e at h))
  | inr e ↦ cc (rw e at h)
]

bytes_eq_refl : (a : List ℕ) → bytes_eq a a ≡ true
bytes_eq_refl [] = refl
bytes_eq_refl (x ∷ xs) = let same : x == x ≡ true = ground arith in rw same (bytes_eq_refl xs)

-- What is found under a name in lower case is of an entity whose name is the same in lower case.
abbrev pub Found : List ℕ → List (List ℕ × EntityMeta) → Option EntityMeta → Type 0
Found lower entities none =
    (k : List ℕ) (m : EntityMeta) → In (k, m) entities → map to_lower k ≢ lower
Found lower entities (some m) = (k : List ℕ) × In (k, m) entities × (map to_lower k ≡ lower)

other :
    {lower : List ℕ} (k k' : List ℕ) (m m' : EntityMeta)
    → ◌≡◌ {A = List ℕ × EntityMeta} (k', m') (k, m)
    → map to_lower k' ≡ lower
    → bytes_eq (map to_lower k) lower ≡ false
    → ⊥
other {lower} k k' m m' p t e =
    let same : map to_lower k ≡ lower = ap (λ r. map to_lower r.0) (sym p) ∙ t in
    cc (sym (ap (bytes_eq (map to_lower k)) same) ∙ bytes_eq_refl (map to_lower k), e)

find_lower-Found :
    (lower : List ℕ) (entities : List (List ℕ × EntityMeta))
    → Found lower entities (find_lower lower entities)
unfolding find_lower
find_lower-Found lower [] = λ k m i. absurd i
find_lower-Found lower ((k, m) ∷ rest) =
    if_elim (Found lower ((k, m) ∷ rest)) (bytes_eq (map to_lower k) lower)
      (λ e. (k, inl refl, bytes_eq→≡ (map to_lower k) lower e))
      (λ e. further (find_lower lower rest) (find_lower-Found lower rest) e)
  where
    further :
        (o : Option EntityMeta)
        → Found lower rest o
        → bytes_eq (map to_lower k) lower ≡ false
        → Found lower ((k, m) ∷ rest) o
    further none h e = λ k' m' i t. elim i [ inl p ↦ other k k' m m' p t e | inr j ↦ h k' m' j t ]
    further (some m') (k', i, e') e = (k', inr i, e')

find-In :
    (name : List ℕ) (entities : List (List ℕ × EntityMeta)) {m : EntityMeta}
    → find name entities ≡ some m
    → In (name, m) entities
unfolding find
find-In name [] h = cc h
find-In name ((k, m') ∷ rest) {m} h = elim (Bool-cases (bytes_eq k name)) [
  | inl e ↦
      let p : some m' ≡ some m = rw e at h in
      let same : m' ≡ m = cc p in inl (ap₂ (λ a b. (a, b)) (sym (bytes_eq→≡ k name e)) (sym same))
  | inr e ↦ inr (find-In name rest (rw e at h))
]

-- The entity that a name stands for is stored under that name, or under one that differs by case only,
-- and if there is none, then no name of an entity is the same but for case.
pub get_entity-Found :
    (c : SqlCompiler) (name : List ℕ) → Found (map to_lower name) c.entities (get_entity c name)
unfolding get_entity
get_entity-Found c name = exact (find name c.entities) refl
  where
    exact :
        (found : Option EntityMeta)
        → find name c.entities ≡ found
        → Found
            (map to_lower name)
            c.entities
            (or_else found (find_lower (map to_lower name) c.entities))
    exact none e = find_lower-Found (map to_lower name) c.entities
    exact (some m) e = (name, find-In name c.entities e, refl)

-- Compile of a query on a name that no entity has, up to the case of ASCII letters, gives the error
-- of an unknown entity, with that name, whatever the query is.
compile-unknown :
    (c : SqlCompiler) (q : Query)
    → ((k : List ℕ) (m : EntityMeta)
        → In (k, m) c.entities
        → map to_lower k ≢ map to_lower q.entity)
    → compile c q ≡ failed (unknown_entity q.entity)
unfolding compile
compile-unknown c q h = of_entity (get_entity c q.entity) (get_entity-Found c q.entity)
  where
    of_entity :
        (found : Option EntityMeta)
        → Found (map to_lower q.entity) c.entities found
        → compile_found c q found ≡ failed (unknown_entity q.entity)
    of_entity none f = refl
    of_entity (some m) (k, i, e) = absurd (h k m i e)
