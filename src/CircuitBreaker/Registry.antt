-- ===== src/CircuitBreaker/Registry.antt =====
-- `CircuitBreakerRegistry` of pkg/integration/circuitbreaker.go. Its map holds pointers, which
-- callers keep: a pointer is a place in a store of breakers that only grows.
use codeai.Base.{
  ℕ, suc, ◌<◌, ◌≡◌, ap, sym, subst, ◌≢◌, inl, inr, String, List, [], ◌∷◌, ◌++◌, none, some, arith,
  length, get_elem?, get_elem?-append_left, get_elem?-append_self, Option-cases, ◌∙◌,
}
use codeai.Base.Dict.{
  Dict, lookup, insert, lookup-insert_cases, lookup-insert_self, lookup-insert_ne,
}
use codeai.CircuitBreaker.{
  Config, CircuitBreaker, CircuitBreakerStats, new_circuit_breaker, stats as breaker_stats,
}

pub record Registry : Type 0 where
  pub breakers : Dict ℕ
  pub config : Config
  pub store : List CircuitBreaker

unfoldable pub new_registry : Config → Registry
new_registry c = record { breakers = []; config = c; store = [] }

-- `Register`, and the second half of `Get`: a new breaker under the name, and a pointer to it.
unfoldable pub register : Registry → String → Config → ℕ → Registry × ℕ
register r name c now =
    let p = length r.store in
    let store' = r.store ++ new_circuit_breaker name c now ∷ [] in
    (record r { breakers = insert name p r.breakers; store = store' }, p)

unfoldable pub get : Registry → String → ℕ → Registry × ℕ
get r name now = elim (lookup name r.breakers) [
  | some p ↦ (r, p)
  | none ↦ register r name r.config now
]

unfoldable pub get_all : Registry → Dict ℕ
get_all r = r.breakers

-- `Stats` follows each pointer.
stats_of : Registry → Dict ℕ → List CircuitBreakerStats
stats_of r [] = []
stats_of r ((name, p) ∷ m) =
    let rest = stats_of r m in
    elim (get_elem? r.store p) [ some cb ↦ breaker_stats cb ∷ rest | none ↦ rest ]

unfoldable pub stats : Registry → List CircuitBreakerStats
unfolding stats_of
stats r = stats_of r r.breakers

-- Every pointer leads to a breaker of that name.
abbrev pub Named : Registry → String → ℕ → Type 0
Named r name p = (cb : CircuitBreaker) × (get_elem? r.store p ≡ some cb) × (cb.name ≡ name)

pub record IsSound (r : Registry) : Type 0 where
  pub named : (name : String) (p : ℕ) → lookup name r.breakers ≡ some p → Named r name p

pub new_registry-IsSound : (c : Config) → IsSound (new_registry c)
unfolding new_registry lookup
new_registry-IsSound c = record { named = λ name p h. cc }

length-of_get {ℓ} :
    {A : Type ℓ} (xs : List A) (i : ℕ) {a : A} → get_elem? xs i ≡ some a → i < length xs
length-of_get [] i h = cc
length-of_get (x ∷ xs) ℕ.zero h = omega arith
length-of_get (x ∷ xs) (suc i) h = omega (arith, length-of_get xs i h)

-- An allocation moves no breaker.
Named-register :
    (r : Registry) (name : String) (c : Config) (now : ℕ) (other : String) (p : ℕ)
    → Named r other p
    → Named (register r name c now).0 other p
unfolding register
Named-register r name c now other p (cb, at, same) =
    (cb, get_elem?-append_left r.store _ p (length-of_get r.store p at) ∙ at, same)

pub register-IsSound :
    (r : Registry) (name : String) (c : Config) (now : ℕ)
    → IsSound r
    → IsSound (register r name c now).0
unfolding register new_circuit_breaker
register-IsSound r name c now s = record { named = named }
  where
    named :
        (k : String) (p : ℕ)
        → lookup k (insert name (length r.store) r.breakers) ≡ some p
        → Named (register r name c now).0 k p
    named k p h = elim (lookup-insert_cases name k (length r.store) r.breakers h) [
      | inl (same, at) ↦ (
        new_circuit_breaker name c now,
        ap (get_elem? (r.store ++ new_circuit_breaker name c now ∷ [])) (sym at)
            ∙ get_elem?-append_self r.store (new_circuit_breaker name c now),
        same,
      )
      | inr (_, older) ↦ Named-register r name c now k p (s.named k p older)
    ]

pub get-IsSound : (r : Registry) (name : String) (now : ℕ) → IsSound r → IsSound (get r name now).0
unfolding get
get-IsSound r name now s = elim (Option-cases (lookup name r.breakers)) [
  | inl missing ↦ rw (missing, get) (register-IsSound r name r.config now s)
  | inr (p, found) ↦ rw (found, get) s
]

-- After `Get` the name is in the map, under the pointer that was returned.
lookup-get :
    (r : Registry) (name : String) (now : ℕ)
    → lookup name (get r name now).0.breakers ≡ some (get r name now).1
unfolding get register
lookup-get r name now = elim (Option-cases (lookup name r.breakers)) [
  | inl missing ↦ rw (missing, get) (lookup-insert_self name (length r.store) r.breakers)
  | inr (p, found) ↦ rw (found, get) found
]

get_of_lookup :
    (r : Registry) (name : String) (now p : ℕ)
    → lookup name r.breakers ≡ some p
    → get r name now ≡ (r, p)
unfolding get
get_of_lookup r name now p h = rw (h, get)

-- A second Get of a name, at any time, returns the breaker of the first and changes nothing.
pub get-get :
    (r : Registry) (name : String) (now later : ℕ)
    → get (get r name now).0 name later ≡ get r name now
get-get r name now later =
    get_of_lookup (get r name now).0 name later (get r name now).1 (lookup-get r name now)

lookup-get_kept :
    (r : Registry) (name other : String) (now p : ℕ)
    → name ≢ other
    → lookup other r.breakers ≡ some p
    → lookup other (get r name now).0.breakers ≡ some p
unfolding get register
lookup-get_kept r name other now p differ h = elim (Option-cases (lookup name r.breakers)) [
  | inl missing ↦
      rw (missing, get) (lookup-insert_ne name other (length r.store) r.breakers differ ∙ h)
  | inr (q, found) ↦ rw (found, get) h
]

Named-unique : (r : Registry) (p : ℕ) {a b : String} → Named r a p → Named r b p → a ≡ b
Named-unique r p (cb, at, same) (cb', at', same') = cc

-- In a sound registry, where every pointer leads to a breaker of its name, the breakers that Get
-- returns for two different names are different.
get-ne :
    (r : Registry) (a b : String) (now later : ℕ)
    → IsSound r
    → a ≢ b
    → let first = get r a now in (get first.0 b later).1 ≢ first.1
get-ne r a b now later s differ same =
    let first = get r a now in
    let second = get first.0 b later in
    let sound : IsSound second.0 = get-IsSound first.0 b later (get-IsSound r a now s) in
    differ (
      Named-unique second.0 first.1
        (sound.named a first.1
          (lookup-get_kept first.0 b a later first.1 (λ e. differ (sym e)) (lookup-get r a now)))
        (subst (Named second.0 b) same (sound.named b second.1 (lookup-get first.0 b later))))
