-- ===== src/Rbac/Permission/Laws.antt =====
-- The format of the permissions of internal/rbac/rbac.go, and their validation and matching.
use Prim.Native.Char.{Char}
use codeai.Base.{
  ◌≡◌, refl, ap, ap₂, ◌↔◌, inl, inr, true, false, String, List, [], ◌∷◌, none, arith, eq_iff,
  eq_refl, Bool-cases,
}
use text.Mathlib.TextEquality.{Char-path}
use codeai.Rbac.Permission.{
  colon, cons_head, split, split_n2, first_part, second_part, resource, action, matches, is_empty,
  validate_parts, validate_permission,
}

-- A text with no colon.
abbrev pub IsPlain : String → Type 0
IsPlain String.[] = Unit
IsPlain (String.◌∷◌ c s) = (colon c ≡ false) × IsPlain s

-- "resource:action".
unfoldable pub join : String → String → String
join String.[] a = String.◌∷◌ ":" a
join (String.◌∷◌ c r) a = String.◌∷◌ c (join r a)

split_n2-join : (r a : String) → IsPlain r → split_n2 (join r a) ≡ r ∷ a ∷ []
unfolding split_n2 join
split_n2-join String.[] a h = refl
split_n2-join (String.◌∷◌ c r) a h = rw (h.0, split_n2-join r a h.1)

split_plain : (a : String) → IsPlain a → split a ≡ a ∷ []
unfolding split
split_plain String.[] h = refl
split_plain (String.◌∷◌ c a) h = rw (h.0, split_plain a h.1)

split-join : (r a : String) → IsPlain r → IsPlain a → split (join r a) ≡ r ∷ a ∷ []
unfolding split join
split-join String.[] a h k = rw (split_plain a k)
split-join (String.◌∷◌ c r) a h k = rw (h.0, split-join r a h.1 k)

colon-char : (c : Char) → colon c ≡ true → c ≡ ":"
colon-char c h = Char-path c ":" (ground arith)

-- The parts that a split gives back.
abbrev Splits : String → List String → Type 0
Splits s [] = ⊥
Splits s (x ∷ []) = (s ≡ x) × IsPlain x
Splits s (r ∷ a ∷ []) = (s ≡ join r a) × IsPlain r × IsPlain a
Splits s _ = Unit

Splits-cons :
    (c : Char) (s : String) (parts : List String)
    → colon c ≡ false
    → Splits s parts
    → Splits (String.◌∷◌ c s) (cons_head c parts)
unfolding join
Splits-cons c s [] e h = absurd h
Splits-cons c s (x ∷ []) e h = (ap (String.◌∷◌ c) h.0, (e, h.1))
Splits-cons c s (r ∷ a ∷ []) e h = (ap (String.◌∷◌ c) h.0, (e, h.1), h.2)
Splits-cons c s (r ∷ a ∷ b ∷ l) e h = tt

Splits-colon :
    (c : Char) (s : String) (parts : List String)
    → colon c ≡ true
    → Splits s parts
    → Splits (String.◌∷◌ c s) (String.[] ∷ parts)
unfolding join
Splits-colon c s [] e h = absurd h
Splits-colon c s (x ∷ []) e h = (ap₂ (λ d t. String.◌∷◌ d t) (colon-char c e) h.0, tt, h.1)
Splits-colon c s (r ∷ a ∷ l) e h = tt

split-Splits : (s : String) → Splits s (split s)
unfolding split
split-Splits String.[] = (refl, tt)
split-Splits (String.◌∷◌ c s) = elim (Bool-cases (colon c)) [
  | inl e ↦ rw e (Splits-colon c s (split s) e (split-Splits s))
  | inr e ↦ rw e (Splits-cons c s (split s) e (split-Splits s))
]

-- A text of the form "resource:action", with both parts there and no other colon.
pub record IsWellFormed (p : String) : Type 0 where
  pub res : String
  pub act : String
  pub res_plain : IsPlain res
  pub act_plain : IsPlain act
  pub res_there : is_empty res ≡ false
  pub act_there : is_empty act ≡ false
  pub joined : p ≡ join res act

validate_parts-IsWellFormed :
    (p : String) (parts : List String)
    → Splits p parts
    → validate_parts parts ≡ none
    → IsWellFormed p
unfolding validate_parts
validate_parts-IsWellFormed p [] s h = absurd s
validate_parts-IsWellFormed p (x ∷ []) s h = cc
validate_parts-IsWellFormed p (r ∷ a ∷ []) s h = record {
  res = r;
  act = a;
  res_plain = s.1;
  act_plain = s.2;
  res_there = ground arith;
  act_there = ground arith;
  joined = s.0;
}
validate_parts-IsWellFormed p (r ∷ a ∷ b ∷ l) s h = cc

is_empty-join : (r a : String) → is_empty (join r a) ≡ false
unfolding join
is_empty-join String.[] a = refl
is_empty-join (String.◌∷◌ c r) a = refl

validate_permission-join :
    (r a : String)
    → IsPlain r
    → IsPlain a
    → is_empty r ≡ false
    → is_empty a ≡ false
    → validate_permission (join r a) ≡ none
unfolding validate_permission
validate_permission-join r a h k e f = rw (is_empty-join r a, split-join r a h k, e, f)

-- validatePermission accepts a text exactly if it is two texts that are not empty with a colon
-- between them, and no other colon.
pub validate_permission_iff : (p : String) → (validate_permission p ≡ none) ↔ IsWellFormed p
unfolding validate_permission
validate_permission_iff p = (
  accepted,
  λ w.
      rw w.joined
        (validate_permission-join w.res w.act w.res_plain w.act_plain w.res_there w.act_there),
)
  where
    accepted : validate_permission p ≡ none → IsWellFormed p
    accepted h = validate_parts-IsWellFormed p (split p) (split-Splits p) (ground arith)

-- Of two texts joined by a colon, the first of which has none, Resource gives the first and Action
-- the second.
pub parts-join : (r a : String) → IsPlain r → (resource (join r a) ≡ r) × (action (join r a) ≡ a)
unfolding resource action
parts-join r a h = (ap first_part (split_n2-join r a h), ap second_part (split_n2-join r a h))

pub matches_refl : (p : String) → matches p p ≡ true
unfolding matches
matches_refl p = simp (eq_refl) (ground arith)

-- Matching is transitive: what matches a permission matches all that this permission matches.
pub matches_trans : (p q t : String) → matches p q ≡ true → matches q t ≡ true → matches p t ≡ true
unfolding matches
matches_trans p q t h k = ground (
  arith,
  eq_iff (resource p) (resource q),
  eq_iff (resource q) (resource t),
  eq_iff (resource p) (resource t),
  eq_iff (resource p) "*",
  eq_iff (resource q) "*",
  eq_iff (action p) (action q),
  eq_iff (action q) (action t),
  eq_iff (action p) (action t),
  eq_iff (action p) "*",
  eq_iff (action q) "*",
)
