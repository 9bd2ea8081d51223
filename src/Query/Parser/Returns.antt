-- ===== src/Query/Parser/Returns.antt =====
-- What holds of the result of a parser, which never runs out of fuel, and how it moves.
use codeai.Base.{◌<◌, ◌≡◌, refl, Bool, true, false, length, ◌∙◌, arith}
use codeai.Query.Parser.State.{Parser, Outcome, ok, err, out_of_fuel, ◌>>=◌}

abbrev pub Returns : {A : Type 0} → (A → Type 0) → Outcome A → Type 0
Returns P (ok a) = P a
Returns P (err e) = Unit
Returns P out_of_fuel = ⊥

pub Returns-bind :
    {A B : Type 0} (P : A → Type 0) (Q : B → Type 0) (m : Outcome A) (f : A → Outcome B)
    → Returns P m
    → ((a : A) → P a → Returns Q (f a))
    → Returns Q (m >>= f)
Returns-bind P Q (ok a) f h k = k a h
Returns-bind P Q (err e) f h k = tt
Returns-bind P Q out_of_fuel f h k = absurd h

-- From `p` to `q` the parser has taken a token or more, and closed what it opened.
pub record Steps (p q : Parser) : Type 0 where
  pub fewer : length q.tokens < length p.tokens
  pub level : q.depth ≡ p.depth

pub Steps-trans : (p q r : Parser) → Steps p q → Steps q r → Steps p r
Steps-trans p q r s t = record {
  fewer = omega (arith, s.fewer, t.fewer);
  level = t.level ∙ s.level;
}

-- A result is behind the parser at which it began.
abbrev pub Reads : {A : Type 0} → Parser → A × Parser → Type 0
Reads p (a, q) = Steps p q

-- Either case of a Boolean, with a property of each.
pub switch_bool :
    {A : Type 0} (P : A → Type 0) (b : Bool) {x y : A}
    → (b ≡ true → P x)
    → (b ≡ false → P y)
    → P (elim b as (λ b. A) [ true ↦ x | false ↦ y ])
switch_bool P true f g = f refl
switch_bool P false f g = g refl
