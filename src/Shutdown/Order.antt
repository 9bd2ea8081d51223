-- ===== src/Shutdown/Order.antt =====
-- The order of the hooks in internal/shutdown/manager.go: `executeHooks` sorts them by priority.
use mathlib.Core.List.{Perm}
use mathlib.Core.List.Perm
use codeai.Base.{
  ◌≡◌, refl, ap, subst, sym, true, false, List, [], ◌∷◌, All, arith, Bool-cases, ◌⊎◌, inl, inr, ltb,
}
use codeai.Query.Consumed.{if_elim}
use codeai.Query.Ast.{ℤ, pos, negsuc}
use codeai.Shutdown.{Hook, greater, same, insert_hook, sort_hooks}

pub greater_trans : (a b c : ℤ) → greater a b ≡ true → greater b c ≡ true → greater a c ≡ true
unfolding greater
greater_trans (pos a) (pos b) (pos c) h k = ground arith
greater_trans (pos a) (pos b) (negsuc c) h k = refl
greater_trans (pos a) (negsuc b) (pos c) h k = cc k
greater_trans (pos a) (negsuc b) (negsuc c) h k = refl
greater_trans (negsuc a) (pos b) (pos c) h k = cc h
greater_trans (negsuc a) (pos b) (negsuc c) h k = cc h
greater_trans (negsuc a) (negsuc b) (pos c) h k = cc k
greater_trans (negsuc a) (negsuc b) (negsuc c) h k = ground arith

abbrev pub AtLeast : ℤ → ℤ → Type 0
AtLeast a b = (a ≡ b) ⊎ (greater a b ≡ true)

not_greater-AtLeast : (a b : ℤ) → greater b a ≡ false → AtLeast a b
unfolding greater
not_greater-AtLeast (pos a) (pos b) h = elim (Bool-cases (ltb b a)) [
  | inl e ↦ inr e
  | inr e ↦ let same_number : a ≡ b = ground arith in inl (ap pos same_number)
]
not_greater-AtLeast (pos a) (negsuc b) h = inr refl
not_greater-AtLeast (negsuc a) (pos b) h = cc h
not_greater-AtLeast (negsuc a) (negsuc b) h = elim (Bool-cases (ltb a b)) [
  | inl e ↦ inr e
  | inr e ↦ let same_number : a ≡ b = ground arith in inl (ap negsuc same_number)
]

pub greater_of_AtLeast : (a b c : ℤ) → greater a b ≡ true → AtLeast b c → greater a c ≡ true
greater_of_AtLeast a b c h (inl e) = subst (λ b. greater a b ≡ true) e h
greater_of_AtLeast a b c h (inr k) = greater_trans a b c h k

AtLeast-trans : (a b c : ℤ) → AtLeast a b → AtLeast b c → AtLeast a c
AtLeast-trans a b c (inl e) k = subst (λ d. AtLeast d c) (sym e) k
AtLeast-trans a b c (inr h) k = inr (greater_of_AtLeast a b c h k)

pub same-eq : (a b : ℤ) → same a b ≡ true → a ≡ b
same-eq (pos a) (pos b) h = let e : a ≡ b = ground arith in ap pos e
same-eq (pos a) (negsuc b) h = cc h
same-eq (negsuc a) (pos b) h = cc h
same-eq (negsuc a) (negsuc b) h = let e : a ≡ b = ground arith in ap negsuc e

same_self : (a : ℤ) → same a a ≡ true
same_self (pos a) = ground arith
same_self (negsuc a) = ground arith

-- Priorities that differ, the first at least the second.
pub greater_of_same : (a b : ℤ) → AtLeast a b → same b a ≡ false → greater a b ≡ true
greater_of_same a b (inl e) h = cc (subst (λ d. same d a ≡ false) (sym e) h, same_self a)
greater_of_same a b (inr k) h = k

abbrev pub IsSorted : List Hook → Type 0
IsSorted [] = Unit
IsSorted (h ∷ hs) = All (λ k. AtLeast h.priority k.priority) hs × IsSorted hs

pub All-map :
    {P Q : Hook → Type 0} → ((h : Hook) → P h → Q h) → (hs : List Hook) → All P hs → All Q hs
All-map f [] a = tt
All-map f (h ∷ hs) a = (f h a.0, All-map f hs a.1)

insert_hook-All :
    (P : Hook → Type 0) (h : Hook) (ks : List Hook) → P h → All P ks → All P (insert_hook h ks)
unfolding insert_hook
insert_hook-All P h [] p a = (p, tt)
insert_hook-All P h (k ∷ ks) p a =
    if_elim (All P) (greater k.priority h.priority) (λ e. (a.0, insert_hook-All P h ks p a.1))
      (λ e. (p, a))

insert_hook-IsSorted : (h : Hook) (ks : List Hook) → IsSorted ks → IsSorted (insert_hook h ks)
unfolding insert_hook
insert_hook-IsSorted h [] s = (tt, tt)
insert_hook-IsSorted h (k ∷ ks) s =
    if_elim IsSorted (greater k.priority h.priority)
      (λ e. (
        insert_hook-All (λ j. AtLeast k.priority j.priority) h ks (inr e) s.0,
        insert_hook-IsSorted h ks s.1,
      ))
      (λ e.
        let first = not_greater-AtLeast h.priority k.priority e in
        (
          (first, All-map (λ j a. AtLeast-trans h.priority k.priority j.priority first a) ks s.0),
          s,
        ))

insert_hook-perm : (h : Hook) (ks : List Hook) → Perm (insert_hook h ks) (h ∷ ks)
unfolding insert_hook
insert_hook-perm h [] = Perm.rfl
insert_hook-perm h (k ∷ ks) =
    if_elim (λ l. Perm l (h ∷ k ∷ ks)) (greater k.priority h.priority)
      (λ e. Perm.trans (Perm.cons k (insert_hook-perm h ks)) (Perm.swap h k ks)) (λ e. Perm.rfl)

pub sort_hooks-IsSorted : (hs : List Hook) → IsSorted (sort_hooks hs)
unfolding sort_hooks
sort_hooks-IsSorted [] = tt
sort_hooks-IsSorted (h ∷ hs) = insert_hook-IsSorted h (sort_hooks hs) (sort_hooks-IsSorted hs)

pub sort_hooks-perm : (hs : List Hook) → Perm (sort_hooks hs) hs
unfolding sort_hooks
sort_hooks-perm [] = Perm.rfl
sort_hooks-perm (h ∷ hs) =
    Perm.trans (insert_hook-perm h (sort_hooks hs)) (Perm.cons h (sort_hooks-perm hs))
