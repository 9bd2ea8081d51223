-- ===== src/Cache/Consistent.antt =====
-- The map and the list of internal/cache/memory.go, and when they hold the same elements.
use codeai.Base.{
  ℕ, suc, ◌+◌, ◌<◌, ◌≡◌, ◌≢◌, refl, sym, ◌∙◌, ap, subst, inl, inr, String, List, [], ◌∷◌, none,
  some, arith, length, In, All, All-In, All-map, Option-cases,
}
use codeai.Base.Dict.{
  lookup, insert, lookup-insert_cases, lookup-insert_ne, lookup-insert_self, lookup-delete_cases,
  lookup-delete_ne, lookup-delete_self,
}
use native.Mathlib.Decide.{ℕ_discrete}
use codeai.Cache.{Element, MemoryCache, remove, drop_element, delete_internal, push_front}

unfoldable pub total : List Element → ℕ
total [] = 0
total (e ∷ es) = e.size + total es

abbrev pub DistinctIds : List Element → Type 0
DistinctIds [] = Unit
DistinctIds (e ∷ es) = All (λ (f : Element). e.id ≢ f.id) es × DistinctIds es

pub record IsConsistent (c : MemoryCache) : Type 0 where
  pub listed : (k : String) (e : Element) → lookup k c.items ≡ some e → (e.key ≡ k) × In e c.lru
  pub mapped : (e : Element) → In e c.lru → lookup e.key c.items ≡ some e
  pub ids : DistinctIds c.lru
  pub fresh : All (λ (e : Element). e.id < c.next_id) c.lru
  pub counted : c.current_mem ≡ total c.lru

same_id :
    (es : List Element) (e f : Element) → DistinctIds es → In e es → In f es → e.id ≡ f.id → e ≡ f
same_id [] e f d i j h = absurd i
same_id (g ∷ es) e f d (inl p) (inl q) h = p ∙ sym q
same_id (g ∷ es) e f d (inl p) (inr j) h =
    absurd (All-In (λ (x : Element). g.id ≢ x.id) f es d.0 j (cc))
same_id (g ∷ es) e f d (inr i) (inl q) h =
    absurd (All-In (λ (x : Element). g.id ≢ x.id) e es d.0 i (cc))
same_id (g ∷ es) e f d (inr i) (inr j) h = same_id es e f d.1 i j h

In-remove : (id : ℕ) (e : Element) (es : List Element) → In e es → e.id ≢ id → In e (remove id es)
unfolding remove
In-remove id e [] i n = absurd i
In-remove id e (f ∷ es) (inl p) n = ground arith
In-remove id e (f ∷ es) (inr i) n = ground (arith, In-remove id e es i n)

In-of_remove :
    (id : ℕ) (e : Element) (es : List Element) → In e (remove id es) → In e es × (e.id ≢ id)
unfolding remove
In-of_remove id e [] i = absurd i
In-of_remove id e (f ∷ es) i = ground (arith, In-of_remove id e es)

All-remove {ℓ} :
    (P : Element → Type ℓ) (id : ℕ) (es : List Element) → All P es → All P (remove id es)
unfolding remove
All-remove P id [] h = tt
All-remove P id (e ∷ es) h = ground (arith, All-remove P id es h.1)

DistinctIds-remove : (id : ℕ) (es : List Element) → DistinctIds es → DistinctIds (remove id es)
unfolding remove
DistinctIds-remove id [] d = tt
DistinctIds-remove id (e ∷ es) d =
    ground
      (arith, DistinctIds-remove id es d.1, All-remove (λ (f : Element). e.id ≢ f.id) id es d.0)

pub remove_absent :
    (id : ℕ) (es : List Element) → All (λ (f : Element). id ≢ f.id) es → remove id es ≡ es
unfolding remove
remove_absent id [] h = refl
remove_absent id (e ∷ es) h = ground (arith, remove_absent id es h.1)

pub total-remove :
    (e : Element) (es : List Element)
    → DistinctIds es
    → In e es
    → (total (remove e.id es) + e.size ≡ total es) × (length (remove e.id es) + 1 ≡ length es)
unfolding remove total
total-remove e [] d i = absurd i
total-remove e (f ∷ es) d (inl p) = ground (arith, remove_absent f.id es d.0)
total-remove e (f ∷ es) d (inr i) =
    ground (arith, total-remove e es d.1 i, All-In (λ (x : Element). f.id ≢ x.id) e es d.0 i)

-- An element that is in the map is taken out of both.
drop_element-IsConsistent :
    (c : MemoryCache) (key : String) (e : Element)
    → IsConsistent c
    → lookup key c.items ≡ some e
    → IsConsistent (drop_element c key e)
unfolding drop_element
drop_element-IsConsistent c key e v at =
    let (same_key, in_lru) = v.listed key e at in
    record {
      listed = λ k f h.
          let (other, old) = lookup-delete_cases key k c.items h in
          let (f_key, f_in) = v.listed k f old in
          (
            f_key,
            In-remove e.id f c.lru f_in λ s. other (
                sym same_key
                ∙ ap (λ (x : Element). x.key) (sym (same_id c.lru f e v.ids f_in in_lru s))
                ∙ f_key),
          );
      mapped = λ f i.
          let (f_in, differ) = In-of_remove e.id f c.lru i in
          lookup-delete_ne key f.key c.items (λ s. differ (
            ap (λ (x : Element). x.id)
              (some-inj (sym (v.mapped f f_in) ∙ subst (λ k. lookup k c.items ≡ some e) s at))))
          ∙ v.mapped f f_in;
      ids = DistinctIds-remove e.id c.lru v.ids;
      fresh = All-remove (λ (f : Element). f.id < c.next_id) e.id c.lru v.fresh;
      counted = omega (arith, v.counted, total-remove e c.lru v.ids in_lru);
    }
  where
    some-inj : {x y : Element} → some x ≡ some y → x ≡ y
    some-inj h = cc

pub delete_internal-IsConsistent :
    (c : MemoryCache) (key : String) → IsConsistent c → IsConsistent (delete_internal c key)
unfolding delete_internal
delete_internal-IsConsistent c key v = elim (Option-cases (lookup key c.items)) [
  | inl absent ↦ rw (absent, delete_internal) v
  | inr (e, at) ↦ rw (at, delete_internal) (drop_element-IsConsistent c key e v at)
]

-- After a deletion the map does not have the key.
pub lookup-delete_internal :
    (c : MemoryCache) (key : String) → lookup key (delete_internal c key).items ≡ none
unfolding delete_internal drop_element
lookup-delete_internal c key = elim (Option-cases (lookup key c.items)) [
  | inl absent ↦ rw (absent, delete_internal) absent
  | inr (e, at) ↦ rw (at, delete_internal) (lookup-delete_self key c.items)
]

pub push_front-IsConsistent :
    (c : MemoryCache) (key : String) (value : List ℕ) (expires_at : ℕ)
    → IsConsistent c
    → lookup key c.items ≡ none
    → IsConsistent (push_front c key value expires_at)
unfolding push_front total
push_front-IsConsistent c key value expires_at v absent = record {
  listed = λ k f h. elim (lookup-insert_cases key k new c.items h) [
    | inl (same, is_new) ↦ (ap (λ (x : Element). x.key) (sym is_new) ∙ same, inl (sym is_new))
    | inr (_, old) ↦ let (f_key, f_in) = v.listed k f old in (f_key, inr f_in)
  ];
  mapped = λ f i. elim i [
    | inl is_new ↦
        subst (λ (x : Element). lookup x.key (insert key new c.items) ≡ some x) (sym is_new)
          (lookup-insert_self key new c.items)
    | inr old ↦
        lookup-insert_ne key f.key new c.items (λ s. cc (absent, s, v.mapped f old))
        ∙ v.mapped f old
  ];
  ids = (
    All-map (λ (f : Element). f.id < c.next_id) (λ (f : Element). c.next_id ≢ f.id) c.lru
        (λ f h. omega arith) v.fresh,
    v.ids,
  );
  fresh = (
    omega arith,
    All-map (λ (f : Element). f.id < c.next_id) (λ (f : Element). f.id < suc c.next_id) c.lru
        (λ f h. omega arith) v.fresh,
  );
  counted = omega (arith, v.counted);
}
  where
    new : Element
    new = record {
      id = c.next_id;
      key = key;
      value = value;
      expires_at = expires_at;
      size = length value;
    }

In-moved :
    (e f : Element) (es : List Element)
    → DistinctIds es
    → In e es
    → In f es
    → In f (e ∷ remove e.id es)
In-moved e f es d i j = elim (ℕ_discrete f.id e.id) [
  | yes same ↦ inl (same_id es f e d j i same)
  | no differ ↦ inr (In-remove e.id f es j differ)
]

remove-ne : (id : ℕ) (es : List Element) → All (λ (f : Element). id ≢ f.id) (remove id es)
unfolding remove
remove-ne id [] = tt
remove-ne id (e ∷ es) = ground (arith, remove-ne id es)

-- An element that is moved to the front.
pub move_to_front-IsConsistent :
    (c : MemoryCache) (e : Element)
    → IsConsistent c
    → In e c.lru
    → IsConsistent (record c { lru = e ∷ remove e.id c.lru; hits = c.hits + 1 })
unfolding total
move_to_front-IsConsistent c e v i = record {
  listed = λ k f h. let (f_key, f_in) = v.listed k f h in (f_key, In-moved e f c.lru v.ids i f_in);
  mapped = λ f j. elim j [
    | inl same ↦ v.mapped f (subst (λ (x : Element). In x c.lru) (sym same) i)
    | inr old ↦ v.mapped f (In-of_remove e.id f c.lru old).0
  ];
  ids = (remove-ne e.id c.lru, DistinctIds-remove e.id c.lru v.ids);
  fresh = (
    All-In (λ (f : Element). f.id < c.next_id) e c.lru v.fresh i,
    All-remove (λ (f : Element). f.id < c.next_id) e.id c.lru v.fresh,
  );
  counted = omega (arith, v.counted, total-remove e c.lru v.ids i);
}
