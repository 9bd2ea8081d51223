-- ===== src/Cache/Evict.antt =====
-- The loops of `evict` in internal/cache/memory.go, and the room that they make.
use codeai.Base.{
  ℕ, zero, suc, ◌+◌, ◌-◌, ◌≤◌, ◌<◌, ◌≡◌, ◌≢◌, refl, sym, ◌∙◌, ap, subst, inl, inr, Bool, true,
  false, String, List, [], ◌∷◌, none, some, arith, length, In, All, All-In, Bool-cases, take,
}
use codeai.Base.Dict.{Dict, lookup, delete, lookup-delete}
use codeai.Cache.{
  Element, Config, MemoryCache, remove, back, drop_element, delete_internal, evict_while, evict,
  over_memory, over_items,
}
use codeai.Cache.Consistent.{
  total, DistinctIds, IsConsistent, delete_internal-IsConsistent, total-remove, remove_absent,
}

back-In : (es : List Element) → 0 < length es → (e : Element) × (back es ≡ some e) × In e es
unfolding back
back-In [] h = absurd (omega arith)
back-In (e ∷ []) h = (e, refl, inl refl)
back-In (e ∷ f ∷ es) h = let (last, at, i) = back-In (f ∷ es) (omega arith) in (last, at, inr i)

take_all : {A : Type 0} (es : List A) → take (length es) es ≡ es
take_all [] = refl
take_all (e ∷ es) = ap (◌∷◌ e) (take_all es)

take-take : {A : Type 0} (m n : ℕ) (es : List A) → (k : ℕ) × (take m (take n es) ≡ take k es)
take-take zero n es = (0, refl)
take-take (suc m) zero es = (0, refl)
take-take (suc m) (suc n) [] = (0, refl)
take-take (suc m) (suc n) (e ∷ es) = let (k, same) = take-take m n es in (suc k, ap (◌∷◌ e) same)

remove_skip :
    (id : ℕ) (f : Element) (es : List Element) → f.id ≢ id → remove id (f ∷ es) ≡ f ∷ remove id es
unfolding remove
remove_skip id f es h = ground arith

remove_first :
    (f : Element) (es : List Element)
    → All (λ (g : Element). f.id ≢ g.id) es
    → remove f.id (f ∷ es) ≡ es
unfolding remove
remove_first f es h = ground (arith, remove_absent f.id es h)

-- To remove the last element is to keep the others in order.
remove-back :
    (es : List Element) (e : Element) (n : ℕ)
    → DistinctIds es
    → back es ≡ some e
    → length es ≡ suc n
    → remove e.id es ≡ take n es
unfolding back
remove-back [] e n d h l = cc
remove-back (f ∷ []) e zero d h l =
    let only : f ≡ e = cc in
    subst (λ (x : Element). remove x.id (f ∷ []) ≡ []) only (remove_first f [] tt)
remove-back (f ∷ []) e (suc n) d h l = absurd (omega arith)
remove-back (f ∷ g ∷ es) e zero d h l = absurd (omega arith)
remove-back (f ∷ g ∷ es) e (suc n) d h l =
    let (last, at, i) = back-In (g ∷ es) (omega arith) in
    let is_last : last ≡ e = cc (at, h) in
    let differ : f.id ≢ e.id =
      All-In (λ (x : Element). f.id ≢ x.id) e (g ∷ es) d.0
        (subst (λ (x : Element). In x (g ∷ es)) is_last i) in
    remove_skip e.id f (g ∷ es) differ ∙ ap (◌∷◌ f) (remove-back (g ∷ es) e n d.1 h (omega arith))

pub record Evicted (over : MemoryCache → Bool) (c c' : MemoryCache) : Type 0 where
  pub consistent : IsConsistent c'
  pub within : over c' ≡ false
  pub same_config : c'.config ≡ c.config
  pub no_more : c'.current_mem ≤ c.current_mem
  pub kept : ℕ
  pub newest : c'.lru ≡ take kept c.lru
  pub absent : (k : String) → lookup k c.items ≡ none → lookup k c'.items ≡ none

delete_internal_of :
    (c : MemoryCache) (e : Element)
    → IsConsistent c
    → In e c.lru
    → delete_internal c e.key ≡ drop_element c e.key e
unfolding delete_internal
delete_internal_of c e v i = rw (v.mapped e i, delete_internal)

still_absent : (k j : String) (m : Dict Element) → lookup k m ≡ none → lookup k (delete j m) ≡ none
still_absent k j m h = ground (arith, lookup-delete j k m)

In-length : (e : Element) (es : List Element) → In e es → 0 < length es
In-length e [] i = absurd i
In-length e (f ∷ es) i = omega arith

module _ (over : MemoryCache → Bool)
    (only_full : (c : MemoryCache) → over c ≡ true → 0 < length c.lru) where
  Evicted-next :
      (c c' : MemoryCache) (e : Element)
      → IsConsistent c
      → back c.lru ≡ some e
      → In e c.lru
      → Evicted over (delete_internal c e.key) c'
      → Evicted over c c'
  unfolding drop_element
  Evicted-next c c' e v last i r =
      let step = delete_internal_of c e v i in
      let both = take-take r.kept (length c.lru - 1) c.lru in
      let full : 0 < length c.lru = In-length e c.lru i in
      record {
        consistent = r.consistent;
        within = r.within;
        same_config = r.same_config ∙ ap (λ (x : MemoryCache). x.config) step;
        no_more = omega (arith, r.no_more, ap (λ (x : MemoryCache). x.current_mem) step);
        kept = both.0;
        newest =
            r.newest
            ∙ ap (λ (x : MemoryCache). take r.kept x.lru) step
            ∙ ap (take r.kept) (remove-back c.lru e (length c.lru - 1) v.ids last (omega arith))
            ∙ both.1;
        absent = λ k h.
            r.absent k
              (ap (λ (x : MemoryCache). lookup k x.items) step ∙ still_absent k e.key c.items h);
      }

  Evicted-refl : (c : MemoryCache) → IsConsistent c → over c ≡ false → Evicted over c c
  Evicted-refl c v h = record {
    consistent = v;
    within = h;
    same_config = refl;
    no_more = omega arith;
    kept = length c.lru;
    newest = sym (take_all c.lru);
    absent = λ k n. n;
  }

  length-delete_internal :
      (c : MemoryCache) (e : Element)
      → IsConsistent c
      → In e c.lru
      → length (delete_internal c e.key).lru + 1 ≡ length c.lru
  unfolding drop_element
  length-delete_internal c e v i = omega (
    arith,
    ap (λ (x : MemoryCache). length x.lru) (delete_internal_of c e v i),
    (total-remove e c.lru v.ids i).1,
  )

  -- With a round for each entry the loop ends because its condition fails.
  pub evict_while-Evicted :
      (fuel : ℕ) (c : MemoryCache)
      → IsConsistent c
      → length c.lru ≤ fuel
      → Evicted over c (evict_while over fuel c)
  unfolding evict_while
  evict_while-Evicted zero c v l = elim (Bool-cases (over c)) [
    | inl more ↦ absurd (omega (arith, only_full c more))
    | inr done ↦ Evicted-refl c v done
  ]
  evict_while-Evicted (suc fuel) c v l = elim (Bool-cases (over c)) [
    | inr done ↦ rw (done, evict_while) (Evicted-refl c v done)
    | inl more ↦
        let (e, last, i) = back-In c.lru (only_full c more) in
        rw (more, last)
          (Evicted-next c (evict_while over fuel (delete_internal c e.key)) e v last i (
            evict_while-Evicted fuel (delete_internal c e.key)
              (delete_internal-IsConsistent c e.key v)
              (omega (arith, length-delete_internal c e v i))))
  ]

over_memory_full : (needed : ℕ) (c : MemoryCache) → over_memory needed c ≡ true → 0 < length c.lru
over_memory_full needed c h = ground arith

over_items_full : (c : MemoryCache) → over_items c ≡ true → 0 < length c.lru
over_items_full c h = ground arith

total-nil : (es : List Element) → length es ≡ 0 → total es ≡ 0
unfolding total
total-nil [] h = refl
total-nil (e ∷ es) h = absurd (omega arith)

item_room_of :
    (c : MemoryCache) → over_items c ≡ false → 0 < c.max_items → length c.lru < c.max_items
item_room_of c h limited = ground arith

memory_room_of :
    (needed : ℕ) (c : MemoryCache)
    → IsConsistent c
    → over_memory needed c ≡ false
    → 0 < c.max_memory
    → needed ≤ c.max_memory
    → c.current_mem + needed ≤ c.max_memory
memory_room_of needed c v h limited fits = ground (arith, total-nil c.lru, v.counted)

-- Room for an entry of the size that is needed, and what is left of a cache.
pub record HasRoom (needed : ℕ) (c c' : MemoryCache) : Type 0 where
  pub consistent : IsConsistent c'
  pub same_config : c'.config ≡ c.config
  pub item_room : 0 < c.max_items → length c'.lru < c.max_items
  pub memory_room :
      0 < c.max_memory → needed ≤ c.max_memory → c'.current_mem + needed ≤ c.max_memory
  pub kept : ℕ
  pub newest : c'.lru ≡ take kept c.lru
  pub absent : (k : String) → lookup k c.items ≡ none → lookup k c'.items ≡ none

-- On a consistent cache, evict leaves a consistent one with a part of the entries, the most
-- recently used; if MaxItems is positive, fewer than MaxItems are left, and if MaxMemory is
-- positive and not less than the bytes that are needed, there is room for these. A key that was
-- absent stays absent.
pub evict-HasRoom :
    (c : MemoryCache) (needed : ℕ) → IsConsistent c → HasRoom needed c (evict c needed)
unfolding evict
evict-HasRoom c needed v =
    let fitted = evict_while (over_memory needed) (length c.lru) c in
    let a =
      evict_while-Evicted (over_memory needed) (over_memory_full needed) (length c.lru) c v
        (omega arith) in
    let b =
      evict_while-Evicted over_items over_items_full (length fitted.lru) fitted a.consistent
        (omega arith) in
    let both = take-take b.kept a.kept c.lru in
    let items_same = ap (λ (x : Config). x.max_items) (b.same_config ∙ a.same_config) in
    let memory_same = ap (λ (x : Config). x.max_memory) a.same_config in
    record {
      consistent = b.consistent;
      same_config = b.same_config ∙ a.same_config;
      item_room = λ limited.
          omega
            (arith, items_same, item_room_of (evict c needed) b.within (omega (arith, items_same)));
      memory_room = λ limited fits. omega (
        arith,
        memory_same,
        b.no_more,
        memory_room_of needed fitted a.consistent a.within (omega (arith, memory_same))
            (omega (arith, memory_same)),
      );
      kept = both.0;
      newest = b.newest ∙ ap (take b.kept) a.newest ∙ both.1;
      absent = λ k h. b.absent k (a.absent k h);
    }
