-- ===== src/Cache/Operations.antt =====
-- The operations of internal/cache/memory.go: what they keep, and what a caller may rely on.
use codeai.Base.{
  ℕ, ◌+◌, ◌≤◌, ◌<◌, ◌≡◌, refl, ◌∙◌, ap, inl, inr, String, List, [], ◌∷◌, some, arith, length,
  Option-cases, Bool-cases, take, ltb, ◌==◌, if◌then◌else◌,
}
use codeai.Base.Dict.{lookup, lookup-insert_self}
use codeai.Cache.{
  Element, Config, MemoryCache, remove, drop_element, delete_internal, evict, push_front, get, set,
  delete_all,
}
use codeai.Cache.Consistent.{
  IsConsistent, delete_internal-IsConsistent, lookup-delete_internal, push_front-IsConsistent,
  move_to_front-IsConsistent, total-remove,
}
use codeai.Cache.Evict.{HasRoom, evict-HasRoom}

-- No more entries than `MaxItems` allows, where it is set.
abbrev pub IsWithin : MemoryCache → Type 0
IsWithin c = 0 < c.max_items → length c.lru ≤ c.max_items

-- What stays true, step by step.
pub record IsSound (cfg : Config) (c : MemoryCache) : Type 0 where
  pub consistent : IsConsistent c
  pub within : IsWithin c
  pub config_kept : c.config ≡ cfg

length-remove-le : (id : ℕ) (es : List Element) → length (remove id es) ≤ length es
unfolding remove
length-remove-le id [] = omega arith
length-remove-le id (e ∷ es) = ground (arith, length-remove-le id es)

delete_internal-smaller :
    (c : MemoryCache) (key : String)
    → (length (delete_internal c key).lru ≤ length c.lru)
      × ((delete_internal c key).config ≡ c.config)
unfolding delete_internal drop_element
delete_internal-smaller c key = elim (Option-cases (lookup key c.items)) [
  | inl absent ↦ rw (absent, delete_internal) (omega arith, refl)
  | inr (e, at) ↦ rw (at, delete_internal) (length-remove-le e.id c.lru, refl)
]

pub delete_internal-IsSound :
    (cfg : Config) (c : MemoryCache) (key : String)
    → IsSound cfg c
    → IsSound cfg (delete_internal c key)
delete_internal-IsSound cfg c key s =
    let (smaller, same) = delete_internal-smaller c key in
    record {
      consistent = delete_internal-IsConsistent c key s.consistent;
      within = λ limited.
          let m = ap (λ (x : Config). x.max_items) same in
          omega (arith, smaller, m, s.within (omega (arith, m)));
      config_kept = same ∙ s.config_kept;
    }

pub delete_all-IsSound :
    (cfg : Config) (c : MemoryCache) (keys : List String)
    → IsSound cfg c
    → IsSound cfg (delete_all c keys)
unfolding delete_all
delete_all-IsSound cfg c [] s = s
delete_all-IsSound cfg c (k ∷ ks) s =
    delete_all-IsSound cfg (delete_internal c k) ks (delete_internal-IsSound cfg c k s)

counters_kept :
    (cfg : Config) (c : MemoryCache) (h m : ℕ)
    → IsSound cfg c
    → IsSound cfg (record c { hits = h; misses = m })
counters_kept cfg c h m s = record {
  consistent = record {
    listed = s.consistent.listed;
    mapped = s.consistent.mapped;
    ids = s.consistent.ids;
    fresh = s.consistent.fresh;
    counted = s.consistent.counted;
  };
  within = s.within;
  config_kept = s.config_kept;
}

pub get-IsSound :
    (cfg : Config) (c : MemoryCache) (key : String) (now : ℕ)
    → IsSound cfg c
    → IsSound cfg (get c key now).0
unfolding get
get-IsSound cfg c key now s = elim (Option-cases (lookup key c.items)) [
  | inl absent ↦ rw (absent, get) (counters_kept cfg c c.hits (c.misses + 1) s)
  | inr (e, at) ↦ elim (Bool-cases (ltb e.expires_at now)) [
    | inl old ↦
        let d = delete_internal c key in
        rw (at, old, get)
          (counters_kept cfg d d.hits (d.misses + 1) (delete_internal-IsSound cfg c key s))
    | inr valid ↦
        let i = (s.consistent.listed key e at).1 in
        rw (at, valid, get)
          (record {
            consistent = move_to_front-IsConsistent c e s.consistent i;
            within = λ limited.
                omega (arith, (total-remove e c.lru s.consistent.ids i).1, s.within limited);
            config_kept = s.config_kept;
          })
  ]
]

-- The cache that `Set` pushes the new entry onto.
abbrev pub room : MemoryCache → String → List ℕ → MemoryCache
room c key value = evict (delete_internal c key) (length value)

room-HasRoom :
    (c : MemoryCache) (key : String) (value : List ℕ)
    → IsConsistent c
    → HasRoom (length value) (delete_internal c key) (room c key value)
room-HasRoom c key value v =
    evict-HasRoom (delete_internal c key) (length value) (delete_internal-IsConsistent c key v)

-- What a caller of `Set` may rely on.
pub record IsPut (c : MemoryCache) (key : String) (value : List ℕ) (expires_at : ℕ)
    (c' : MemoryCache) : Type 0 where
  pub element : Element
  pub stored : lookup key c'.items ≡ some element
  pub same_value : element.value ≡ value
  pub same_expiry : element.expires_at ≡ expires_at
  pub consistent : IsConsistent c'
  pub items_within : IsWithin c'
  pub memory_within :
      0 < c'.max_memory → length value ≤ c'.max_memory → c'.current_mem ≤ c'.max_memory
  pub newest_first : (kept : ℕ) × (c'.lru ≡ element ∷ take kept (delete_internal c key).lru)
  pub same_config : c'.config ≡ c.config

abbrev pub lifetime : MemoryCache → ℕ → ℕ
lifetime c ttl = if ttl == 0 then c.default_ttl else ttl

-- Set on a consistent cache stores the value under the key, to expire after the time to live or the
-- default one, in front of the most recently used of the other entries; the cache is consistent, a
-- positive MaxItems is kept, and a positive MaxMemory too if the value alone does not pass it.
pub set-IsPut :
    (c : MemoryCache) (key : String) (value : List ℕ) (ttl now : ℕ)
    → IsConsistent c
    → IsPut c key value (now + lifetime c ttl) (set c key value ttl now)
unfolding set push_front
set-IsPut c key value ttl now v =
    let h = room-HasRoom c key value v in
    let r = room c key value in
    let fresh = h.absent key (lookup-delete_internal c key) in
    let same = h.same_config in
    let items_same = ap (λ (x : Config). x.max_items) same in
    let memory_same = ap (λ (x : Config). x.max_memory) same in
    let new : Element = record {
      id = r.next_id;
      key = key;
      value = value;
      expires_at = now + lifetime c ttl;
      size = length value;
    } in
    record {
      element = new;
      stored = lookup-insert_self key new r.items;
      same_value = refl;
      same_expiry = refl;
      consistent = push_front-IsConsistent r key value (now + lifetime c ttl) h.consistent fresh;
      items_within = λ limited. omega (arith, items_same, h.item_room (omega (arith, items_same)));
      memory_within = λ limited fits. omega (
        arith,
        memory_same,
        h.memory_room (omega (arith, memory_same)) (omega (arith, memory_same)),
      );
      newest_first = (h.kept, ap (◌∷◌ new) h.newest);
      same_config = same ∙ (delete_internal-smaller c key).1;
    }

pub set-IsSound :
    (cfg : Config) (c : MemoryCache) (key : String) (value : List ℕ) (ttl now : ℕ)
    → IsSound cfg c
    → IsSound cfg (set c key value ttl now)
set-IsSound cfg c key value ttl now s =
    let r = set-IsPut c key value ttl now s.consistent in
    record {
      consistent = r.consistent;
      within = r.items_within;
      config_kept = r.same_config ∙ s.config_kept;
    }
