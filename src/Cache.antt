-- ===== src/Cache.antt =====
-- internal/cache/memory.go: the in-memory cache with least-recently-used eviction. The map and the
-- list both point to elements; an element is its identity with the entry, which never changes. The
-- front of the list is its head. Times are numbers, and arguments of the calls that read the clock.
-- A limit that is not positive is written 0. The byte counts are within an int64.
pub mod Consistent
pub mod Evict
pub mod Operations
pub mod Runs
mod Tests
use codeai.Base.{
  ℕ, zero, suc, ◌+◌, ◌-◌, ◌*◌, Bool, true, false, ◌&&◌, String, List, [], ◌∷◌, Option, none, some,
  ltb, leb, ◌==◌, length, if◌then◌else◌, map,
}
use codeai.Base.Dict.{Dict, lookup, insert, delete}

pub record Element : Type 0 where
  pub id : ℕ
  pub key : String
  pub value : List ℕ
  pub expires_at : ℕ
  pub size : ℕ

pub record Config : Type 0 where
  pub default_ttl : ℕ
  pub max_memory : ℕ
  pub max_items : ℕ

pub record MemoryCache : Type 0 where
  pub items : Dict Element
  pub lru : List Element
  pub config : Config
  pub open config use *
  pub current_mem : ℕ
  pub hits : ℕ
  pub misses : ℕ
  pub stopped : Bool
  pub next_id : ℕ

abbrev pub minute : ℕ
minute = 60_000_000_000

unfoldable pub new_memory_cache : Config → MemoryCache
new_memory_cache cfg = record {
  items = [];
  lru = [];
  config = record cfg {
    default_ttl = if cfg.default_ttl == 0 then 5 * minute else cfg.default_ttl;
  };
  current_mem = 0;
  hits = 0;
  misses = 0;
  stopped = false;
  next_id = 0;
}

-- `list.Remove`: an element is found by its identity.
unfoldable pub remove : ℕ → List Element → List Element
remove id [] = []
remove id (e ∷ es) = let rest = remove id es in if e.id == id then rest else e ∷ rest

-- `list.Back`.
unfoldable pub back : List Element → Option Element
back [] = none
back (e ∷ []) = some e
back (e ∷ f ∷ es) = back (f ∷ es)

-- Takes an element out of the map and the list.
unfoldable pub drop_element : MemoryCache → String → Element → MemoryCache
drop_element c key e = record c {
  current_mem = c.current_mem - e.size;
  lru = remove e.id c.lru;
  items = delete key c.items;
}

unfoldable pub delete_internal : MemoryCache → String → MemoryCache
delete_internal c key = elim (lookup key c.items) [ none ↦ c | some e ↦ drop_element c key e ]

-- A loop of `evict`, with its condition: it deletes the last entry while the condition holds.
unfoldable pub evict_while : (MemoryCache → Bool) → ℕ → MemoryCache → MemoryCache
evict_while over zero c = c
evict_while over (suc fuel) c =
    if over c
    then elim (back c.lru) [
      | none ↦ c
      | some oldest ↦ evict_while over fuel (delete_internal c oldest.key)
    ]
    else c

abbrev pub over_memory : ℕ → MemoryCache → Bool
over_memory needed c =
    ltb 0 (length c.lru) && ltb 0 c.max_memory && ltb c.max_memory (c.current_mem + needed)

abbrev pub over_items : MemoryCache → Bool
over_items c = ltb 0 (length c.lru) && ltb 0 c.max_items && leb c.max_items (length c.lru)

-- Each round deletes an entry, so the number of entries is fuel enough.
unfoldable pub evict : MemoryCache → ℕ → MemoryCache
evict c needed =
    let fitted = evict_while (over_memory needed) (length c.lru) c in
    evict_while over_items (length fitted.lru) fitted

-- `PushFront` of a new element, which the map then points to.
unfoldable pub push_front : MemoryCache → String → List ℕ → ℕ → MemoryCache
push_front c key value expires_at =
    let e : Element = record {
      id = c.next_id;
      key = key;
      value = value;
      expires_at = expires_at;
      size = length value;
    } in
    record c {
      lru = e ∷ c.lru;
      items = insert key e c.items;
      current_mem = c.current_mem + length value;
      next_id = suc c.next_id;
    }

-- The result of `Get`: a value or `ErrCacheMiss`.
unfoldable pub get : MemoryCache → String → ℕ → MemoryCache × Option (List ℕ)
get c key now = elim (lookup key c.items) [
  | none ↦ (record c { misses = c.misses + 1 }, none)
  | some e ↦
      let expired = delete_internal c key in
      if ltb e.expires_at now
      then (record expired { misses = expired.misses + 1 }, none)
      else (record c { lru = e ∷ remove e.id c.lru; hits = c.hits + 1 }, some e.value)
]

unfoldable pub set : MemoryCache → String → List ℕ → ℕ → ℕ → MemoryCache
set c key value ttl now =
    let lifetime = if ttl == 0 then c.default_ttl else ttl in
    push_front (evict (delete_internal c key) (length value)) key value (now + lifetime)

unfoldable pub exists : MemoryCache → String → ℕ → Bool
exists c key now = elim (lookup key c.items) [ none ↦ false | some e ↦ ltb now e.expires_at ]

-- The keys that `cleanup` gathers in its first loop.
unfoldable pub expired_keys : ℕ → Dict Element → List String
expired_keys now [] = []
expired_keys now ((key, e) ∷ m) =
    let rest = expired_keys now m in if ltb e.expires_at now then key ∷ rest else rest

unfoldable pub delete_all : MemoryCache → List String → MemoryCache
delete_all c [] = c
delete_all c (k ∷ ks) = delete_all (delete_internal c k) ks

unfoldable pub cleanup : MemoryCache → ℕ → MemoryCache
cleanup c now = delete_all c (expired_keys now c.items)

-- `MGet`, where a missing value is a nil slice; each key is read at its own time.
unfoldable pub m_get : MemoryCache → List (String × ℕ) → MemoryCache × List (Option (List ℕ))
m_get c [] = (c, [])
m_get c ((key, now) ∷ ks) =
    let (c', v) = get c key now in let (c'', vs) = m_get c' ks in (c'', v ∷ vs)

-- `MSet`, in the order in which the map is walked.
unfoldable pub m_set : MemoryCache → List (String × List ℕ × ℕ) → ℕ → MemoryCache
m_set c [] ttl = c
m_set c ((key, value, now) ∷ kvs) ttl = m_set (set c key value ttl now) kvs ttl

unfoldable pub clear : MemoryCache → MemoryCache
clear c = record c { items = []; lru = []; current_mem = 0 }

unfoldable pub close : MemoryCache → MemoryCache
unfolding clear
close c = clear (record c { stopped = true })

pub record Stats : Type 0 where
  pub stat_hits : ℕ
  pub stat_misses : ℕ
  pub stat_keys : ℕ
  pub stat_memory_used : ℕ

unfoldable pub stats : MemoryCache → Stats
stats c = record {
  stat_hits = c.hits;
  stat_misses = c.misses;
  stat_keys = length c.items;
  stat_memory_used = c.current_mem;
}

-- The calls that change the state.
pub data Call : Type 0 where
  gets : String → ℕ → Call
  sets : String → List ℕ → ℕ → ℕ → Call
  deletes : String → Call
  cleanups : ℕ → Call
  clears closes : Call

unfoldable pub step : MemoryCache → Call → MemoryCache
step c (gets key now) = (get c key now).0
step c (sets key value ttl now) = set c key value ttl now
step c (deletes key) = delete_internal c key
step c (cleanups now) = cleanup c now
step c clears = clear c
step c closes = close c

unfoldable pub run : MemoryCache → List Call → MemoryCache
run c [] = c
run c (k ∷ ks) = run (step c k) ks
