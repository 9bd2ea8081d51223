-- ===== src/Cache/Tests.antt =====
-- The cache of internal/cache/memory.go at concrete inputs.
use codeai.Base.{◌+◌, ◌≡◌, refl, false, List, [], ◌∷◌, none, some, ltb, if◌then◌else◌, map}
use codeai.Base.Dict.{lookup, insert, delete}
use codeai.Cache.{
  Element, Config, MemoryCache, new_memory_cache, get, set, gets, sets, step, run, delete_internal,
  drop_element, evict, evict_while, push_front, remove, back, Call,
}
use codeai.Cache.Consistent.{IsConsistent}
use codeai.Cache.Evict.{HasRoom, evict-HasRoom}
use codeai.Cache.Operations.{IsSound, IsPut, set-IsPut, lifetime}
use codeai.Cache.Runs.{run-IsSound, get-set}

abbrev small : Config
small = record { default_ttl = 10; max_memory = 6; max_items = 2 }

abbrev calls : List Call
calls = sets "a" (1 ∷ 2 ∷ []) 0 1 ∷ sets "b" (3 ∷ []) 0 2 ∷ gets "a" 3 ∷ sets "c" (4 ∷ []) 5 4 ∷ []

-- The entry that was not read goes first.
evicts_oldest :
    (map (λ (e : Element). e.key) (run (new_memory_cache small) calls).lru ≡ "c" ∷ "a" ∷ [])
    × ((run (new_memory_cache small) calls).current_mem ≡ 3)
unfolding run step new_memory_cache set get delete_internal drop_element evict evict_while
    push_front remove back lookup insert delete
evicts_oldest = (refl, refl)

run-IsSound_example : IsSound small (run (new_memory_cache small) calls)
unfolding new_memory_cache
run-IsSound_example = run-IsSound small calls

filled : MemoryCache
filled = run (new_memory_cache small) calls

filled-IsConsistent : IsConsistent filled
unfolding filled new_memory_cache
filled-IsConsistent = (run-IsSound small calls).consistent

evict-HasRoom_example : HasRoom 4 filled (evict filled 4)
evict-HasRoom_example = evict-HasRoom filled 4 filled-IsConsistent

set-IsPut_example : IsPut filled "d" (7 ∷ []) (9 + lifetime filled 3) (set filled "d" (7 ∷ []) 3 9)
set-IsPut_example = set-IsPut filled "d" (7 ∷ []) 3 9 filled-IsConsistent

get-set_example :
    (get (set filled "d" (7 ∷ []) 3 9) "d" 12).1
    ≡ (if ltb (9 + lifetime filled 3) 12 then none else some (7 ∷ []))
get-set_example = get-set filled "d" (7 ∷ []) 3 9 12 filled-IsConsistent

abbrev entry : Element
entry = record { id = 0; key = "a"; value = 1 ∷ []; expires_at = 5; size = 1 }

abbrev one_entry : MemoryCache
one_entry = record {
  items = ("a", entry) ∷ [];
  lru = entry ∷ [];
  config = small;
  current_mem = 1;
  hits = 0;
  misses = 0;
  stopped = false;
  next_id = 1;
}
