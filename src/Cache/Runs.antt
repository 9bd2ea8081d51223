-- ===== src/Cache/Runs.antt =====
-- Any calls of internal/cache/memory.go, one after another, and what a read after a write gives.
use codeai.Base.{
  ℕ, ◌+◌, ◌≤◌, ◌<◌, ◌≡◌, refl, ◌∙◌, ap, inl, inr, true, false, String, List, [], ◌∷◌, none, some,
  arith, Bool-cases, ltb, if◌then◌else◌,
}
use codeai.Base.Dict.{lookup}
use codeai.Cache.{
  Element, Config, MemoryCache, new_memory_cache, get, set, exists, expired_keys, cleanup, clear,
  close, Call, gets, sets, deletes, cleanups, clears, closes, step, run,
}
use codeai.Cache.Consistent.{total, IsConsistent}
use codeai.Cache.Operations.{
  IsSound, delete_internal-IsSound, delete_all-IsSound, get-IsSound, set-IsSound, set-IsPut,
  lifetime,
}

clear-IsSound : (cfg : Config) (c : MemoryCache) → IsSound cfg c → IsSound cfg (clear c)
unfolding clear lookup total
clear-IsSound cfg c s = record {
  consistent = record {
    listed = λ k e h. cc;
    mapped = λ e i. absurd i;
    ids = tt;
    fresh = tt;
    counted = refl;
  };
  within = λ _. omega arith;
  config_kept = s.config_kept;
}

stop-IsSound :
    (cfg : Config) (c : MemoryCache) → IsSound cfg c → IsSound cfg (record c { stopped = true })
stop-IsSound cfg c s = record {
  consistent = record {
    listed = s.consistent.listed;
    mapped = s.consistent.mapped;
    ids = s.consistent.ids;
    fresh = s.consistent.fresh;
    counted = s.consistent.counted;
  };
  within = s.within;
  config_kept = s.config_kept;
}

step-IsSound : (cfg : Config) (c : MemoryCache) (k : Call) → IsSound cfg c → IsSound cfg (step c k)
unfolding step cleanup close
step-IsSound cfg c (gets key now) s = get-IsSound cfg c key now s
step-IsSound cfg c (sets key value ttl now) s = set-IsSound cfg c key value ttl now s
step-IsSound cfg c (deletes key) s = delete_internal-IsSound cfg c key s
step-IsSound cfg c (cleanups now) s = delete_all-IsSound cfg c (expired_keys now c.items) s
step-IsSound cfg c clears s = clear-IsSound cfg c s
step-IsSound cfg c closes s = clear-IsSound cfg (record c { stopped = true }) (stop-IsSound cfg c s)

run_from-IsSound :
    (cfg : Config) (c : MemoryCache) (ks : List Call) → IsSound cfg c → IsSound cfg (run c ks)
unfolding run
run_from-IsSound cfg c [] s = s
run_from-IsSound cfg c (k ∷ ks) s = run_from-IsSound cfg (step c k) ks (step-IsSound cfg c k s)

new_memory_cache-IsSound :
    (cfg : Config) → IsSound (new_memory_cache cfg).config (new_memory_cache cfg)
unfolding new_memory_cache lookup total
new_memory_cache-IsSound cfg = record {
  consistent = record {
    listed = λ k e h. cc;
    mapped = λ e i. absurd i;
    ids = tt;
    fresh = tt;
    counted = refl;
  };
  within = λ _. omega arith;
  config_kept = refl;
}

-- After any calls of Get, Set, Delete, Cleanup, Clear and Close on a new cache, the map and the
-- list hold the same elements, each key once, the memory in use is the sum of their sizes, the
-- configuration is as it was, and if MaxItems is positive then no more than that many entries are
-- held.
pub run-IsSound :
    (cfg : Config) (ks : List Call)
    → IsSound (new_memory_cache cfg).config (run (new_memory_cache cfg) ks)
run-IsSound cfg ks =
    run_from-IsSound (new_memory_cache cfg).config (new_memory_cache cfg) ks
      (new_memory_cache-IsSound cfg)

get_valid :
    (c : MemoryCache) (key : String) (now : ℕ) (e : Element)
    → lookup key c.items ≡ some e
    → now ≤ e.expires_at
    → (get c key now).1 ≡ some e.value
unfolding get
get_valid c key now e at valid = ground arith

get_expired :
    (c : MemoryCache) (key : String) (now : ℕ) (e : Element)
    → lookup key c.items ≡ some e
    → e.expires_at < now
    → (get c key now).1 ≡ none
unfolding get
get_expired c key now e at old = ground arith

-- On a consistent cache, a Get of a key after a Set of it gives the value until the lifetime of the
-- entry has passed, that instant included, and nothing after that.
pub get-set :
    (c : MemoryCache) (key : String) (value : List ℕ) (ttl now later : ℕ)
    → IsConsistent c
    → (get (set c key value ttl now) key later).1
      ≡ (if ltb (now + lifetime c ttl) later then none else some value)
get-set c key value ttl now later v =
    let r = set-IsPut c key value ttl now v in
    elim (Bool-cases (ltb (now + lifetime c ttl) later)) [
      | inl old ↦ rw old (
          get_expired (set c key value ttl now) key later r.element r.stored
            (ground (arith, r.same_expiry)))
      | inr valid ↦ rw valid (
          get_valid (set c key value ttl now) key later r.element r.stored
            (ground (arith, r.same_expiry))
          ∙ ap some r.same_value)
    ]

-- At the instant of its expiry an entry is returned by Get, and does not exist according to Exists.
exists-get_differ :
    (c : MemoryCache) (key : String) (e : Element)
    → lookup key c.items ≡ some e
    → ((get c key e.expires_at).1 ≡ some e.value) × (exists c key e.expires_at ≡ false)
unfolding exists
exists-get_differ c key e at = (get_valid c key e.expires_at e at (omega arith), ground arith)
