-- ===== src/Tests/Caching.antt =====
-- The theorems on the client's cache at concrete inputs.
use remote_file_system_in_ru.Base.{ℕ, ◌-◌, ◌≤◌, ◌≡◌, ◌↔◌, refl, none, some, List, [], ◌∷◌, arith}
use mathlib.Core.List.{foldl}
use remote_file_system_in_ru.Base.Equality.{nat_eq}
use remote_file_system_in_ru.Base.Map
use remote_file_system_in_ru.Client.Cache
use remote_file_system_in_ru.Client.Cache.{
  CacheEntry, TtlLruCache, min_by_last_used, key_to_remove, evict_loop,
}
use remote_file_system_in_ru.Client.Cache.Bounds.{IsValid, Operation, apply, new-run-IsValid}
use remote_file_system_in_ru.Client.Cache.Reads.{get-eq-some_iff}
use remote_file_system_in_ru.Client.Cache.Counter.{get-insert_reachable}
use remote_file_system_in_ru.Client.Cache.Eviction.{insert-earliest}

-- A cache of one entry that is read, then gives its entry up to another.
abbrev operations : List (Operation ℕ ℕ)
operations = Operation.insert 0 1 10 ∷ Operation.get 3 1 ∷ []

unfoldable cache : TtlLruCache ℕ ℕ
unfolding apply Cache.get Cache.insert Cache.evict_lru evict_loop key_to_remove min_by_last_used
    Map.lookup Map.insert Map.remove Map.retain
cache = foldl apply (Cache.new 1 100) operations

new-run-IsValid_example : IsValid cache
unfolding cache
new-run-IsValid_example = new-run-IsValid 1 100 operations

get-eq-some_iff_example : ((Cache.get 4 1 cache).0 ≡ some 10) ↔ (
    (x : CacheEntry ℕ) × (Map.lookup 1 cache.entries ≡ some x)
    × (4 - x.inserted_at ≤ cache.ttl)
    × (x.value ≡ 10))
get-eq-some_iff_example = get-eq-some_iff 4 1 10 cache

get-insert_reachable_example :
    (Cache.get 5 2 (Cache.insert 5 2 20 (foldl apply (Cache.new 1 100) operations))).0 ≡ some 20
get-insert_reachable_example = get-insert_reachable 1 100 operations 5 2 20 (omega arith)

abbrev old_entry : CacheEntry ℕ
old_entry = record { value = 10; inserted_at = 0; last_used = 2 }

abbrev new_entry : CacheEntry ℕ
new_entry = record { value = 20; inserted_at = 5; last_used = 3 }

cache-IsValid : IsValid cache
unfolding cache
cache-IsValid = record { bounded = omega arith; distinct = (refl, tt) }

old_there : Map.lookup 1 cache.entries ≡ some old_entry
unfolding cache
old_there = refl

old_gone : Map.lookup 1 (Cache.insert 5 2 20 cache).entries ≡ none
unfolding cache Cache.insert
old_gone = refl

new_there : Map.lookup 2 (Cache.insert 5 2 20 cache).entries ≡ some new_entry
unfolding cache Cache.insert
new_there = refl

fresh_enough : 5 - old_entry.inserted_at ≤ cache.ttl
unfolding cache
fresh_enough = omega arith

insert-earliest_example : old_entry.last_used ≤ new_entry.last_used
insert-earliest_example =
    insert-earliest 5 2 20 cache 1 2 old_entry new_entry cache-IsValid (λ e. omega arith) old_there
      fresh_enough old_gone new_there
