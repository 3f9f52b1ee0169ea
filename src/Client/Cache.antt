-- ===== src/Client/Cache.antt =====
-- `client/src/cache.rs`: a bounded cache with a time to live and least-recently-used eviction.
-- `Instant::now()` is the argument `now` of each operation that reads the clock, and
-- `elapsed()` is `now - inserted_at`, which saturates at zero as `Instant`'s does.
pub mod Bounds
pub mod Reads
pub mod Counter
pub mod Eviction
use remote_file_system_in_ru.Base.{
  ℕ, zero, suc, ◌+◌, ◌-◌, Bool, not, Option, none, some, List, [], ◌∷◌, ltb, leb, ◌==◌, length,
  is_some_and, if◌then◌else◌,
}
use remote_file_system_in_ru.Base.Equality.{Eq}
use remote_file_system_in_ru.Base.Map
use remote_file_system_in_ru.Base.Map.{Map}

pub record CacheEntry {ℓ} (V : Type ℓ) : Type ℓ where
  pub value : V
  pub inserted_at : ℕ
  pub last_used : ℕ

pub record TtlLruCache {ℓ κ} (K : Type ℓ) (V : Type κ) : Type (ℓ ⊔ κ) where
  pub entries : Map K (CacheEntry V)
  pub max_entries : ℕ
  pub ttl : ℕ
  pub access_counter : ℕ

abbrev pub new {ℓ κ} : {K : Type ℓ} {V : Type κ} → ℕ → ℕ → TtlLruCache K V
new max_entries ttl = record {
  entries = [];
  max_entries = max_entries;
  ttl = ttl;
  access_counter = 0;
}

-- `entry.inserted_at.elapsed() > ttl`.
abbrev pub is_expired {ℓ} : {V : Type ℓ} → ℕ → ℕ → CacheEntry V → Bool
is_expired now ttl entry = ltb ttl (now - entry.inserted_at)

-- `min_by_key(|(_, entry)| entry.last_used)`, which keeps the first of several minima.
unfoldable pub min_by_last_used {ℓ κ} :
    {K : Type ℓ} {V : Type κ} → K × CacheEntry V → Map K (CacheEntry V) → K × CacheEntry V
min_by_last_used best [] = best
min_by_last_used best (x ∷ rest) =
    min_by_last_used (if ltb x.1.last_used best.1.last_used then x else best) rest

-- The key that `evict_lru` removes next.
unfoldable pub key_to_remove {ℓ κ} : {K : Type ℓ} {V : Type κ} → Map K (CacheEntry V) → Option K
key_to_remove [] = none
key_to_remove (x ∷ rest) = some (min_by_last_used x rest).0

module _ {ℓ κ} {K : Type ℓ} {V : Type κ} ⦃e : Eq K⦄ where
  -- The hit of `get`: the counter is stored in the entry.
  unfoldable pub touch : K → TtlLruCache K V → Option V × TtlLruCache K V
  touch key c =
      let counter = c.access_counter + 1 in
      elim (Map.lookup key c.entries) [
        | none ↦ (none, record c { access_counter = counter })
        | some entry ↦ (
          some entry.value,
          record c {
            entries = Map.insert key (record entry { last_used = counter }) c.entries;
            access_counter = counter;
          },
        )
      ]

  unfoldable pub get : ℕ → K → TtlLruCache K V → Option V × TtlLruCache K V
  unfolding touch
  get now key c =
      if is_some_and (Map.lookup key c.entries) (is_expired now c.ttl)
      then (none, record c { entries = Map.remove key c.entries })
      else touch key c

  unfoldable pub evict_expired : ℕ → TtlLruCache K V → TtlLruCache K V
  evict_expired now c = record c {
    entries = Map.retain (λ key entry. leb (now - entry.inserted_at) c.ttl) c.entries;
  }

  -- `while self.entries.len() > self.max_entries`, with one round of fuel for each entry.
  unfoldable pub evict_loop : ℕ → ℕ → Map K (CacheEntry V) → Map K (CacheEntry V)
  evict_loop zero max_entries entries = entries
  evict_loop (suc fuel) max_entries entries =
      let next : Map K (CacheEntry V) = elim (key_to_remove entries) [
        | none ↦ entries
        | some key ↦ evict_loop fuel max_entries (Map.remove key entries)
      ] in
      if ltb max_entries (length entries) then next else entries

  unfoldable pub evict_lru : TtlLruCache K V → TtlLruCache K V
  unfolding evict_loop
  evict_lru c = record c { entries = evict_loop (length c.entries) c.max_entries c.entries }

  unfoldable pub insert : ℕ → K → V → TtlLruCache K V → TtlLruCache K V
  unfolding evict_expired
  insert now key value c =
      if c.max_entries == 0
      then c
      else let counter = c.access_counter + 1 in
        evict_lru (
          evict_expired now (record c {
            entries =
                Map.insert key (record { value = value; inserted_at = now; last_used = counter })
                  c.entries;
            access_counter = counter;
          }))

  unfoldable pub remove : K → TtlLruCache K V → TtlLruCache K V
  remove key c = record c { entries = Map.remove key c.entries }

  unfoldable pub remove_matching : (K → Bool) → TtlLruCache K V → TtlLruCache K V
  remove_matching predicate c = record c {
    entries = Map.retain (λ key entry. not (predicate key)) c.entries;
  }

  unfoldable pub clear : TtlLruCache K V → TtlLruCache K V
  clear c = record c { entries = [] }
