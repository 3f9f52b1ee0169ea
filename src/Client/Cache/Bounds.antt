-- ===== src/Client/Cache/Bounds.antt =====
-- The invariant of the cache: its size stays within the bound, and a key has one entry.
use remote_file_system_in_ru.Base.{
  ℕ, zero, suc, ◌+◌, ◌-◌, ◌≤◌, ◌<◌, ◌≡◌, ◌≢◌, refl, inl, inr, Bool, none, some, List, [], ◌∷◌,
  arith, ltb, leb, ◌==◌, length, if◌then◌else◌, Bool-cases, Option-cases, is_some, true, false, not,
}
use mathlib.Core.List.{foldl}
use remote_file_system_in_ru.Base.Equality.{Eq}
use remote_file_system_in_ru.Base.Map
use remote_file_system_in_ru.Base.Map.{
  Map, NodupKeys, lookup, length-remove-le, length-retain-le, remove-NodupKeys, retain-NodupKeys,
  insert-NodupKeys,
}
use remote_file_system_in_ru.Client.Cache
use remote_file_system_in_ru.Client.Cache.{
  CacheEntry, TtlLruCache, min_by_last_used, key_to_remove, evict_loop,
}

pub record IsValid {ℓ κ} {K : Type ℓ} {V : Type κ} ⦃e : Eq K⦄ (c : TtlLruCache K V)
    : Type (ℓ ⊔ κ) where
  pub bounded : length c.entries ≤ c.max_entries
  pub distinct : NodupKeys c.entries

module _ {ℓ κ} {K : Type ℓ} {V : Type κ} ⦃e : Eq K⦄ where
  -- A key that is there is counted.
  pub length-remove-lt :
      (k : K) (m : Map K V) → is_some (lookup k m) ≡ true → length (Map.remove k m) < length m
  unfolding lookup Map.remove
  length-remove-lt k [] h = cc
  length-remove-lt k ((j, w) ∷ m) h = ground (arith, length-remove-lt k m, length-remove-le k m)

module _ {ℓ κ} {K : Type ℓ} {V : Type κ} ⦃e : Eq K⦄ where
  min_by_last_used-if :
      (b : Bool) (x y : K × CacheEntry V) (m : Map K (CacheEntry V))
      → min_by_last_used (if b then y else x) m
        ≡ (if b then min_by_last_used y m else min_by_last_used x m)
  min_by_last_used-if true x y m = refl
  min_by_last_used-if false x y m = refl

  -- One comparison of the search for the minimum.
  pub min_by_last_used-cons :
      (x y : K × CacheEntry V) (m : Map K (CacheEntry V))
      → min_by_last_used x (y ∷ m)
        ≡ (if ltb y.1.last_used x.1.last_used then min_by_last_used y m else min_by_last_used x m)
  unfolding min_by_last_used
  min_by_last_used-cons x y m = min_by_last_used-if (ltb y.1.last_used x.1.last_used) x y m

  pub min_by_last_used-nil : (x : K × CacheEntry V) → min_by_last_used x [] ≡ x
  unfolding min_by_last_used
  min_by_last_used-nil x = refl

  -- The entry chosen is one of the entries.
  pub lookup-min_by_last_used :
      (x : K × CacheEntry V) (m : Map K (CacheEntry V))
      → is_some (lookup (min_by_last_used x m).0 (x ∷ m)) ≡ true
  unfolding lookup
  lookup-min_by_last_used x [] = ground (arith, e.beq_iff x.0 x.0, min_by_last_used-nil x)
  lookup-min_by_last_used x (y ∷ m) =
      ground (
        arith,
        min_by_last_used-cons x y m,
        lookup-min_by_last_used y m,
        lookup-min_by_last_used x m,
      )

  -- A map that is not empty has a next key, and removing it makes the map smaller.
  pub key_to_remove-lt :
      (m : Map K (CacheEntry V)) (k : K)
      → key_to_remove m ≡ some k
      → length (Map.remove k m) < length m
  unfolding key_to_remove
  key_to_remove-lt [] k h = cc
  key_to_remove-lt (x ∷ m) k h =
      ground (arith, length-remove-lt k (x ∷ m), lookup-min_by_last_used x m)

  key_to_remove-cons :
      (x : K × CacheEntry V) (m : Map K (CacheEntry V)) → key_to_remove (x ∷ m) ≢ none
  unfolding key_to_remove
  key_to_remove-cons x m h = cc

  -- With a round of fuel for each entry above the bound, the loop ends within the bound.
  pub length-evict_loop-le :
      (fuel n : ℕ) (m : Map K (CacheEntry V))
      → length m ≤ fuel + n
      → length (evict_loop fuel n m) ≤ n
  unfolding evict_loop
  length-evict_loop-le zero n m h = omega arith
  length-evict_loop-le (suc fuel) n [] h = ground arith
  length-evict_loop-le (suc fuel) n (x ∷ m) h = elim (Option-cases (key_to_remove (x ∷ m))) [
    | inl e ↦ absurd (key_to_remove-cons x m e)
    | inr (k, e) ↦
        ground
          (arith, length-evict_loop-le fuel n (Map.remove k (x ∷ m)), key_to_remove-lt (x ∷ m) k e)
  ]

  pub evict_loop-NodupKeys :
      (fuel n : ℕ) (m : Map K (CacheEntry V)) → NodupKeys m → NodupKeys (evict_loop fuel n m)
  unfolding evict_loop
  evict_loop-NodupKeys zero n m h = h
  evict_loop-NodupKeys (suc fuel) n m h = elim (Option-cases (key_to_remove m)) [
    | inl e ↦ ground arith
    | inr (k, e) ↦
        ground (arith, evict_loop-NodupKeys fuel n (Map.remove k m), remove-NodupKeys k m h)
  ]

  touch-IsValid : (k : K) (c : TtlLruCache K V) → IsValid c → IsValid (Cache.touch k c).1
  unfolding Cache.touch
  touch-IsValid k c h = elim (Option-cases (lookup k c.entries)) [
    | inl e ↦ rw (e, Cache.touch) (record { bounded = h.bounded; distinct = h.distinct })
    | inr (x, e) ↦
        rw (e, Cache.touch)
          (record {
            bounded =
                unfold Map.insert in
                omega (arith, length-remove-lt k c.entries (rw e refl), h.bounded);
            distinct = insert-NodupKeys k _ c.entries h.distinct;
          })
  ]

  -- A read, a hit or a miss, keeps the invariant.
  pub get-IsValid :
      (now : ℕ) (k : K) (c : TtlLruCache K V) → IsValid c → IsValid (Cache.get now k c).1
  unfolding Cache.get
  get-IsValid now k c h = ground (
    arith,
    touch-IsValid k c h,
    length-remove-le k c.entries,
    remove-NodupKeys k c.entries h.distinct,
  )

  -- An insertion keeps the invariant, also when it had to evict.
  pub insert-IsValid :
      (now : ℕ) (k : K) (v : V) (c : TtlLruCache K V) → IsValid c → IsValid (Cache.insert now k v c)
  unfolding Cache.insert Cache.evict_lru Cache.evict_expired
  insert-IsValid now k v c h =
      let old : Map K (CacheEntry V) =
        Map.insert k (record { value = v; inserted_at = now; last_used = c.access_counter + 1 })
          c.entries in
      let kept : Map K (CacheEntry V) =
        Map.retain (λ key entry. leb (now - entry.inserted_at) c.ttl) old in
      let distinct : NodupKeys kept =
        retain-NodupKeys _ old (insert-NodupKeys k _ c.entries h.distinct) in
      elim (Bool-cases (c.max_entries == 0)) [
        | inl empty ↦ rw empty h
        | inr more ↦ rw more (record {
          bounded = length-evict_loop-le (length kept) c.max_entries kept (omega arith);
          distinct = evict_loop-NodupKeys (length kept) c.max_entries kept distinct;
        })
      ]

-- The operations of the cache.
pub data Operation {ℓ κ} (K : Type ℓ) (V : Type κ) : Type (ℓ ⊔ κ) where
  get : ℕ → K → Operation K V
  insert : ℕ → K → V → Operation K V
  remove : K → Operation K V
  remove_matching : (K → Bool) → Operation K V
  clear : Operation K V

module _ {ℓ κ} {K : Type ℓ} {V : Type κ} ⦃e : Eq K⦄ where
  unfoldable pub apply : TtlLruCache K V → Operation K V → TtlLruCache K V
  apply c (get now k) = (Cache.get now k c).1
  apply c (insert now k v) = Cache.insert now k v c
  apply c (remove k) = Cache.remove k c
  apply c (remove_matching p) = Cache.remove_matching p c
  apply c clear = Cache.clear c

  apply-IsValid : (c : TtlLruCache K V) (o : Operation K V) → IsValid c → IsValid (apply c o)
  unfolding apply Cache.remove Cache.remove_matching Cache.clear
  apply-IsValid c (get now k) h = get-IsValid now k c h
  apply-IsValid c (insert now k v) h = insert-IsValid now k v c h
  apply-IsValid c (remove k) h =
      ground (arith, length-remove-le k c.entries, remove-NodupKeys k c.entries h.distinct)
  apply-IsValid c (remove_matching p) h = record {
    bounded = omega (arith, length-retain-le (λ key entry. not (p key)) c.entries, h.bounded);
    distinct = retain-NodupKeys _ c.entries h.distinct;
  }
  apply-IsValid c clear h = omega arith

  run-IsValid :
      (c : TtlLruCache K V) (os : List (Operation K V)) → IsValid c → IsValid (foldl apply c os)
  run-IsValid c [] h = h
  run-IsValid c (o ∷ os) h = run-IsValid (apply c o) os (apply-IsValid c o h)

  -- After any operations on a new cache, at any times, the entries are at most max_entries and no
  -- key has two of them.
  pub new-run-IsValid :
      (max_entries ttl : ℕ) (os : List (Operation K V))
      → IsValid (foldl apply (Cache.new max_entries ttl) os)
  new-run-IsValid max_entries ttl os = run-IsValid (Cache.new max_entries ttl) os (omega arith)
