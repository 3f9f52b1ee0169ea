-- ===== src/Client/Cache/Eviction.antt =====
-- Which entries an insertion gives up: those used longest ago.
use mathlib.Core.Path.{subst, sym}
use remote_file_system_in_ru.Base.{
  ℕ, zero, suc, ◌+◌, ◌-◌, ◌≤◌, ◌≡◌, ◌≢◌, inl, inr, Bool, none, some, [], ◌∷◌, arith, ltb, leb, ◌==◌,
  length, Bool-cases, Option-cases, All,
}
use remote_file_system_in_ru.Base.Equality.{Eq}
use remote_file_system_in_ru.Base.Map
use remote_file_system_in_ru.Base.Map.{
  Map, NodupKeys, lookup, lookup-remove, lookup-retain, remove-NodupKeys, retain-NodupKeys,
  insert-NodupKeys, lookup-insert,
}
use remote_file_system_in_ru.Client.Cache
use remote_file_system_in_ru.Client.Cache.{
  CacheEntry, TtlLruCache, min_by_last_used, evict_loop, key_to_remove,
}
use remote_file_system_in_ru.Client.Cache.Bounds.{
  IsValid, min_by_last_used-cons, min_by_last_used-nil,
}

module _ {ℓ κ} {K : Type ℓ} {V : Type κ} where
  -- Every entry was used at the moment `n` or later.
  abbrev UsedFrom : ℕ → Map K (CacheEntry V) → Type 0
  UsedFrom n m = All (λ x. n ≤ x.1.last_used) m

module _ {ℓ κ} {K : Type ℓ} {V : Type κ} ⦃e : Eq K⦄ where
  UsedFrom-min_by_last_used :
      (x : K × CacheEntry V) (m : Map K (CacheEntry V))
      → UsedFrom (min_by_last_used x m).1.last_used (x ∷ m)
  UsedFrom-min_by_last_used x [] = rw (min_by_last_used-nil x) (omega arith)
  UsedFrom-min_by_last_used x (y ∷ m) = elim (Bool-cases (ltb y.1.last_used x.1.last_used)) [
    | inl less ↦
        let (first, rest) = UsedFrom-min_by_last_used y m in
        let same : min_by_last_used x (y ∷ m) ≡ min_by_last_used y m =
          rw (min_by_last_used-cons x y m, less) in
        subst (λ b. UsedFrom b.1.last_used (x ∷ y ∷ m)) (sym same)
          (ground (arith, UsedFrom-min_by_last_used y m), (first, rest))
    | inr more ↦
        let (first, rest) = UsedFrom-min_by_last_used x m in
        let same : min_by_last_used x (y ∷ m) ≡ min_by_last_used x m =
          rw (min_by_last_used-cons x y m, more) in
        subst (λ b. UsedFrom b.1.last_used (x ∷ y ∷ m)) (sym same)
          (first, (ground (arith, UsedFrom-min_by_last_used x m), rest))
  ]

  UsedFrom-lookup :
      (n : ℕ) (k : K) (m : Map K (CacheEntry V)) (x : CacheEntry V)
      → UsedFrom n m
      → lookup k m ≡ some x
      → n ≤ x.last_used
  unfolding lookup
  UsedFrom-lookup n k [] x all found = ground arith
  UsedFrom-lookup n k (y ∷ m) x all found = ground (arith, UsedFrom-lookup n k m x all.1)

  lookup-min_by_last_used_self :
      (x : K × CacheEntry V) (m : Map K (CacheEntry V))
      → NodupKeys (x ∷ m)
      → lookup (min_by_last_used x m).0 (x ∷ m) ≡ some (min_by_last_used x m).1
  unfolding lookup
  lookup-min_by_last_used_self x [] h =
      rw (min_by_last_used-nil x) (ground (arith, e.beq_iff x.0 x.0))
  lookup-min_by_last_used_self x (y ∷ m) h = ground (
    arith,
    min_by_last_used-cons x y m,
    lookup-min_by_last_used_self x m,
    lookup-min_by_last_used_self y m,
    e.beq_iff x.0 (min_by_last_used x m).0,
    e.beq_iff y.0 (min_by_last_used x m).0,
    e.beq_iff x.0 (min_by_last_used y m).0,
    e.beq_iff y.0 x.0,
  )

  -- The key that goes next is that of an entry used no later than any other.
  key_to_remove-earliest :
      (j k : K) (m : Map K (CacheEntry V)) (x : CacheEntry V)
      → NodupKeys m
      → key_to_remove m ≡ some j
      → lookup k m ≡ some x
      → (w : CacheEntry V) × (lookup j m ≡ some w) × (w.last_used ≤ x.last_used)
  unfolding key_to_remove
  key_to_remove-earliest j k [] x h next found = cc
  key_to_remove-earliest j k (y ∷ m) x h next found = (
    (min_by_last_used y m).1,
    ground (arith, lookup-min_by_last_used_self y m h),
    UsedFrom-lookup _ k (y ∷ m) x (UsedFrom-min_by_last_used y m) found,
  )

  lookup-evict_loop :
      (fuel n : ℕ) (k : K) (m : Map K (CacheEntry V)) (x : CacheEntry V)
      → lookup k (evict_loop fuel n m) ≡ some x
      → lookup k m ≡ some x
  unfolding evict_loop
  lookup-evict_loop zero n k m x h = h
  lookup-evict_loop (suc fuel) n k m x h = elim (Option-cases (key_to_remove m)) [
    | inl stop ↦ ground arith
    | inr (j, next) ↦
        ground (arith, lookup-evict_loop fuel n k (Map.remove j m) x, lookup-remove j k m)
  ]

  evict_loop-earliest :
      (fuel n : ℕ) (a b : K) (m : Map K (CacheEntry V)) (x y : CacheEntry V)
      → NodupKeys m
      → lookup a m ≡ some x
      → lookup a (evict_loop fuel n m) ≡ none
      → lookup b (evict_loop fuel n m) ≡ some y
      → x.last_used ≤ y.last_used
  unfolding evict_loop
  evict_loop-earliest zero n a b m x y h found gone stays = cc
  evict_loop-earliest (suc fuel) n a b m x y h found gone stays =
      elim (Option-cases (key_to_remove m)) [
        | inl stop ↦ ground arith
        | inr (j, next) ↦
            let whole : lookup b m ≡ some y =
              unfold evict_loop in lookup-evict_loop (suc fuel) n b m y stays in
            let (w, at, first) = key_to_remove-earliest j b m y h next whole in
            ground (
              arith,
              e.beq_iff j a,
              lookup-remove j a m,
              remove-NodupKeys j m h,
              evict_loop-earliest fuel n a b (Map.remove j m) x y,
            )
      ]

  -- In a valid cache, an unexpired entry that an insertion gives up was used no later than every
  -- entry that stays.
  pub insert-earliest :
      (now : ℕ) (k : K) (v : V) (c : TtlLruCache K V) (a b : K) (x y : CacheEntry V)
      → IsValid c
      → a ≢ k
      → lookup a c.entries ≡ some x
      → now - x.inserted_at ≤ c.ttl
      → lookup a (Cache.insert now k v c).entries ≡ none
      → lookup b (Cache.insert now k v c).entries ≡ some y
      → x.last_used ≤ y.last_used
  unfolding Cache.insert Cache.evict_lru
  insert-earliest now k v c a b x y h other found fresh gone stays =
      let n = c.access_counter + 1 in
      let new : CacheEntry V = record { value = v; inserted_at = now; last_used = n } in
      let old = Map.insert k new c.entries in
      let test : K → CacheEntry V → Bool = λ key entry. leb (now - entry.inserted_at) c.ttl in
      let kept = Map.retain test old in
      let distinct = insert-NodupKeys k new c.entries h.distinct in
      elim (Bool-cases (c.max_entries == 0)) [
        | inl empty ↦ ground arith
        | inr more ↦
            evict_loop-earliest (length kept) c.max_entries a b kept x y
              (retain-NodupKeys test old distinct)
              (ground (
                arith,
                lookup-retain test a old distinct,
                lookup-insert k a new c.entries,
                e.beq_iff k a,
              ))
              (ground arith) (ground arith)
      ]
