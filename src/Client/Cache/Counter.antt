-- ===== src/Client/Cache/Counter.antt =====
-- The access counter stays ahead of the uses that the entries record.
use mathlib.Core.List.{foldl}
use remote_file_system_in_ru.Base.{
  ℕ, zero, suc, ◌+◌, ◌-◌, ◌<◌, ◌≡◌, ◌∙◌, refl, inl, inr, not, some, List, [], ◌∷◌, arith, leb, ◌==◌,
  length, Bool-cases, Option-cases,
}
use remote_file_system_in_ru.Base.Equality.{Eq}
use remote_file_system_in_ru.Base.Map
use remote_file_system_in_ru.Base.Map.{Map, NodupKeys, lookup, lookup-remove, remove-NodupKeys}
use remote_file_system_in_ru.Client.Cache
use remote_file_system_in_ru.Client.Cache.{CacheEntry, TtlLruCache, evict_loop, key_to_remove}
use remote_file_system_in_ru.Client.Cache.Bounds.{
  Operation, apply, get, insert, remove, remove_matching, clear,
}
use remote_file_system_in_ru.Client.Cache.Reads.{
  UsedBefore, UsedBefore-remove, UsedBefore-retain, IsCounted, get-insert,
}

module _ {ℓ κ} {K : Type ℓ} {V : Type κ} ⦃e : Eq K⦄ where
  UsedBefore-suc : (n : ℕ) (m : Map K (CacheEntry V)) → UsedBefore n m → UsedBefore (n + 1) m
  UsedBefore-suc n [] h = h
  UsedBefore-suc n (x ∷ m) h = (omega arith, UsedBefore-suc n m h.1)

  UsedBefore-insert :
      (n : ℕ) (k : K) (x : CacheEntry V) (m : Map K (CacheEntry V))
      → x.last_used ≡ n
      → UsedBefore n m
      → UsedBefore (n + 1) (Map.insert k x m)
  unfolding Map.insert
  UsedBefore-insert n k x m p h = (omega arith, UsedBefore-suc n _ (UsedBefore-remove n k m h))

  UsedBefore-evict_loop :
      (fuel max n : ℕ) (m : Map K (CacheEntry V))
      → UsedBefore n m
      → UsedBefore n (evict_loop fuel max m)
  unfolding evict_loop
  UsedBefore-evict_loop zero max n m h = h
  UsedBefore-evict_loop (suc fuel) max n m h = elim (Option-cases (key_to_remove m)) [
    | inl e ↦ ground arith
    | inr (k, e) ↦
        ground (arith, UsedBefore-evict_loop fuel max n (Map.remove k m), UsedBefore-remove n k m h)
  ]

  get-IsCounted :
      (now : ℕ) (k : K) (c : TtlLruCache K V) → IsCounted c → IsCounted (Cache.get now k c).1
  unfolding Cache.get
  get-IsCounted now k c h = elim (Option-cases (lookup k c.entries)) [
    | inl miss ↦ ground (arith, UsedBefore-suc (c.access_counter + 1) c.entries h)
    | inr (x, hit) ↦ ground (
      arith,
      UsedBefore-remove (c.access_counter + 1) k c.entries h,
      UsedBefore-insert (c.access_counter + 1) k (record x { last_used = c.access_counter + 1 })
          c.entries refl h,
    )
  ]

  insert-IsCounted :
      (now : ℕ) (k : K) (v : V) (c : TtlLruCache K V)
      → IsCounted c
      → IsCounted (Cache.insert now k v c)
  unfolding Cache.insert Cache.evict_lru
  insert-IsCounted now k v c h =
      let n = c.access_counter + 1 in
      let x : CacheEntry V = record { value = v; inserted_at = now; last_used = n } in
      let old = Map.insert k x c.entries in
      let kept = Map.retain (λ key entry. leb (now - entry.inserted_at) c.ttl) old in
      elim (Bool-cases (c.max_entries == 0)) [
        | inl empty ↦ rw empty h
        | inr more ↦ rw more (
            UsedBefore-evict_loop (length kept) c.max_entries (n + 1) kept
              (UsedBefore-retain (n + 1) _ old (UsedBefore-insert n k x c.entries refl h)))
      ]

  apply-IsCounted : (c : TtlLruCache K V) (o : Operation K V) → IsCounted c → IsCounted (apply c o)
  unfolding apply Cache.remove Cache.remove_matching Cache.clear
  apply-IsCounted c (get now k) h = get-IsCounted now k c h
  apply-IsCounted c (insert now k v) h = insert-IsCounted now k v c h
  apply-IsCounted c (remove k) h = UsedBefore-remove _ k c.entries h
  apply-IsCounted c (remove_matching p) h =
      UsedBefore-retain _ (λ key entry. not (p key)) c.entries h
  apply-IsCounted c clear h = tt

  run-IsCounted :
      (c : TtlLruCache K V) (os : List (Operation K V)) → IsCounted c → IsCounted (foldl apply c os)
  run-IsCounted c [] h = h
  run-IsCounted c (o ∷ os) h = run-IsCounted (apply c o) os (apply-IsCounted c o h)

  max_entries-apply :
      (c : TtlLruCache K V) (o : Operation K V) → (apply c o).max_entries ≡ c.max_entries
  unfolding apply Cache.remove Cache.remove_matching Cache.clear Cache.get Cache.insert
      Cache.evict_lru
  max_entries-apply c (get now k) = ground arith
  max_entries-apply c (insert now k v) = ground arith
  max_entries-apply c _ = refl

  max_entries-run :
      (c : TtlLruCache K V) (os : List (Operation K V))
      → (foldl apply c os).max_entries ≡ c.max_entries
  max_entries-run c [] = refl
  max_entries-run c (o ∷ os) = max_entries-run (apply c o) os ∙ max_entries-apply c o

  -- In every state that a cache of at least one entry can reach, a read at the moment of an
  -- insertion finds the value inserted.
  pub get-insert_reachable :
      (max_entries ttl : ℕ) (os : List (Operation K V)) (now : ℕ) (k : K) (v : V)
      → 0 < max_entries
      → (Cache.get now k (Cache.insert now k v (foldl apply (Cache.new max_entries ttl) os))).0
        ≡ some v
  get-insert_reachable max_entries ttl os now k v pos =
      let c = foldl apply (Cache.new max_entries ttl) os in
      get-insert now k v c (rw (max_entries-run (Cache.new max_entries ttl) os) pos)
        (run-IsCounted (Cache.new max_entries ttl) os tt)
