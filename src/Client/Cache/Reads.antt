-- ===== src/Client/Cache/Reads.antt =====
-- What the cache returns: nothing that has expired, what was just inserted, and which entries an
-- insertion gives up.
use remote_file_system_in_ru.Base.{
  ℕ, zero, suc, ◌+◌, ◌-◌, ◌≤◌, ◌<◌, ◌≡◌, ◌↔◌, refl, inl, inr, Bool, true, false, none, some, [],
  ◌∷◌, arith, ltb, leb, ◌==◌, length, is_some, Bool-cases, Option-cases, All,
}
use remote_file_system_in_ru.Base.Equality.{Eq}
use remote_file_system_in_ru.Base.Map
use remote_file_system_in_ru.Base.Map.{
  Map, NodupKeys, lookup, lookup-remove, lookup-retain-none, remove-NodupKeys,
}
use remote_file_system_in_ru.Client.Cache
use remote_file_system_in_ru.Client.Cache.{
  CacheEntry, TtlLruCache, min_by_last_used, key_to_remove, evict_loop, is_expired,
}
use remote_file_system_in_ru.Client.Cache.Bounds.{min_by_last_used-cons, lookup-min_by_last_used}

module _ {ℓ κ} {K : Type ℓ} {V : Type κ} ⦃e : Eq K⦄ where
  -- A read returns a value exactly when the key has an entry no older than the TTL, and then the
  -- value of that entry.
  pub get-eq-some_iff :
      (now : ℕ) (k : K) (v : V) (c : TtlLruCache K V)
      → ((Cache.get now k c).0 ≡ some v) ↔ (
          (x : CacheEntry V) × (lookup k c.entries ≡ some x)
          × (now - x.inserted_at ≤ c.ttl)
          × (x.value ≡ v))
  unfolding Cache.get
  get-eq-some_iff now k v c = elim (Option-cases (lookup k c.entries)) [
    | inl miss ↦ ground arith
    | inr (x, hit) ↦
        (λ h. (x, ground arith, ground arith, ground arith), λ (y, p, q, r). ground arith)
  ]

  -- Every entry was used before the moment `n`.
  abbrev pub UsedBefore : ℕ → Map K (CacheEntry V) → Type 0
  UsedBefore n m = All (λ x. x.1.last_used < n) m

  pub UsedBefore-remove :
      (n : ℕ) (k : K) (m : Map K (CacheEntry V)) → UsedBefore n m → UsedBefore n (Map.remove k m)
  unfolding Map.remove
  UsedBefore-remove n k [] h = h
  UsedBefore-remove n k (x ∷ m) h = ground (arith, UsedBefore-remove n k m h.1)

  pub UsedBefore-retain :
      (n : ℕ) (p : K → CacheEntry V → Bool) (m : Map K (CacheEntry V))
      → UsedBefore n m
      → UsedBefore n (Map.retain p m)
  unfolding Map.retain
  UsedBefore-retain n p [] h = h
  UsedBefore-retain n p (x ∷ m) h = ground (arith, UsedBefore-retain n p m h.1)

  -- The entry used last is not the next one to go.
  key_to_remove-newest :
      (k : K) (x : CacheEntry V) (y : K × CacheEntry V) (m : Map K (CacheEntry V))
      → UsedBefore x.last_used (y ∷ m)
      → key_to_remove ((k, x) ∷ y ∷ m) ≡ key_to_remove (y ∷ m)
  unfolding key_to_remove
  key_to_remove-newest k x y m h = ground (arith, min_by_last_used-cons (k, x) y m)

  key_to_remove-present :
      (j : K) (m : Map K (CacheEntry V)) → key_to_remove m ≡ some j → is_some (lookup j m) ≡ true
  unfolding key_to_remove
  key_to_remove-present j [] h = cc
  key_to_remove-present j (y ∷ m) h = ground (arith, lookup-min_by_last_used y m)

  remove-cons_present :
      (j k : K) (x : CacheEntry V) (m : Map K (CacheEntry V))
      → lookup k m ≡ none
      → is_some (lookup j m) ≡ true
      → Map.remove j ((k, x) ∷ m) ≡ (k, x) ∷ Map.remove j m
  unfolding Map.remove
  remove-cons_present j k x m fresh present = elim (Bool-cases (e.beq k j)) [
    | inl same ↦ let q : k ≡ j = (e.beq_iff k j).0 same in ground arith
    | inr differ ↦ rw differ
  ]

  -- However many entries are evicted, the one used last stays, while there is room for one.
  evict_loop-newest :
      (fuel n : ℕ) (k : K) (x : CacheEntry V) (m : Map K (CacheEntry V))
      → 0 < n
      → lookup k m ≡ none
      → UsedBefore x.last_used m
      → lookup k (evict_loop fuel n ((k, x) ∷ m)) ≡ some x
  unfolding evict_loop
  evict_loop-newest zero n k x m pos fresh before = unfold lookup in ground (arith, e.beq_iff k k)
  evict_loop-newest (suc fuel) n k x [] pos fresh before =
      unfold lookup in ground (arith, e.beq_iff k k)
  evict_loop-newest (suc fuel) n k x (y ∷ m) pos fresh before =
      elim (Option-cases (key_to_remove (y ∷ m))) [
        | inl none_left ↦
            unfold lookup in ground (arith, e.beq_iff k k, key_to_remove-newest k x y m before)
        | inr (j, next) ↦ elim (Bool-cases (ltb n (length ((k, x) ∷ y ∷ m)))) [
          | inl more ↦
              let present = key_to_remove-present j (y ∷ m) next in
              rw
                (
                  more,
                  key_to_remove-newest k x y m before,
                  next,
                  remove-cons_present j k x (y ∷ m) fresh present,
                )
                (evict_loop-newest fuel n k x (Map.remove j (y ∷ m)) pos
                  (ground (arith, lookup-remove j k (y ∷ m)))
                  (UsedBefore-remove x.last_used j (y ∷ m) before))
          | inr done ↦ rw done (unfold lookup in ground (arith, e.beq_iff k k))
        ]
      ]

  -- The counter is ahead of every entry.
  abbrev pub IsCounted : TtlLruCache K V → Type 0
  IsCounted c = UsedBefore (c.access_counter + 1) c.entries

  ttl-insert :
      (now : ℕ) (k : K) (v : V) (c : TtlLruCache K V) → (Cache.insert now k v c).ttl ≡ c.ttl
  unfolding Cache.insert Cache.evict_lru
  ttl-insert now k v c = ground arith

  retain-insert :
      (test : K → CacheEntry V → Bool) (k : K) (x : CacheEntry V) (m : Map K (CacheEntry V))
      → test k x ≡ true
      → Map.retain test (Map.insert k x m) ≡ (k, x) ∷ Map.retain test (Map.remove k m)
  unfolding Map.retain Map.insert
  retain-insert test k x m h = rw h

  -- The new entry is in the map after the evictions.
  pub lookup-insert_self :
      (now : ℕ) (k : K) (v : V) (c : TtlLruCache K V)
      → 0 < c.max_entries
      → IsCounted c
      → lookup k (Cache.insert now k v c).entries
        ≡ some (record { value = v; inserted_at = now; last_used = c.access_counter + 1 })
  unfolding Cache.insert Cache.evict_lru
  lookup-insert_self now k v c pos counted =
      let n = c.access_counter + 1 in
      let x : CacheEntry V = record { value = v; inserted_at = now; last_used = n } in
      let test : K → CacheEntry V → Bool = λ key entry. leb (now - entry.inserted_at) c.ttl in
      let rest = Map.retain test (Map.remove k c.entries) in
      let zero_no : (c.max_entries == 0) ≡ false = ground arith in
      rw (zero_no, retain-insert test k x c.entries (ground arith))
        (evict_loop-newest (length ((k, x) ∷ rest)) c.max_entries k x rest pos
          (lookup-retain-none test k (Map.remove k c.entries)
            (ground (arith, lookup-remove k k c.entries, e.beq_iff k k)))
          (UsedBefore-retain n test _ (UsedBefore-remove n k c.entries counted)))

  -- A read at the moment of the insertion finds the value, whatever was evicted for it, as long
  -- as the cache may hold an entry at all.
  pub get-insert :
      (now : ℕ) (k : K) (v : V) (c : TtlLruCache K V)
      → 0 < c.max_entries
      → IsCounted c
      → (Cache.get now k (Cache.insert now k v c)).0 ≡ some v
  get-insert now k v c pos counted =
      (get-eq-some_iff now k v (Cache.insert now k v c)).1
        (_, lookup-insert_self now k v c pos counted, omega arith, refl)
