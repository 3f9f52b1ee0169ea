-- ===== src/Text/Slashes/Laws.antt =====
-- Splitting and trimming: pieces hold no slash, and joined names split and trim to themselves.
use remote_file_system_in_ru.Base.{
  ℕ, ◌≡◌, ◌≢◌, refl, ◌∙◌, List, [], ◌∷◌, ◌++◌, arith, ◌==◌, All, inl, inr, Bool-cases,
}
use remote_file_system_in_ru.Base.Bytes.{Bytes}
use remote_file_system_in_ru.Text.Slashes.{
  slash, trim_start, trim_cons, trim_end, trim_matches, cons_head, split, join, NoSlash, IsNormal,
}

cons_head-NoSlash :
    (c : ℕ) (pieces : List Bytes)
    → c ≢ slash
    → All NoSlash pieces
    → All NoSlash (cons_head c pieces)
unfolding cons_head
cons_head-NoSlash c [] h all = ((h, tt), tt)
cons_head-NoSlash c (piece ∷ pieces) h all = ((h, all.0), all.1)

-- No piece holds a slash.
pub split-NoSlash : (s : Bytes) → All NoSlash (split s)
unfolding split
split-NoSlash [] = (tt, tt)
split-NoSlash (c ∷ s) = elim (Bool-cases (c == slash)) [
  | inl bar ↦ rw bar (tt, split-NoSlash s)
  | inr other ↦ rw other (cons_head-NoSlash c (split s) (ground arith) (split-NoSlash s))
]

split_of_NoSlash : (s : Bytes) → NoSlash s → split s ≡ s ∷ []
unfolding split
split_of_NoSlash [] h = refl
split_of_NoSlash (c ∷ s) h = ground (arith, split_of_NoSlash s h.1)

split-append : (s t : Bytes) → NoSlash s → split (s ++ slash ∷ t) ≡ s ∷ split t
unfolding split
split-append [] t h = refl
split-append (c ∷ s) t h = ground (arith, split-append s t h.1)

-- Pieces without slashes are found again.
pub split-join :
    (piece : Bytes) (pieces : List Bytes)
    → All NoSlash (piece ∷ pieces)
    → split (join (piece ∷ pieces)) ≡ piece ∷ pieces
unfolding join
split-join piece [] h = split_of_NoSlash piece h.0
split-join piece (next ∷ pieces) h =
    split-append piece (join (next ∷ pieces)) h.0 ∙ rw (split-join next pieces h.1)

trim_end_of_NoSlash : (s : Bytes) → NoSlash s → trim_end s ≡ s
unfolding trim_end
trim_end_of_NoSlash [] h = refl
trim_end_of_NoSlash (c ∷ []) h = ground arith
trim_end_of_NoSlash (c ∷ d ∷ s) h = rw (trim_end_of_NoSlash (d ∷ s) h.1)

trim_cons-append : (c : ℕ) (s t : Bytes) → t ≢ [] → trim_cons c (s ++ t) ≡ c ∷ s ++ t
unfolding trim_cons
trim_cons-append c [] [] h = absurd (h refl)
trim_cons-append c [] (d ∷ t) h = refl
trim_cons-append c (d ∷ s) t h = refl

trim_end-append : (s t : Bytes) → t ≢ [] → trim_end t ≡ t → trim_end (s ++ t) ≡ s ++ t
unfolding trim_end
trim_end-append [] t some_text h = h
trim_end-append (c ∷ s) t some_text h =
    rw (trim_end-append s t some_text h) (trim_cons-append c s t some_text)

join-ne-nil : (piece : Bytes) (pieces : List Bytes) → IsNormal piece → join (piece ∷ pieces) ≢ []
unfolding join
join-ne-nil [] pieces h e = h.not_empty refl
join-ne-nil (c ∷ piece) [] h e = cc
join-ne-nil (c ∷ piece) (next ∷ pieces) h e = cc

trim_end-join :
    (piece : Bytes) (pieces : List Bytes)
    → All IsNormal (piece ∷ pieces)
    → trim_end (join (piece ∷ pieces)) ≡ join (piece ∷ pieces)
unfolding join
trim_end-join piece [] h = trim_end_of_NoSlash piece h.0.no_slash
trim_end-join piece (next ∷ pieces) h =
    let rest = join (next ∷ pieces) in
    trim_end-append piece (slash ∷ rest) (λ e. cc)
      (trim_end-append (slash ∷ []) rest (join-ne-nil next pieces h.1.0)
        (trim_end-join next pieces h.1))

trim_start-join :
    (piece : Bytes) (pieces : List Bytes)
    → IsNormal piece
    → trim_start (join (piece ∷ pieces)) ≡ join (piece ∷ pieces)
unfolding join trim_start
trim_start-join [] pieces h = absurd (h.not_empty refl)
trim_start-join (c ∷ piece) [] h = let other = h.no_slash.0 in ground arith
trim_start-join (c ∷ piece) (next ∷ pieces) h = let other = h.no_slash.0 in ground arith

-- A path of names has nothing to trim.
pub trim_matches-join :
    (piece : Bytes) (pieces : List Bytes)
    → All IsNormal (piece ∷ pieces)
    → trim_matches (join (piece ∷ pieces)) ≡ join (piece ∷ pieces)
unfolding trim_matches
trim_matches-join piece pieces h =
    rw (trim_end-join piece pieces h) (trim_start-join piece pieces h.0)

-- What is left after trimming does not begin with a slash.
pub trim_start-head : (s t : Bytes) (c : ℕ) → trim_start s ≡ c ∷ t → c ≢ slash
unfolding trim_start
trim_start-head [] t c h = absurd (cc)
trim_start-head (d ∷ s) t c h = ground (arith, trim_start-head s t c)
