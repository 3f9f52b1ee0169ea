-- ===== src/Server/Handlers/Paths.antt =====
-- The comparisons of paths that `rename_entry` makes: `starts_with` and equality, by components.
use remote_file_system_in_ru.Base.{
  ◌≡◌, ◌↔◌, refl, true, [], ◌∷◌, ◌++◌, Bool-cases, inl, inr, append-nil,
}
use remote_file_system_in_ru.Base.Bytes.{bytes_eq, bytes_eq_iff}
use remote_file_system_in_ru.FileSystem.{FilePath}
use remote_file_system_in_ru.Server.Handlers.{starts_with, path_eq}

pub starts_with_iff :
    (path base : FilePath)
    → (starts_with path base ≡ true) ↔ ((rest : FilePath) × (path ≡ base ++ rest))
unfolding starts_with
starts_with_iff path [] = (λ _. (path, refl), λ _. refl)
starts_with_iff [] (q ∷ base) = (λ h. absurd (cc h), λ (rest, h). absurd (cc h))
starts_with_iff (p ∷ path) (q ∷ base) =
    let (to, from) = starts_with_iff path base in
    let (same, only) = bytes_eq_iff p q in
    elim (Bool-cases (bytes_eq p q)) [
      | inl e ↦ (
        λ h. let (rest, r) = to (rw e at h) in (rest, rw (same e, r) refl),
        λ (rest, h). rw e (from (rest, cc h)),
      )
      | inr e ↦ (λ h. absurd (cc (rw e at h)), λ (rest, h). absurd (let k = only (cc h) in cc))
    ]

pub starts_with_self : (path : FilePath) → starts_with path path ≡ true
starts_with_self path = (starts_with_iff path path).1 ([], rw append-nil refl)

pub path_eq_iff : (a b : FilePath) → (path_eq a b ≡ true) ↔ (a ≡ b)
unfolding path_eq
path_eq_iff [] [] = (λ _. refl, λ _. refl)
path_eq_iff [] (q ∷ b) = (λ h. absurd (cc h), λ h. absurd (cc h))
path_eq_iff (p ∷ a) [] = (λ h. absurd (cc h), λ h. absurd (cc h))
path_eq_iff (p ∷ a) (q ∷ b) =
    let (to, from) = path_eq_iff a b in
    let (same, only) = bytes_eq_iff p q in
    elim (Bool-cases (bytes_eq p q)) [
      | inl e ↦ (λ h. rw (same e, to (rw e at h)) refl, λ h. rw e (from (cc h)))
      | inr e ↦ (λ h. absurd (cc (rw e at h)), λ h. absurd (let k = only (cc h) in cc))
    ]
