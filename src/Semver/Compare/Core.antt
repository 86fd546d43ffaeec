-- ===== src/Semver/Compare/Core.antt =====
-- What the precedence says of the three numbers of two versions.
use vxx.Prelude.{ℕ, ◌≤◌, ◌<◌, ◌≡◌, ◌≢◌, ◌⊎◌, inl, inr, List, [], arith, ◌==◌, Bool-cases}
use vxx.Prelude.Order.{Ordering}
use vxx.Prelude.Bytes.{Bytes}
use vxx.Semver.Types.{SemanticVersion}
use vxx.Semver.Compare.{
  compare_numbers, compare_prerelease, compare_shared, compare_semantic_version,
}

-- The numbers of v are at most those of w, compared from the left.
abbrev pub LexLe : SemanticVersion → SemanticVersion → Type 0
LexLe v w =
    (v.major < w.major)
    ⊎ (v.major ≡ w.major) × ((v.minor < w.minor) ⊎ (v.minor ≡ w.minor) × (v.patch ≤ w.patch))

-- The numbers of w are below those of u, compared from the left.
abbrev pub LexLt : SemanticVersion → SemanticVersion → Type 0
LexLt w u =
    (w.major < u.major)
    ⊎ (w.major ≡ u.major) × ((w.minor < u.minor) ⊎ (w.minor ≡ u.minor) × (w.patch < u.patch))

numbers-ne-lt :
    (a b : ℕ) (o : Ordering)
    → compare_numbers a b o ≢ Ordering.lt
    → (b < a) ⊎ (b ≡ a) × (o ≢ Ordering.lt)
unfolding compare_numbers
numbers-ne-lt a b o h = elim (Bool-cases (a == b)) [
  | inl same ↦ inr (ground arith, λ e. h (ground arith))
  | inr other ↦ inl (ground arith)
]

numbers-eq-lt :
    (a b : ℕ) (o : Ordering)
    → compare_numbers a b o ≡ Ordering.lt
    → (a < b) ⊎ (a ≡ b) × (o ≡ Ordering.lt)
unfolding compare_numbers
numbers-eq-lt a b o h = elim (Bool-cases (a == b)) [
  | inl same ↦ inr (ground arith, ground arith)
  | inr other ↦ inl (ground arith)
]

pub LexLe-of_compare :
    (v w : SemanticVersion) → compare_semantic_version w v ≢ Ordering.lt → LexLe v w
unfolding compare_semantic_version
LexLe-of_compare v w h = elim (numbers-ne-lt w.major v.major _ h) [
  | inl major ↦ inl major
  | inr (major, h2) ↦ elim (numbers-ne-lt w.minor v.minor _ h2) [
    | inl minor ↦ inr (major, inl minor)
    | inr (minor, h3) ↦ elim (numbers-ne-lt w.patch v.patch _ h3) [
      | inl patch ↦ inr (major, inr (minor, omega arith))
      | inr (patch, h4) ↦ inr (major, inr (minor, omega arith))
    ]
  ]
]

no_prerelease-eq : (l r : List Bytes) → l ≡ [] → r ≡ [] → compare_prerelease l r ≢ Ordering.lt
unfolding compare_prerelease compare_shared
no_prerelease-eq l r p q = rw (p, q) (λ e. cc)

pub LexLt-of_compare :
    (w u : SemanticVersion)
    → w.prerelease ≡ []
    → u.prerelease ≡ []
    → compare_semantic_version w u ≡ Ordering.lt
    → LexLt w u
unfolding compare_semantic_version
LexLt-of_compare w u p q h = elim (numbers-eq-lt w.major u.major _ h) [
  | inl major ↦ inl major
  | inr (major, h2) ↦ elim (numbers-eq-lt w.minor u.minor _ h2) [
    | inl minor ↦ inr (major, inl minor)
    | inr (minor, h3) ↦ elim (numbers-eq-lt w.patch u.patch _ h3) [
      | inl patch ↦ inr (major, inr (minor, patch))
      | inr (patch, h4) ↦ absurd (no_prerelease-eq w.prerelease u.prerelease p q h4)
    ]
  ]
]

numbers-lt :
    (a b : ℕ) (o : Ordering)
    → (a < b) ⊎ (a ≡ b) × (o ≡ Ordering.lt)
    → compare_numbers a b o ≡ Ordering.lt
unfolding compare_numbers
numbers-lt a b o (inl below) = ground arith
numbers-lt a b o (inr (same, rest)) = ground arith

pub compare-of_LexLt :
    (w u : SemanticVersion) → LexLt w u → compare_semantic_version w u ≡ Ordering.lt
unfolding compare_semantic_version
compare-of_LexLt w u (inl major) = numbers-lt w.major u.major _ (inl major)
compare-of_LexLt w u (inr (major, inl minor)) =
    numbers-lt w.major u.major _ (inr (major, numbers-lt w.minor u.minor _ (inl minor)))
compare-of_LexLt w u (inr (major, inr (minor, patch))) = numbers-lt w.major u.major _ (
    inr
      (major, numbers-lt w.minor u.minor _ (inr (minor, numbers-lt w.patch u.patch _ (inl patch)))))
