-- ===== src/Registry/Scan.antt =====
-- The loop over the entries of a package: what it selects.
use mathlib.Core.Path.{subst}
use vxx.Prelude.{
  ◌≡◌, ◌≢◌, ◌⊎◌, refl, ◌∙◌, inl, inr, ap, true, false, not, ◌||◌, Option, none, some, List, [], ◌∷◌,
  arith, Bool-cases,
}
use vxx.Prelude.Order.{Ordering, Chains, flip}
use vxx.Prelude.Bytes.{Bytes, equal}
use vxx.Semver.Types.{SemanticVersion, VersionRange, Result, ok, err}
use vxx.Semver.Compare.{compare_semantic_version}
use vxx.Semver.Compare.Laws.{compare_semantic_version-IsOrder}
use vxx.Semver.Parse.{parse}
use vxx.Semver.Range.{matches}
use vxx.Registry.{
  ManifestFile, absent, unreadable, contents, DirectoryEntry, RegistryCandidate, Outcome, done,
  thrown, is_greater, is_better, replace, check_manifest, with_version, consider, and_on, scan,
}

abbrev pub Among : DirectoryEntry → List DirectoryEntry → Type 0
Among entry [] = ⊥
Among entry (e ∷ es) = (entry ≡ e) ⊎ Among entry es

-- No smaller than a version.
abbrev pub AtLeast : SemanticVersion → Option RegistryCandidate → Type 0
AtLeast v none = ⊥
AtLeast v (some c) = compare_semantic_version v c.version ≢ Ordering.gt

-- A property of the value, if there is one.
abbrev pub OnDone :
    (Option RegistryCandidate → Type 0) → Outcome (Option RegistryCandidate) → Type 0
OnDone P (done selected) = P selected
OnDone P (thrown e) = Unit

below_lt : (vc vw : Ordering) → Chains vc Ordering.lt vw → vc ≢ Ordering.gt → vw ≢ Ordering.gt
below_lt Ordering.lt vw h n = ground arith
below_lt Ordering.eq vw h n = ground arith
below_lt Ordering.gt vw h n = absurd (n refl)

is_greater-gt : (o : Ordering) → is_greater o ≡ true → o ≡ Ordering.gt
unfolding is_greater
is_greater-gt Ordering.gt h = refl
is_greater-gt Ordering.eq h = ground arith
is_greater-gt Ordering.lt h = ground arith

is_greater-ne-gt : (o : Ordering) → is_greater o ≡ false → o ≢ Ordering.gt
unfolding is_greater
is_greater-ne-gt o h e = ground arith

-- A version that is at least another one stays so below a greater one.
raise :
    (v c w : SemanticVersion)
    → is_greater (compare_semantic_version w c) ≡ true
    → compare_semantic_version v c ≢ Ordering.gt
    → compare_semantic_version v w ≢ Ordering.gt
raise v c w h n =
    let o = compare_semantic_version-IsOrder in
    let below : compare_semantic_version c w ≡ Ordering.lt =
      o.flips w c ∙ ap flip (is_greater-gt _ h) in
    below_lt (compare_semantic_version v c) (compare_semantic_version v w)
      (subst (λ x. Chains (compare_semantic_version v c) x (compare_semantic_version v w)) below
        (o.chains v c w))
      n

at_least_itself : (v : SemanticVersion) → compare_semantic_version v v ≢ Ordering.gt
at_least_itself v h = let e = compare_semantic_version-IsOrder.flips v v in ground arith

and_on-OnDone :
    (P Q : Option RegistryCandidate → Type 0) (one : Outcome (Option RegistryCandidate))
    (rest : Option RegistryCandidate → Outcome (Option RegistryCandidate))
    → OnDone P one
    → ((next : Option RegistryCandidate) → P next → OnDone Q (rest next))
    → OnDone Q (and_on one rest)
unfolding and_on
and_on-OnDone P Q (done selected) rest h k = k selected h
and_on-OnDone P Q (thrown e) rest h k = tt

module _ (name : Bytes) (range : VersionRange) where
  replace-AtLeast :
      (entry : DirectoryEntry) (w v : SemanticVersion) (selected : Option RegistryCandidate)
      → AtLeast v selected
      → AtLeast v (replace entry w selected)
  unfolding replace is_better
  replace-AtLeast entry w v none h = absurd h
  replace-AtLeast entry w v (some c) h =
      elim (Bool-cases (is_greater (compare_semantic_version w c.version))) [
        | inl greater ↦ rw greater (raise v c.version w greater h)
        | inr other ↦ rw other h
      ]

  replace-itself :
      (entry : DirectoryEntry) (v : SemanticVersion) (selected : Option RegistryCandidate)
      → AtLeast v (replace entry v selected)
  unfolding replace is_better
  replace-itself entry v none = at_least_itself v
  replace-itself entry v (some c) =
      elim (Bool-cases (is_greater (compare_semantic_version v c.version))) [
        | inl greater ↦ rw greater (at_least_itself v)
        | inr other ↦ rw other (is_greater-ne-gt _ other)
      ]

  -- What holds of the selection before and of the replacement holds after an entry.
  check_manifest-OnDone :
      (P : Option RegistryCandidate → Type 0) (entry : DirectoryEntry) (w : SemanticVersion)
      (file : ManifestFile) (selected : Option RegistryCandidate)
      → P (replace entry w selected)
      → OnDone P (check_manifest name entry w file selected)
  unfolding check_manifest
  check_manifest-OnDone P entry w absent selected h = tt
  check_manifest-OnDone P entry w unreadable selected h = tt
  check_manifest-OnDone P entry w (contents m) selected h =
      elim (Bool-cases (not (equal m.name name) || not (equal m.version entry.filename))) [
        | inl bad ↦ rw bad tt
        | inr good ↦ rw good h
      ]

  with_version-OnDone :
      (P : Option RegistryCandidate → Type 0) (entry : DirectoryEntry)
      (read : Result SemanticVersion) (selected : Option RegistryCandidate)
      → P selected
      → ((w : SemanticVersion)
          → read ≡ ok w
          → matches range w ≡ true
          → P (replace entry w selected))
      → OnDone P (with_version name range entry read selected)
  unfolding with_version
  with_version-OnDone P entry (err e) selected h k = h
  with_version-OnDone P entry (ok w) selected h k = elim (Bool-cases (matches range w)) [
    | inl matching ↦
        rw matching
          (check_manifest-OnDone P entry w entry.manifest_file selected (k w refl matching))
    | inr other ↦ rw other h
  ]

  consider-OnDone :
      (P : Option RegistryCandidate → Type 0) (entry : DirectoryEntry)
      (selected : Option RegistryCandidate)
      → P selected
      → ((w : SemanticVersion)
          → entry.is_directory ≡ true
          → parse entry.filename ≡ ok w
          → matches range w ≡ true
          → P (replace entry w selected))
      → OnDone P (consider name range entry selected)
  unfolding consider
  consider-OnDone P entry selected h k = elim (Bool-cases entry.is_directory) [
    | inr file ↦ simp file h
    | inl directory ↦
        simp directory (
          with_version-OnDone P entry (parse entry.filename) selected h
            (λ w e m. k w directory e m))
  ]

  pub scan-OnDone :
      (P : Option RegistryCandidate → Type 0) (entries : List DirectoryEntry)
      (selected : Option RegistryCandidate)
      → P selected
      → ((entry : DirectoryEntry) (w : SemanticVersion) (before : Option RegistryCandidate)
          → Among entry entries
          → entry.is_directory ≡ true
          → parse entry.filename ≡ ok w
          → matches range w ≡ true
          → P before
          → P (replace entry w before))
      → OnDone P (scan name range entries selected)
  unfolding scan
  scan-OnDone P [] selected h k = h
  scan-OnDone P (entry ∷ entries) selected h k =
      and_on-OnDone P P (consider name range entry selected) (λ next. scan name range entries next)
        (consider-OnDone P entry selected h (λ w d e m. k entry w selected (inl refl) d e m h))
        (λ next there.
          scan-OnDone P entries next there (λ other w before among. k other w before (inr among)))

  consider-AtLeast :
      (entry : DirectoryEntry) (v : SemanticVersion) (selected : Option RegistryCandidate)
      → entry.is_directory ≡ true
      → parse entry.filename ≡ ok v
      → matches range v ≡ true
      → OnDone (AtLeast v) (consider name range entry selected)
  unfolding consider with_version
  consider-AtLeast entry v selected d e m =
      simp (d, e, m)
        (check_manifest-OnDone (AtLeast v) entry v entry.manifest_file selected
          (replace-itself entry v selected))

  -- The version of an entry is not above what is selected in the end.
  pub scan-AtLeast :
      (entries : List DirectoryEntry) (selected : Option RegistryCandidate) (entry : DirectoryEntry)
      (v : SemanticVersion)
      → Among entry entries
      → entry.is_directory ≡ true
      → parse entry.filename ≡ ok v
      → matches range v ≡ true
      → OnDone (AtLeast v) (scan name range entries selected)
  unfolding scan
  scan-AtLeast [] selected entry v among d e m = absurd among
  scan-AtLeast (first ∷ entries) selected entry v (inr among) d e m =
      and_on-OnDone (λ next. Unit) (AtLeast v) (consider name range first selected)
        (λ next. scan name range entries next)
        (consider-OnDone (λ next. Unit) first selected tt (λ w a b c. tt))
        (λ next there. scan-AtLeast entries next entry v among d e m)
  scan-AtLeast (first ∷ entries) selected entry v (inl same) d e m =
      and_on-OnDone (AtLeast v) (AtLeast v) (consider name range first selected)
        (λ next. scan name range entries next)
        (subst (λ x. OnDone (AtLeast v) (consider name range x selected)) same
          (consider-AtLeast entry v selected d e m))
        (λ next there.
          scan-OnDone (AtLeast v) entries next there
            (λ other w before a b c f h. replace-AtLeast other w v before h))
