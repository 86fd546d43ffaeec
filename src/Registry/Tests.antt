-- ===== src/Registry/Tests.antt =====
-- The choice of a version on a concrete registry.
use vxx.Prelude.{ℕ, ◌≡◌, ◌≢◌, refl, true, false, some, List, [], ◌∷◌, inl}
use vxx.Prelude.Order.{Ordering}
use vxx.Prelude.Bytes.{Bytes, codes, equal, span}
use vxx.Semver.Types.{SemanticVersion, VersionRange, greater_or_equal, less, ok}
use vxx.Semver.Compare.{compare_semantic_version}
use vxx.Semver.Parse.{parse}
use vxx.Semver.Range.{parse_range, parse_token, matches, compare_matches, caret_upper_bound}
use vxx.Registry.{
  DirectoryEntry, RegistryCandidate, ManifestFile, contents, absent, done, materialize_registry,
  in_range, chosen, scan, consider, and_on, with_version, check_manifest, replace, is_better,
  is_greater,
}
use vxx.Registry.Selection.{
  IsEntryOf, materialize_registry-greatest, materialize_registry-IsEntryOf,
}

abbrev directory : Bytes → ManifestFile → DirectoryEntry
directory filename file = record {
  is_directory = true;
  filename = filename;
  path = codes "/r/";
  manifest_file = file;
}

abbrev released : Bytes → DirectoryEntry
released version =
    directory version (contents (record { name = codes "sqlite"; version = version }))

-- The directory of the version out of the range has no manifest.
abbrev entries : List DirectoryEntry
entries =
    released (codes "1.2.0") ∷ released (codes "1.10.0") ∷ directory (codes "2.0.0") absent ∷ []

abbrev plain : ℕ → ℕ → ℕ → SemanticVersion
plain x y z = record { major = x; minor = y; patch = z; prerelease = []; build = [] }

abbrev best : RegistryCandidate
best = record { version = plain 1 10 0; version_text = codes "1.10.0"; path = codes "/r/" }

abbrev range : VersionRange
range = record {
  any = false;
  comparators =
      record { op = greater_or_equal; version = plain 1 2 0 }
      ∷ record { op = less; version = plain 2 0 0 }
      ∷ [];
}

read_range : parse_range (codes "^1.2.0") ≡ ok range
unfolding parse_range parse_token caret_upper_bound parse span equal
read_range = refl

found_best : materialize_registry (codes "sqlite") (codes "^1.2.0") (some entries) ≡ done best
unfolding materialize_registry in_range chosen scan consider and_on with_version check_manifest
    replace is_better is_greater matches compare_matches compare_semantic_version parse_range
    parse_token caret_upper_bound parse span equal
found_best = refl

read_entry : parse (codes "1.2.0") ≡ ok (plain 1 2 0)
unfolding parse span
read_entry = refl

entry_matches : matches range (plain 1 2 0) ≡ true
unfolding matches compare_matches compare_semantic_version
entry_matches = refl

materialize_registry-greatest_example :
    compare_semantic_version (plain 1 2 0) best.version ≢ Ordering.gt
materialize_registry-greatest_example =
    materialize_registry-greatest (codes "sqlite") (codes "^1.2.0") entries best range
      (released (codes "1.2.0")) (plain 1 2 0) found_best read_range (inl refl) refl read_entry
      entry_matches

materialize_registry-IsEntryOf_example : IsEntryOf entries range best
materialize_registry-IsEntryOf_example =
    materialize_registry-IsEntryOf (codes "sqlite") (codes "^1.2.0") entries best range found_best
      read_range
