-- ===== src/Semver/Range/Matches.antt =====
-- What `VersionRange::matches` accepts: an interval of the precedence order.
use vxx.Prelude.{◌≡◌, ◌≢◌, refl, true, List, [], ◌∷◌, arith}
use vxx.Prelude.Order.{Ordering, Chains}
use vxx.Semver.Types.{
  SemanticVersion, VersionComparatorOperator, equal, VersionComparator, VersionRange,
}
use vxx.Semver.Compare.{compare_semantic_version}
use vxx.Semver.Compare.Laws.{compare_semantic_version-IsOrder}
use vxx.Semver.Range.{holds, compare_matches, all_match, matches}

holds-between :
    (op : VersionComparatorOperator) (ab bc av bv cv : Ordering)
    → Chains ab bv av
    → Chains bc cv bv
    → ab ≢ Ordering.gt
    → bc ≢ Ordering.gt
    → holds op av ≡ true
    → holds op cv ≡ true
    → holds op bv ≡ true
unfolding holds
holds-between equal Ordering.lt Ordering.lt av Ordering.lt cv h k n m p q = ground arith
holds-between op ab bc av bv cv h k n m p q = ground arith

compare_matches-between :
    (c : VersionComparator) (x y z : SemanticVersion)
    → compare_semantic_version x y ≢ Ordering.gt
    → compare_semantic_version y z ≢ Ordering.gt
    → compare_matches x c ≡ true
    → compare_matches z c ≡ true
    → compare_matches y c ≡ true
unfolding compare_matches
compare_matches-between c x y z n m p q =
    let o = compare_semantic_version-IsOrder in
    holds-between c.op _ _ _ _ _ (o.chains x y c.version) (o.chains y z c.version) n m p q

all_match-between :
    (cs : List VersionComparator) (x y z : SemanticVersion)
    → compare_semantic_version x y ≢ Ordering.gt
    → compare_semantic_version y z ≢ Ordering.gt
    → all_match x cs ≡ true
    → all_match z cs ≡ true
    → all_match y cs ≡ true
unfolding all_match
all_match-between [] x y z n m p q = refl
all_match-between (c ∷ cs) x y z n m p q =
    ground (arith, compare_matches-between c x y z n m, all_match-between cs x y z n m)

-- A range is an interval: if two versions match, so does every version between them in the
-- precedence order.
pub matches-between :
    (r : VersionRange) (x y z : SemanticVersion)
    → compare_semantic_version x y ≢ Ordering.gt
    → compare_semantic_version y z ≢ Ordering.gt
    → matches r x ≡ true
    → matches r z ≡ true
    → matches r y ≡ true
unfolding matches
matches-between r x y z n m p q = ground (arith, all_match-between r.comparators x y z n m)
