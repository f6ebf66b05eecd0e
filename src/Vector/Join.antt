-- ===== src/Vector/Join.antt =====
-- What `Merge` and `Bump` compute: the join of two vectors, and one step of one counter.
use syncat.Prelude.{
  ltb, if◌then◌else◌, Bytes, bytes_eq, bytes_eq_refl, bytes_eq_iff, has, insert, IsMap, find-insert,
  insert-IsMap, ℕ, ◌+◌, ◌%◌, ◌≤◌, ◌<◌, max, ◌≡◌, refl, ◌↔◌, true, false, [], ◌∷◌, arith, bytes_key,
}
use syncat.Vector.{VersionVector, u64_mod, counter, equal, dominates, copy_into, raise, merge, bump}
use syncat.Vector.Order.{counter-absent, counter-cons, equal_iff, Below, dominates_iff}

pub counter-insert :
    (j : Bytes) (n : ℕ) (v : VersionVector) (k : Bytes)
    → counter (insert j n v) k ≡ (if bytes_eq j k then n else counter v k)
unfolding counter
counter-insert j n v k = ground (arith, find-insert j k n v)

counter-copy_into :
    (v out : VersionVector) (k : Bytes)
    → IsMap v
    → counter (copy_into v out) k ≡ (if has v k then counter v k else counter out k)
unfolding copy_into has
counter-copy_into [] out k w = refl
counter-copy_into ((j, n) ∷ v) out k w = ground (
  arith,
  counter-copy_into v (insert j n out) k w.1,
  counter-insert j n out k,
  counter-cons j n v k,
  bytes_eq_iff j k,
)

copy_into-IsMap : (v out : VersionVector) → IsMap out → IsMap (copy_into v out)
unfolding copy_into
copy_into-IsMap [] out w = w
copy_into-IsMap ((j, n) ∷ v) out w = copy_into-IsMap v _ (insert-IsMap j n out w)

-- A copy of a map has the map's counters.
counter-copy : (v : VersionVector) (k : Bytes) → IsMap v → counter (copy_into v []) k ≡ counter v k
counter-copy v k w =
    ground (arith, counter-copy_into v [] k w, counter-absent v k, counter-absent [] k, has-nil k)
  where
    has-nil : (k : Bytes) → has {V = ℕ} [] k ≡ false
    has-nil k = unfold has in refl

counter-raise :
    (b out : VersionVector) (k : Bytes)
    → IsMap b
    → counter (raise b out) k ≡ max (counter out k) (counter b k)
unfolding raise
counter-raise [] out k w = omega (arith, counter-absent [] k (unfold has in refl))
counter-raise ((j, n) ∷ b) out k w = ground (
  arith,
  counter-raise b (if ltb (counter out j) n then insert j n out else out) k w.1,
  counter-insert j n out k,
  counter-cons j n b k,
  counter-absent b j,
  bytes_eq_iff j k,
)

raise-IsMap : (b out : VersionVector) → IsMap out → IsMap (raise b out)
unfolding raise
raise-IsMap [] out w = w
raise-IsMap ((j, n) ∷ b) out w = raise-IsMap b _ (ground (arith, insert-IsMap j n out))

pub merge-IsMap : (a b : VersionVector) → IsMap (merge a b)
unfolding merge
merge-IsMap a b = raise-IsMap b _ (copy_into-IsMap a [] tt)

-- `Merge` takes the larger of the two counters at every key.
pub counter-merge :
    (a b : VersionVector) (k : Bytes)
    → IsMap a
    → IsMap b
    → counter (merge a b) k ≡ max (counter a k) (counter b k)
unfolding merge
counter-merge a b k wa wb = rw (counter-raise b (copy_into a []) k wb, counter-copy a k wa)

-- `Merge` is commutative up to `Equal`, whatever order the two maps are visited in.
pub merge_comm : (a b : VersionVector) → IsMap a → IsMap b → equal (merge a b) (merge b a) ≡ true
merge_comm a b wa wb =
    (equal_iff _ _ (merge-IsMap a b) (merge-IsMap b a)).1
      λ k. omega (arith, counter-merge a b k wa wb, counter-merge b a k wb wa)

-- `Merge` is associative up to `Equal`.
pub merge_assoc :
    (a b c : VersionVector)
    → IsMap a
    → IsMap b
    → IsMap c
    → equal (merge (merge a b) c) (merge a (merge b c)) ≡ true
merge_assoc a b c wa wb wc = (equal_iff _ _ (merge-IsMap _ c) (merge-IsMap a _)).1 λ k. omega (
  arith,
  counter-merge a b k wa wb,
  counter-merge b c k wb wc,
  counter-merge (merge a b) c k (merge-IsMap a b) wc,
  counter-merge a (merge b c) k wa (merge-IsMap b c),
)

-- `Merge(a, b)` is the least vector that is at or above both `a` and `b`.
pub merge-IsLub :
    (a b c : VersionVector)
    → IsMap a
    → IsMap b
    → (Below a (merge a b) × Below b (merge a b)) × ((Below a c × Below b c) ↔ Below (merge a b) c)
merge-IsLub a b c wa wb = (
  (λ k. omega (arith, at k), λ k. omega (arith, at k)),
  (
    λ (p, q) k. omega (arith, at k, p k, q k),
    λ h. (λ k. omega (arith, at k, h k), λ k. omega (arith, at k, h k)),
  ),
)
  where
    at : (k : Bytes) → counter (merge a b) k ≡ max (counter a k) (counter b k)
    at k = counter-merge a b k wa wb

pub bump-IsMap : (v : VersionVector) (node : Bytes) → IsMap (bump v node)
unfolding bump
bump-IsMap v node = insert-IsMap node _ _ (copy_into-IsMap v [] tt)

-- `Bump` adds one to the counter of one node, modulo 2^64, and touches no other.
pub counter-bump :
    (v : VersionVector) (node k : Bytes)
    → IsMap v
    → counter (bump v node) k
      ≡ (if bytes_eq node k then (counter v node + 1) % u64_mod else counter v k)
unfolding bump
counter-bump v node k w =
    rw (counter-insert node _ (copy_into v []) k, counter-copy v k w, counter-copy v node w)

-- Below the largest uint64, a bumped vector strictly dominates the one it was made from.
pub dominates-bump :
    (v : VersionVector) (node : Bytes)
    → IsMap v
    → counter v node + 1 < u64_mod
    → dominates (bump v node) v ≡ true
dominates-bump v node w room = (dominates_iff (bump v node) v).1 (
  λ k. ground (arith, counter-bump v node k w, bytes_eq_iff node k),
  (node, ground (arith, counter-bump v node node w, bytes_eq_refl node)),
)

-- At the largest uint64 the counter wraps to zero: the bumped vector is dominated by the old one.
pub bump_overflow :
    (v : VersionVector) (node : Bytes)
    → IsMap v
    → counter v node + 1 ≡ u64_mod
    → dominates v (bump v node) ≡ true
bump_overflow v node w full = (dominates_iff v (bump v node)).1 (
  λ k. ground (arith, counter-bump v node k w, bytes_eq_iff node k),
  (node, ground (arith, counter-bump v node node w, bytes_eq_refl node)),
)

-- Bumping the merge gives a version above both sides, as long as the counter has room.
pub dominates-bump-merge :
    (a b : VersionVector) (node : Bytes)
    → IsMap a
    → IsMap b
    → counter (merge a b) node + 1 < u64_mod
    → (dominates (bump (merge a b) node) a ≡ true) × (dominates (bump (merge a b) node) b ≡ true)
dominates-bump-merge a b node wa wb room = (above a (lub.0), above b (lub.1))
  where
    lub : Below a (merge a b) × Below b (merge a b)
    lub = (merge-IsLub a b [] wa wb).0

    step : (k : Bytes) → counter (merge a b) k ≤ counter (bump (merge a b) node) k
    step = ((dominates_iff _ _).0 (dominates-bump (merge a b) node (merge-IsMap a b) room)).0

    above : (v : VersionVector) → Below v (merge a b) → dominates (bump (merge a b) node) v ≡ true
    above v le = (dominates_iff _ v).1 (
      λ k. omega (arith, le k, step k),
      (
        node,
        ground (
          arith,
          le node,
          counter-bump (merge a b) node node (merge-IsMap a b),
          bytes_eq_refl node,
        ),
      ),
    )
