-- ===== src/Vector/Tests.antt =====
-- The theorems on version vectors at vectors that meet their hypotheses.
use syncat.Prelude.{
  Bytes, codes, bytes_eq, find, has, IsMap, ◌+◌, ◌-◌, ◌<◌, ◌≡◌, refl, ◌↔◌, true, [], ◌∷◌, arith,
  bytes_key,
}
use syncat.Vector.{VersionVector, u64_mod, counter, equal, dominates, concurrent, merge, bump}
use syncat.Vector.Order.{Below, StrictAt, dominates_iff, flag, trichotomy}
use syncat.Vector.Join.{merge-IsLub, dominates-bump, bump_overflow}

abbrev node_a : Bytes
node_a = codes "000000000000000a"

abbrev node_b : Bytes
node_b = codes "000000000000000b"

abbrev one_a : VersionVector
one_a = (node_a, 1) ∷ []

abbrev two_a : VersionVector
two_a = (node_a, 2) ∷ (node_b, 0) ∷ []

abbrev one_b : VersionVector
one_b = (node_b, 1) ∷ []

abbrev full_a : VersionVector
full_a = (node_a, u64_mod - 1) ∷ (node_b, 3) ∷ []

one_a-IsMap : IsMap one_a
unfolding has
one_a-IsMap = (refl, tt)

two_a-IsMap : IsMap two_a
unfolding has bytes_eq
two_a-IsMap = (refl, (refl, tt))

one_b-IsMap : IsMap one_b
unfolding has
one_b-IsMap = (refl, tt)

full_a-IsMap : IsMap full_a
unfolding has bytes_eq
full_a-IsMap = (refl, (refl, tt))

dominates_iff_example : (dominates two_a one_a ≡ true) ↔ (Below one_a two_a × StrictAt one_a two_a)
dominates_iff_example = dominates_iff two_a one_a

trichotomy_example :
    flag (equal two_a one_b)
      + flag (dominates two_a one_b)
      + flag (dominates one_b two_a)
      + flag (concurrent two_a one_b)
    ≡ 1
trichotomy_example = trichotomy two_a one_b

merge-IsLub_example :
    (Below two_a (merge two_a one_b) × Below one_b (merge two_a one_b))
    × ((Below two_a full_a × Below one_b full_a) ↔ Below (merge two_a one_b) full_a)
merge-IsLub_example = merge-IsLub two_a one_b full_a two_a-IsMap one_b-IsMap

two_a_room : counter two_a node_a + 1 < u64_mod
unfolding counter find bytes_eq
two_a_room = omega arith

dominates-bump_example : dominates (bump two_a node_a) two_a ≡ true
dominates-bump_example = dominates-bump two_a node_a two_a-IsMap two_a_room

full_a_last : counter full_a node_a + 1 ≡ u64_mod
unfolding counter find bytes_eq
full_a_last = refl

bump_overflow_example : dominates full_a (bump full_a node_a) ≡ true
bump_overflow_example = bump_overflow full_a node_a full_a-IsMap full_a_last
