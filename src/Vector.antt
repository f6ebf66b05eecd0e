-- ===== src/Vector.antt =====
-- The version-vector algebra of internal/sync/reconcile.go, over the `VersionVector` of
-- internal/protocol/message.go: a Go map from node ids to uint64 counters, in which a missing key
-- counts as zero.
pub mod Order
pub mod Join
mod Tests
use syncat.Prelude.{
  ltb, ◌==◌, if◌then◌else◌, Bytes, Dict, find, has, insert, ℕ, ◌+◌, ◌%◌, ◌^◌, Bool, true, false,
  ◌&&◌, not, Option, none, some, [], ◌∷◌, bytes_key,
}

abbrev pub VersionVector : Type 0
VersionVector = Dict Bytes ℕ

abbrev pub u64_mod : ℕ
u64_mod = 2 ^ 64

-- `v[k]`: the zero value for a missing key.
unfoldable pub counter : VersionVector → Bytes → ℕ
counter v k = elim (find v k) [ none ↦ 0 | some n ↦ n ]

-- `for k, av := range a { if b[k] != av { return false } }`
unfoldable pub agrees : VersionVector → VersionVector → Bool
agrees [] b = true
agrees ((k, av) ∷ a) b = if counter b k == av then agrees a b else false

unfoldable pub equal : VersionVector → VersionVector → Bool
equal a b = agrees a b && agrees b a

-- The first loop of `Dominates`, over the keys of `a`: `none` is its `return false`, otherwise the
-- final value of `strict`.
unfoldable pub compare_keys : VersionVector → VersionVector → VersionVector → Bool → Option Bool
compare_keys [] a b strict = some strict
compare_keys ((k, _) ∷ rest) a b strict =
    let onward = compare_keys rest a b (if ltb (counter b k) (counter a k) then true else strict) in
    if ltb (counter a k) (counter b k) then none else onward

-- The second loop, over the keys of `b` that `a` does not have.
unfoldable pub covers_missing : VersionVector → VersionVector → VersionVector → Bool
covers_missing [] a b = true
covers_missing ((k, _) ∷ rest) a b =
    if has a k
    then covers_missing rest a b
    else if ltb (counter a k) (counter b k)
    then false
    else covers_missing rest a b

-- `return strict` once both loops have passed.
abbrev pub verdict : Option Bool → Bool → Bool
verdict none covered = false
verdict (some strict) covered = if covered then strict else false

unfoldable pub dominates : VersionVector → VersionVector → Bool
dominates a b = verdict (compare_keys a a b false) (covers_missing b a b)

unfoldable pub concurrent : VersionVector → VersionVector → Bool
concurrent a b = not (equal a b) && not (dominates a b) && not (dominates b a)

-- A loop `for k, val := range v { out[k] = val }`.
unfoldable pub copy_into : VersionVector → VersionVector → VersionVector
copy_into [] out = out
copy_into ((k, n) ∷ v) out = copy_into v (insert k n out)

-- `for k, v := range b { if v > out[k] { out[k] = v } }`
unfoldable pub raise : VersionVector → VersionVector → VersionVector
raise [] out = out
raise ((k, n) ∷ b) out = raise b (if ltb (counter out k) n then insert k n out else out)

unfoldable pub merge : VersionVector → VersionVector → VersionVector
merge a b = raise b (copy_into a [])

-- `out[nodeID] + 1` is a uint64 addition.
unfoldable pub bump : VersionVector → Bytes → VersionVector
bump v node = let out = copy_into v [] in insert node ((counter out node + 1) % u64_mod) out
