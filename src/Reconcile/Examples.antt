-- ===== src/Reconcile/Examples.antt =====
-- The theorems of the reconciler at rows that meet their hypotheses: one path that two nodes
-- changed apart, with different contents and with the same.
use syncat.Prelude.{
  All, Bytes, codes, bytes_eq, has_prefix, contains_byte, find, has, insert, IsMap, pos, ◌+◌, ◌<◌,
  ◌≡◌, refl, ◌≢◌, ◌⊎◌, Bool, true, false, ◌||◌, none, some, [], ◌∷◌, arith, bytes_key,
}
use syncat.Vector.{u64_mod, counter, copy_into, raise, merge}
use syncat.Path.{
  member, is_reserved_name, has_control, check_element, check_elements, validate_rel_path,
}
use syncat.Path.Split.{split}
use syncat.Path.Valid.{IsSafePath}
use syncat.Reconcile.{
  file_type_file, file_type_symlink, FileInfo, Direction, nothing, pull, delete_file, resurrect,
  conflict_copy, source_remote,
}
use syncat.Reconcile.Decide.{reconcile_concurrent, reconcile_one}
use syncat.Reconcile.Pass.{reconcile_path, reconcile}
use syncat.Reconcile.Order.{IsAscending, has_row, reconciled_paths, reconcile_covers}
use syncat.Reconcile.Keep.{fetches_what_peer_has, receive_only_proposes_nothing}
use syncat.Reconcile.Converge.{both_ways}
use syncat.Reconcile.Settle.{resolution_spreads}
use syncat.Reconcile.Safety.{IsQuiet, reconcile_safe, ignored_left_alone}

abbrev node_a : Bytes
node_a = codes "000000000000000a"

abbrev node_b : Bytes
node_b = codes "000000000000000b"

abbrev name : Bytes
name = codes "notes.txt"

abbrev ours : FileInfo
ours = record {
  rel_path = name;
  type = file_type_file;
  size = pos 3;
  mtime_ns = pos 10;
  mode = 0o644;
  sha256 = codes "0123456789abcdef0123456789abcdef";
  version = (node_a, 2) ∷ [];
  deleted = false;
}

abbrev theirs : FileInfo
theirs = record ours {
  mtime_ns = pos 20;
  sha256 = codes "fedcba9876543210fedcba9876543210";
  version = (node_a, 1) ∷ (node_b, 1) ∷ [];
}

abbrev same_bytes : FileInfo
same_bytes = record theirs { sha256 = ours.sha256 }

abbrev evil : FileInfo
evil = record theirs { rel_path = codes "../etc/passwd" }

abbrev offers_read_only : Direction
offers_read_only = record { inbound_blocked = true; outbound_blocked = false }

abbrev receives_only : Direction
receives_only = record { inbound_blocked = false; outbound_blocked = true }

abbrev ignores_all : Bytes → Bool → Bool
ignores_all p is_dir = true

ours-IsMap : IsMap ours.version
unfolding has
ours-IsMap = (refl, tt)

theirs-IsMap : IsMap theirs.version
unfolding has bytes_eq
theirs-IsMap = (refl, (refl, tt))

reconcile_safe_example :
    All
      (λ a. IsQuiet a ⊎ IsSafePath a.rel_path)
      (reconcile (ours ∷ []) (theirs ∷ evil ∷ []) node_a both_ways (pos 30) none)
reconcile_safe_example =
    reconcile_safe (ours ∷ []) (theirs ∷ evil ∷ []) node_a both_ways (pos 30) none

reconcile_covers_example :
    IsAscending (reconciled_paths (ours ∷ []) (theirs ∷ evil ∷ []) node_a both_ways (pos 30) none)
    × ((p : Bytes)
        → member p
            (reconciled_paths (ours ∷ []) (theirs ∷ evil ∷ []) node_a both_ways (pos 30) none)
          ≡ (has_row p (ours ∷ []) || has_row p (theirs ∷ evil ∷ [])))
reconcile_covers_example =
    reconcile_covers (ours ∷ []) (theirs ∷ evil ∷ []) node_a both_ways (pos 30) none

ignored_left_alone_example :
    (reconcile_path [] ((name, theirs) ∷ []) node_a both_ways (pos 30) (some ignores_all) name).kind
    ≡ nothing
ignored_left_alone_example =
    ignored_left_alone [] ((name, theirs) ∷ []) node_a both_ways (pos 30) ignores_all name refl

fetches_what_peer_has_example :
    let a = reconcile_one name (some ours) (some theirs) node_a both_ways (pos 30) in
    ((a.source ≢ source_remote) ⊎ (a.source_version ≡ theirs.version))
    × ((a.conflict_source ≢ source_remote) ⊎ (a.conflict_info.version ≡ theirs.version))
fetches_what_peer_has_example =
    fetches_what_peer_has name (some ours) theirs node_a both_ways (pos 30)

receive_only_proposes_nothing_example :
    let a = reconcile_one name (some ours) (some theirs) node_a receives_only (pos 30) in
    (a.kind ≢ conflict_copy) × ((a.kind ≢ resurrect) ⊎ (a.source ≡ source_remote))
receive_only_proposes_nothing_example =
    receive_only_proposes_nothing name (some ours) (some theirs) node_a receives_only (pos 30) refl

has_room : counter (merge ours.version theirs.version) node_a + 1 < u64_mod
unfolding counter find merge raise copy_into insert bytes_eq
has_room = omega arith

makes_copy : (reconcile_concurrent name ours theirs node_a both_ways (pos 30)).kind ≡ conflict_copy
unfolding reconcile_concurrent bytes_eq
makes_copy = refl

name-valid : validate_rel_path name ≡ none
unfolding validate_rel_path bytes_eq has_prefix contains_byte has_control check_elements split
    check_element is_reserved_name
name-valid = refl

plain : bytes_eq file_type_file file_type_symlink ≡ false
unfolding bytes_eq
plain = refl

resolution_spreads_example :
    let a = reconcile_concurrent name ours theirs node_a both_ways (pos 30) in
    let d = reconcile_one name (some theirs) (some a.resolved) node_b both_ways (pos 50) in
    (d.resolved ≡ a.resolved)
    × (a.resolved.deleted ≡ true → d.kind ≡ delete_file)
    × (a.resolved.deleted ≡ false
        → (d.kind ≡ pull) × (d.source ≡ source_remote) × (d.source_version ≡ a.resolved.version))
resolution_spreads_example =
    resolution_spreads name ours theirs node_a node_b both_ways both_ways (pos 30) (pos 50)
      ours-IsMap theirs-IsMap has_room name-valid plain plain refl (ground (arith, makes_copy))
      (ground (arith, makes_copy))
