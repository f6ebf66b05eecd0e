-- ===== src/Reconcile/Safety.antt =====
-- No pass acts on a path that a hostile peer made up, or on one that the share ignores.
use syncat.Prelude.{
  Bool-cases, Option-cases, All, Bytes, bytes_eq_iff, Dict, find, insert, find-insert, ℤ, ◌≡◌, refl,
  ◌≢◌, ◌⊎◌, inl, inr, Bool, true, ◌&&◌, not, Option, none, some, List, [], ◌∷◌, map, arith,
  bytes_key,
}
use syncat.Path.{validate_rel_path, PathError}
use syncat.Path.Valid.{validate_rel_path_iff, IsSafePath}
use syncat.Reconcile.{FileInfo, Action, Direction, nothing, locally_modified, source_remote}
use syncat.Reconcile.Decide.{reconcile_one}
use syncat.Reconcile.Order.{reconcile_one-rel_path}
use syncat.Reconcile.Pass.{
  index_onto, index_by_path, sorted_paths, is_dir_entry, IgnoreFunc, is_ignored, is_malformed,
  reconcile_path, reconcile,
}

-- Nothing changes on disk or in the index: no action, or only a warning. A flagged change whose source
-- is the peer is reverted to the peer's content, and does not count.
abbrev pub IsQuiet : Action → Type 0
IsQuiet a = (a.kind ≡ nothing) ⊎ ((a.kind ≡ locally_modified) × (a.source ≢ source_remote))

-- A dictionary that holds each row under its own path.
abbrev IsKeyed : Dict Bytes FileInfo → Type 0
IsKeyed m = (p : Bytes) (f : FileInfo) → find m p ≡ some f → f.rel_path ≡ p

insert-IsKeyed :
    (m : Dict Bytes FileInfo) (f : FileInfo) → IsKeyed m → IsKeyed (insert f.rel_path f m)
insert-IsKeyed m f k p g h =
    ground (arith, find-insert f.rel_path p f m, bytes_eq_iff f.rel_path p, k p g)

index_onto-IsKeyed :
    (m : Dict Bytes FileInfo) (files : List FileInfo) → IsKeyed m → IsKeyed (index_onto m files)
unfolding index_onto
index_onto-IsKeyed m [] k = k
index_onto-IsKeyed m (f ∷ files) k =
    index_onto-IsKeyed (insert f.rel_path f m) files (insert-IsKeyed m f k)

index_by_path-IsKeyed : (files : List FileInfo) → IsKeyed (index_by_path files)
unfolding index_by_path find
index_by_path-IsKeyed files = index_onto-IsKeyed [] files (λ p f h. cc)

-- A row that `reconcileOne` would reject leads to no action.
malformed-nothing :
    (p : Bytes) (l r : Option FileInfo) (node : Bytes) (dir : Direction) (clock : ℤ)
    → is_malformed r ≡ true
    → (reconcile_one p l r node dir clock).kind ≡ nothing
unfolding is_malformed reconcile_one
malformed-nothing p l none node dir clock h = cc
malformed-nothing p l (some r) node dir clock h = ground (arith, h)

invalid-nothing :
    (p : Bytes) (l : Option FileInfo) (r : FileInfo) (node : Bytes) (dir : Direction) (clock : ℤ)
    (e : PathError)
    → validate_rel_path r.rel_path ≡ some e
    → (reconcile_one p l (some r) node dir clock).kind ≡ nothing
unfolding reconcile_one
invalid-nothing p l r node dir clock e h = ground (arith, h)

pub local-IsQuiet :
    (p : Bytes) (l : Option FileInfo) (node : Bytes) (dir : Direction) (clock : ℤ)
    → IsQuiet (reconcile_one p l none node dir clock)
unfolding reconcile_one
local-IsQuiet p l node dir clock = elim (Bool-cases dir.inbound_blocked) [
  | inl b ↦ inl (ground (arith, b))
  | inr b ↦ elim (Bool-cases dir.outbound_blocked) [
    | inl o ↦ inr (ground (arith, b, o), ground (arith, b, o))
    | inr o ↦ inl (ground (arith, b, o))
  ]
]

reconcile_one-safe :
    (p : Bytes) (l r : Option FileInfo) (node : Bytes) (dir : Direction) (clock : ℤ)
    → ((f : FileInfo) → r ≡ some f → f.rel_path ≡ p)
    → IsQuiet (reconcile_one p l r node dir clock)
      ⊎ IsSafePath (reconcile_one p l r node dir clock).rel_path
reconcile_one-safe p l none node dir clock k = inl (local-IsQuiet p l node dir clock)
reconcile_one-safe p l (some r) node dir clock k =
    elim (Option-cases (validate_rel_path r.rel_path)) [
      | inl v ↦ inr (
          rw (reconcile_one-rel_path p l (some r) node dir clock)
            ((validate_rel_path_iff p).0 (rw (k r refl) at v)))
      | inr (e, v) ↦ inl (inl (invalid-nothing p l r node dir clock e v))
    ]

-- Every action of a pass that changes anything concerns a path that `ValidateRelPath` accepts,
-- whatever rows the peer sends.
pub reconcile_safe :
    (local remote : List FileInfo) (node : Bytes) (dir : Direction) (clock : ℤ)
    (ignore : IgnoreFunc)
    → All (λ a. IsQuiet a ⊎ IsSafePath a.rel_path) (reconcile local remote node dir clock ignore)
unfolding reconcile reconcile_path
reconcile_safe local remote node dir clock ignore = go (sorted_paths l r)
  where
    l : Dict Bytes FileInfo
    l = index_by_path local

    r : Dict Bytes FileInfo
    r = index_by_path remote

    go :
        (ps : List Bytes)
        → All
            (λ a. IsQuiet a ⊎ IsSafePath a.rel_path)
            (map (reconcile_path l r node dir clock ignore) ps)
    go [] = tt
    go (p ∷ ps) = (
      elim (Bool-cases (
          not (is_malformed (find r p))
          && is_ignored ignore p (is_dir_entry (find l p) (find r p)))) [
            | inl i ↦ rw i (inl (inl refl))
            | inr i ↦ rw i (
                reconcile_one-safe p (find l p) (find r p) node dir clock
                  (index_by_path-IsKeyed remote p))
          ],
      go ps,
    )

-- An ignored path is left alone in both directions: no pull, no delete, no conflict copy and no
-- warning, whatever rows either side has for it.
pub ignored_left_alone :
    (l r : Dict Bytes FileInfo) (node : Bytes) (dir : Direction) (clock : ℤ)
    (ignore : Bytes → Bool → Bool) (p : Bytes)
    → ignore p (is_dir_entry (find l p) (find r p)) ≡ true
    → (reconcile_path l r node dir clock (some ignore) p).kind ≡ nothing
unfolding reconcile_path
ignored_left_alone l r node dir clock ignore p h =
    ground (arith, h, malformed-nothing p (find l p) (find r p) node dir clock)
