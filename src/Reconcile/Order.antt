-- ===== src/Reconcile/Order.antt =====
-- The paths of a pass: every path of either index, once, in ascending order.
use syncat.Prelude.{
  Bool-cases, All, Bytes, bytes_eq, bytes_lt, bytes_lt_total, bytes_lt_trans, bytes_eq_comm, Dict,
  find, has, insert, IsMap, has-insert, insert-IsMap, ℤ, ◌≡◌, refl, inl, inr, Bool, true, false,
  ◌||◌, Option, none, some, List, [], ◌∷◌, map, arith, bytes_key,
}
use syncat.Path.{member}
use syncat.Reconcile.{FileInfo, Direction}
use syncat.Reconcile.Decide.{reconcile_one}
use syncat.Reconcile.Pass.{
  index_onto, index_by_path, PathSet, add_paths, paths_of, insert_sorted, sort_strings,
  sorted_paths, IgnoreFunc, reconcile_path, reconcile,
}

-- Strictly ascending, and so without repetition.
abbrev pub IsAscending : List Bytes → Type 0
IsAscending [] = Unit
IsAscending (p ∷ ps) = All (λ q. bytes_lt p q ≡ true) ps × IsAscending ps

abbrev Distinct : List Bytes → Type 0
Distinct [] = Unit
Distinct (p ∷ ps) = (member p ps ≡ false) × Distinct ps

member-insert_sorted :
    (x p : Bytes) (qs : List Bytes) → member x (insert_sorted p qs) ≡ (bytes_eq x p || member x qs)
unfolding insert_sorted member
member-insert_sorted x p [] = refl
member-insert_sorted x p (q ∷ qs) = ground (arith, member-insert_sorted x p qs)

All-insert_sorted :
    (P : Bytes → Type 0) (p : Bytes) (qs : List Bytes) → P p → All P qs → All P (insert_sorted p qs)
unfolding insert_sorted
All-insert_sorted P p [] h a = (h, tt)
All-insert_sorted P p (q ∷ qs) h a = elim (Bool-cases (bytes_lt q p)) [
  | inl l ↦ rw l (a.0, All-insert_sorted P p qs h a.1)
  | inr l ↦ rw l (h, a)
]

All-above :
    (p q : Bytes) (ps : List Bytes)
    → bytes_lt p q ≡ true
    → All (λ x. bytes_lt q x ≡ true) ps
    → All (λ x. bytes_lt p x ≡ true) ps
All-above p q [] h a = tt
All-above p q (x ∷ ps) h a = (bytes_lt_trans p q x h a.0, All-above p q ps h a.1)

insert_sorted-IsAscending :
    (p : Bytes) (qs : List Bytes)
    → member p qs ≡ false
    → IsAscending qs
    → IsAscending (insert_sorted p qs)
unfolding insert_sorted member
insert_sorted-IsAscending p [] h a = (tt, tt)
insert_sorted-IsAscending p (q ∷ qs) h (above, rest) = elim (Bool-cases (bytes_lt q p)) [
  | inl l ↦ rw l (
    All-insert_sorted (λ x. bytes_lt q x ≡ true) p qs l above,
    insert_sorted-IsAscending p qs (ground arith) rest,
  )
  | inr l ↦
      let le : bytes_lt p q ≡ true = bytes_lt_total q p l (ground (arith, bytes_eq_comm p q)) in
      rw l ((le, All-above p q qs le above), (above, rest))
]

member-sort_strings : (x : Bytes) (ps : List Bytes) → member x (sort_strings ps) ≡ member x ps
unfolding sort_strings member
member-sort_strings x [] = refl
member-sort_strings x (p ∷ ps) =
    ground (arith, member-insert_sorted x p (sort_strings ps), member-sort_strings x ps)

sort_strings-IsAscending : (ps : List Bytes) → Distinct ps → IsAscending (sort_strings ps)
unfolding sort_strings
sort_strings-IsAscending [] d = tt
sort_strings-IsAscending (p ∷ ps) d =
    insert_sorted-IsAscending p (sort_strings ps) (ground (arith, member-sort_strings p ps))
      (sort_strings-IsAscending ps d.1)

member-paths_of : (x : Bytes) (s : PathSet) → member x (paths_of s) ≡ has s x
unfolding paths_of member has
member-paths_of x [] = refl
member-paths_of x ((p, u) ∷ s) = ground (arith, member-paths_of x s, bytes_eq_comm x p)

paths_of-Distinct : (s : PathSet) → IsMap s → Distinct (paths_of s)
unfolding paths_of
paths_of-Distinct [] w = tt
paths_of-Distinct ((p, u) ∷ s) w = (ground (arith, member-paths_of p s), paths_of-Distinct s w.1)

has-add_paths :
    (m : Dict Bytes FileInfo) (s : PathSet) (x : Bytes)
    → has (add_paths m s) x ≡ (has m x || has s x)
unfolding add_paths has
has-add_paths [] s x = refl
has-add_paths ((p, f) ∷ m) s x =
    ground (arith, has-add_paths m (insert p tt s) x, has-insert p x tt s)

add_paths-IsMap : (m : Dict Bytes FileInfo) (s : PathSet) → IsMap s → IsMap (add_paths m s)
unfolding add_paths
add_paths-IsMap [] s w = w
add_paths-IsMap ((p, f) ∷ m) s w = add_paths-IsMap m (insert p tt s) (insert-IsMap p tt s w)

-- Some row has the path `p`.
pub has_row : Bytes → List FileInfo → Bool
has_row p [] = false
has_row p (f ∷ files) = bytes_eq f.rel_path p || has_row p files

has-index_onto :
    (m : Dict Bytes FileInfo) (files : List FileInfo) (x : Bytes)
    → has (index_onto m files) x ≡ (has_row x files || has m x)
unfolding index_onto has_row
has-index_onto m [] x = refl
has-index_onto m (f ∷ files) x =
    ground (arith, has-index_onto (insert f.rel_path f m) files x, has-insert f.rel_path x f m)

member-sorted_paths :
    (local remote : List FileInfo) (x : Bytes)
    → member x (sorted_paths (index_by_path local) (index_by_path remote))
      ≡ (has_row x local || has_row x remote)
unfolding sorted_paths index_by_path
member-sorted_paths local remote x =
    let l = index_onto [] local in
    let r = index_onto [] remote in
    ground (
      arith,
      member-sort_strings x (paths_of (add_paths r (add_paths l []))),
      member-paths_of x (add_paths r (add_paths l [])),
      has-add_paths r (add_paths l []) x,
      has-add_paths l [] x,
      has-index_onto [] local x,
      has-index_onto [] remote x,
      has-nil x,
      has-nil' x,
    )
  where
    has-nil : (x : Bytes) → has {V = FileInfo} [] x ≡ false
    has-nil x = unfold has in refl

    has-nil' : (x : Bytes) → has {V = Unit {0}} [] x ≡ false
    has-nil' x = unfold has in refl

pub reconcile_one-rel_path :
    (p : Bytes) (l r : Option FileInfo) (node : Bytes) (dir : Direction) (clock : ℤ)
    → (reconcile_one p l r node dir clock).rel_path ≡ p
unfolding reconcile_one
reconcile_one-rel_path p none none node dir clock = ground arith
reconcile_one-rel_path p (some l) none node dir clock = ground arith
reconcile_one-rel_path p none (some r) node dir clock = ground arith
reconcile_one-rel_path p (some l) (some r) node dir clock = ground arith

map-rel_path :
    (l r : Dict Bytes FileInfo) (node : Bytes) (dir : Direction) (clock : ℤ) (ignore : IgnoreFunc)
    (ps : List Bytes)
    → map (λ a. a.rel_path) (map (reconcile_path l r node dir clock ignore) ps) ≡ ps
unfolding reconcile_path
map-rel_path l r node dir clock ignore [] = refl
map-rel_path l r node dir clock ignore (p ∷ ps) = ground (
  arith,
  reconcile_one-rel_path p (find l p) (find r p) node dir clock,
  map-rel_path l r node dir clock ignore ps,
)

-- The paths of the actions of a pass, in order.
pub reconciled_paths :
    List FileInfo → List FileInfo → Bytes → Direction → ℤ → IgnoreFunc → List Bytes
reconciled_paths local remote node dir clock ignore =
    map (λ a. a.rel_path) (reconcile local remote node dir clock ignore)

reconciled_paths-eq :
    (local remote : List FileInfo) (node : Bytes) (dir : Direction) (clock : ℤ)
    (ignore : IgnoreFunc)
    → reconciled_paths local remote node dir clock ignore
      ≡ sorted_paths (index_by_path local) (index_by_path remote)
unfolding reconciled_paths reconcile
reconciled_paths-eq local remote node dir clock ignore =
    map-rel_path (index_by_path local) (index_by_path remote) node dir clock ignore _

-- A pass returns its actions in strictly ascending order of path, one for each path that some row
-- of either index has and none for any other.
pub reconcile_covers :
    (local remote : List FileInfo) (node : Bytes) (dir : Direction) (clock : ℤ)
    (ignore : IgnoreFunc)
    → IsAscending (reconciled_paths local remote node dir clock ignore)
      × ((p : Bytes)
          → member p (reconciled_paths local remote node dir clock ignore)
            ≡ (has_row p local || has_row p remote))
unfolding sorted_paths
reconcile_covers local remote node dir clock ignore =
    let l = index_by_path local in
    let r = index_by_path remote in
    let all : IsMap (add_paths r (add_paths l [])) =
      add_paths-IsMap r (add_paths l []) (add_paths-IsMap l [] tt) in
    rw (reconciled_paths-eq local remote node dir clock ignore) (
      sort_strings-IsAscending (paths_of (add_paths r (add_paths l [])))
          (paths_of-Distinct (add_paths r (add_paths l [])) all),
      member-sorted_paths local remote,
    )
