-- ===== src/Reconcile/Pass.antt =====
-- `Reconcile` of internal/sync/reconcile.go: one action for every path of either index, in the order
-- of `sort.Strings`. `ignore` is the share's ignore rules, if it has any; `clock` is what the clock
-- shows during the pass.
use syncat.Prelude.{
  if◌then◌else◌, Bytes, bytes_eq, bytes_lt, Dict, find, insert, ℤ, Bool, true, false, ◌&&◌, ◌||◌,
  not, Option, none, some, List, [], ◌∷◌, map, bytes_key,
}
use syncat.Path.{validate_rel_path}
use syncat.Reconcile.{
  file_type_dir, file_type_symlink, bare_action, FileInfo, Action, Direction, nothing, ignored_path,
}
use syncat.Reconcile.Decide.{reconcile_one}

-- `m[f.RelPath] = f` for each row: the last one wins.
unfoldable pub index_onto : Dict Bytes FileInfo → List FileInfo → Dict Bytes FileInfo
index_onto m [] = m
index_onto m (f ∷ files) = index_onto (insert f.rel_path f m) files

unfoldable pub index_by_path : List FileInfo → Dict Bytes FileInfo
unfolding index_onto
index_by_path files = index_onto [] files

abbrev pub PathSet : Type 0
PathSet = Dict Bytes (Unit {0})

unfoldable pub add_paths : Dict Bytes FileInfo → PathSet → PathSet
add_paths [] s = s
add_paths ((p, _) ∷ m) s = add_paths m (insert p tt s)

unfoldable pub paths_of : PathSet → List Bytes
paths_of [] = []
paths_of ((p, _) ∷ s) = p ∷ paths_of s

-- sort.Strings
unfoldable pub insert_sorted : Bytes → List Bytes → List Bytes
insert_sorted p [] = p ∷ []
insert_sorted p (q ∷ qs) = if bytes_lt q p then q ∷ insert_sorted p qs else p ∷ q ∷ qs

unfoldable pub sort_strings : List Bytes → List Bytes
unfolding insert_sorted
sort_strings [] = []
sort_strings (p ∷ ps) = insert_sorted p (sort_strings ps)

unfoldable pub sorted_paths : Dict Bytes FileInfo → Dict Bytes FileInfo → List Bytes
unfolding add_paths paths_of sort_strings
sorted_paths local remote = sort_strings (paths_of (add_paths remote (add_paths local [])))

-- Our own view of a path first, then the peer's.
unfoldable pub is_dir_entry : Option FileInfo → Option FileInfo → Bool
is_dir_entry (some l) r = bytes_eq l.type file_type_dir
is_dir_entry none (some r) = bytes_eq r.type file_type_dir
is_dir_entry none none = false

abbrev pub IgnoreFunc : Type 0
IgnoreFunc = Option (Bytes → Bool → Bool)

abbrev pub is_ignored : IgnoreFunc → Bytes → Bool → Bool
is_ignored none p is_dir = false
is_ignored (some ignore) p is_dir = ignore p is_dir

unfoldable pub is_malformed : Option FileInfo → Bool
is_malformed none = false
is_malformed (some r) =
    (elim (validate_rel_path r.rel_path) [ none ↦ false | some _ ↦ true ])
    || bytes_eq r.type file_type_symlink

-- One round of the loop over the sorted paths.
unfoldable pub reconcile_path :
    Dict Bytes FileInfo → Dict Bytes FileInfo → Bytes → Direction → ℤ → IgnoreFunc → Bytes → Action
unfolding is_dir_entry is_malformed reconcile_one
reconcile_path local remote node dir clock ignore p =
    let l = find local p in
    let r = find remote p in
    if not (is_malformed r) && is_ignored ignore p (is_dir_entry l r)
    then bare_action nothing p ignored_path
    else reconcile_one p l r node dir clock

unfoldable pub reconcile :
    List FileInfo → List FileInfo → Bytes → Direction → ℤ → IgnoreFunc → List Action
unfolding index_by_path sorted_paths reconcile_path
reconcile local remote node dir clock ignore =
    let l = index_by_path local in
    let r = index_by_path remote in
    map (reconcile_path l r node dir clock ignore) (sorted_paths l r)
