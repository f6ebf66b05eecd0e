-- ===== src/Path/Join.antt =====
-- `JoinSharePath` and `checkNoSymlinkParents` of internal/sync/path.go, with the parts of
-- path/filepath that they use, on Unix and for absolute paths. What `os.Lstat` answers is a
-- parameter: the file system at the time of the call.
use syncat.Prelude.{
  if◌then◌else◌, Bytes, bytes_eq, has_prefix, Bool, ◌&&◌, ◌||◌, not, Option, none, some, List, [],
  ◌∷◌, ◌++◌,
}
use syncat.Path.{PathError, dot, dotdot, validate_rel_path}
use syncat.Path.Split.{slash, split, join}

-- What `os.Lstat` tells of a path. `missing` is ErrNotExist or ENOTDIR, `failed` any other error.
pub data Stat : Type 0 where
  missing failed symlink directory other : Stat

pub data JoinError : Type 0 where
  invalid : PathError → JoinError
  root_not_absolute escapes : JoinError
  stat_failed symlink_in_path : Bytes → JoinError

pub data Joined : Type 0 where
  ok : Bytes → Joined
  err : JoinError → Joined

abbrev pub drop_last : List Bytes → List Bytes
drop_last [] = []
drop_last (e ∷ []) = []
drop_last (e ∷ f ∷ es) = e ∷ drop_last (f ∷ es)

-- filepath.Clean on one element: an empty one and `.` go, `..` takes the element before it along.
unfoldable pub push_element : List Bytes → Bytes → List Bytes
push_element acc e =
    if bytes_eq e [] || bytes_eq e dot
    then acc
    else if bytes_eq e dotdot
    then drop_last acc
    else acc ++ e ∷ []

unfoldable pub resolve : List Bytes → List Bytes → List Bytes
unfolding push_element
resolve acc [] = acc
resolve acc (e ∷ es) = resolve (push_element acc e) es

-- filepath.Clean of an absolute path.
unfoldable pub clean : Bytes → Bytes
clean p = slash ∷ join (resolve [] (split p))

-- filepath.Join with an absolute first element.
unfoldable pub filepath_join : Bytes → List Bytes → Bytes
filepath_join root elems = clean (join (root ∷ elems))

unfoldable pub is_abs : Bytes → Bool
is_abs p = has_prefix p (slash ∷ [])

-- The answer once the parents have been looked at.
abbrev pub settled : Option JoinError → Bytes → Joined
settled none full = ok full
settled (some e) full = err e

module _ (lstat : Bytes → Stat) where
  -- `none` is Go's nil error. The last element is not looked at.
  unfoldable pub check_no_symlink_parents : Bytes → List Bytes → Option JoinError
  check_no_symlink_parents cur [] = none
  check_no_symlink_parents cur (e ∷ []) = none
  check_no_symlink_parents cur (e ∷ f ∷ es) =
      let here = filepath_join cur (e ∷ []) in
      let below = check_no_symlink_parents here (f ∷ es) in
      elim (lstat here) [
        | missing ↦ none
        | failed ↦ some (stat_failed here)
        | symlink ↦ some (symlink_in_path here)
        | directory ↦ below
        | other ↦ none
      ]

  -- The checks after validation, once the root is known to be absolute.
  unfoldable pub join_clean : Bytes → List Bytes → Joined
  join_clean clean_root elems =
      let full = filepath_join clean_root elems in
      if not (bytes_eq full clean_root) && not (has_prefix full (clean_root ++ slash ∷ []))
      then err escapes
      else settled (check_no_symlink_parents clean_root elems) full

  unfoldable pub join_share_path : Bytes → Bytes → Joined
  join_share_path share_root p = elim (validate_rel_path p) [
    | some e ↦ err (invalid e)
    | none ↦
        if is_abs share_root then join_clean (clean share_root) (split p) else err root_not_absolute
  ]
