-- ===== src/Path/Tests.antt =====
-- The theorems on paths at paths and file systems that meet their hypotheses.
use syncat.Prelude.{
  if◌then◌else◌, All, Bytes, codes, bytes_eq, has_prefix, contains_byte, ◌≡◌, refl, ◌↔◌, inl, inr,
  not, none, some, [], ◌∷◌, ◌++◌,
}
use syncat.Path.{
  is_reserved_name, has_control, check_element, check_elements, validate_rel_path, dotdot_element,
  reserved_name,
}
use syncat.Path.Split.{slash, split}
use syncat.Path.Valid.{validate_rel_path_iff, IsSafePath}
use syncat.Path.Join.{
  clean, is_abs, settled, check_no_symlink_parents, join_share_path, Stat, missing, directory,
  invalid, root_not_absolute, escapes, err,
}
use syncat.Path.Clean.{IsName}
use syncat.Path.Contain.{join_share_path_lem}
use syncat.Path.Links.{parents, IsTree, NotLink, check_no_symlink_parents_sound}

abbrev notes : Bytes
notes = codes "docs/notes.txt"

abbrev root : Bytes
root = codes "/srv/share/"

-- A file system in which every path is a directory.
abbrev all_dirs : Bytes → Stat
all_dirs p = directory

accepts_notes : validate_rel_path notes ≡ none
unfolding validate_rel_path bytes_eq has_prefix contains_byte has_control check_elements split
    check_element is_reserved_name
accepts_notes = refl

refuses_dotdot : validate_rel_path (codes "docs/../../etc") ≡ some dotdot_element
unfolding validate_rel_path bytes_eq has_prefix contains_byte has_control check_elements split
    check_element is_reserved_name
refuses_dotdot = refl

refuses_device : validate_rel_path (codes "docs/com1.txt") ≡ some reserved_name
unfolding validate_rel_path bytes_eq has_prefix contains_byte has_control check_elements split
    check_element is_reserved_name
refuses_device = refl

validate_rel_path_iff_example : (validate_rel_path notes ≡ none) ↔ IsSafePath notes
validate_rel_path_iff_example = validate_rel_path_iff notes

join_share_path_lem_example : join_share_path all_dirs root notes ≡ elim (validate_rel_path notes) [
  | some e ↦ err (invalid e)
  | none ↦
      if not (is_abs root)
      then err root_not_absolute
      else if bytes_eq (clean root) (slash ∷ [])
      then err escapes
      else settled
          (check_no_symlink_parents all_dirs (clean root) (split notes))
          (clean root ++ slash ∷ notes)
]
join_share_path_lem_example = join_share_path_lem all_dirs root notes

-- A file system in which nothing exists.
abbrev no_files : Bytes → Stat
no_files p = missing

all_dirs-IsTree : IsTree all_dirs
all_dirs-IsTree c d e name below h = elim h [
  | inl q ↦ cc (q)
  | inr (inl q) ↦ cc (q)
  | inr (inr q) ↦ cc (q)
]

no_files-IsTree : IsTree no_files
no_files-IsTree c d e name below h = inl refl

walks_docs : check_no_symlink_parents all_dirs (codes "/srv/share") (split notes) ≡ none
unfolding check_no_symlink_parents split
walks_docs = refl

stops_at_docs : check_no_symlink_parents no_files (codes "/srv/share") (split notes) ≡ none
unfolding check_no_symlink_parents split
stops_at_docs = refl

notes-names : All IsName (split notes)
unfolding split contains_byte
notes-names = (
  record {
    nonempty = λ e. cc (e);
    not_dot = λ e. cc (e);
    not_dotdot = λ e. cc (e);
    no_slash = refl;
  },
  (
    record {
      nonempty = λ e. cc (e);
      not_dot = λ e. cc (e);
      not_dotdot = λ e. cc (e);
      no_slash = refl;
    },
    tt,
  ),
)

check_no_symlink_parents_sound_example :
    All (NotLink all_dirs) (parents (codes "/srv/share") (split notes))
    × All (NotLink no_files) (parents (codes "/srv/share") (split notes))
check_no_symlink_parents_sound_example = (
  check_no_symlink_parents_sound all_dirs all_dirs-IsTree (codes "/srv/share") (split notes)
      notes-names walks_docs,
  check_no_symlink_parents_sound no_files no_files-IsTree (codes "/srv/share") (split notes)
      notes-names stops_at_docs,
)
