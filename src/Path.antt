-- ===== src/Path.antt =====
-- The checks on peer-supplied paths in internal/sync/path.go: `ValidateRelPath` and
-- `JoinSharePath`. A path is its bytes. Go ranges over runes; every rune that the checks name is
-- one ASCII byte, and a byte below 0x80 is never part of a longer rune, so bytes serve. For the
-- same reason `strings.ToUpper` is modelled on ASCII letters: no other letter's upper case spells
-- a reserved name.
pub mod Split
pub mod Valid
pub mod Join
pub mod Clean
pub mod Contain
pub mod Links
mod Tests
use syncat.Prelude.{
  ltb, leb, ◌==◌, if◌then◌else◌, length, Bytes, codes, bytes_eq, has_prefix, contains_byte, ℕ, ◌-◌,
  Bool, false, ◌&&◌, ◌||◌, Option, none, some, List, [], ◌∷◌, ◌++◌, map,
}
use Split.{split}

-- The error returns of `ValidateRelPath`.
pub data PathError : Type 0 where
  empty_path too_long not_a_file absolute backslash colon control reserved_dir : PathError
  empty_element dot_element dotdot_element temp_prefix reserved_name : PathError

abbrev pub max_rel_path_len : ℕ
max_rel_path_len = 4096

abbrev pub dot : Bytes
dot = codes "."

abbrev pub dotdot : Bytes
dotdot = codes ".."

-- index.ReservedDirName
abbrev pub reserved_dir_name : Bytes
reserved_dir_name = codes ".syncat"

abbrev pub temp_file_prefix : Bytes
temp_file_prefix = codes ".syncat.tmp."

abbrev pub windows_reserved_names : List Bytes
windows_reserved_names = map codes (
    "CON" ∷ "PRN" ∷ "AUX" ∷ "NUL" ∷ "COM1" ∷ "COM2" ∷ "COM3" ∷ "COM4" ∷ "COM5" ∷ "COM6" ∷ "COM7"
    ∷ "COM8" ∷ "COM9" ∷ "LPT1" ∷ "LPT2" ∷ "LPT3" ∷ "LPT4" ∷ "LPT5" ∷ "LPT6" ∷ "LPT7" ∷ "LPT8"
    ∷ "LPT9" ∷ [])

unfoldable pub member : Bytes → List Bytes → Bool
member s [] = false
member s (t ∷ ts) = bytes_eq s t || member s ts

unfoldable pub upper : Bytes → Bytes
upper [] = []
upper (c ∷ s) = (if leb b'a' c && leb c b'z' then c - 32 else c) ∷ upper s

-- `name[:i]` for the first `.`, or the whole name.
unfoldable pub before_dot : Bytes → Bytes
before_dot [] = []
before_dot (c ∷ s) = if c == b'.' then [] else c ∷ before_dot s

unfoldable pub is_reserved_name : Bytes → Bool
unfolding member upper before_dot
is_reserved_name elem = member (upper (before_dot elem)) windows_reserved_names

-- `r == 0 || r < 0x20 || r == 0x7f`
abbrev pub is_control : ℕ → Bool
is_control r = r == 0 || ltb r 0x20 || r == 0x7f

unfoldable pub has_control : Bytes → Bool
has_control [] = false
has_control (r ∷ s) = is_control r || has_control s

-- One round of the loop over the elements.
unfoldable pub check_element : Bytes → Option PathError
check_element elem =
    if bytes_eq elem []
    then some empty_element
    else if bytes_eq elem dot
    then some dot_element
    else if bytes_eq elem dotdot
    then some dotdot_element
    else if has_prefix elem temp_file_prefix
    then some temp_prefix
    else if is_reserved_name elem
    then some reserved_name
    else none

unfoldable pub check_elements : List Bytes → Option PathError
check_elements [] = none
check_elements (elem ∷ elems) =
    let rest = check_elements elems in elim (check_element elem) [ none ↦ rest | some e ↦ some e ]

-- `none` is Go's nil error.
unfoldable pub validate_rel_path : Bytes → Option PathError
validate_rel_path p =
    if bytes_eq p []
    then some empty_path
    else if ltb max_rel_path_len (length p)
    then some too_long
    else if bytes_eq p dot || bytes_eq p dotdot
    then some not_a_file
    else if has_prefix p (codes "/")
    then some absolute
    else if contains_byte p 92
    then some backslash
    else if contains_byte p b':'
    then some colon
    else if has_control p
    then some control
    else if bytes_eq p reserved_dir_name || has_prefix p (reserved_dir_name ++ codes "/")
    then some reserved_dir
    else check_elements (split p)
