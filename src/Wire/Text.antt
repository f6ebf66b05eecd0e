-- ===== src/Wire/Text.antt =====
-- The checks on texts and paths of internal/protocol/message.go, `validBoundedText` and its own
-- `validateRelPath`, and how the checks of `ValidateMessage` chain.
-- Go ranges over runes: a control rune is an ASCII control byte, or one of U+0080 to U+009F, which
-- UTF-8 writes as 0xC2 and a byte from 0x80 to 0x9F; 0xC2 begins a rune wherever it stands.
use syncat.Prelude.{
  ltb, leb, ◌==◌, if◌then◌else◌, length, Bytes, codes, bytes_eq, has_prefix, contains_byte, ℕ, ◌≡◌,
  refl, Bool, true, false, ◌&&◌, ◌||◌, not, Option, none, some, List, [], ◌∷◌, ◌++◌, arith,
}
use syncat.Path.{dot, dotdot}
use syncat.Path.Split.{split, join}
use syncat.Path.Join.{drop_last}
use syncat.Wire.{
  WireError, empty_text, control_character, text_too_long, not_normalized, invalid_element,
}

-- The first error of the two: `if err := a; err != nil { return err }; return b`.
abbrev pub first_error : Option WireError → Option WireError → Option WireError
first_error none next = next
first_error (some e) next = some e

abbrev pub refuse_if : Bool → WireError → Option WireError
refuse_if true e = some e
refuse_if false e = none

pub first_error-none : (a b : Option WireError) → first_error a b ≡ none → (a ≡ none) × (b ≡ none)
first_error-none none b h = (refl, h)
first_error-none (some e) b h = ground (arith, h)

pub refuse_if-none : (b : Bool) (e : WireError) → refuse_if b e ≡ none → b ≡ false
refuse_if-none true e h = ground (arith, h)
refuse_if-none false e h = refl

unfoldable pub starts_c1 : Bytes → Bool
starts_c1 [] = false
starts_c1 (c ∷ s) = leb 0x80 c && leb c 0x9f

-- Whether `unicode.IsControl` holds of some rune.
unfoldable pub has_control_rune : Bytes → Bool
unfolding starts_c1
has_control_rune [] = false
has_control_rune (c ∷ s) =
    ltb c 0x20 || c == 0x7f || (c == 0xc2 && starts_c1 s) || has_control_rune s

unfoldable pub valid_bounded_text : Bytes → Bytes → ℕ → Bool → Option WireError
valid_bounded_text label value limit required =
    if required && bytes_eq value []
    then some (empty_text label)
    else if ltb limit (length value)
    then some (text_too_long label limit)
    else refuse_if (has_control_rune value) (control_character label)

abbrev pub max_wire_id_len : ℕ
max_wire_id_len = 128

unfoldable pub validate_share_id : Bytes → Option WireError
unfolding valid_bounded_text
validate_share_id id = valid_bounded_text (codes "share_id") id max_wire_id_len true

abbrev pub last_is_dotdot : List Bytes → Bool
last_is_dotdot [] = false
last_is_dotdot (e ∷ []) = bytes_eq e dotdot
last_is_dotdot (e ∷ f ∷ es) = last_is_dotdot (f ∷ es)

-- path.Clean on one element of a relative path: `..` stays where nothing is left to take along.
unfoldable pub push_relative : List Bytes → Bytes → List Bytes
push_relative acc e =
    if bytes_eq e [] || bytes_eq e dot
    then acc
    else if not (bytes_eq e dotdot)
    then acc ++ e ∷ []
    else if bytes_eq (join acc) [] || last_is_dotdot acc
    then acc ++ dotdot ∷ []
    else drop_last acc

unfoldable pub resolve_relative : List Bytes → List Bytes → List Bytes
unfolding push_relative
resolve_relative acc [] = acc
resolve_relative acc (e ∷ es) = resolve_relative (push_relative acc e) es

abbrev pub or_dot : List Bytes → Bytes
or_dot [] = dot
or_dot (e ∷ es) = join (e ∷ es)

-- path.Clean of a path that does not begin with a slash.
unfoldable pub clean_relative : Bytes → Bytes
clean_relative p = or_dot (resolve_relative [] (split p))

unfoldable pub check_wire_elements : List Bytes → Option WireError
check_wire_elements [] = none
check_wire_elements (e ∷ es) =
    first_error (refuse_if (bytes_eq e [] || bytes_eq e dotdot) invalid_element)
      (check_wire_elements es)

-- `strings.ContainsAny(p, "\\:") || strings.HasPrefix(p, "/") || path.Clean(p) != p || ...`
abbrev pub is_misshapen : Bytes → Bool
is_misshapen p =
    contains_byte p 92
    || contains_byte p b':'
    || has_prefix p (codes "/")
    || not (bytes_eq (clean_relative p) p)
    || bytes_eq p dot
    || bytes_eq p dotdot

-- message.go's own `validateRelPath`; the one of internal/sync/path.go is `validate_rel_path`.
unfoldable pub validate_wire_path : Bytes → Option WireError
unfolding valid_bounded_text clean_relative check_wire_elements
validate_wire_path p =
    first_error (valid_bounded_text (codes "relpath") p 4096 true)
      (first_error (refuse_if (is_misshapen p) not_normalized) (check_wire_elements (split p)))
