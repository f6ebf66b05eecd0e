-- ===== src/Path/Valid.antt =====
-- What `ValidateRelPath` accepts, said of the elements of the path and of its bytes.
use syncat.Prelude.{
  Bool-cases, length, All, Bytes, codes, bytes_eq, has_prefix, contains_byte, bytes_eq_iff, ℕ, ◌≤◌,
  ◌≡◌, refl, ap, ◌≢◌, ◌↔◌, inl, inr, true, false, ◌||◌, none, List, [], ◌∷◌, ◌++◌, arith,
}
use syncat.Path.{
  check_element, check_elements, validate_rel_path, is_reserved_name, has_control, dot, dotdot,
  reserved_dir_name, temp_file_prefix, max_rel_path_len,
}
use syncat.Path.Split.{split, first_element, split-first_element, first_element-eq}

-- An element that names an entry of its directory, and neither a temporary file of syncat's nor
-- a Windows device.
pub record IsSafeElement (e : Bytes) : Type 0 where
  pub nonempty : e ≢ []
  pub not_dot : e ≢ dot
  pub not_dotdot : e ≢ dotdot
  pub not_temp : has_prefix e temp_file_prefix ≡ false
  pub not_reserved : is_reserved_name e ≡ false

-- No backslash, no colon, no control character.
abbrev pub IsPlain : ℕ → Type 0
IsPlain c = (c ≢ 92) × (c ≢ b':') × (32 ≤ c) × (c ≢ 127)

pub record IsSafePath (p : Bytes) : Type 0 where
  pub bounded : length p ≤ max_rel_path_len
  pub plain : All IsPlain p
  pub elements : All IsSafeElement (split p)
  pub outside : first_element p ≢ reserved_dir_name

check_element_sound : (e : Bytes) → check_element e ≡ none → IsSafeElement e
unfolding check_element
check_element_sound e h =
    ground (arith, bytes_eq_iff e [], bytes_eq_iff e dot, bytes_eq_iff e dotdot)

check_element_complete : (e : Bytes) → IsSafeElement e → check_element e ≡ none
unfolding check_element
check_element_complete e s = ground (
  arith,
  s.nonempty,
  s.not_dot,
  s.not_dotdot,
  bytes_eq_iff e [],
  bytes_eq_iff e dot,
  bytes_eq_iff e dotdot,
)

check_elements_sound : (es : List Bytes) → check_elements es ≡ none → All IsSafeElement es
unfolding check_elements
check_elements_sound [] h = tt
check_elements_sound (e ∷ es) h =
    (check_element_sound e (ground arith), check_elements_sound es (ground arith))

check_elements_complete : (es : List Bytes) → All IsSafeElement es → check_elements es ≡ none
unfolding check_elements
check_elements_complete [] h = refl
check_elements_complete (e ∷ es) h =
    ground (arith, check_element_complete e h.0, check_elements_complete es h.1)

has_control-IsPlain :
    (p : Bytes)
    → contains_byte p 92 ≡ false
    → contains_byte p b':' ≡ false
    → has_control p ≡ false
    → All IsPlain p
unfolding contains_byte has_control
has_control-IsPlain [] a b c = tt
has_control-IsPlain (x ∷ p) a b c =
    (ground arith, has_control-IsPlain p (ground arith) (ground arith) (ground arith))

IsPlain-has_control :
    (p : Bytes)
    → All IsPlain p
    → (contains_byte p 92 ≡ false) × (contains_byte p b':' ≡ false) × (has_control p ≡ false)
unfolding contains_byte has_control
IsPlain-has_control [] h = (refl, refl, refl)
IsPlain-has_control (x ∷ p) h = ground (arith, IsPlain-has_control p h.1)

safe-first : (p : Bytes) → All IsSafeElement (split p) → IsSafeElement (first_element p)
safe-first p h = let (es, q) = split-first_element p in (rw q at h).0

in_reserved-eq :
    (p : Bytes)
    → (bytes_eq p reserved_dir_name || has_prefix p (reserved_dir_name ++ codes "/"))
      ≡ bytes_eq (first_element p) reserved_dir_name
in_reserved-eq p = first_element-eq p reserved_dir_name (unfold contains_byte in refl)

accepts_sound : (p : Bytes) → validate_rel_path p ≡ none → IsSafePath p
unfolding validate_rel_path
accepts_sound p h = record {
  bounded = ground arith;
  plain = has_control-IsPlain p (ground arith) (ground arith) (ground arith);
  elements = check_elements_sound (split p) (ground arith);
  outside = ground (arith, in_reserved-eq p, bytes_eq_iff (first_element p) reserved_dir_name);
}

-- The checks of the whole path reject nothing that its elements would let through.
pub not-whole : (p : Bytes) → IsSafePath p → (p ≢ []) × (p ≢ dot) × (p ≢ dotdot)
unfolding first_element
not-whole p s =
    let f = safe-first p s.elements in
    (
      λ e. f.nonempty (ap first_element e),
      λ e. f.not_dot (ap first_element e),
      λ e. f.not_dotdot (ap first_element e),
    )

first_element-absolute : (p : Bytes) → has_prefix p (codes "/") ≡ true → first_element p ≡ []
unfolding has_prefix first_element
first_element-absolute [] h = refl
first_element-absolute (c ∷ p) h = ground arith

pub not-absolute : (p : Bytes) → IsSafePath p → has_prefix p (codes "/") ≡ false
not-absolute p s = elim (Bool-cases (has_prefix p (codes "/"))) [
  | inl h ↦ absurd ((safe-first p s.elements).nonempty (first_element-absolute p h))
  | inr h ↦ h
]

accepts_complete : (p : Bytes) → IsSafePath p → validate_rel_path p ≡ none
unfolding validate_rel_path
accepts_complete p s =
    let (a, b, c) = not-whole p s in
    ground (
      arith,
      a,
      b,
      c,
      s.bounded,
      s.outside,
      bytes_eq_iff p [],
      bytes_eq_iff p dot,
      bytes_eq_iff p dotdot,
      not-absolute p s,
      IsPlain-has_control p s.plain,
      in_reserved-eq p,
      bytes_eq_iff (first_element p) reserved_dir_name,
      check_elements_complete (split p) s.elements,
    )

-- `ValidateRelPath` accepts exactly the paths of at most 4096 bytes with no backslash, colon or
-- control character, whose first element is not syncat's own directory, and whose every element is
-- a name: not empty, not `.` or `..`, no temporary file of syncat's and no Windows device.
pub validate_rel_path_iff : (p : Bytes) → (validate_rel_path p ≡ none) ↔ IsSafePath p
validate_rel_path_iff p = (accepts_sound p, accepts_complete p)
