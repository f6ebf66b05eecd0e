-- ===== src/Path/Split.antt =====
-- `strings.Split(s, "/")` and its inverse `strings.Join(elems, "/")`.
use syncat.Prelude.{
  ◌==◌, if◌then◌else◌, Bool-cases, Bytes, bytes_eq, has_prefix, contains_byte, ℕ, ◌≡◌, refl, ap,
  ◌∙◌, inl, inr, false, ◌||◌, List, [], ◌∷◌, ◌++◌, arith,
}

abbrev pub slash : ℕ
slash = b'/'

unfoldable pub push_head : ℕ → List Bytes → List Bytes
push_head c [] = (c ∷ []) ∷ []
push_head c (e ∷ es) = (c ∷ e) ∷ es

unfoldable pub split : Bytes → List Bytes
unfolding push_head
split [] = [] ∷ []
split (c ∷ s) = if c == slash then [] ∷ split s else push_head c (split s)

unfoldable pub join : List Bytes → Bytes
join [] = []
join (e ∷ []) = e
join (e ∷ f ∷ es) = e ++ slash ∷ join (f ∷ es)

join-push_head :
    (c : ℕ) (e : Bytes) (es : List Bytes) → join (push_head c (e ∷ es)) ≡ c ∷ join (e ∷ es)
unfolding join push_head
join-push_head c e [] = refl
join-push_head c e (f ∷ es) = refl

-- A split text has a first element.
pub split_nonempty : (s : Bytes) → (e : Bytes) × (es : List Bytes) × (split s ≡ e ∷ es)
unfolding split
split_nonempty [] = ([], [], refl)
split_nonempty (c ∷ s) = elim (Bool-cases (c == slash)) [
  | inl h ↦ ([], split s, rw h)
  | inr h ↦ let (e, es, q) = split_nonempty s in (c ∷ e, es, rw (h, q))
]

join-nil : (e : Bytes) (es : List Bytes) → join ([] ∷ e ∷ es) ≡ slash ∷ join (e ∷ es)
unfolding join
join-nil e es = refl

-- Splitting loses nothing.
pub join-split : (s : Bytes) → join (split s) ≡ s
unfolding split
join-split [] = unfold join in refl
join-split (c ∷ s) =
    let (e, es, q) = split_nonempty s in
    let ih : join (e ∷ es) ≡ s = rw (← q) (join-split s) in
    elim (Bool-cases (c == slash)) [
      | inl h ↦ rw (h, q) (join-nil e es ∙ ground (arith, ih))
      | inr h ↦ rw (h, q) (join-push_head c e es ∙ ap (◌∷◌ c) ih)
    ]

-- What stands before the first slash.
unfoldable pub first_element : Bytes → Bytes
first_element [] = []
first_element (c ∷ s) = if c == slash then [] else c ∷ first_element s

pub split-first_element : (s : Bytes) → (es : List Bytes) × (split s ≡ first_element s ∷ es)
unfolding split first_element
split-first_element [] = ([], refl)
split-first_element (c ∷ s) = elim (Bool-cases (c == slash)) [
  | inl h ↦ (split s, rw h)
  | inr h ↦ let (es, q) = split-first_element s in (es, rw (h, q))
]

-- A path is `d`, or lies below `d`, exactly when its first element is `d`.
pub first_element-eq :
    (p d : Bytes)
    → contains_byte d slash ≡ false
    → (bytes_eq p d || has_prefix p (d ++ slash ∷ [])) ≡ bytes_eq (first_element p) d
unfolding first_element bytes_eq has_prefix contains_byte
first_element-eq [] [] h = refl
first_element-eq [] (x ∷ d) h = refl
first_element-eq (c ∷ s) [] h = ground arith
first_element-eq (c ∷ s) (x ∷ d) h = ground (arith, first_element-eq s d)
