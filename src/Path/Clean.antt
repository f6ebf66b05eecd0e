-- ===== src/Path/Clean.antt =====
-- Lemmas on splitting, joining and cleaning paths.
use mathlib.Core.List.{append-nil, append_assoc}
use mathlib.Core.Path.{ap₂, ◌≡⟨◌⟩◌, ◌∎}
use syncat.Prelude.{
  ◌==◌, Bool-cases, All, Bytes, bytes_eq, contains_byte, bytes_eq_iff, ◌≡◌, refl, sym, ap, ◌∙◌, ◌≢◌,
  inl, inr, false, ◌||◌, List, [], ◌∷◌, ◌++◌, arith,
}
use syncat.Path.{dot, dotdot}
use syncat.Path.Split.{slash, split, join, split_nonempty}
use syncat.Path.Join.{drop_last, push_element, resolve, clean, filepath_join}

abbrev pub NoSlash : Bytes → Type 0
NoSlash e = contains_byte e slash ≡ false

-- An element of a cleaned path.
pub record IsName (e : Bytes) : Type 0 where
  pub nonempty : e ≢ []
  pub not_dot : e ≢ dot
  pub not_dotdot : e ≢ dotdot
  pub no_slash : NoSlash e

pub split-append : (a b : Bytes) → split (a ++ slash ∷ b) ≡ split a ++ split b
unfolding split
split-append [] b = refl
split-append (c ∷ a) b =
    let (e, es, q) = split_nonempty a in
    let ih : split (a ++ slash ∷ b) ≡ e ∷ (es ++ split b) =
      split-append a b ∙ ap (λ t. t ++ split b) q in
    elim (Bool-cases (c == slash)) [ inl h ↦ rw (h, ih, q) | inr h ↦ rw (h, ih, q) ]

pub split-NoSlash : (s : Bytes) → All NoSlash (split s)
unfolding split contains_byte
split-NoSlash [] = (refl, tt)
split-NoSlash (c ∷ s) =
    let (e, es, q) = split_nonempty s in
    let ih : All NoSlash (e ∷ es) = rw q at (split-NoSlash s) in
    elim (Bool-cases (c == slash)) [
      | inl h ↦ rw h (refl, split-NoSlash s)
      | inr h ↦ rw (h, q) (ground (arith, ih.0), ih.1)
    ]

pub split_whole : (e : Bytes) → NoSlash e → split e ≡ e ∷ []
unfolding split contains_byte
split_whole [] h = refl
split_whole (c ∷ e) h =
    let ih = split_whole e (ground arith) in
    let out : (c == slash) ≡ false = ground arith in rw (out, ih)

pub split-join :
    (e : Bytes) (es : List Bytes) → All NoSlash (e ∷ es) → split (join (e ∷ es)) ≡ e ∷ es
unfolding join
split-join e [] h = split_whole e h.0
split-join e (f ∷ es) h =
    split-append e (join (f ∷ es)) ∙ rw (split_whole e h.0, split-join f es h.1)

drop_last-All : (es : List Bytes) → All IsName es → All IsName (drop_last es)
drop_last-All [] h = tt
drop_last-All (e ∷ []) h = tt
drop_last-All (e ∷ f ∷ es) h = (h.0, drop_last-All (f ∷ es) h.1)

All-snoc : (es : List Bytes) (e : Bytes) → All IsName es → IsName e → All IsName (es ++ e ∷ [])
All-snoc [] e h n = (n, tt)
All-snoc (f ∷ es) e h n = (h.0, All-snoc es e h.1 n)

push_element-IsName :
    (acc : List Bytes) (e : Bytes) → All IsName acc → NoSlash e → All IsName (push_element acc e)
unfolding push_element
push_element-IsName acc e a h = elim (Bool-cases (bytes_eq e [] || bytes_eq e dot)) [
  | inl p ↦ rw p a
  | inr p ↦ elim (Bool-cases (bytes_eq e dotdot)) [
    | inl q ↦ rw (p, q) (drop_last-All acc a)
    | inr q ↦
        rw (p, q)
          (All-snoc acc e a (record {
            nonempty = ground (arith, bytes_eq_iff e []);
            not_dot = ground (arith, bytes_eq_iff e dot);
            not_dotdot = ground (arith, bytes_eq_iff e dotdot);
            no_slash = h;
          }))
  ]
]

-- Cleaning leaves names only.
pub resolve-IsName :
    (acc es : List Bytes) → All IsName acc → All NoSlash es → All IsName (resolve acc es)
unfolding resolve
resolve-IsName acc [] a h = a
resolve-IsName acc (e ∷ es) a h =
    resolve-IsName (push_element acc e) es (push_element-IsName acc e a h.0) h.1

-- Cleaning appends names as they are.
pub resolve_names : (acc es : List Bytes) → All IsName es → resolve acc es ≡ acc ++ es
unfolding resolve
resolve_names acc [] h = sym (append-nil acc)
resolve_names acc (e ∷ es) h =
    let n = h.0 in
    let a : bytes_eq e [] ≡ false = ground (arith, n.nonempty, bytes_eq_iff e []) in
    let b : bytes_eq e dot ≡ false = ground (arith, n.not_dot, bytes_eq_iff e dot) in
    let c : bytes_eq e dotdot ≡ false = ground (arith, n.not_dotdot, bytes_eq_iff e dotdot) in
    rw (a, b, c) (resolve_names (acc ++ e ∷ []) es h.1 ∙ append_assoc acc (e ∷ []) es)

pub resolve-append : (acc es fs : List Bytes) → resolve acc (es ++ fs) ≡ resolve (resolve acc es) fs
unfolding resolve
resolve-append acc [] fs = refl
resolve-append acc (e ∷ es) fs = resolve-append (push_element acc e) es fs

pub All-NoSlash : (es : List Bytes) → All IsName es → All NoSlash es
All-NoSlash [] h = tt
All-NoSlash (e ∷ es) h = (h.0.no_slash, All-NoSlash es h.1)

pub join-append :
    (e f : Bytes) (es fs : List Bytes)
    → join ((e ∷ es) ++ f ∷ fs) ≡ join (e ∷ es) ++ slash ∷ join (f ∷ fs)
unfolding join
join-append e f [] fs = refl
join-append e f (g ∷ es) fs =
    rw (join-append g f es fs)
      (sym (append_assoc e (slash ∷ join (g ∷ es)) (slash ∷ join (f ∷ fs))))

-- The elements of a cleaned path after its leading slash.
split-slash : (s : Bytes) → split (slash ∷ s) ≡ [] ∷ split s
unfolding split
split-slash s = refl

resolve-empty : (es : List Bytes) → resolve [] ([] ∷ es) ≡ resolve [] es
unfolding resolve bytes_eq
resolve-empty es = refl

resolve-split-join : (es : List Bytes) → All IsName es → resolve [] (split (join es)) ≡ es
resolve-split-join [] h = unfold split join resolve bytes_eq in refl
resolve-split-join (e ∷ es) h =
    rw (split-join e es (All-NoSlash (e ∷ es) h)) (resolve_names [] (e ∷ es) h)

-- Cleaning `clean p` joined with names keeps the elements of `p`, cleaned, and adds the names.
pub clean_below :
    (p : Bytes) (f : Bytes) (fs : List Bytes)
    → All IsName (f ∷ fs)
    → filepath_join (clean p) (f ∷ fs) ≡ slash ∷ join (resolve [] (split p) ++ f ∷ fs)
unfolding filepath_join clean
clean_below p f fs h =
    ap (λ es. slash ∷ join es)
      (resolve [] (split (join ((slash ∷ join base) ∷ f ∷ fs)))
        ≡⟨ ap (resolve []) (ap split joined ∙ split-append (slash ∷ join base) (join (f ∷ fs))) ⟩
          resolve [] (split (slash ∷ join base) ++ split (join (f ∷ fs)))
        ≡⟨ resolve-append [] (split (slash ∷ join base)) _ ⟩
          resolve (resolve [] (split (slash ∷ join base))) (split (join (f ∷ fs)))
        ≡⟨ ap₂ resolve
            (ap (resolve []) (split-slash (join base))
              ∙ resolve-empty (split (join base))
              ∙ resolve-split-join base names)
            (split-join f fs (All-NoSlash (f ∷ fs) h)) ⟩
          resolve base (f ∷ fs)
        ≡⟨ resolve_names base (f ∷ fs) h ⟩ base ++ f ∷ fs ∎)
  where
    base : List Bytes
    base = resolve [] (split p)

    names : All IsName base
    names = resolve-IsName [] (split p) tt (split-NoSlash p)

    joined : join ((slash ∷ join base) ∷ f ∷ fs) ≡ (slash ∷ join base) ++ slash ∷ join (f ∷ fs)
    joined = unfold join in refl
