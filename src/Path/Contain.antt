-- ===== src/Path/Contain.antt =====
-- Where a path that `JoinSharePath` returns lies.
use mathlib.Core.List.{append_assoc}
use syncat.Prelude.{
  if◌then◌else◌, Bool-cases, Option-cases, All, Bytes, bytes_eq, has_prefix, bytes_eq→≡,
  bytes_eq_iff, ◌≡◌, refl, ap, ◌∙◌, ◌≢◌, inl, inr, true, false, not, none, some, List, [], ◌∷◌,
  ◌++◌, arith,
}
use syncat.Path.{validate_rel_path}
use syncat.Path.Split.{slash, split, join, join-split, split_nonempty}
use syncat.Path.Valid.{IsSafeElement, validate_rel_path_iff, not-whole, not-absolute}
use syncat.Path.Clean.{IsName, NoSlash, split-NoSlash, clean_below, join-append, resolve-IsName}
use syncat.Path.Join.{
  Stat, err, resolve, clean, filepath_join, is_abs, check_no_symlink_parents, join_clean,
  join_share_path, settled, escapes, invalid, root_not_absolute,
}

safe-IsName : (es : List Bytes) → All IsSafeElement es → All NoSlash es → All IsName es
safe-IsName [] h n = tt
safe-IsName (e ∷ es) h n = (
  record {
    nonempty = h.0.nonempty;
    not_dot = h.0.not_dot;
    not_dotdot = h.0.not_dotdot;
    no_slash = n.0;
  },
  safe-IsName es h.1 n.1,
)

join_nonempty : (e : Bytes) (es : List Bytes) → e ≢ [] → bytes_eq (join (e ∷ es)) [] ≡ false
unfolding join bytes_eq
join_nonempty [] es h = absurd (h refl)
join_nonempty (c ∷ e) [] h = refl
join_nonempty (c ∷ e) (f ∷ es) h = refl

-- The root `/` keeps one slash, any other root gets one more.
below : Bytes → Bytes → Bytes
below root p = if bytes_eq root (slash ∷ []) then slash ∷ p else root ++ slash ∷ p

join-below :
    (base : List Bytes) (f : Bytes) (fs : List Bytes)
    → All IsName base
    → slash ∷ join (base ++ f ∷ fs) ≡ below (slash ∷ join base) (join (f ∷ fs))
unfolding below
join-below [] f fs h = unfold join bytes_eq in refl
join-below (b ∷ bs) f fs h =
    let other : bytes_eq (slash ∷ join (b ∷ bs)) (slash ∷ []) ≡ false =
      unfold bytes_eq in join_nonempty b bs h.0.nonempty in
    rw other (ap (◌∷◌ slash) (join-append b f bs fs))

-- A valid path is appended to a cleaned root as it is.
filepath_join-valid :
    (root p : Bytes)
    → validate_rel_path p ≡ none
    → filepath_join (clean root) (split p) ≡ below (clean root) p
unfolding clean
filepath_join-valid root p h =
    let (f, fs, s) = split_nonempty p in
    let names : All IsName (f ∷ fs) =
      rw s at (safe-IsName (split p) ((validate_rel_path_iff p).0 h).elements (split-NoSlash p)) in
    let back : join (f ∷ fs) ≡ p = rw (← s) (join-split p) in
    rw s (
      clean_below root f fs names
      ∙ join-below (resolve [] (split root)) f fs
          (resolve-IsName [] (split root) tt (split-NoSlash root))
      ∙ ap (below (clean root)) back)

has_prefix-append : (s t : Bytes) → has_prefix (s ++ t) s ≡ true
unfolding has_prefix
has_prefix-append [] t = refl
has_prefix-append (c ∷ s) t = ground (arith, has_prefix-append s t)

has_prefix-below : (root p : Bytes) → has_prefix (root ++ slash ∷ p) (root ++ slash ∷ []) ≡ true
has_prefix-below root p =
    rw (← append_assoc root (slash ∷ []) p) (has_prefix-append (root ++ slash ∷ []) p)

-- Below `/` nothing passes the test `HasPrefix(full, "//")`.
not-below-slash :
    (p : Bytes)
    → validate_rel_path p ≡ none
    → (bytes_eq (slash ∷ p) (slash ∷ []) ≡ false)
      × (has_prefix (slash ∷ p) (slash ∷ slash ∷ []) ≡ false)
unfolding bytes_eq has_prefix
not-below-slash p h =
    let safe = (validate_rel_path_iff p).0 h in
    (ground (arith, (not-whole p safe).0, bytes_eq_iff p []), not-absolute p safe)

module _ (lstat : Bytes → Stat) where
  join_clean-below :
      (root p : Bytes)
      → validate_rel_path p ≡ none
      → join_clean lstat (clean root) (split p) ≡ (
          if bytes_eq (clean root) (slash ∷ [])
          then err escapes
          else settled
              (check_no_symlink_parents lstat (clean root) (split p))
              (clean root ++ slash ∷ p))
  unfolding join_clean below
  join_clean-below root p h = elim (Bool-cases (bytes_eq (clean root) (slash ∷ []))) [
    | inl e ↦
        let c = bytes_eq→≡ (clean root) (slash ∷ []) e in
        let (differs, outside) = not-below-slash p h in
        rw (filepath_join-valid root p h, e, c, differs, outside)
    | inr e ↦
        rw (filepath_join-valid root p h, e, has_prefix-below (clean root) p)
          (ground (arith, Bool-cases (bytes_eq (clean root ++ slash ∷ p) (clean root))))
  ]

  -- All of `JoinSharePath`: an invalid path, a relative root and the root `/` are refused; else the
  -- path is appended to the cleaned root, unless a parent directory is refused.
  pub join_share_path_lem :
      (root p : Bytes)
      → join_share_path lstat root p ≡ elim (validate_rel_path p) [
        | some e ↦ err (invalid e)
        | none ↦
            if not (is_abs root)
            then err root_not_absolute
            else if bytes_eq (clean root) (slash ∷ [])
            then err escapes
            else settled
                (check_no_symlink_parents lstat (clean root) (split p))
                (clean root ++ slash ∷ p)
      ]
  unfolding join_share_path
  join_share_path_lem root p = elim (Option-cases (validate_rel_path p)) [
    | inl h ↦ ground (arith, h, join_clean-below root p h)
    | inr (e, h) ↦ ground (arith, h)
  ]
