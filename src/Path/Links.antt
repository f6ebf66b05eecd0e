-- ===== src/Path/Links.antt =====
-- `checkNoSymlinkParents`: no directory that a returned path passes through is a symlink.
use syncat.Prelude.{All, Bytes, ◌≡◌, refl, ◌≢◌, ◌⊎◌, inl, inr, none, List, [], ◌∷◌, arith}
use syncat.Path.Clean.{IsName}
use syncat.Path.Join.{
  filepath_join, check_no_symlink_parents, Stat, missing, failed, symlink, directory, other,
}

-- The directories between the root and the last element.
pub parents : Bytes → List Bytes → List Bytes
parents cur [] = []
parents cur (e ∷ []) = []
parents cur (e ∷ f ∷ es) = let here = filepath_join cur (e ∷ []) in here ∷ parents here (f ∷ es)

module _ (lstat : Bytes → Stat) where
  -- Nothing can be looked up below what is missing, cannot be looked up itself, or is a plain file,
  -- for paths that end in a name.
  abbrev pub IsTree : Type 0
  IsTree =
      (c d e : Bytes)
      → IsName d
      → IsName e
      → let p = filepath_join c (d ∷ []) in
        let below = lstat (filepath_join p (e ∷ [])) in
        (lstat p ≡ missing) ⊎ (lstat p ≡ failed) ⊎ (lstat p ≡ other)
        → (below ≡ missing) ⊎ (below ≡ failed)

  abbrev pub NotLink : Bytes → Type 0
  NotLink d = lstat d ≢ symlink

  parents-below-missing :
      IsTree
      → (c d : Bytes) (es : List Bytes) → IsName d
      → All IsName es
      → let p = filepath_join c (d ∷ []) in
        (lstat p ≡ missing) ⊎ (lstat p ≡ failed) ⊎ (lstat p ≡ other) → All NotLink (parents p es)
  unfolding parents
  parents-below-missing tree c d [] name names h = tt
  parents-below-missing tree c d (e ∷ []) name names h = tt
  parents-below-missing tree c d (e ∷ f ∷ es) name names h =
      let p = filepath_join c (d ∷ []) in
      elim (tree c d e name names.0 h) [
        | inl gone ↦
            (λ s. cc (gone), parents-below-missing tree p e (f ∷ es) names.0 names.1 (inl gone))
        | inr bad ↦
            (λ s. cc (bad), parents-below-missing tree p e (f ∷ es) names.0 names.1 (inr (inl bad)))
      ]

  -- Where `checkNoSymlinkParents` returns nil for elements that are names, no directory between the
  -- root and the last element is a symlink, in a file system where nothing is found below a missing
  -- path, a plain file or a path that cannot be looked up.
  pub check_no_symlink_parents_sound :
      IsTree
      → (cur : Bytes) (es : List Bytes) → All IsName es
      → check_no_symlink_parents lstat cur es ≡ none
      → All NotLink (parents cur es)
  unfolding parents check_no_symlink_parents
  check_no_symlink_parents_sound tree cur [] names h = tt
  check_no_symlink_parents_sound tree cur (e ∷ []) names h = tt
  check_no_symlink_parents_sound tree cur (e ∷ f ∷ es) names h =
      go (check_no_symlink_parents_sound tree (filepath_join cur (e ∷ [])) (f ∷ es) names.1)
        (lstat here) refl
    where
      here : Bytes
      here = filepath_join cur (e ∷ [])

      go :
          (check_no_symlink_parents lstat here (f ∷ es) ≡ none
            → All NotLink (parents here (f ∷ es)))
          → (s : Stat) → lstat here ≡ s
          → NotLink here × All NotLink (parents here (f ∷ es))
      go rec missing q =
          (λ l. cc, parents-below-missing tree cur e (f ∷ es) names.0 names.1 (inl q))
      go rec failed q = ground (arith, q)
      go rec symlink q = ground (arith, q)
      go rec directory q = (λ l. cc, rec (ground (arith, q)))
      go rec other q =
          (λ l. cc, parents-below-missing tree cur e (f ∷ es) names.0 names.1 (inr (inr q)))
