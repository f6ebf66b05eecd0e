-- ===== src/Index/Latest.antt =====
-- The last row of a path in a list of rows, which is what an index keeps that the rows are written to.
use syncat.Prelude.{
  if◌then◌else◌, Bool-cases, Option-cases, Bytes, bytes_eq, Dict, find, insert, find-insert, ◌≡◌,
  refl, sym, ◌∙◌, inl, inr, Option, none, some, List, [], ◌∷◌, ◌++◌, bytes_key,
}
use syncat.Reconcile.{FileInfo}
use syncat.Reconcile.Pass.{index_onto}

-- The later of two values, where there is one.
abbrev pub or_else {ℓ} : {A : Type ℓ} → Option A → Option A → Option A
or_else (some a) o = some a
or_else none o = o

-- The last of the rows that is about `p`.
abbrev pub latest : Bytes → List FileInfo → Option FileInfo
latest p [] = none
latest p (r ∷ rows) = or_else (latest p rows) (if bytes_eq r.rel_path p then some r else none)

pub or_else_assoc {ℓ} :
    {A : Type ℓ} (a b c : Option A) → or_else (or_else a b) c ≡ or_else a (or_else b c)
or_else_assoc (some x) b c = refl
or_else_assoc none b c = refl

pub latest-append :
    (p : Bytes) (xs ys : List FileInfo) → latest p (xs ++ ys) ≡ or_else (latest p ys) (latest p xs)
latest-append p [] ys = elim (Option-cases (latest p ys)) [
  | inl e ↦ rw e refl
  | inr (r, e) ↦ rw e refl
]
latest-append p (x ∷ xs) ys =
    rw (latest-append p xs ys)
      (or_else_assoc (latest p ys) (latest p xs) (if bytes_eq x.rel_path p then some x else none))

-- Writing rows into an index one after the other leaves the last row of each path.
pub find-index_onto :
    (p : Bytes) (rows : List FileInfo) (m : Dict Bytes FileInfo)
    → find (index_onto m rows) p ≡ or_else (latest p rows) (find m p)
unfolding index_onto
find-index_onto p [] m = refl
find-index_onto p (r ∷ rows) m =
    let inserted = find-insert r.rel_path p r m in
    let later = find-index_onto p rows (insert r.rel_path r m) in
    let assoc =
      or_else_assoc (latest p rows) (if bytes_eq r.rel_path p then some r else none) (find m p) in
    later
    ∙ (rw (inserted)
        (elim (Bool-cases (bytes_eq r.rel_path p)) [ inl e ↦ rw e refl | inr e ↦ rw e refl ]))
    ∙ sym assoc
