-- ===== src/Trash/Expiry.antt =====
-- What a sweep leaves.
use syncat.Prelude.{
  Bool-cases, length, All, ℤ, int_lt, pos, negsuc, ℕ, ◌+◌, ◌-◌, ◌≤◌, ◌≡◌, refl, ap, ◌∙◌, ◌⊎◌, inl,
  inr, Bool, true, false, Option, none, some, List, [], ◌∷◌, arith,
}
use syncat.Trash.{
  oldest_first, total_size, is_expired, keeps, purges, is_purged, sweep_loop, sweep, TrashEvent,
  Swept,
}

-- The last event of the walk, which is the newest.
abbrev pub newest : List TrashEvent → Option TrashEvent
newest [] = none
newest (e ∷ []) = some e
newest (e ∷ f ∷ es) = newest (f ∷ es)

newest-cons :
    (f e : TrashEvent) (es : List TrashEvent) → newest es ≡ some e → newest (f ∷ es) ≡ some e
newest-cons f e [] h = cc
newest-cons f e (g ∷ es) h = h

abbrev pub Within : ℤ → ℕ → Type 0
Within max_bytes size = int_lt max_bytes (pos size) ≡ false

int_lt-less : (m : ℤ) (a b : ℕ) → a ≤ b → Within m b → Within m a
int_lt-less (pos m) a b h w = ground (arith, h, w)
int_lt-less (negsuc m) a b h w = ground (arith, w)

module _ (now : ℕ) (max_age max_bytes : ℤ) (removes : TrashEvent → Bool) where
  abbrev loop : List TrashEvent → ℕ → Swept
  loop es total = sweep_loop now max_age max_bytes removes es total

  abbrev gone : TrashEvent → List TrashEvent → ℕ → Bool
  gone e es total = is_purged now max_age max_bytes removes e es total

  loop-purged :
      (e : TrashEvent) (es : List TrashEvent) (total : ℕ)
      → gone e es total ≡ true
      → loop (e ∷ es) total ≡ purges (loop es (total - e.size))
  unfolding sweep_loop
  loop-purged e es total h = rw h refl

  loop-kept :
      (e : TrashEvent) (es : List TrashEvent) (total : ℕ)
      → gone e es total ≡ false
      → loop (e ∷ es) total ≡ keeps e (loop es total)
  unfolding sweep_loop
  loop-kept e es total h = rw h refl

  -- The size that is reported is that of the events that stay, whatever removals fail.
  loop-size :
      (es : List TrashEvent) (others total : ℕ)
      → total ≡ others + total_size es
      → (loop es total).size ≡ others + total_size (loop es total).kept
  unfolding sweep_loop
  loop-size [] others total h = h
  loop-size (e ∷ es) others total h = elim (Bool-cases (gone e es total)) [
    | inl g ↦
        let ih = loop-size es others (total - e.size) (omega (arith, h)) in
        rw (loop-purged e es total g) ih
    | inr k ↦
        let ih = loop-size es (others + e.size) total (omega (arith, h)) in
        rw (loop-kept e es total k) (omega (arith, ih))
  ]

  loop-shrinks : (es : List TrashEvent) (total : ℕ) → (loop es total).size ≤ total
  unfolding sweep_loop
  loop-shrinks [] total = omega arith
  loop-shrinks (e ∷ es) total = elim (Bool-cases (gone e es total)) [
    | inl g ↦
        let ih = loop-shrinks es (total - e.size) in
        rw (loop-purged e es total g) (omega (arith, ih))
    | inr k ↦ rw (loop-kept e es total k) (loop-shrinks es total)
  ]

  -- An event that is not too old.
  abbrev pub IsYoung : TrashEvent → Type 0
  IsYoung e = is_expired now max_age e ≡ false

  module _ (works : (e : TrashEvent) → removes e ≡ true) where
    loop-IsYoung : (es : List TrashEvent) (total : ℕ) → All IsYoung (loop es total).kept
    unfolding sweep_loop
    loop-IsYoung [] total = tt
    loop-IsYoung (e ∷ es) total = elim (Bool-cases (gone e es total)) [
      | inl g ↦ rw (loop-purged e es total g) (loop-IsYoung es (total - e.size))
      | inr k ↦ rw (loop-kept e es total k) (ground (arith, k, works e), loop-IsYoung es total)
    ]

    loop-Within :
        (es : List TrashEvent) (total : ℕ)
        → Within max_bytes (loop es total).size ⊎ (length (loop es total).kept ≤ 1)
    unfolding sweep_loop
    loop-Within [] total = inr (omega arith)
    loop-Within (e ∷ []) total = elim (Bool-cases (gone e [] total)) [
      | inl g ↦ rw (loop-purged e [] total g) (inr (omega arith))
      | inr k ↦ rw (loop-kept e [] total k) (inr (omega arith))
    ]
    loop-Within (e ∷ f ∷ es) total = elim (Bool-cases (gone e (f ∷ es) total)) [
      | inl g ↦ rw (loop-purged e (f ∷ es) total g) (loop-Within (f ∷ es) (total - e.size))
      | inr k ↦
          let fits : Within max_bytes total = ground (arith, k, works e) in
          rw (loop-kept e (f ∷ es) total k) (
            inl (
              int_lt-less max_bytes (loop (f ∷ es) total).size total (loop-shrinks (f ∷ es) total)
                fits))
    ]

  loop-newest :
      (es : List TrashEvent) (total : ℕ) (e : TrashEvent)
      → newest es ≡ some e
      → IsYoung e
      → newest (loop es total).kept ≡ some e
  unfolding sweep_loop
  loop-newest [] total e last young = cc
  loop-newest (f ∷ []) total e last young =
      let same : f ≡ e = ground (arith, last) in
      let fresh : is_expired now max_age f ≡ false =
        ap (λ g. is_expired now max_age g) same ∙ young in
      let stays : gone f [] total ≡ false = ground (arith, fresh) in
      rw (loop-kept f [] total stays) last
  loop-newest (f ∷ g ∷ es) total e last young = elim (Bool-cases (gone f (g ∷ es) total)) [
    | inl h ↦
        rw (loop-purged f (g ∷ es) total h) (loop-newest (g ∷ es) (total - f.size) e last young)
    | inr k ↦
        rw (loop-kept f (g ∷ es) total k)
          (newest-cons f e (loop (g ∷ es) total).kept (loop-newest (g ∷ es) total e last young))
  ]

-- After a sweep in which every removal works, no event that is too old is left; what is left fits
-- into the size that was set, or is at most one event; the newest event stays unless it is too old;
-- and the size that is reported is that of the events that are left.
pub sweep_leaves :
    (now : ℕ) (max_age max_bytes : ℤ) (removes : TrashEvent → Bool) (listed : List TrashEvent)
    → ((e : TrashEvent) → removes e ≡ true)
    → let r = sweep now max_age max_bytes removes listed in
      All (IsYoung now max_age max_bytes removes) r.kept
      × (Within max_bytes r.size ⊎ (length r.kept ≤ 1))
      × (r.size ≡ total_size r.kept)
      × ((e : TrashEvent)
          → newest (oldest_first listed) ≡ some e
          → is_expired now max_age e ≡ false
          → newest r.kept ≡ some e)
unfolding sweep
sweep_leaves now max_age max_bytes removes listed works =
    let events = oldest_first listed in
    let total = total_size events in
    let sized = loop-size now max_age max_bytes removes events 0 total (omega arith) in
    (
      loop-IsYoung now max_age max_bytes removes works events total,
      loop-Within now max_age max_bytes removes works events total,
      omega (arith, sized),
      λ e. loop-newest now max_age max_bytes removes events total e,
    )
