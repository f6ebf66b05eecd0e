-- ===== src/Vector/Order.antt =====
-- What the loops of `Equal`, `Dominates` and `Concurrent` decide.
use syncat.Prelude.{
  ltb, if◌then◌else◌, ltb→lt, Bool-cases, &&_join, Bytes, bytes_eq, bytes_eq_refl, bytes_eq→≡,
  bytes_eq_iff, find, has, IsMap, find-has, ℕ, ◌+◌, ◌≤◌, ◌<◌, ◌≡◌, refl, sym, ◌↔◌, ◌⊎◌, inl, inr,
  Bool, true, false, Option, none, some, [], ◌∷◌, arith, bytes_key,
}
use syncat.Vector.{
  VersionVector, counter, agrees, equal, compare_keys, covers_missing, verdict, dominates,
  concurrent,
}

pub counter-absent : (v : VersionVector) (k : Bytes) → has v k ≡ false → counter v k ≡ 0
unfolding counter
counter-absent v k h = rw (find-has v k h, counter)

pub counter-cons :
    (j : Bytes) (n : ℕ) (v : VersionVector) (k : Bytes)
    → counter ((j, n) ∷ v) k ≡ (if bytes_eq j k then n else counter v k)
unfolding counter find
counter-cons j n v k = ground arith

-- `agrees a b` compares every key of `a`.
agrees_sound :
    (a b : VersionVector)
    → agrees a b ≡ true
    → (k : Bytes) → has a k ≡ true
    → counter b k ≡ counter a k
unfolding agrees has
agrees_sound [] b h k p = cc
agrees_sound ((j, n) ∷ a) b h k p =
    ground (
      arith,
      counter-cons j n a k,
      bytes_eq_iff j k,
      λ (q : agrees a b ≡ true). agrees_sound a b q k,
    )

agrees_complete :
    (a b : VersionVector)
    → IsMap a
    → ((k : Bytes) → has a k ≡ true → counter b k ≡ counter a k)
    → agrees a b ≡ true
unfolding agrees has
agrees_complete [] b w h = refl
agrees_complete ((j, n) ∷ a) b w h =
    ground (arith, h j, counter-cons j n a j, bytes_eq_refl j, agrees_complete a b w.1 rest)
  where
    rest : (k : Bytes) → has a k ≡ true → counter b k ≡ counter a k
    rest k p = ground (arith, h k, counter-cons j n a k, bytes_eq_iff j k)

pub equal_sound : (a b : VersionVector) → equal a b ≡ true → (k : Bytes) → counter a k ≡ counter b k
unfolding equal
equal_sound a b h k = ground (
  arith,
  λ (q : agrees a b ≡ true). agrees_sound a b q k,
  λ (q : agrees b a ≡ true). agrees_sound b a q k,
  counter-absent a k,
  counter-absent b k,
)

-- `Equal` is equality of every counter, a missing key counting as zero.
pub equal_iff :
    (a b : VersionVector)
    → IsMap a
    → IsMap b
    → (equal a b ≡ true) ↔ ((k : Bytes) → counter a k ≡ counter b k)
unfolding equal
equal_iff a b wa wb = (
  equal_sound a b,
  λ h.
      &&_join _ _ (agrees_complete a b wa (λ k _. sym (h k))) (agrees_complete b a wb (λ k _. h k)),
)

abbrev KeysCompared : VersionVector → VersionVector → VersionVector → Bool → Option Bool → Type 0
KeysCompared rest a b strict none = (k : Bytes) × (counter a k < counter b k)
KeysCompared rest a b strict (some true) =
    ((k : Bytes) → has rest k ≡ true → counter b k ≤ counter a k)
    × ((strict ≡ true) ⊎ ((k : Bytes) × (counter b k < counter a k)))
KeysCompared rest a b strict (some false) =
    (strict ≡ false) × ((k : Bytes) → has rest k ≡ true → counter a k ≡ counter b k)

-- One round of the loop, from what the later rounds establish.
KeysCompared-step :
    (j : Bytes) (n : ℕ) (rest a b : VersionVector) (strict : Bool) (r : Option Bool)
    → counter b j ≤ counter a j
    → KeysCompared rest a b (if ltb (counter b j) (counter a j) then true else strict) r
    → KeysCompared ((j, n) ∷ rest) a b strict r
unfolding has
KeysCompared-step j n rest a b strict none h (k, l) = (k, l)
KeysCompared-step j n rest a b strict (some true) h (below, why) = (all, reason)
  where
    all : (k : Bytes) → has ((j, n) ∷ rest) k ≡ true → counter b k ≤ counter a k
    all k p = elim (Bool-cases (bytes_eq j k)) [
      | inl e ↦ rw (← bytes_eq→≡ j k e) h
      | inr e ↦ below k (ground (arith, p))
    ]

    reason : (strict ≡ true) ⊎ ((k : Bytes) × (counter b k < counter a k))
    reason = elim (Bool-cases (ltb (counter b j) (counter a j))) [
      | inl l ↦ inr (j, ltb→lt _ _ l)
      | inr l ↦ rw l at why
    ]
KeysCompared-step j n rest a b strict (some false) h (flag, same) = (ground arith, all)
  where
    all : (k : Bytes) → has ((j, n) ∷ rest) k ≡ true → counter a k ≡ counter b k
    all k p = elim (Bool-cases (bytes_eq j k)) [
      | inl e ↦ rw (← bytes_eq→≡ j k e) (ground arith)
      | inr e ↦ same k (ground (arith, p))
    ]

compare_keys-KeysCompared :
    (rest a b : VersionVector) (strict : Bool)
    → KeysCompared rest a b strict (compare_keys rest a b strict)
unfolding compare_keys has
compare_keys-KeysCompared [] a b true = (λ k p. cc, inl refl)
compare_keys-KeysCompared [] a b false = (refl, λ k p. cc)
compare_keys-KeysCompared ((j, n) ∷ rest) a b strict =
    elim (Bool-cases (ltb (counter a j) (counter b j))) [
      | inl l ↦ rw l (j, ltb→lt _ _ l)
      | inr l ↦ rw l (
          KeysCompared-step j n rest a b strict _ (ground arith) (
            compare_keys-KeysCompared rest a b
              (if ltb (counter b j) (counter a j) then true else strict)))
    ]

covers_missing_sound :
    (rest a b : VersionVector)
    → covers_missing rest a b ≡ true
    → (k : Bytes) → has rest k ≡ true
    → has a k ≡ false
    → counter b k ≤ counter a k
unfolding covers_missing has
covers_missing_sound [] a b h k p q = cc
covers_missing_sound ((j, n) ∷ rest) a b h k p q = elim (Bool-cases (bytes_eq j k)) [
  | inl e ↦ let f = bytes_eq→≡ j k e in let q' : has a j ≡ false = rw f q in rw (← f) (ground arith)
  | inr e ↦ covers_missing_sound rest a b (ground arith) k (ground arith) q
]

covers_missing_complete :
    (rest a b : VersionVector)
    → ((k : Bytes) → counter b k ≤ counter a k)
    → covers_missing rest a b ≡ true
unfolding covers_missing
covers_missing_complete [] a b h = refl
covers_missing_complete ((j, n) ∷ rest) a b h =
    ground (arith, h j, covers_missing_complete rest a b h)

-- Every counter of `b` is at most that of `a`.
abbrev pub Below : VersionVector → VersionVector → Type 0
Below b a = (k : Bytes) → counter b k ≤ counter a k

-- Some counter of `b` is below that of `a`.
abbrev pub StrictAt : VersionVector → VersionVector → Type 0
StrictAt b a = (k : Bytes) × (counter b k < counter a k)

Below-by-loops :
    (a b : VersionVector)
    → ((k : Bytes) → has a k ≡ true → counter b k ≤ counter a k)
    → covers_missing b a b ≡ true
    → Below b a
Below-by-loops a b own c k = ground (
  arith,
  own k,
  counter-absent b k,
  λ (p : has b k ≡ true) (q : has a k ≡ false). covers_missing_sound b a b c k p q,
)

verdict_sound :
    (a b : VersionVector) (r : Option Bool)
    → KeysCompared a a b false r
    → verdict r (covers_missing b a b) ≡ true
    → Below b a × StrictAt b a
verdict_sound a b none h v = cc
verdict_sound a b (some true) (own, inl e) v = cc
verdict_sound a b (some true) (own, inr at) v = (Below-by-loops a b own (ground arith), at)
verdict_sound a b (some false) h v = ground arith

verdict_complete :
    (a b : VersionVector) (r : Option Bool)
    → KeysCompared a a b false r
    → Below b a
    → StrictAt b a
    → verdict r (covers_missing b a b) ≡ true
verdict_complete a b none (k, l) le s = absurd (omega (arith, le k))
verdict_complete a b (some true) h le s = rw (covers_missing_complete b a b le)
verdict_complete a b (some false) (_, same) le (k, l) = ground (arith, same k, counter-absent a k)

-- `Dominates` is the strict pointwise order on counters.
pub dominates_iff : (a b : VersionVector) → (dominates a b ≡ true) ↔ (Below b a × StrictAt b a)
unfolding dominates
dominates_iff a b = (
  verdict_sound a b _ (compare_keys-KeysCompared a a b false),
  λ (le, s). verdict_complete a b _ (compare_keys-KeysCompared a a b false) le s,
)

pub dominates_asymm : (a b : VersionVector) → dominates a b ≡ true → dominates b a ≡ false
dominates_asymm a b h = elim (Bool-cases (dominates b a)) [
  | inl e ↦
      let (k, l) = ((dominates_iff a b).0 h).1 in
      absurd (omega (arith, ((dominates_iff b a).0 e).0 k))
  | inr e ↦ e
]

pub dominates_trans :
    (a b c : VersionVector) → dominates a b ≡ true → dominates b c ≡ true → dominates a c ≡ true
dominates_trans a b c h g =
    let (le, (k, l)) = (dominates_iff a b).0 h in
    let (le', _) = (dominates_iff b c).0 g in
    (dominates_iff a c).1 (λ j. omega (arith, le j, le' j), (k, omega (arith, le' k)))

pub dominates-not-equal :
    (a b : VersionVector) → dominates a b ≡ true → (equal a b ≡ false) × (equal b a ≡ false)
dominates-not-equal a b d = (
  elim (Bool-cases (equal a b)) [
    | inl e ↦ absurd (omega (arith, equal_sound a b e k, lt))
    | inr e ↦ e
  ],
  elim (Bool-cases (equal b a)) [
    | inl e ↦ absurd (omega (arith, equal_sound b a e k, lt))
    | inr e ↦ e
  ],
)
  where
    k : Bytes
    k = ((dominates_iff a b).0 d).1.0

    lt : counter b k < counter a k
    lt = ((dominates_iff a b).0 d).1.1

abbrev pub flag : Bool → ℕ
flag true = 1
flag false = 0

-- For any two vectors, exactly one of `Equal(a, b)`, `Dominates(a, b)`, `Dominates(b, a)` and
-- `Concurrent(a, b)` holds.
pub trichotomy :
    (a b : VersionVector)
    → flag (equal a b) + flag (dominates a b) + flag (dominates b a) + flag (concurrent a b) ≡ 1
unfolding concurrent
trichotomy a b =
    ground (arith, dominates-not-equal a b, dominates-not-equal b a, dominates_asymm a b)
