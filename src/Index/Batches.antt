-- ===== src/Index/Batches.antt =====
-- `snapshotBatchLen` and `deltaBatchLen` of internal/sync/session.go, and the loops that cut rows
-- into batches by them. The encoded size of an entry and of an empty message are CBOR's, and
-- parameters; encoding these messages does not fail.
use syncat.Prelude.{
  ltb, ◌==◌, if◌then◌else◌, Bool-cases, length, take, drop, All, ℕ, zero, suc, ◌+◌, ◌-◌, ◌*◌, ◌≤◌,
  ◌<◌, ◌≡◌, refl, sym, ap, ◌∙◌, inl, inr, Bool, true, false, List, [], ◌∷◌, ◌++◌, arith,
}

abbrev pub target_index_batch_size : ℕ
target_index_batch_size = 3 * 1024 * 1024

abbrev pub batch_array_header_slack : ℕ
batch_array_header_slack = 8

module _ {A : Type 0} where
  -- The loop: how many rows still fit when `total` bytes are taken.
  unfoldable pub rows_that_fit : (A → ℕ) → ℕ → List A → ℕ
  rows_that_fit size total [] = 0
  rows_that_fit size total (r ∷ rows) =
      let rest = rows_that_fit size (total + size r) rows in
      if ltb target_index_batch_size (total + size r) then 0 else suc rest

  -- `envelope` is the size of the message without rows.
  unfoldable pub batch_len : (A → ℕ) → ℕ → List A → ℕ
  unfolding rows_that_fit
  batch_len size envelope rows = rows_that_fit size (envelope + batch_array_header_slack) rows

  -- A row that fits by itself is sent.
  pub batch_len-some :
      (size : A → ℕ) (envelope : ℕ) (x : A) (xs : List A)
      → envelope + batch_array_header_slack + size x ≤ target_index_batch_size
      → 1 ≤ batch_len size envelope (x ∷ xs)
  unfolding batch_len
  batch_len-some size envelope x xs h = ground (arith, h)

  -- The batches that are sent, and whether all rows fit: where an entry alone is too big for a frame
  -- the loop returns an error after the batches before it.
  abbrev pub after_batch : List A → List (List A) × Bool → List (List A) × Bool
  after_batch b (bs, whole) = (b ∷ bs, whole)

  -- `for len(rows) > 0`; `len` may depend on the number of the batch.
  unfoldable pub cut_batches : ℕ → (ℕ → List A → ℕ) → ℕ → List A → List (List A) × Bool
  cut_batches fuel len n [] = ([], true)
  cut_batches zero len n (r ∷ rows) = ([], false)
  cut_batches (suc fuel) len n (r ∷ rows) =
      let k = len n (r ∷ rows) in
      let rest = cut_batches fuel len (n + 1) (drop k (r ∷ rows)) in
      if k == 0 then ([], false) else after_batch (take k (r ∷ rows)) rest

  abbrev pub concat : List (List A) → List A
  concat [] = []
  concat (b ∷ bs) = b ++ concat bs

  pub take-drop : (k : ℕ) (xs : List A) → take k xs ++ drop k xs ≡ xs
  take-drop zero xs = refl
  take-drop (suc k) [] = refl
  take-drop (suc k) (x ∷ xs) = ap (◌∷◌ x) (take-drop k xs)

  pub append_nil : (xs : List A) → xs ++ [] ≡ xs
  append_nil [] = refl
  append_nil (x ∷ xs) = ap (◌∷◌ x) (append_nil xs)

  pub append_assoc : (xs ys zs : List A) → (xs ++ ys) ++ zs ≡ xs ++ (ys ++ zs)
  append_assoc [] ys zs = refl
  append_assoc (x ∷ xs) ys zs = ap (◌∷◌ x) (append_assoc xs ys zs)

  -- Batches that hold all rows hold them in order, each once.
  pub concat-cut_batches :
      (fuel : ℕ) (len : ℕ → List A → ℕ) (n : ℕ) (rows : List A)
      → (cut_batches fuel len n rows).1 ≡ true
      → concat (cut_batches fuel len n rows).0 ≡ rows
  unfolding cut_batches
  concat-cut_batches fuel len n [] h = refl
  concat-cut_batches zero len n (r ∷ rows) h = ground (arith, h)
  concat-cut_batches (suc fuel) len n (r ∷ rows) h =
      let k = len n (r ∷ rows) in
      let ih = concat-cut_batches fuel len (n + 1) (drop k (r ∷ rows)) in
      elim (Bool-cases (k == 0)) [
        | inl e ↦ ground (arith, h, e)
        | inr e ↦ rw (e) (
            ap (λ xs. take k (r ∷ rows) ++ xs) (ih (ground (arith, h, e))) ∙ take-drop k (r ∷ rows))
      ]

  pub concat-append : (bs cs : List (List A)) → concat (bs ++ cs) ≡ concat bs ++ concat cs
  concat-append [] cs = refl
  concat-append (b ∷ bs) cs =
      ap (λ xs. b ++ xs) (concat-append bs cs) ∙ sym (append_assoc b (concat bs) (concat cs))

  -- What has been sent is the front of the rows, also where an entry does not fit.
  pub cut_batches-prefix :
      (fuel : ℕ) (len : ℕ → List A → ℕ) (n : ℕ) (rows : List A)
      → (rest : List A) × (rows ≡ concat (cut_batches fuel len n rows).0 ++ rest)
  unfolding cut_batches
  cut_batches-prefix fuel len n [] = ([], refl)
  cut_batches-prefix zero len n (r ∷ rows) = (r ∷ rows, refl)
  cut_batches-prefix (suc fuel) len n (r ∷ rows) =
      let k = len n (r ∷ rows) in
      let (rest, e) = cut_batches-prefix fuel len (n + 1) (drop k (r ∷ rows)) in
      let later = (cut_batches fuel len (n + 1) (drop k (r ∷ rows))).0 in
      elim (Bool-cases (k == 0)) [
        | inl z ↦ (r ∷ rows, rw z refl)
        | inr z ↦ (
          rest,
          rw (z) (
              sym (take-drop k (r ∷ rows))
              ∙ ap (λ xs. take k (r ∷ rows) ++ xs) e
              ∙ sym (append_assoc (take k (r ∷ rows)) (concat later) rest)),
        )
      ]

  pub length-drop : (k : ℕ) (xs : List A) → length (drop k xs) ≡ length xs - k
  length-drop zero xs = omega arith
  length-drop (suc k) [] = omega arith
  length-drop (suc k) (x ∷ xs) = omega (arith, length-drop k xs)

  pub drop-All : (P : A → Type 0) (k : ℕ) (xs : List A) → All P xs → All P (drop k xs)
  drop-All P zero xs h = h
  drop-All P (suc k) [] h = h
  drop-All P (suc k) (x ∷ xs) h = drop-All P k xs h.1

  pub take-All : (P : A → Type 0) (k : ℕ) (xs : List A) → All P xs → All P (take k xs)
  take-All P zero xs h = tt
  take-All P (suc k) [] h = h
  take-All P (suc k) (x ∷ xs) h = (h.0, take-All P k xs h.1)

  -- Where every row fits into a frame of its own, the loop ends with all rows sent, after at most
  -- as many rounds as there are rows, and with at most as many batches.
  pub cut_batches-whole :
      (P : A → Type 0) (last fuel : ℕ) (len : ℕ → List A → ℕ) (n : ℕ) (rows : List A)
      → length rows ≤ fuel
      → n + length rows ≤ last
      → All P rows
      → ((m : ℕ) (x : A) (xs : List A) → m < last → All P (x ∷ xs) → 1 ≤ len m (x ∷ xs))
      → (cut_batches fuel len n rows).1 ≡ true
  unfolding cut_batches
  cut_batches-whole P last fuel len n [] few room each fits = refl
  cut_batches-whole P last zero len n (r ∷ rows) few room each fits = ground (arith, few)
  cut_batches-whole P last (suc fuel) len n (r ∷ rows) few room each fits =
      let k = len n (r ∷ rows) in
      let some_fit = fits n r rows (omega (arith, room)) each in
      let shorter = length-drop k (r ∷ rows) in
      let ih =
        cut_batches-whole P last fuel len (n + 1) (drop k (r ∷ rows))
          (omega (arith, shorter, some_fit, few)) (omega (arith, shorter, some_fit, room))
          (drop-All P k (r ∷ rows) each) fits in
      elim (Bool-cases (k == 0)) [ inl e ↦ ground (arith, some_fit, e) | inr e ↦ rw e ih ]
