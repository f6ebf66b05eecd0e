-- ===== src/Prelude/Maps.antt =====
-- Go maps as association lists with one entry to a key; `range` visits the entries in list order.
use mathlib.Core.Path.{◌≡◌, refl}
use mathlib.Core.Logic.{◌↔◌, inl, inr}
use mathlib.Core.Bool.{Bool, true, false}
use mathlib.Core.Option.{Option, none, some}
use mathlib.Core.List.{List, [], ◌∷◌}
use native.Mathlib.Omega.{arith}
use syncat.Prelude.Tests.{if◌then◌else◌, Bool-cases}
use syncat.Prelude.Strings.{Bytes, bytes_eq, bytes_eq_iff}

-- Equality of keys.
pub record Eq {ℓ} (A : Type ℓ) : Type ℓ where
  pub beq : A → A → Bool
  pub beq_iff : (a b : A) → (beq a b ≡ true) ↔ (a ≡ b)

instance abbrev pub bytes_key : Eq Bytes
bytes_key = record { beq = bytes_eq; beq_iff = bytes_eq_iff }

abbrev pub Dict {ℓ κ} : Type ℓ → Type κ → Type (ℓ ⊔ κ)
Dict K V = List (K × V)

module _ {ℓ κ} {K : Type ℓ} {V : Type κ} ⦃e : Eq K⦄ where
  unfoldable pub find : Dict K V → K → Option V
  find [] k = none
  find ((j, v) ∷ m) k = if e.beq j k then some v else find m k

  unfoldable pub has : Dict K V → K → Bool
  has [] k = false
  has ((j, v) ∷ m) k = if e.beq j k then true else has m k

  -- `m[k] = v`
  unfoldable pub insert : K → V → Dict K V → Dict K V
  insert k v [] = (k, v) ∷ []
  insert k v ((j, w) ∷ m) = if e.beq j k then (k, v) ∷ m else (j, w) ∷ insert k v m

  -- `delete(m, k)`
  unfoldable pub delete : K → Dict K V → Dict K V
  delete k [] = []
  delete k ((j, w) ∷ m) = if e.beq j k then delete k m else (j, w) ∷ delete k m

  -- No key has two entries.
  abbrev pub IsMap : Dict K V → Type 0
  IsMap [] = Unit
  IsMap ((k, v) ∷ m) = (has m k ≡ false) × IsMap m

  pub find-insert :
      (k j : K) (v : V) (m : Dict K V)
      → find (insert k v m) j ≡ (if e.beq k j then some v else find m j)
  unfolding find insert
  find-insert k j v [] = refl
  find-insert k j v ((i, w) ∷ m) =
      ground (arith, e.beq_iff k j, e.beq_iff i k, e.beq_iff i j, find-insert k j v m)

  pub has-insert :
      (k j : K) (v : V) (m : Dict K V)
      → has (insert k v m) j ≡ (if e.beq k j then true else has m j)
  unfolding has insert
  has-insert k j v [] = refl
  has-insert k j v ((i, w) ∷ m) =
      ground (arith, e.beq_iff k j, e.beq_iff i k, e.beq_iff i j, has-insert k j v m)

  pub find-delete :
      (k j : K) (m : Dict K V) → find (delete k m) j ≡ (if e.beq k j then none else find m j)
  unfolding find delete
  find-delete k j [] = elim (Bool-cases (e.beq k j)) [ inl h ↦ rw h | inr h ↦ rw h ]
  find-delete k j ((i, w) ∷ m) =
      ground (arith, e.beq_iff k j, e.beq_iff i k, e.beq_iff i j, find-delete k j m)

  pub has-delete :
      (k j : K) (m : Dict K V) → has (delete k m) j ≡ (if e.beq k j then false else has m j)
  unfolding has delete
  has-delete k j [] = elim (Bool-cases (e.beq k j)) [ inl h ↦ rw h | inr h ↦ rw h ]
  has-delete k j ((i, w) ∷ m) =
      ground (arith, e.beq_iff k j, e.beq_iff i k, e.beq_iff i j, has-delete k j m)

  pub insert-IsMap : (k : K) (v : V) (m : Dict K V) → IsMap m → IsMap (insert k v m)
  unfolding insert has
  insert-IsMap k v [] h = (refl, tt)
  insert-IsMap k v ((j, w) ∷ m) h =
      ground (arith, e.beq_iff j k, e.beq_iff k j, has-insert k j v m, insert-IsMap k v m h.1)

  pub delete-IsMap : (k : K) (m : Dict K V) → IsMap m → IsMap (delete k m)
  unfolding delete
  delete-IsMap k [] h = tt
  delete-IsMap k ((j, w) ∷ m) h =
      ground (arith, e.beq_iff j k, e.beq_iff k j, has-delete k j m, delete-IsMap k m h.1)

  pub find-has : (m : Dict K V) (k : K) → has m k ≡ false → find m k ≡ none
  unfolding find has
  find-has [] k h = refl
  find-has ((j, w) ∷ m) k h = ground (arith, find-has m k)

  pub has-find : (m : Dict K V) (k : K) (v : V) → find m k ≡ some v → has m k ≡ true
  unfolding find has
  has-find [] k v h = cc
  has-find ((j, w) ∷ m) k v h = ground (arith, has-find m k v)
