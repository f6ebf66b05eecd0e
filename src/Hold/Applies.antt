-- ===== src/Hold/Applies.antt =====
-- What `trigger` and `stillHeld` let apply, described without them.
use syncat.Prelude.{
  ◌==◌, Bool-cases, ℕ, ◌*◌, ◌<◌, ◌≡◌, refl, ◌↔◌, ◌⊎◌, inl, inr, true, Option, none, some, arith,
}
use syncat.Hold.{
  HoldReason, Hold, root_unavailable, everything_vanished, bulk_delete, reserved_dir_taken,
}
use syncat.Hold.Trigger.{trigger, held_on, still_held, Thresholds}
use syncat.Hold.Decide.{reason_now, is_confirmed}

-- A change below both thresholds.
pub record IsSmall (s : Thresholds) (deletes live : ℕ) : Type 0 where
  pub not_all : (live < 2) ⊎ (deletes < live)
  pub not_bulk : (deletes < s.hold_delete_min) ⊎ (deletes * 100 < s.hold_delete_percent * live)

-- What may let a change apply: it deletes nothing, or the user has confirmed the hold on its link, or
-- it is small and its link is not on hold but for a foreign .syncat/.
abbrev pub MayApply : Thresholds → Option Hold → ℕ → ℕ → Type 0
MayApply s held deletes live =
    (deletes ≡ 0)
    ⊎ ((h : Hold) × (held ≡ some h) × (h.confirmed ≡ true))
    ⊎ (IsSmall s deletes live
        × ((held ≡ none) ⊎ ((h : Hold) × (held ≡ some h) × (h.reason ≡ reserved_dir_taken))))

trigger-none :
    (s : Thresholds) (deletes live : ℕ)
    → (trigger s deletes live ≡ none) ↔ ((deletes ≡ 0) ⊎ IsSmall s deletes live)
unfolding trigger
trigger-none s deletes live = (
  λ e. elim (Bool-cases (deletes == 0)) [
    | inl z ↦ inl (ground (arith, z))
    | inr z ↦ inr (record { not_all = ground (arith, z, e); not_bulk = ground (arith, z, e) })
  ],
  λ h. elim h [
    | inl z ↦ ground (arith, z)
    | inr small ↦ ground (arith, small.not_all, small.not_bulk)
  ],
)

held_on-reserved : (r : HoldReason) → held_on r ≡ none → r ≡ reserved_dir_taken
unfolding held_on
held_on-reserved root_unavailable e = cc
held_on-reserved everything_vanished e = cc
held_on-reserved bulk_delete e = cc
held_on-reserved reserved_dir_taken e = refl

still_held-none :
    (r : HoldReason) (fresh : Option HoldReason) (deletes : ℕ)
    → still_held r fresh deletes ≡ none
    → (fresh ≡ none) × ((deletes ≡ 0) ⊎ (r ≡ reserved_dir_taken))
unfolding still_held
still_held-none r (some x) deletes e = cc
still_held-none r none deletes e = (
  refl,
  elim (Bool-cases (deletes == 0)) [
    | inl z ↦ inl (ground (arith, z))
    | inr z ↦ inr (held_on-reserved r (ground (arith, z, e)))
  ],
)

pub reason_now-MayApply :
    (s : Thresholds) (held : Option Hold) (deletes live : ℕ)
    → reason_now s held deletes live ≡ none
    → MayApply s held deletes live
reason_now-MayApply s none deletes live e = elim ((trigger-none s deletes live).0 e) [
  | inl z ↦ inl z
  | inr small ↦ inr (inr (small, inl refl))
]
reason_now-MayApply s (some h) deletes live e =
    let (calm, why) = still_held-none h.reason (trigger s deletes live) deletes e in
    elim ((trigger-none s deletes live).0 calm) [
      | inl z ↦ inl z
      | inr small ↦ elim why [
        | inl z ↦ inl z
        | inr reserved ↦ inr (inr (small, inr (h, refl, reserved)))
      ]
    ]

pub MayApply-reason :
    (s : Thresholds) (held : Option Hold) (deletes live : ℕ)
    → MayApply s held deletes live
    → (reason_now s held deletes live ≡ none) ⊎ (is_confirmed held ≡ true)
unfolding still_held held_on
MayApply-reason s none deletes live (inl z) = inl ((trigger-none s deletes live).1 (inl z))
MayApply-reason s (some h) deletes live (inl z) =
    inl (ground (arith, z, (trigger-none s deletes live).1 (inl z)))
MayApply-reason s held deletes live (inr (inl (h, at, agreed))) = inr (rw at agreed)
MayApply-reason s held deletes live (inr (inr (small, inl at))) =
    inl (rw at ((trigger-none s deletes live).1 (inr small)))
MayApply-reason s held deletes live (inr (inr (small, inr (h, at, reserved)))) =
    let calm = (trigger-none s deletes live).1 (inr small) in
    inl (rw at (ground (arith, calm, reserved)))
