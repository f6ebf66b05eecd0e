-- ===== src/Trash/Tests.antt =====
-- The theorem on the trash at a few events.
use syncat.Prelude.{
  length, All, codes, pos, ℕ, ◌≤◌, ◌≡◌, refl, ◌⊎◌, Bool, true, false, some, List, [], ◌∷◌,
}
use syncat.Trash.{oldest_first, total_size, is_expired, sweep, TrashEvent}
use syncat.Trash.Expiry.{newest, Within, IsYoung, sweep_leaves}

abbrev event_at : ℕ → ℕ → TrashEvent
event_at time bytes = record { id = codes "e"; at = time; size = bytes }

abbrev listed : List TrashEvent
listed = event_at 90 50 ∷ event_at 70 40 ∷ event_at 10 5 ∷ []

abbrev always : TrashEvent → Bool
always e = true

-- The first is too old, and the second has to make room.
sweeps_two : (sweep 100 (pos 50) (pos 60) always listed).purged ≡ 2
unfolding sweep
sweeps_two = refl

sweep_leaves_example :
    let r = sweep 100 (pos 50) (pos 60) always listed in
    All (IsYoung 100 (pos 50) (pos 60) always) r.kept
    × (Within (pos 60) r.size ⊎ (length r.kept ≤ 1))
    × (r.size ≡ total_size r.kept)
    × ((e : TrashEvent)
        → newest (oldest_first listed) ≡ some e
        → is_expired 100 (pos 50) e ≡ false
        → newest r.kept ≡ some e)
sweep_leaves_example = sweep_leaves 100 (pos 50) (pos 60) always listed (λ e. refl)
