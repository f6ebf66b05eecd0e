-- ===== src/Trash.antt =====
-- Expiry of a share's trash: `Sweep` and `List` of internal/sync/trash.go. What the trash directory
-- holds is a list of its events that are not empty, and whether `removeEvent` succeeds for an event a
-- parameter. Times are nanoseconds; sizes are sums of file sizes, far below 2^63.
pub mod Expiry
mod Tests
use syncat.Prelude.{
  ltb, ◌==◌, if◌then◌else◌, Bytes, bytes_lt, ℤ, int_lt, pos, negsuc, ℕ, suc, ◌+◌, ◌-◌, Bool, true,
  false, ◌&&◌, ◌||◌, not, List, [], ◌∷◌,
}

pub record TrashEvent : Type 0 where
  pub id : Bytes
  pub at : ℕ
  pub size : ℕ

-- The order in which the walk goes: `List` puts the newest first, and the greater id first of two of
-- one time, which the stable sort by time keeps.
abbrev pub comes_before : TrashEvent → TrashEvent → Bool
comes_before a b = ltb a.at b.at || (a.at == b.at && bytes_lt b.id a.id)

unfoldable pub insert_event : TrashEvent → List TrashEvent → List TrashEvent
insert_event e [] = e ∷ []
insert_event e (f ∷ fs) =
    let rest = insert_event e fs in if comes_before f e then f ∷ rest else e ∷ f ∷ fs

unfoldable pub oldest_first : List TrashEvent → List TrashEvent
unfolding insert_event
oldest_first [] = []
oldest_first (e ∷ es) = insert_event e (oldest_first es)

abbrev pub total_size : List TrashEvent → ℕ
total_size [] = 0
total_size (e ∷ es) = e.size + total_size es

-- `maxAge > 0 && ev.At.Before(cutoff)`
abbrev pub is_expired : ℕ → ℤ → TrashEvent → Bool
is_expired now (pos age) e = ltb 0 age && ltb (e.at + age) now
is_expired now (negsuc n) e = false

abbrev pub is_last : List TrashEvent → Bool
is_last [] = true
is_last (e ∷ es) = false

-- The events that stay, and the result.
pub record Swept : Type 0 where
  pub kept : List TrashEvent
  pub purged : ℕ
  pub size : ℕ

abbrev pub keeps : TrashEvent → Swept → Swept
keeps e s = record s { kept = e ∷ s.kept }

abbrev pub purges : Swept → Swept
purges s = record s { purged = suc s.purged }

module _ (now : ℕ) (max_age max_bytes : ℤ) (removes : TrashEvent → Bool) where
  -- An event goes, as long as it can be removed, if it is too old, or if the trash is too big and
  -- there is a newer event.
  abbrev pub is_purged : TrashEvent → List TrashEvent → ℕ → Bool
  is_purged e newer total =
      (is_expired now max_age e || (int_lt max_bytes (pos total) && not (is_last newer)))
      && removes e

  unfoldable pub sweep_loop : List TrashEvent → ℕ → Swept
  sweep_loop [] total = record { kept = []; purged = 0; size = total }
  sweep_loop (e ∷ es) total =
      let gone = is_purged e es total in
      let rest = sweep_loop es (if gone then total - e.size else total) in
      if gone then purges rest else keeps e rest

  unfoldable pub sweep : List TrashEvent → Swept
  unfolding oldest_first sweep_loop
  sweep listed = let events = oldest_first listed in sweep_loop events (total_size events)
