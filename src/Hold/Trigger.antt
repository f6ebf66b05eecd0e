-- ===== src/Hold/Trigger.antt =====
-- `measure`, `trigger` and `stillHeld` of internal/hold/hold.go.
use syncat.Prelude.{
  leb, ◌==◌, if◌then◌else◌, Bytes, bytes_eq, ℕ, ◌+◌, ◌*◌, Bool, ◌&&◌, ◌||◌, not, Option, none, some,
  List, [], ◌∷◌,
}
use syncat.Path.{member}
use syncat.Reconcile.{file_type_dir}
use syncat.Hold.{HoldReason, root_unavailable, everything_vanished, bulk_delete, reserved_dir_taken}

-- The thresholds of config.Safety.
pub record Thresholds : Type 0 where
  pub hold_delete_percent : ℕ
  pub hold_delete_min : ℕ

-- The columns of index.FileRow that `measure` reads.
pub record FileRow : Type 0 where
  pub rel_path : Bytes
  pub type : Bytes
  pub deleted : Bool
  pub ignored : Bool

unfoldable pub is_live_file : FileRow → Bool
is_live_file r = not (r.deleted || r.ignored || bytes_eq r.type file_type_dir)

-- How many live files there are, and how many of them `deleting` names.
unfoldable pub measure : List FileRow → List Bytes → ℕ × ℕ
unfolding is_live_file
measure [] deleting = (0, 0)
measure (r ∷ rows) deleting =
    let (deletes, live) = measure rows deleting in
    if is_live_file r
    then (if member r.rel_path deleting then deletes + 1 else deletes, live + 1)
    else (deletes, live)

unfoldable pub trigger : Thresholds → ℕ → ℕ → Option HoldReason
trigger s deletes live =
    if deletes == 0
    then none
    else if leb 2 live && leb live deletes
    then some everything_vanished
    else if leb s.hold_delete_min deletes && leb (s.hold_delete_percent * live) (deletes * 100)
    then some bulk_delete
    else none

-- The last `switch` of `stillHeld`.
unfoldable pub held_on : HoldReason → Option HoldReason
held_on reserved_dir_taken = none
held_on root_unavailable = some everything_vanished
held_on everything_vanished = some everything_vanished
held_on bulk_delete = some bulk_delete

unfoldable pub still_held : HoldReason → Option HoldReason → ℕ → Option HoldReason
unfolding held_on
still_held held (some fresh) deletes = some fresh
still_held held none deletes = if deletes == 0 then none else held_on held
