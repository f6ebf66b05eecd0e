-- ===== src/Hold/Tests.antt =====
-- The theorems on holds at a guard with one hold.
use syncat.Prelude.{
  Bytes, codes, bytes_eq, find, has, pos, ◌≡◌, refl, true, false, some, List, [], ◌∷◌, arith,
  bytes_key,
}
use syncat.Hold.{link_key, load, Link, Hold, Guard, bulk_delete}
use syncat.Path.{member}
use syncat.Hold.Trigger.{is_live_file, measure, trigger, still_held, Thresholds, FileRow}
use syncat.Hold.Decide.{is_confirmed, let_through, stop, decide, scan, pass}
use syncat.Hold.Verdict.{vanishing_is_held, held_scan_refuses_passes}
use syncat.Hold.Mirror.{IsMirror}
use syncat.Hold.Run.{run, restart_forgets_nothing, Op, scans, passes, confirms, retains}

abbrev usual : Thresholds
usual = record { hold_delete_percent = 25; hold_delete_min = 10 }

abbrev photos : Bytes
photos = codes "a1b2c3d4e5f60718"

abbrev from_peer : Link
from_peer = record { share_id = photos; peer_key = codes "peer" }

abbrev bulk : Hold
bulk = record {
  share_id = photos;
  peer_key = codes "peer";
  reason = bulk_delete;
  deletes = 40;
  live = 100;
  since = pos 5;
  confirmed = false;
}

abbrev confirmed_bulk : Hold
confirmed_bulk = record bulk { confirmed = true }

abbrev held_peer : Guard
held_peer = record { held = (from_peer, bulk) ∷ []; stored = (from_peer, bulk) ∷ [] }

abbrev free : Guard
free = record { held = []; stored = [] }

abbrev file_row : Bytes → FileRow
file_row p = record { rel_path = p; type = codes "file"; deleted = false; ignored = false }

abbrev two_rows : List FileRow
two_rows = file_row (codes "a") ∷ file_row (codes "b") ∷ []

abbrev both_paths : List Bytes
both_paths = codes "a" ∷ codes "b" ∷ []

-- A scan that lost both files, a confirm for the peer's hold, a pass, and a share dropped.
abbrev a_day : List Op
a_day =
    passes usual true (pos 6) photos (codes "peer") two_rows (codes "a" ∷ [])
    ∷ confirms true from_peer
    ∷ scans usual true (pos 7) photos two_rows (codes "a" ∷ codes "b" ∷ [])
    ∷ retains (λ link. false) (λ link. true)
    ∷ []

held_peer-IsMirror : IsMirror held_peer
unfolding has
held_peer-IsMirror = record { same = refl; keyed = (refl, tt); one_each = (refl, tt) }

finds_bulk : find held_peer.held from_peer ≡ some bulk
unfolding find bytes_eq
finds_bulk = refl

free_unconfirmed : is_confirmed (find free.held from_peer) ≡ false
unfolding find
free_unconfirmed = refl

restart_forgets_nothing_example :
    find (load (run a_day held_peer).stored).held from_peer
    ≡ find (run a_day held_peer).held from_peer
restart_forgets_nothing_example =
    restart_forgets_nothing a_day held_peer from_peer held_peer-IsMirror

vanishing_is_held_example : (decide usual true (pos 6) from_peer 3 3 free).apply ≡ false
vanishing_is_held_example =
    vanishing_is_held usual true (pos 6) from_peer 3 3 free (omega arith) (omega arith)
      free_unconfirmed

vanished_scan : (scan usual true (pos 5) photos two_rows both_paths free).apply ≡ false
unfolding scan measure is_live_file bytes_eq member decide trigger still_held let_through stop find
vanished_scan = refl

held_scan_refuses_passes_example :
    let after = (scan usual true (pos 5) photos two_rows both_paths free).guard in
    let v = pass usual false (pos 6) photos (codes "peer") two_rows [] after in
    (v.apply ≡ false) × (v.guard ≡ after)
held_scan_refuses_passes_example =
    held_scan_refuses_passes usual (pos 5) photos two_rows both_paths free usual false (pos 6)
      (codes "peer") two_rows [] vanished_scan
