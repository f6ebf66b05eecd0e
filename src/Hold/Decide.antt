-- ===== src/Hold/Decide.antt =====
-- The checks and the user's side of internal/hold/hold.go: `decide`, `Scan`, `ScanFailed`, `Pass`,
-- `Confirm` and `Retain`.
use syncat.Prelude.{
  ◌==◌, if◌then◌else◌, Bytes, bytes_eq, find, has, insert, delete, ℤ, pos, ℕ, Bool, true, false,
  ◌&&◌, ◌||◌, not, Option, none, some, List, [], ◌∷◌, bytes_key,
}
use syncat.Hold.{
  link_key, confirmable, Holds, put_hold, place, clear, HoldReason, Link, Hold, Guard,
  root_unavailable, reserved_dir_taken,
}
use syncat.Hold.Trigger.{measure, trigger, still_held, Thresholds, FileRow}

-- What `decide` returns, and the guard after it.
pub record Verdict : Type 0 where
  pub apply : Bool
  pub released : Bool
  pub guard : Guard

abbrev pub reason_now : Thresholds → Option Hold → ℕ → ℕ → Option HoldReason
reason_now s none deletes live = trigger s deletes live
reason_now s (some h) deletes live = still_held h.reason (trigger s deletes live) deletes

abbrev pub is_confirmed : Option Hold → Bool
is_confirmed none = false
is_confirmed (some h) = h.confirmed

-- The change applies, and a hold on its link ends.
unfoldable pub let_through : Bool → Link → Guard → Verdict
unfolding clear
let_through wrote link g =
    let (cleared, g') = clear wrote link g in
    record { apply = true; released = cleared && bytes_eq link.peer_key []; guard = g' }

unfoldable pub stop : Bool → ℤ → Link → HoldReason → ℕ → ℕ → Guard → Verdict
unfolding place
stop wrote now link reason deletes live g =
    let next : Hold = record {
      share_id = link.share_id;
      peer_key = link.peer_key;
      reason = reason;
      deletes = deletes;
      live = live;
      since = pos 0;
      confirmed = false;
    } in
    record { apply = false; released = false; guard = (place wrote now next g).1 }

unfoldable pub decide : Thresholds → Bool → ℤ → Link → ℕ → ℕ → Guard → Verdict
unfolding let_through stop
decide s wrote now link deletes live g =
    let held = find g.held link in
    elim (reason_now s held deletes live) [
      | none ↦ let_through wrote link g
      | some reason ↦
          if is_confirmed held
          then let_through wrote link g
          else stop wrote now link reason deletes live g
    ]

abbrev pub own_link : Bytes → Link
own_link share = record { share_id = share; peer_key = [] }

unfoldable pub scan : Thresholds → Bool → ℤ → Bytes → List FileRow → List Bytes → Guard → Verdict
unfolding decide measure
scan s wrote now share existing deleting g =
    let (deletes, live) = measure existing deleting in
    decide s wrote now (own_link share) deletes live g

-- The hold that a failed scan places. `reserved` is `errors.Is(err, ErrReservedDirTaken)`.
unfoldable pub failed_scan_hold : Bytes → Bool → ℕ → Hold
failed_scan_hold share reserved live = record {
  share_id = share;
  peer_key = [];
  reason = if reserved then reserved_dir_taken else root_unavailable;
  deletes = if reserved then 0 else live;
  live = if reserved then 0 else live;
  since = pos 0;
  confirmed = false;
}

-- `unavailable` is what `rootUnavailable` answers.
unfoldable pub scan_failed : Bool → ℤ → Bytes → List FileRow → Bool → Bool → Guard → Guard
unfolding measure place failed_scan_hold
scan_failed wrote now share existing reserved unavailable g =
    let live = (measure existing []).1 in
    if not reserved && (live == 0 || not unavailable)
    then g
    else (place wrote now (failed_scan_hold share reserved live) g).1

unfoldable pub pass :
    Thresholds → Bool → ℤ → Bytes → Bytes → List FileRow → List Bytes → Guard → Verdict
unfolding decide measure
pass s wrote now share peer local deleting g =
    let (deletes, live) = measure local deleting in
    if has g.held (own_link share)
    then record { apply = false; released = false; guard = g }
    else decide s wrote now (record { share_id = share; peer_key = peer }) deletes live g

pub data ConfirmError : Type 0 where
  not_held nothing_to_confirm store_failed : ConfirmError

pub data Confirmed : Type 0 where
  confirmed_hold : Hold → Confirmed
  confirm_failed : ConfirmError → Confirmed

unfoldable pub confirm : Bool → Link → Guard → Confirmed × Guard
unfolding put_hold confirmable
confirm wrote link g = elim (find g.held link) [
  | none ↦ (confirm_failed not_held, g)
  | some h ↦
      let h' = record h { confirmed = true } in
      let g' = put_hold h' g in
      if not (confirmable h)
      then (confirm_failed nothing_to_confirm, g)
      else if wrote
      then (confirmed_hold h', record g' { held = insert link h' g'.held })
      else (confirm_failed store_failed, g)
]

-- The loop of `Retain` over the links that are held; `wrote` tells which deletes succeed.
unfoldable pub retain_each : (Link → Bool) → (Link → Bool) → Holds → Guard → Guard
retain_each keep wrote [] g = g
retain_each keep wrote ((link, _) ∷ rest) g = retain_each keep wrote rest (
    if keep link
    then g
    else if wrote link
    then record g { held = delete link g.held; stored = delete link g.stored }
    else g)

unfoldable pub retain : (Link → Bool) → (Link → Bool) → Guard → Guard
unfolding retain_each
retain keep wrote g = retain_each keep wrote g.held g
