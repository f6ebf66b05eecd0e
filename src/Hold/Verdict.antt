-- ===== src/Hold/Verdict.antt =====
-- What `decide` lets through.
use syncat.Prelude.{
  Bool-cases, Option-cases, Bytes, find, has, insert, find-insert, find-delete, find-has, ℤ, pos, ℕ,
  ◌≤◌, ◌<◌, ◌≡◌, refl, ◌≢◌, ◌⊎◌, inl, inr, Bool, true, false, Option, none, some, List, arith,
  bytes_key,
}
use syncat.Hold.{
  link_eq_iff, link_key, link_of, Holds, place, clear, HoldReason, Link, Hold, Guard,
  reserved_dir_taken,
}
use syncat.Hold.Trigger.{measure, trigger, still_held, Thresholds, FileRow}
use syncat.Hold.Decide.{reason_now, is_confirmed, let_through, stop, decide, own_link, scan, pass}

-- Why a change is held, or nothing.
abbrev pub reason_for : Thresholds → Link → ℕ → ℕ → Guard → Option HoldReason
reason_for s link deletes live g = reason_now s (find g.held link) deletes live

find-insert_self : (link : Link) (h : Hold) (m : Holds) → find (insert link h m) link ≡ some h
find-insert_self link h m = ground (arith, find-insert link link h m, link_eq_iff link link)

find-clear : (link : Link) (g : Guard) → find (clear true link g).1.held link ≡ none
unfolding clear
find-clear link g =
    ground (arith, find-has g.held link, find-delete link link g.held, link_eq_iff link link)

decide-passes :
    (s : Thresholds) (wrote : Bool) (now : ℤ) (link : Link) (deletes live : ℕ) (g : Guard)
    → (reason_for s link deletes live g ≡ none) ⊎ (is_confirmed (find g.held link) ≡ true)
    → decide s wrote now link deletes live g ≡ let_through wrote link g
unfolding decide
decide-passes s wrote now link deletes live g (inl e) = rw (e, decide)
decide-passes s wrote now link deletes live g (inr c) =
    elim (Option-cases (reason_for s link deletes live g)) [
      | inl e ↦ rw (e, decide)
      | inr (reason, e) ↦ rw (e, decide, c)
    ]

decide-stops :
    (s : Thresholds) (wrote : Bool) (now : ℤ) (link : Link) (deletes live : ℕ) (g : Guard)
    (reason : HoldReason)
    → reason_for s link deletes live g ≡ some reason
    → is_confirmed (find g.held link) ≡ false
    → decide s wrote now link deletes live g ≡ stop wrote now link reason deletes live g
unfolding decide
decide-stops s wrote now link deletes live g reason e c = rw (e, decide, c)

let_through-apply :
    (wrote : Bool) (link : Link) (g : Guard) → (let_through wrote link g).apply ≡ true
unfolding let_through
let_through-apply wrote link g = refl

find-let_through : (link : Link) (g : Guard) → find (let_through true link g).guard.held link ≡ none
unfolding let_through
find-let_through link g = find-clear link g

-- When every live file of a share with at least two would go, the change is held whatever the
-- thresholds are, unless the hold on the link was confirmed.
pub vanishing_is_held :
    (s : Thresholds) (wrote : Bool) (now : ℤ) (link : Link) (deletes live : ℕ) (g : Guard)
    → 2 ≤ live
    → live ≤ deletes
    → is_confirmed (find g.held link) ≡ false
    → (decide s wrote now link deletes live g).apply ≡ false
unfolding decide trigger still_held
vanishing_is_held s wrote now link deletes live g many all open_hold = ground (arith, open_hold)

-- An unconfirmed hold that was not placed for a foreign .syncat/ is not ended by a change that deletes fewer
-- files, only by one that deletes none: below the thresholds the change is still refused.
pub fewer_deletes_still_held :
    (s : Thresholds) (wrote : Bool) (now : ℤ) (link : Link) (deletes live : ℕ) (g : Guard)
    (h : Hold)
    → find g.held link ≡ some h
    → h.reason ≢ reserved_dir_taken
    → h.confirmed ≡ false
    → 0 < deletes
    → (decide s wrote now link deletes live g).apply ≡ false
unfolding decide still_held
fewer_deletes_still_held s wrote now link deletes live g h held kind open_hold some_go =
    ground (arith, held, kind, open_hold, some_go)

no_deletes-no_reason :
    (s : Thresholds) (link : Link) (live : ℕ) (g : Guard) → reason_for s link 0 live g ≡ none
unfolding trigger still_held
no_deletes-no_reason s link live g = ground arith

-- A change that deletes nothing applies, and no hold is left on its link if the store's write
-- succeeds.
pub no_deletes_clears :
    (s : Thresholds) (now : ℤ) (link : Link) (live : ℕ) (g : Guard)
    → let v = decide s true now link 0 live g in (v.apply ≡ true) × (find v.guard.held link ≡ none)
no_deletes_clears s now link live g =
    rw (decide-passes s true now link 0 live g (inl (no_deletes-no_reason s link live g)))
      (let_through-apply true link g, find-let_through link g)

-- While this node's own copy of a share is held, every peer's pass is refused and nothing changes.
own_hold_refuses_passes :
    (s : Thresholds) (wrote : Bool) (now : ℤ) (share peer : Bytes) (rows : List FileRow)
    (deleting : List Bytes) (g : Guard)
    → has g.held (own_link share) ≡ true
    → let v = pass s wrote now share peer rows deleting g in (v.apply ≡ false) × (v.guard ≡ g)
unfolding pass
own_hold_refuses_passes s wrote now share peer rows deleting g h = ground (arith, h)

-- A hold that is placed is there, if its write succeeds.
has-place : (now : ℤ) (h : Hold) (g : Guard) → has (place true now h g).1.held (link_of h) ≡ true
unfolding place
has-place now h g = elim (Option-cases (find g.held (link_of h))) [
  | inl e ↦
      let put = find-insert_self (link_of h) (record h { since = now }) g.held in
      let there = find-has (insert (link_of h) (record h { since = now }) g.held) (link_of h) in
      ground (arith, e, put, there)
  | inr (old, e) ↦
      let put = find-insert_self (link_of h) (record h { since = old.since }) g.held in
      let there =
        find-has (insert (link_of h) (record h { since = old.since }) g.held) (link_of h) in
      ground (arith, e, put, there, find-has g.held (link_of h))
]

has-stop :
    (now : ℤ) (link : Link) (reason : HoldReason) (deletes live : ℕ) (g : Guard)
    → has (stop true now link reason deletes live g).guard.held link ≡ true
unfolding stop
has-stop now link reason deletes live g =
    let next : Hold = record {
      share_id = link.share_id;
      peer_key = link.peer_key;
      reason = reason;
      deletes = deletes;
      live = live;
      since = pos 0;
      confirmed = false;
    } in
    has-place now next g

stopped-has :
    (s : Thresholds) (now : ℤ) (link : Link) (deletes live : ℕ) (g : Guard)
    → (decide s true now link deletes live g).apply ≡ false
    → has (decide s true now link deletes live g).guard.held link ≡ true
unfolding decide let_through
stopped-has s now link deletes live g held =
    elim (Option-cases (reason_for s link deletes live g)) [
      | inl e ↦ ground (arith, e, held)
      | inr (reason, e) ↦ elim (Bool-cases (is_confirmed (find g.held link))) [
        | inl c ↦ ground (arith, e, c, held)
        | inr c ↦
            rw (decide-stops s true now link deletes live g reason e c)
              (has-stop now link reason deletes live g)
      ]
    ]

-- After a scan that is held, its hold being written, every pass of every peer over the share is
-- refused and leaves the guard as it is, whatever the thresholds are by then and however few files it
-- would delete.
pub held_scan_refuses_passes :
    (s : Thresholds) (now : ℤ) (share : Bytes) (existing : List FileRow) (vanished : List Bytes)
    (g : Guard) (t : Thresholds) (wrote : Bool) (later : ℤ) (peer : Bytes) (rows : List FileRow)
    (deleting : List Bytes)
    → (scan s true now share existing vanished g).apply ≡ false
    → let after = (scan s true now share existing vanished g).guard in
      let v = pass t wrote later share peer rows deleting after in
      (v.apply ≡ false) × (v.guard ≡ after)
unfolding scan
held_scan_refuses_passes s now share existing vanished g t wrote later peer rows deleting held =
    let (deletes, live) = measure existing vanished in
    let after = (scan s true now share existing vanished g).guard in
    own_hold_refuses_passes t wrote later share peer rows deleting after
      (stopped-has s now (own_link share) deletes live g held)
