-- ===== src/Hold.antt =====
-- The hold of internal/hold/hold.go: links on hold in memory and in the index store
-- (internal/index/holds.go). The guard's lock makes each operation one step. Whether a write of the
-- store succeeds is an argument, as is what `os.Open` and `errors.Is` answer. Log lines are left out.
pub mod Trigger
pub mod Decide
pub mod Applies
pub mod Verdict
pub mod Mirror
pub mod Run
mod Tests
use syncat.Prelude.{
  ◌==◌, if◌then◌else◌, Bytes, bytes_eq, bytes_eq_iff, Eq, Dict, find, has, insert, delete, ℤ, ℕ,
  ◌≡◌, ◌↔◌, Bool, true, false, ◌&&◌, not, none, some, [], ◌∷◌, arith, bytes_key,
}

-- `Reason`; an empty reason is `none` of an `Option`.
pub data HoldReason : Type 0 where
  root_unavailable everything_vanished bulk_delete reserved_dir_taken : HoldReason

abbrev pub reason_eq : HoldReason → HoldReason → Bool
reason_eq root_unavailable root_unavailable = true
reason_eq everything_vanished everything_vanished = true
reason_eq bulk_delete bulk_delete = true
reason_eq reserved_dir_taken reserved_dir_taken = true
reason_eq _ _ = false

-- A share, and the peer whose changes are held or "" for this node's own scans.
pub record Link : Type 0 where
  pub share_id : Bytes
  pub peer_key : Bytes

abbrev pub link_eq : Link → Link → Bool
link_eq a b = bytes_eq a.share_id b.share_id && bytes_eq a.peer_key b.peer_key

pub link_eq_iff : (a b : Link) → (link_eq a b ≡ true) ↔ (a ≡ b)
link_eq_iff a b =
    ground (arith, bytes_eq_iff a.share_id b.share_id, bytes_eq_iff a.peer_key b.peer_key)

instance abbrev pub link_key : Eq Link
link_key = record { beq = link_eq; beq_iff = link_eq_iff }

-- index.Hold
pub record Hold : Type 0 where
  pub share_id : Bytes
  pub peer_key : Bytes
  pub reason : HoldReason
  pub deletes : ℕ
  pub live : ℕ
  pub since : ℤ
  pub confirmed : Bool

abbrev pub link_of : Hold → Link
link_of h = record { share_id = h.share_id; peer_key = h.peer_key }

-- `Hold.Confirmable`
unfoldable pub confirmable : Hold → Bool
confirmable h =
    not (reason_eq h.reason root_unavailable) && not (reason_eq h.reason reserved_dir_taken)

abbrev pub Holds : Type 0
Holds = Dict Link Hold

-- `held`, and the rows of the store's table `holds`.
pub record Guard : Type 0 where
  pub held : Holds
  pub stored : Holds

-- `PutHold`, an upsert, and `DeleteHold`. A failed write changes nothing.
unfoldable pub put_hold : Hold → Guard → Guard
put_hold h g = record g { stored = insert (link_of h) h g.stored }

unfoldable pub delete_hold : Link → Guard → Guard
delete_hold link g = record g { stored = delete link g.stored }

-- `Load`: what the store lists, each hold under its link.
unfoldable pub load_onto : Holds → Holds → Holds
load_onto m [] = m
load_onto m ((_, h) ∷ rows) = load_onto (insert (link_of h) h m) rows

unfoldable pub load : Holds → Guard
unfolding load_onto
load rows = record { held = load_onto [] rows; stored = rows }

-- `placeLocked`: whether the link was not held before, and the guard. `wrote` tells whether the
-- store's write succeeds.
unfoldable pub place : Bool → ℤ → Hold → Guard → Bool × Guard
unfolding put_hold
place wrote now h g = elim (find g.held (link_of h)) [
  | some old ↦
      let kept = record h { since = old.since } in
      let g' = put_hold kept g in
      if reason_eq old.reason h.reason && old.deletes == h.deletes && old.live == h.live
      then (false, g)
      else if wrote
      then (false, record g' { held = insert (link_of h) kept g'.held })
      else (false, g)
  | none ↦
      let fresh = record h { since = now } in
      let g' = put_hold fresh g in
      if wrote then (true, record g' { held = insert (link_of h) fresh g'.held }) else (false, g)
]

-- `clearLocked`: whether there was a hold that is now gone.
unfoldable pub clear : Bool → Link → Guard → Bool × Guard
unfolding delete_hold
clear wrote link g =
    let g' = delete_hold link g in
    if not (has g.held link)
    then (false, g)
    else if wrote
    then (true, record g' { held = delete link g'.held })
    else (false, g)
