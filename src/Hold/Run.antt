-- ===== src/Hold/Run.antt =====
-- The guard through any operations: its copy of the holds stays the store's, so a restart forgets
-- no hold.
use syncat.Prelude.{
  ◌==◌, if◌then◌else◌, Bool-cases, Option-cases, Bytes, find, has, insert, IsMap, find-insert,
  find-has, ℤ, ◌≡◌, refl, ◌∙◌, inl, inr, Bool, true, false, ◌&&◌, ◌||◌, not, Option, none, some,
  List, [], ◌∷◌, arith, bytes_key,
}
use syncat.Hold.{link_eq_iff, link_key, link_of, Holds, load_onto, load, place, Link, Hold, Guard}
use syncat.Hold.Trigger.{measure, Thresholds, FileRow}
use syncat.Hold.Decide.{own_link, scan, failed_scan_hold, scan_failed, pass, confirm, retain}
use syncat.Hold.Mirror.{
  IsKeyed, place-IsMirror, confirm-IsMirror, decide-IsMirror, retain_each-IsMirror, IsMirror,
}

-- What the node does to the guard: one operation, with the outcome of its write of the store.
pub data Op : Type 0 where
  scans : Thresholds → Bool → ℤ → Bytes → List FileRow → List Bytes → Op
  scan_fails : Bool → ℤ → Bytes → List FileRow → Bool → Bool → Op
  passes : Thresholds → Bool → ℤ → Bytes → Bytes → List FileRow → List Bytes → Op
  confirms : Bool → Link → Op
  retains : (Link → Bool) → (Link → Bool) → Op

pub step : Op → Guard → Guard
step (scans s wrote now share rows deleting) g = (scan s wrote now share rows deleting g).guard
step (scan_fails wrote now share rows reserved unavailable) g =
    scan_failed wrote now share rows reserved unavailable g
step (passes s wrote now share peer rows deleting) g =
    (pass s wrote now share peer rows deleting g).guard
step (confirms wrote link) g = (confirm wrote link g).1
step (retains keep wrote) g = retain keep wrote g

pub run : List Op → Guard → Guard
run [] g = g
run (op ∷ ops) g = run ops (step op g)

scan_failed-IsMirror :
    (wrote : Bool) (now : ℤ) (share : Bytes) (rows : List FileRow) (reserved unavailable : Bool)
    (g : Guard)
    → IsMirror g
    → IsMirror (scan_failed wrote now share rows reserved unavailable g)
unfolding scan_failed
scan_failed-IsMirror wrote now share rows reserved unavailable g w =
    go (not reserved && ((measure rows []).1 == 0 || not unavailable))
  where
    placed : Guard
    placed = (place wrote now (failed_scan_hold share reserved (measure rows []).1) g).1

    go : (b : Bool) → IsMirror (if b then g else placed)
    go true = w
    go false = place-IsMirror wrote now (failed_scan_hold share reserved (measure rows []).1) g w

pass-IsMirror :
    (s : Thresholds) (wrote : Bool) (now : ℤ) (share peer : Bytes) (rows : List FileRow)
    (deleting : List Bytes) (g : Guard)
    → IsMirror g
    → IsMirror (pass s wrote now share peer rows deleting g).guard
unfolding pass
pass-IsMirror s wrote now share peer rows deleting g w =
    elim (Bool-cases (has g.held (own_link share))) [
      | inl e ↦ rw e w
      | inr e ↦ rw e (
          decide-IsMirror s wrote now (record { share_id = share; peer_key = peer })
            (measure rows deleting).0 (measure rows deleting).1 g w)
    ]

step-IsMirror : (op : Op) (g : Guard) → IsMirror g → IsMirror (step op g)
unfolding step scan retain
step-IsMirror (scans s wrote now share rows deleting) g w =
    decide-IsMirror s wrote now (own_link share) (measure rows deleting).0 (measure rows deleting).1
      g w
step-IsMirror (scan_fails wrote now share rows reserved unavailable) g w =
    scan_failed-IsMirror wrote now share rows reserved unavailable g w
step-IsMirror (passes s wrote now share peer rows deleting) g w =
    pass-IsMirror s wrote now share peer rows deleting g w
step-IsMirror (confirms wrote link) g w = confirm-IsMirror wrote link g w
step-IsMirror (retains keep wrote) g w = retain_each-IsMirror keep wrote g.held g w

-- Whatever the node does to the guard, and whichever of its writes fail, the holds in memory are
-- the store's rows, each under its own link and none twice.
pub run-IsMirror : (ops : List Op) (g : Guard) → IsMirror g → IsMirror (run ops g)
unfolding run
run-IsMirror [] g w = w
run-IsMirror (op ∷ ops) g w = run-IsMirror ops (step op g) (step-IsMirror op g w)

abbrev or_else : Option Hold → Option Hold → Option Hold
or_else none o = o
or_else (some h) o = some h

find-load_onto :
    (m rows : Holds) (k : Link)
    → IsKeyed rows
    → IsMap rows
    → find (load_onto m rows) k ≡ or_else (find rows k) (find m k)
unfolding load_onto find
find-load_onto m [] k w u = refl
find-load_onto m ((j, h) ∷ rows) k w u = ground (
  arith,
  find-load_onto (insert (link_of h) h m) rows k w.1 u.1,
  find-insert (link_of h) k h m,
  link_eq_iff (link_of h) k,
  link_eq_iff j k,
  w.0,
  u.0,
  find-has rows k,
)

or_else-none : (m : Holds) (k : Link) → or_else (find m k) (find [] k) ≡ find m k
unfolding find
or_else-none m k = elim (Option-cases (find m k)) [ inl e ↦ rw e refl | inr (h, e) ↦ rw e refl ]

-- A restart forgets no hold and invents none: after any operations the guard that `Load` makes from
-- the store finds on every link what the running guard finds.
pub restart_forgets_nothing :
    (ops : List Op) (g : Guard) (k : Link)
    → IsMirror g
    → find (load (run ops g).stored).held k ≡ find (run ops g).held k
unfolding load
restart_forgets_nothing ops g k w =
    let v = run-IsMirror ops g w in
    let g' = run ops g in
    rw (← v.same) (find-load_onto [] g'.held k v.keyed v.one_each ∙ or_else-none g'.held k)
