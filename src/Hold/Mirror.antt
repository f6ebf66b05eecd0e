-- ===== src/Hold/Mirror.antt =====
-- Each operation of the guard keeps its copy of the holds the store's rows.
use syncat.Prelude.{
  if◌then◌else◌, Bool-cases, Option-cases, find, has, insert, delete, IsMap, insert-IsMap,
  delete-IsMap, ℤ, pos, ℕ, ◌≡◌, refl, inl, inr, Bool, true, false, not, some, [], ◌∷◌, arith,
  bytes_key,
}
use syncat.Hold.{
  link_eq, link_eq_iff, link_key, link_of, Holds, place, clear, HoldReason, Link, Hold, Guard,
}
use syncat.Hold.Trigger.{Thresholds}
use syncat.Hold.Decide.{reason_now, is_confirmed, let_through, stop, decide, confirm, retain_each}

-- Every hold stands under its own link.
abbrev pub IsKeyed : Holds → Type 0
IsKeyed [] = Unit
IsKeyed ((k, h) ∷ m) = (link_of h ≡ k) × IsKeyed m

pub record IsMirror (g : Guard) : Type 0 where
  pub same : g.held ≡ g.stored
  pub keyed : IsKeyed g.held
  pub one_each : IsMap g.held

insert-IsKeyed :
    (k : Link) (h : Hold) (m : Holds) → link_of h ≡ k → IsKeyed m → IsKeyed (insert k h m)
unfolding insert
insert-IsKeyed k h [] e w = (e, tt)
insert-IsKeyed k h ((j, i) ∷ m) e w = elim (Bool-cases (link_eq j k)) [
  | inl q ↦ rw q (e, w.1)
  | inr q ↦ rw q (w.0, insert-IsKeyed k h m e w.1)
]

delete-IsKeyed : (k : Link) (m : Holds) → IsKeyed m → IsKeyed (delete k m)
unfolding delete
delete-IsKeyed k [] w = tt
delete-IsKeyed k ((j, i) ∷ m) w = elim (Bool-cases (link_eq j k)) [
  | inl q ↦ rw q (delete-IsKeyed k m w.1)
  | inr q ↦ rw q (w.0, delete-IsKeyed k m w.1)
]

find-IsKeyed : (m : Holds) (k : Link) (h : Hold) → IsKeyed m → find m k ≡ some h → link_of h ≡ k
unfolding find
find-IsKeyed [] k h w e = cc
find-IsKeyed ((j, i) ∷ m) k h w e = elim (Bool-cases (link_eq j k)) [
  | inl q ↦ ground (arith, w.0, link_eq_iff j k, q, e)
  | inr q ↦ find-IsKeyed m k h w.1 (ground (arith, q, e))
]

-- The two ways in which an operation writes: one hold put, or one hold deleted, in both places.
put-IsMirror :
    (g : Guard) (k : Link) (h : Hold)
    → link_of h ≡ k
    → IsMirror g
    → IsMirror (record g { held = insert k h g.held; stored = insert (link_of h) h g.stored })
put-IsMirror g k h e w = record {
  same = rw (e, w.same);
  keyed = insert-IsKeyed k h g.held e w.keyed;
  one_each = insert-IsMap k h g.held w.one_each;
}

drop-IsMirror :
    (g : Guard) (k : Link)
    → IsMirror g
    → IsMirror (record g { held = delete k g.held; stored = delete k g.stored })
drop-IsMirror g k w = record {
  same = rw w.same;
  keyed = delete-IsKeyed k g.held w.keyed;
  one_each = delete-IsMap k g.held w.one_each;
}

-- Both branches of a test keep the mirror.
if-IsMirror :
    {C : Type 0} (b : Bool) (x y : C × Guard)
    → IsMirror x.1
    → IsMirror y.1
    → IsMirror (if◌then◌else◌ {A = C × Guard} b x y).1
if-IsMirror true x y p q = p
if-IsMirror false x y p q = q

pub place-IsMirror :
    (wrote : Bool) (now : ℤ) (h : Hold) (g : Guard) → IsMirror g → IsMirror (place wrote now h g).1
unfolding place
place-IsMirror wrote now h g w = elim (Option-cases (find g.held (link_of h))) [
  | inl e ↦
      rw (e, place)
        (if-IsMirror wrote _ _ (put-IsMirror g (link_of h) (record h { since = now }) refl w) w)
  | inr (old, e) ↦
      rw (e, place)
        (if-IsMirror _ _ _ w (
          if-IsMirror wrote _ _ (put-IsMirror g (link_of h) (record h { since = old.since }) refl w)
            w))
]

clear-IsMirror : (wrote : Bool) (k : Link) (g : Guard) → IsMirror g → IsMirror (clear wrote k g).1
unfolding clear
clear-IsMirror wrote k g w =
    if-IsMirror (not (has g.held k)) _ _ w (if-IsMirror wrote _ _ (drop-IsMirror g k w) w)

pub confirm-IsMirror :
    (wrote : Bool) (k : Link) (g : Guard) → IsMirror g → IsMirror (confirm wrote k g).1
unfolding confirm
confirm-IsMirror wrote k g w = elim (Option-cases (find g.held k)) [
  | inl e ↦ rw (e, confirm) w
  | inr (h, e) ↦
      rw (e, confirm)
        (if-IsMirror _ _ _ w (
          if-IsMirror wrote _ _
            (put-IsMirror g k (record h { confirmed = true }) (find-IsKeyed g.held k h w.keyed e) w)
            w))
]

stop-IsMirror :
    (wrote : Bool) (now : ℤ) (link : Link) (reason : HoldReason) (deletes live : ℕ) (g : Guard)
    → IsMirror g
    → IsMirror (stop wrote now link reason deletes live g).guard
unfolding stop
stop-IsMirror wrote now link reason deletes live g w =
    place-IsMirror wrote now
      (record {
        share_id = link.share_id;
        peer_key = link.peer_key;
        reason = reason;
        deletes = deletes;
        live = live;
        since = pos 0;
        confirmed = false;
      })
      g w

pub decide-IsMirror :
    (s : Thresholds) (wrote : Bool) (now : ℤ) (link : Link) (deletes live : ℕ) (g : Guard)
    → IsMirror g
    → IsMirror (decide s wrote now link deletes live g).guard
unfolding decide let_through
decide-IsMirror s wrote now link deletes live g w =
    elim (Option-cases (reason_now s (find g.held link) deletes live)) [
      | inl e ↦ rw (e, decide) (clear-IsMirror wrote link g w)
      | inr (reason, e) ↦
          rw (e, decide)
            (elim (Bool-cases (is_confirmed (find g.held link))) [
              | inl c ↦ rw c (clear-IsMirror wrote link g w)
              | inr c ↦ rw c (stop-IsMirror wrote now link reason deletes live g w)
            ])
    ]

pub retain_each-IsMirror :
    (keep wrote : Link → Bool) (rest : Holds) (g : Guard)
    → IsMirror g
    → IsMirror (retain_each keep wrote rest g)
unfolding retain_each
retain_each-IsMirror keep wrote [] g w = w
retain_each-IsMirror keep wrote ((k, h) ∷ rest) g w =
    retain_each-IsMirror keep wrote rest
      (if keep k
        then g
        else if wrote k
        then record g { held = delete k g.held; stored = delete k g.stored }
        else g)
      (go (keep k) (wrote k))
  where
    go :
        (b c : Bool)
        → IsMirror (
            if b
            then g
            else if c
            then record g { held = delete k g.held; stored = delete k g.stored }
            else g)
    go true c = w
    go false true = drop-IsMirror g k w
    go false false = w
