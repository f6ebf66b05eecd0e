-- ===== src/Config/Resolve.antt =====
-- What `SafetyFor` resolves to.
use mathlib.Core.Path.{subst}
use syncat.Prelude.{
  if◌then◌else◌, Bool-cases, All, Bytes, bytes_eq, bytes_eq_iff, ℤ, int_eq_iff, pos, ◌≡◌, refl, sym,
  ap, ◌∙◌, ◌≢◌, ◌⊎◌, inl, inr, List, [], ◌∷◌, ◌++◌, arith,
}
use syncat.Config.{
  no_safety, default_hold_delete_percent, default_hold_delete_min, default_trash_retention_days,
  from_shares, from_subscriptions, or_usual, fill_in, safety_for, Safety, Share, Subscription,
  Config,
}

-- The settings that the configuration gives for a share: of the last subscription to it, else of the
-- last share that is offered under it, else none.
pub data IsChosen (c : Config) (id : Bytes) : Safety → Type 0 where
  subscribed :
      (before after : List Subscription) (sub : Subscription)
      → c.subscriptions ≡ before ++ sub ∷ after
      → sub.share_id ≡ id
      → All (λ t. t.share_id ≢ id) after
      → IsChosen c id sub.safety
  offered :
      (before after : List Share) (sh : Share)
      → All (λ t. t.share_id ≢ id) c.subscriptions
      → c.shares ≡ before ++ sh ∷ after
      → sh.id ≡ id
      → All (λ t. t.id ≢ id) after
      → IsChosen c id sh.safety
  unknown :
      All (λ t. t.share_id ≢ id) c.subscriptions
      → All (λ t. t.id ≢ id) c.shares
      → IsChosen c id no_safety

from_subscriptions-cases :
    (id : Bytes) (subs : List Subscription) (s : Safety)
    → ((before after : List Subscription) × (sub : Subscription) × (subs ≡ before ++ sub ∷ after)
        × (sub.share_id ≡ id)
        × All (λ t. t.share_id ≢ id) after
        × (from_subscriptions id subs s ≡ sub.safety))
      ⊎ (All (λ t. t.share_id ≢ id) subs × (from_subscriptions id subs s ≡ s))
unfolding from_subscriptions
from_subscriptions-cases id [] s = inr (tt, refl)
from_subscriptions-cases id (t ∷ subs) s =
    let same = bytes_eq_iff t.share_id id in
    elim (from_subscriptions-cases id subs (if bytes_eq t.share_id id then t.safety else s)) [
      | inl (before, after, sub, e, at, none_later, q) ↦
          inl (t ∷ before, after, sub, ap (◌∷◌ t) e, at, none_later, q)
      | inr (none_later, q) ↦ elim (Bool-cases (bytes_eq t.share_id id)) [
        | inl h ↦ inl ([], subs, t, refl, same.0 h, none_later, q ∙ rw h refl)
        | inr h ↦ inr ((λ e. ground (arith, e, h, same), none_later), q ∙ rw h refl)
      ]
    ]

from_shares-cases :
    (id : Bytes) (shares : List Share) (s : Safety)
    → ((before after : List Share) × (sh : Share) × (shares ≡ before ++ sh ∷ after)
        × (sh.id ≡ id)
        × All (λ t. t.id ≢ id) after
        × (from_shares id shares s ≡ sh.safety))
      ⊎ (All (λ t. t.id ≢ id) shares × (from_shares id shares s ≡ s))
unfolding from_shares
from_shares-cases id [] s = inr (tt, refl)
from_shares-cases id (t ∷ shares) s =
    let same = bytes_eq_iff t.id id in
    elim (from_shares-cases id shares (if bytes_eq t.id id then t.safety else s)) [
      | inl (before, after, sh, e, at, none_later, q) ↦
          inl (t ∷ before, after, sh, ap (◌∷◌ t) e, at, none_later, q)
      | inr (none_later, q) ↦ elim (Bool-cases (bytes_eq t.id id)) [
        | inl h ↦ inl ([], shares, t, refl, same.0 h, none_later, q ∙ rw h refl)
        | inr h ↦ inr ((λ e. ground (arith, e, h, same), none_later), q ∙ rw h refl)
      ]
    ]

from_subscriptions-IsChosen :
    (c : Config) (id : Bytes)
    → IsChosen c id (from_subscriptions id c.subscriptions (from_shares id c.shares no_safety))
from_subscriptions-IsChosen c id =
    let base = from_shares id c.shares no_safety in
    elim (from_subscriptions-cases id c.subscriptions base) [
      | inl (before, after, sub, e, at, none_later, q) ↦
          subst (IsChosen c id) (sym q) (subscribed before after sub e at none_later)
      | inr (no_sub, q) ↦
          subst (IsChosen c id) (sym q) (elim (from_shares-cases id c.shares no_safety) [
            | inl (before, after, sh, e, at, none_later, r) ↦
                subst (IsChosen c id) (sym r) (offered before after sh no_sub e at none_later)
            | inr (no_share, r) ↦ subst (IsChosen c id) (sym r) (unknown no_sub no_share)
          ])
    ]

or_usual-set : (x usual : ℤ) → x ≢ pos 0 → or_usual x usual ≡ x
or_usual-set x usual h = ground (arith, h, int_eq_iff x (pos 0))

or_usual-nonzero : (x usual : ℤ) → usual ≢ pos 0 → or_usual x usual ≢ pos 0
or_usual-nonzero x usual h = ground (arith, h, int_eq_iff x (pos 0))

-- For every configuration and share, no setting that `SafetyFor` returns is unset. The two hold
-- thresholds and the retention are those of the last subscription to the share, else of the last
-- offered share with its id; where that leaves one unset or there is neither, they are the defaults,
-- before which the retention takes the node's own.
pub safety_for_resolves :
    (c : Config) (id : Bytes)
    → let s = safety_for c id in
      (chosen : Safety) × IsChosen c id chosen
      × (s.hold_delete_percent ≢ pos 0)
      × (s.hold_delete_min ≢ pos 0)
      × (s.trash_retention_days ≢ pos 0)
      × (s.trash_max_size ≢ [])
      × (s.hold_delete_percent ≡ or_usual chosen.hold_delete_percent default_hold_delete_percent)
      × (s.hold_delete_min ≡ or_usual chosen.hold_delete_min default_hold_delete_min)
      × (s.trash_retention_days
          ≡ or_usual
              (or_usual chosen.trash_retention_days c.trash_retention_days)
              default_trash_retention_days)
unfolding safety_for fill_in
safety_for_resolves c id =
    let chosen = from_subscriptions id c.subscriptions (from_shares id c.shares no_safety) in
    (
      chosen,
      from_subscriptions-IsChosen c id,
      or_usual-nonzero chosen.hold_delete_percent default_hold_delete_percent (ground arith),
      or_usual-nonzero chosen.hold_delete_min default_hold_delete_min (ground arith),
      or_usual-nonzero (or_usual chosen.trash_retention_days c.trash_retention_days)
          default_trash_retention_days (ground arith),
      ground (arith, bytes_eq_iff chosen.trash_max_size []),
      refl,
      refl,
      refl,
    )
