-- ===== src/Config.antt =====
-- The safety settings of internal/config: `Config.SafetyFor` of internal/config/safety.go, over the
-- fields of the configuration that it reads. A field that is 0 or "" is not set.
pub mod Resolve
mod Tests
use syncat.Prelude.{if◌then◌else◌, Bytes, codes, bytes_eq, ℤ, int_eq, pos, List, [], ◌∷◌}

pub record Safety : Type 0 where
  pub hold_delete_percent : ℤ
  pub hold_delete_min : ℤ
  pub trash_retention_days : ℤ
  pub trash_max_size : Bytes

pub record Share : Type 0 where
  pub id : Bytes
  pub safety : Safety

pub record Subscription : Type 0 where
  pub share_id : Bytes
  pub safety : Safety

pub record Config : Type 0 where
  pub shares : List Share
  pub subscriptions : List Subscription
  pub trash_retention_days : ℤ

-- Go's zero value.
abbrev pub no_safety : Safety
no_safety = record {
  hold_delete_percent = pos 0;
  hold_delete_min = pos 0;
  trash_retention_days = pos 0;
  trash_max_size = [];
}

abbrev pub default_hold_delete_percent : ℤ
default_hold_delete_percent = pos 50

abbrev pub default_hold_delete_min : ℤ
default_hold_delete_min = pos 20

abbrev pub default_trash_retention_days : ℤ
default_trash_retention_days = pos 30

abbrev pub default_trash_max_size : Bytes
default_trash_max_size = codes "25%"

-- The two loops: the last match wins, `s` where nothing matches.
unfoldable pub from_shares : Bytes → List Share → Safety → Safety
from_shares id [] s = s
from_shares id (sh ∷ shares) s = from_shares id shares (if bytes_eq sh.id id then sh.safety else s)

unfoldable pub from_subscriptions : Bytes → List Subscription → Safety → Safety
from_subscriptions id [] s = s
from_subscriptions id (sub ∷ subs) s =
    from_subscriptions id subs (if bytes_eq sub.share_id id then sub.safety else s)

-- `if x == 0 { x = usual }`
abbrev pub or_usual : ℤ → ℤ → ℤ
or_usual x usual = if int_eq x (pos 0) then usual else x

unfoldable pub fill_in : ℤ → Safety → Safety
fill_in node_days s = record {
  hold_delete_percent = or_usual s.hold_delete_percent default_hold_delete_percent;
  hold_delete_min = or_usual s.hold_delete_min default_hold_delete_min;
  trash_retention_days =
      or_usual (or_usual s.trash_retention_days node_days) default_trash_retention_days;
  trash_max_size =
      if bytes_eq s.trash_max_size [] then default_trash_max_size else s.trash_max_size;
}

unfoldable pub safety_for : Config → Bytes → Safety
unfolding from_shares from_subscriptions fill_in
safety_for c id =
    fill_in c.trash_retention_days
      (from_subscriptions id c.subscriptions (from_shares id c.shares no_safety))
