-- ===== src/Config/Tests.antt =====
-- The settings in force for a share that is offered and subscribed to.
use syncat.Prelude.{Bytes, codes, bytes_eq, pos, ◌≡◌, refl, ◌≢◌, [], ◌∷◌}
use syncat.Config.{
  no_safety, default_hold_delete_percent, default_hold_delete_min, default_trash_retention_days,
  or_usual, safety_for, Safety, Share, Subscription, Config,
}
use syncat.Config.Resolve.{safety_for_resolves, IsChosen}

abbrev photos : Bytes
photos = codes "a1b2c3d4e5f60718"

abbrev strict : Subscription
strict = record { share_id = photos; safety = record no_safety { hold_delete_percent = pos 5 } }

abbrev loose : Share
loose = record { id = photos; safety = record no_safety { hold_delete_percent = pos 90 } }

abbrev config : Config
config = record { shares = loose ∷ []; subscriptions = strict ∷ []; trash_retention_days = pos 0 }

strict_wins : (safety_for config photos).hold_delete_percent ≡ pos 5
unfolding safety_for bytes_eq
strict_wins = refl

safety_for_resolves_example :
    let s = safety_for config photos in
    (chosen : Safety) × IsChosen config photos chosen
    × (s.hold_delete_percent ≢ pos 0)
    × (s.hold_delete_min ≢ pos 0)
    × (s.trash_retention_days ≢ pos 0)
    × (s.trash_max_size ≢ [])
    × (s.hold_delete_percent ≡ or_usual chosen.hold_delete_percent default_hold_delete_percent)
    × (s.hold_delete_min ≡ or_usual chosen.hold_delete_min default_hold_delete_min)
    × (s.trash_retention_days
        ≡ or_usual
            (or_usual chosen.trash_retention_days config.trash_retention_days)
            default_trash_retention_days)
safety_for_resolves_example = safety_for_resolves config photos
