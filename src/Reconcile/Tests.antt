-- ===== src/Reconcile/Tests.antt =====
-- Runs of the reconciler at concrete rows, and the theorems at inputs that meet their hypotheses.
use syncat.Prelude.{codes, pos, negsuc, ◌≡◌, refl, [], ◌∷◌}
use syncat.Reconcile.Names.{strip_markers, stamp, conflict_rel_path_of, hex_encode}

stamp_2023 : stamp (pos 1_700_000_000_000_000_000) ≡ codes "20231114-221320"
unfolding stamp
stamp_2023 = refl

stamp_before_1970 : stamp (negsuc 0) ≡ codes "19691231-235959"
unfolding stamp
stamp_before_1970 = refl

stamp_leap_day : stamp (pos 951_782_400_000_000_000) ≡ codes "20000229-000000"
unfolding stamp
stamp_leap_day = refl

strips_old_marker :
    conflict_rel_path_of (codes "d/n.sync-conflict-20200101-000000-0f.tar.gz") (codes "ab") (pos 0)
    ≡ codes "d/n.tar.sync-conflict-19700101-000000-ab.gz"
unfolding conflict_rel_path_of
strips_old_marker = refl

dotfile_has_no_ext :
    conflict_rel_path_of (codes ".bashrc") (codes "ab") (pos 0)
    ≡ codes ".bashrc.sync-conflict-19700101-000000-ab"
unfolding conflict_rel_path_of
dotfile_has_no_ext = refl

-- Removing one marker can put another together, which then stays.
two_markers :
    strip_markers (codes ".sy.sync-conflict-20200101-000000-anc-conflict-20200101-000000-b")
    ≡ codes ".sync-conflict-20200101-000000-b"
unfolding strip_markers
two_markers = refl

hex_bytes : hex_encode (0xde ∷ 0xad ∷ []) ≡ codes "dead"
unfolding hex_encode
hex_bytes = refl
