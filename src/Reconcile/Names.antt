-- ===== src/Reconcile/Names.antt =====
-- Conflict-copy names of internal/sync/reconcile.go: `ConflictRelPath`, `loserConflictRelPath` and
-- `splitExt`. A time is its nanoseconds since 1970, as `time.Unix(0, ns)` makes it. int64
-- nanoseconds reach from 1677 to 2262, so days counted from 1 March of year 0 are never negative.
use syncat.Prelude.{
  ltb, leb, ◌==◌, if◌then◌else◌, length, take, drop, Bytes, codes, bytes_eq, contains_byte, ℤ, pos,
  negsuc, ℕ, zero, suc, ◌+◌, ◌-◌, ◌*◌, ◌/◌, ◌%◌, Bool, ◌&&◌, ◌||◌, not, Option, none, some, [], ◌∷◌,
  ◌++◌,
}
use syncat.Reconcile.{FileInfo}

-- path.Split: up to and with the last slash, and what follows it.
unfoldable pub has_slash : Bytes → Bool
unfolding contains_byte
has_slash s = contains_byte s b'/'

unfoldable pub split_dir : Bytes → Bytes
unfolding has_slash
split_dir [] = []
split_dir (c ∷ s) = if c == b'/' || has_slash s then c ∷ split_dir s else []

unfoldable pub split_base : Bytes → Bytes
unfolding has_slash
split_base [] = []
split_base (c ∷ s) = if c == b'/' || has_slash s then split_base s else c ∷ s

abbrev pub is_digit : ℕ → Bool
is_digit c = leb b'0' c && leb c b'9'

abbrev pub is_hex : ℕ → Bool
is_hex c = is_digit c || (leb b'a' c && leb c b'f')

-- The rest of `s` behind a literal, behind `n` digits, and behind a run of hex digits.
unfoldable pub after_literal : Bytes → Bytes → Option Bytes
after_literal [] s = some s
after_literal (p ∷ ps) [] = none
after_literal (p ∷ ps) (c ∷ s) = if c == p then after_literal ps s else none

unfoldable pub after_digits : ℕ → Bytes → Option Bytes
after_digits zero s = some s
after_digits (suc n) [] = none
after_digits (suc n) (c ∷ s) = if is_digit c then after_digits n s else none

unfoldable pub after_hex_run : Bytes → Bytes
after_hex_run [] = []
after_hex_run (c ∷ s) = if is_hex c then after_hex_run s else c ∷ s

unfoldable pub after_hex : Bytes → Option Bytes
unfolding after_hex_run
after_hex [] = none
after_hex (c ∷ s) = if is_hex c then some (after_hex_run s) else none

abbrev pub ◌>>=◌ : Option Bytes → (Bytes → Option Bytes) → Option Bytes
◌>>=◌ none f = none
◌>>=◌ (some a) f = f a

infixl 5 ◌>>=◌
abbrev pub conflict_tag : Bytes
conflict_tag = codes ".sync-conflict-"

-- conflictMarkerRe, anchored at the start of the text: what is left behind the match.
unfoldable pub after_marker : Bytes → Option Bytes
unfolding after_literal after_digits after_hex
after_marker s = do
  a ← after_literal conflict_tag s
  b ← after_digits 8 a
  c ← after_literal (codes "-") b
  d ← after_digits 6 c
  e ← after_literal (codes "-") d
  after_hex e

-- `ReplaceAllString(s, "")`. `skip` counts the bytes of a match that are still to be dropped.
unfoldable pub strip_from : ℕ → Bytes → Bytes
strip_from skip [] = []
strip_from (suc skip) (c ∷ s) = strip_from skip s
strip_from zero (c ∷ s) =
    let kept = c ∷ strip_from zero s in
    elim (after_marker (c ∷ s)) [ none ↦ kept | some rest ↦ strip_from (length s - length rest) s ]

unfoldable pub strip_markers : Bytes → Bytes
unfolding strip_from after_marker
strip_markers s = strip_from 0 s

-- The index of the last dot.
unfoldable pub last_dot : Bytes → Option ℕ
last_dot [] = none
last_dot (c ∷ s) =
    let found = last_dot s in
    elim found [ some i ↦ some (suc i) | none ↦ if c == b'.' then some 0 else none ]

-- `if i <= 0 { return base, "" }; return base[:i], base[i:]`
unfoldable pub split_ext : Bytes → Bytes × Bytes
unfolding last_dot
split_ext base = elim (last_dot base) [
  | none ↦ (base, [])
  | some i ↦ if i == 0 then (base, []) else (take i base, drop i base)
]

abbrev digit : ℕ → ℕ
digit n = b'0' + n % 10

-- `w` decimal digits.
unfoldable pub decimal : ℕ → ℕ → Bytes
decimal zero n = []
decimal (suc w) n = decimal w (n / 10) ++ digit n ∷ []

abbrev ns_per_day : ℕ
ns_per_day = 86_400_000_000_000

-- Days from 1 March of year 0 to 1 January 1970.
abbrev epoch_days : ℕ
epoch_days = 719_468

-- Nanoseconds since 1 March of year 0.
unfoldable pub shifted_ns : ℤ → ℕ
shifted_ns (pos n) = epoch_days * ns_per_day + n
shifted_ns (negsuc n) = epoch_days * ns_per_day - suc n

-- Year, month and day in the Gregorian calendar, the years beginning in March.
unfoldable pub civil : ℕ → ℕ × ℕ × ℕ
civil days =
    let era = days / 146_097 in
    let doe = days % 146_097 in
    let yoe = (doe + doe / 36_524 - doe / 1_460 - doe / 146_096) / 365 in
    let doy = doe - (365 * yoe + yoe / 4 - yoe / 100) in
    let mp = (5 * doy + 2) / 153 in
    let d = doy + 1 - (153 * mp + 2) / 5 in
    let m = if ltb mp 10 then mp + 3 else mp - 9 in
    let y = yoe + era * 400 in (if leb m 2 then y + 1 else y, m, d)

-- `now.UTC().Format("20060102-150405")`
unfoldable pub stamp : ℤ → Bytes
unfolding shifted_ns civil decimal
stamp t =
    let ns = shifted_ns t in
    let (y, m, d) = civil (ns / ns_per_day) in
    let secs = ns % ns_per_day / 1_000_000_000 in
    decimal 4 y
    ++ decimal 2 m
    ++ decimal 2 d
    ++ b'-' ∷ decimal 2 (secs / 3600)
    ++ decimal 2 (secs / 60 % 60)
    ++ decimal 2 (secs % 60)

unfoldable pub conflict_rel_path_of : Bytes → Bytes → ℤ → Bytes
unfolding split_dir split_base strip_markers split_ext stamp
conflict_rel_path_of p id now =
    let (name, ext) = split_ext (strip_markers (split_base p)) in
    split_dir p ++ (name ++ (conflict_tag ++ (stamp now ++ (codes "-" ++ (id ++ ext)))))

abbrev pub conflict_id_len : ℕ
conflict_id_len = 4

abbrev hex_digit : ℕ → ℕ
hex_digit n = if ltb n 10 then b'0' + n else b'a' + (n - 10)

-- hex.EncodeToString
unfoldable pub hex_encode : Bytes → Bytes
hex_encode [] = []
hex_encode (b ∷ bs) = hex_digit (b / 16) ∷ hex_digit (b % 16) ∷ hex_encode bs

-- The name of the conflict copy, from the loser where that gives a name other than the winner's.
unfoldable pub loser_conflict_rel_path : Bytes → FileInfo → Bytes → ℤ → Bytes
unfolding conflict_rel_path_of hex_encode
loser_conflict_rel_path p loser node clock =
    let fallback = conflict_rel_path_of p node clock in
    let named =
      conflict_rel_path_of p (hex_encode (take conflict_id_len loser.sha256)) loser.mtime_ns in
    if leb conflict_id_len (length loser.sha256) && not (bytes_eq named p) then named else fallback
