-- ===== src/Wire/Keepalive.antt =====
-- The timing of internal/protocol/keepalive.go. An instant is its nanoseconds since some start, a
-- duration an integer of nanoseconds. What a connection goes through is a list of events, each with
-- the clock's answer at that moment; `run` is the polling loop over them, and `ctx.Done()` is the
-- end of the list.
use syncat.Prelude.{
  ltb, if◌then◌else◌, ℤ, pos, negsuc, ℕ, zero, suc, ◌+◌, ◌*◌, ◌<◌, ◌≡◌, refl, ◌↔◌, Bool, true,
  false, not, List, [], ◌∷◌, arith,
}

pub record Keepalive : Type 0 where
  pub ping_interval : ℕ
  pub dead_after : ℕ
  pub last_sent : ℕ
  pub last_recv : ℕ

abbrev pub second : ℕ
second = 1000000000

-- `d`, or the default for `d <= 0`.
abbrev pub or_default : ℤ → ℕ → ℕ
or_default (pos zero) usual = usual
or_default (pos (suc n)) usual = suc n
or_default (negsuc n) usual = usual

unfoldable pub new_keepalive : ℕ → ℤ → ℤ → Keepalive
new_keepalive now ping_interval dead_after = record {
  ping_interval = or_default ping_interval (30 * second);
  dead_after = or_default dead_after (90 * second);
  last_sent = now;
  last_recv = now;
}

abbrev pub record_sent : ℕ → Keepalive → Keepalive
record_sent now k = record k { last_sent = now }

abbrev pub record_received : ℕ → Keepalive → Keepalive
record_received now k = record k { last_recv = now }

-- `!now.Before(at)`
abbrev pub needs_ping : ℕ → Keepalive → Bool
needs_ping now k = not (ltb now (k.last_sent + k.ping_interval))

abbrev pub is_dead : ℕ → Keepalive → Bool
is_dead now k = not (ltb now (k.last_recv + k.dead_after))

pub data Event : Type 0 where
  sent received tick : ℕ → Event

-- The callbacks that `Run` makes.
pub data Callback : Type 0 where
  on_ping on_dead : ℕ → Callback

unfoldable pub run : List Event → Keepalive → List Callback
run [] k = []
run (sent now ∷ events) k = run events (record_sent now k)
run (received now ∷ events) k = run events (record_received now k)
run (tick now ∷ events) k =
    let rest = run events k in
    if is_dead now k
    then on_dead now ∷ []
    else if needs_ping now k
    then on_ping now ∷ rest
    else rest

-- At every poll something was received less than `dead_after` before; `last` is when the last
-- frame before the events was.
abbrev pub IsHeard : ℕ → ℕ → List Event → Type 0
IsHeard dead_after last [] = Unit
IsHeard dead_after last (sent now ∷ events) = IsHeard dead_after last events
IsHeard dead_after last (received now ∷ events) = IsHeard dead_after now events
IsHeard dead_after last (tick now ∷ events) =
    (now < last + dead_after) × IsHeard dead_after last events

abbrev pub closes_connection : List Callback → Bool
closes_connection [] = false
closes_connection (on_ping now ∷ calls) = closes_connection calls
closes_connection (on_dead now ∷ calls) = true

closes_connection-run :
    (events : List Event) (k : Keepalive)
    → IsHeard k.dead_after k.last_recv events
    → closes_connection (run events k) ≡ false
unfolding run
closes_connection-run [] k h = refl
closes_connection-run (sent now ∷ events) k h = closes_connection-run events (record_sent now k) h
closes_connection-run (received now ∷ events) k h =
    closes_connection-run events (record_received now k) h
closes_connection-run (tick now ∷ events) k h =
    ground (arith, h.0, closes_connection-run events k h.1)

run-IsHeard :
    (events : List Event) (k : Keepalive)
    → closes_connection (run events k) ≡ false
    → IsHeard k.dead_after k.last_recv events
unfolding run
run-IsHeard [] k h = tt
run-IsHeard (sent now ∷ events) k h = run-IsHeard events (record_sent now k) h
run-IsHeard (received now ∷ events) k h = run-IsHeard events (record_received now k) h
run-IsHeard (tick now ∷ events) k h = (ground (arith, h), run-IsHeard events k (ground (arith, h)))

-- Through any events the loop leaves the connection open exactly when at every poll a frame had
-- been received within `deadAfter`: no connection with a living peer is closed, and no silent one
-- survives a poll. What the node sends never counts for its peer.
pub keepalive_open_iff :
    (events : List Event) (k : Keepalive)
    → (closes_connection (run events k) ≡ false) ↔ IsHeard k.dead_after k.last_recv events
keepalive_open_iff events k = (run-IsHeard events k, closes_connection-run events k)
