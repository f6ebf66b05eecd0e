-- ===== src/Wire/Sent.antt =====
-- What the session writer has sent stays sent.
use syncat.Prelude.{
  leb, if◌then◌else◌, Bool-cases, Option-cases, Bytes, find, delete, ℕ, ◌+◌, ◌≤◌, ◌≡◌, ap, inl, inr,
  Bool, true, false, List, [], ◌∷◌, ◌++◌, bytes_key,
}
use syncat.Wire.Stream.{
  max_control_burst, is_urgent, write_frame, poll_urgent, take_data, check_burst, take_urgent,
  take_ctrl, take_latest, take_lane, turn, Queued, Phase, Lane, StreamWriter, polling, checking,
  waiting, exited, urgent_lane, ctrl_lane, latest_lane, data_lane,
}

-- How many of the frames are neither a pong nor an error.
abbrev pub non_urgent : List Queued → ℕ
non_urgent [] = 0
non_urgent (x ∷ xs) = if is_urgent x.typ then non_urgent xs else non_urgent xs + 1

-- The frame was written after `old`, and between the two at most nine frames that are not urgent.
abbrev pub IsPast : List Queued → Queued → List Queued → Type 0
IsPast old q sent =
    (later between : List Queued) × (sent ≡ later ++ q ∷ (between ++ old))
    × (non_urgent between ≤ 9)

IsPast-later :
    (old : List Queued) (q x : Queued) (sent : List Queued)
    → IsPast old q sent
    → IsPast old q (x ∷ sent)
IsPast-later old q x sent (later, between, e, few) = (x ∷ later, between, ap (◌∷◌ x) e, few)

module _ (old : List Queued) where
  write_frame-IsPast :
      (q x : Queued) (wrote : Bool) (w : StreamWriter)
      → IsPast old q w.sent
      → IsPast old q (write_frame wrote x w).sent
  unfolding write_frame
  write_frame-IsPast q x true w h = IsPast-later old q x w.sent h
  write_frame-IsPast q x false w h = h

  take_data-IsPast :
      (q : Queued) (wrote : Bool) (qs : List Queued) (w : StreamWriter)
      → IsPast old q w.sent
      → IsPast old q (take_data wrote qs w).sent
  unfolding take_data
  take_data-IsPast q wrote [] w h = h
  take_data-IsPast q wrote (x ∷ qs) w h =
      write_frame-IsPast q x wrote (record w { data_queue = qs; burst = 0 }) h

  take_lane-IsPast :
      (q : Queued) (lane : Lane) (wrote : Bool) (urgent ctrl : List Queued) (latest : List Bytes)
      (w : StreamWriter)
      → IsPast old q w.sent
      → IsPast old q (poll_urgent wrote urgent w).sent
        × IsPast old q (take_urgent wrote urgent w).sent
        × IsPast old q (take_ctrl wrote ctrl w).sent
        × IsPast old q (take_latest wrote latest w).sent
  unfolding poll_urgent take_urgent take_ctrl take_latest
  take_lane-IsPast q lane wrote urgent ctrl latest w h =
      (polled urgent, urgent_taken urgent, ctrl_taken ctrl, latest_taken latest)
    where
      polled : (qs : List Queued) → IsPast old q (poll_urgent wrote qs w).sent
      polled [] = h
      polled (x ∷ qs) = write_frame-IsPast q x wrote (record w { urgent = qs }) h

      urgent_taken : (qs : List Queued) → IsPast old q (take_urgent wrote qs w).sent
      urgent_taken [] = h
      urgent_taken (x ∷ qs) = write_frame-IsPast q x wrote (record w { urgent = qs }) h

      ctrl_taken : (qs : List Queued) → IsPast old q (take_ctrl wrote qs w).sent
      ctrl_taken [] = h
      ctrl_taken (x ∷ qs) =
          write_frame-IsPast q x wrote (record w { ctrl = qs; burst = w.burst + 1 }) h

      latest_taken : (keys : List Bytes) → IsPast old q (take_latest wrote keys w).sent
      latest_taken [] = h
      latest_taken (key ∷ keys) = elim (Option-cases (find w.latest_frames key)) [
        | inl e ↦ rw (e, take_latest) h
        | inr (x, e) ↦
            rw (e, take_latest)
              (write_frame-IsPast q x wrote
                (record w {
                  latest = keys;
                  latest_frames = delete key w.latest_frames;
                  burst = w.burst + 1;
                })
                h)
      ]

  check_burst-IsPast :
      (q : Queued) (wrote : Bool) (qs : List Queued) (w : StreamWriter)
      → IsPast old q w.sent
      → IsPast old q (check_burst wrote qs w).sent
  unfolding check_burst
  check_burst-IsPast q wrote [] w h = h
  check_burst-IsPast q wrote (x ∷ qs) w h = elim (Bool-cases (leb max_control_burst w.burst)) [
    | inl e ↦ rw (e, check_burst) (take_data-IsPast q wrote (x ∷ qs) w h)
    | inr e ↦ rw (e, check_burst) h
  ]

  pub turn-IsPast :
      (q : Queued) (p : Phase) (lane : Lane) (wrote : Bool) (w : StreamWriter)
      → IsPast old q w.sent
      → IsPast old q (turn p lane wrote w).sent
  unfolding turn take_lane
  turn-IsPast q polling lane wrote w h =
      (take_lane-IsPast q lane wrote w.urgent w.ctrl w.latest w h).0
  turn-IsPast q checking lane wrote w h = check_burst-IsPast q wrote w.data_queue w h
  turn-IsPast q waiting urgent_lane wrote w h =
      (take_lane-IsPast q urgent_lane wrote w.urgent w.ctrl w.latest w h).1
  turn-IsPast q waiting ctrl_lane wrote w h =
      (take_lane-IsPast q ctrl_lane wrote w.urgent w.ctrl w.latest w h).2
  turn-IsPast q waiting latest_lane wrote w h =
      (take_lane-IsPast q latest_lane wrote w.urgent w.ctrl w.latest w h).3
  turn-IsPast q waiting data_lane wrote w h = take_data-IsPast q wrote w.data_queue w h
  turn-IsPast q exited lane wrote w h = h
