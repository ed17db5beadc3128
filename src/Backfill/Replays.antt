-- ===== src/Backfill/Replays.antt =====
-- What Next returns over a store that holds certain results.
use ping_santo.Prelude.{ℕ, ◌≤◌, ◌≡◌, refl, arith, some, List, take}
use ping_santo.Persist.Frame.{Codec}
use ping_santo.Persist.State.{Store, no_faults}
use ping_santo.Persist.Reader.{room_of}
use ping_santo.Persist.View.{Pending, Holds}
use ping_santo.Persist.View.Reads.{batch_of, read_batch-Holds}
use ping_santo.Backfill.{
  RateLimit, Controller, batch_limit, next, next_read, admit, answer, record_pending,
}

module _ (rate : RateLimit) {R : Type 0} (codec : Codec R) where
  open rate use {Moment, Limiter, wait_n}

  -- The results that `Next` reads.
  abbrev pub window : ℕ → Controller rate → List (Pending R) → List (Pending R)
  window max c ps = take (room_of (batch_limit rate codec max c)) ps

  pub next-Holds :
      (t : Moment) (max : ℕ) (s : Store) (ps : List (Pending R)) (c : Controller rate)
      → Holds codec s ps
      → let (r, c') =
          admit rate codec t (batch_of (window max c ps)) (record_pending rate (some s) c) in
        next rate codec no_faults t max (some s) c ≡ (answer rate codec r, (some s, c'))
  unfolding next next_read
  next-Holds t max s ps c v = rw (read_batch-Holds codec (batch_limit rate codec max c) s ps v) refl

  -- Next asks for at most the controller's maximum, whatever the caller wants.
  pub batch_limit_le : (max : ℕ) (c : Controller rate) → batch_limit rate codec max c ≤ c.max_batch
  unfolding batch_limit
  batch_limit_le max c = ground arith
