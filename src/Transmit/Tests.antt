-- ===== src/Transmit/Tests.antt =====
-- The loop at concrete inputs, with a limiter that refuses what is over its burst and else admits.
use Prim.Native.String.{String}
use ping_santo.Prelude.{
  ℕ, ◌≤◌, ◌≡◌, refl, Bool, true, false, none, some, List, [], ◌∷◌, arith, ltb, take, drop, lt→ltb,
  le→not_ltb,
}
use ping_santo.Persist.State.{Store, no_faults}
use ping_santo.Persist.Reader.{room_of}
use ping_santo.Persist.View.{Pending}
use ping_santo.Persist.Tests.{byte_codec, pending, stored, stored-Holds, copies, many, many-Holds}
use ping_santo.Queue.{Queue}
use ping_santo.Backfill.{
  RateLimit, Controller, batch_limit, rate_limited, new_controller, with_metrics,
}
use ping_santo.Transmit.{Transmitter, Turn, Stop, flush_backfill, run, new_transmitter}
use ping_santo.Transmit.Spilled.{IsQuiet, Backlog, Ends, flush_backfill-Ends}
use ping_santo.Transmit.Loop.{IsGood, IsReplaying, run_delivers}
use ping_santo.Transmit.Burst.{HasBurst, run_over_burst}

-- Rates are whole numbers, and a limiter is its burst.
abbrev limit : RateLimit
limit = record {
  Rate = ℕ;
  Limiter = ℕ;
  Moment = Unit;
  is_positive = λ r. ltb 0 r;
  to_int = λ r. r;
  one = 1;
  fifty = 50;
  new_limiter = λ r b. b;
  wait_n = λ t l n. (ltb l n, l);
  allow_n = λ t l n. (true, l);
}

abbrev monitor : ℕ → String
monitor n = "monitor"

abbrev turn : Bool → List ℕ → Turn limit byte_codec monitor
turn fails arrivals = record {
  is_done = false;
  send_fails = fails;
  arrivals = arrivals;
  between = [];
  sleeping = [];
  io = no_faults;
  moment = tt;
}

abbrev controller : Controller limit
controller = record { limiter = 100; max_batch = 256; metrics = none }

abbrev queue : List ℕ → Store → Queue ℕ Store
queue items s = record {
  capacity = 8;
  items = items;
  spill = some s;
  threshold = 6;
  spilled = 0;
  dropped = 0;
  events = none;
  metrics = none;
}

abbrev sender : List ℕ → Transmitter limit byte_codec monitor
sender items = record {
  queue = queue items stored;
  backfill = some controller;
  batch_size = 1;
  delivered = [];
}

abbrev both : List (Pending ℕ)
both = pending 1 41 ∷ pending 2 42 ∷ []

quiet : (fails : Bool) → IsQuiet limit byte_codec monitor (turn fails [])
quiet fails = record { no_arrivals = refl; none_sleeping = refl; no_faults = refl }

flush_backfill-Ends_example :
    let (r, t') = flush_backfill limit byte_codec monitor (turn true []) (sender []) in
    let k = room_of (batch_limit limit byte_codec 1 controller) in
    Ends limit byte_codec monitor
      (turn true [])
      100
      256
      r
      (sender [])
      t'
      (take k both)
      (drop k both)
flush_backfill-Ends_example =
    flush_backfill-Ends limit byte_codec monitor (turn true []) controller both stored (sender [])
      (quiet true) refl refl stored-Holds

abbrev Hundred : ℕ → Type 0
Hundred l = 100 ≤ l

good : IsGood limit byte_codec monitor Hundred 1 (turn false [])
good = record {
  running = refl;
  sends = refl;
  quiet = quiet false;
  patient = λ l n h le. (le→not_ltb l n (omega (arith, h, le)), h);
}

sender-IsReplaying : IsReplaying limit byte_codec monitor Hundred 1 (sender []) both
unfolding batch_limit
sender-IsReplaying = record {
  idle = refl;
  backlog = (stored, refl, stored-Holds);
  controller = (controller, refl, omega arith, omega arith);
}

run_delivers_example :
    let (stopped, t') =
      run limit byte_codec monitor (turn false [] ∷ turn false [] ∷ []) (sender []) in
    (stopped ≡ none)
    × (t'.delivered ≡ 41 ∷ 42 ∷ [])
    × IsReplaying limit byte_codec monitor Hundred 1 t' []
run_delivers_example =
    run_delivers limit byte_codec monitor Hundred 1 (turn false [] ∷ turn false [] ∷ []) (sender [])
      both (good, (good, tt)) sender-IsReplaying (omega arith)

limit-HasBurst : HasBurst limit byte_codec monitor (λ l. l)
limit-HasBurst = record { made = λ r n. refl; exceeded = λ m l n h. lt→ltb l n h }

run_over_burst_example :
    let c = new_controller limit (some (many 101)) (with_metrics limit none ∷ []) in
    let (stopped, t') =
      run limit byte_codec monitor
        (turn false [] ∷ [])
        (new_transmitter limit byte_codec monitor (queue [] (many 101)) (some c) 0) in
    (stopped ≡ some (Stop.next_failed rate_limited))
    × (t'.delivered ≡ [])
    × Backlog limit byte_codec monitor t' (copies 101)
run_over_burst_example =
    run_over_burst limit byte_codec monitor (λ l. l) (turn false []) [] (queue [] (many 101))
      (many 101) none (copies 101) limit-HasBurst (quiet false) refl refl refl (many-Holds 100)
      (omega arith)
