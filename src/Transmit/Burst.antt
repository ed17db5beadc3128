-- ===== src/Transmit/Burst.antt =====
-- Run over a backlog that is longer than the limiter's burst.
use Prim.Native.String.{String}
use ping_santo.Prelude.{
  ℕ, ◌<◌, ◌≡◌, ◌⊎◌, refl, sym, ap, ◌∙◌, arith, inl, Bool, true, false, Option, none, some, List, [],
  ◌∷◌, ◌++◌, append-nil, map, length, take, drop, length-take, length-map, take-append-drop,
}
use mathlib.Core.Path.{subst}
use ping_santo.Persist.Frame.{Codec}
use ping_santo.Persist.State.{Store}
use ping_santo.Persist.Reader.{room_of}
use ping_santo.Persist.View.{Pending, Holds, result_of}
use ping_santo.Queue.{Queue}
use ping_santo.Queue.Drains.{drain_splits}
use ping_santo.Backfill.{
  RateLimit, Controller, batch_limit, rate_limited, new_controller, with_metrics, record_pending,
}
use ping_santo.Transmit.{
  Transmitter, Turn, Stop, flush_backfill, round, run, new_transmitter, with_batch_size,
}
use ping_santo.Transmit.Spilled.{IsQuiet, Backlog, Moves, Ends, flush_backfill-Ends}
use ping_santo.Transmit.Loop.{drained, round_empty}

module _ (rate : RateLimit) {R : Type 0} (codec : Codec R) (monitor_id : R → String) where
  open rate use {wait_n, Limiter, Moment, Rate, new_limiter, fifty}

  -- What the documentation of `rate.Limiter` says of its burst: a limiter is made with it, and
  -- `WaitN` returns an error if it is asked for more.
  pub record HasBurst (burst : Limiter → ℕ) : Type 0 where
    pub made : (r : Rate) (n : ℕ) → burst (new_limiter r n) ≡ n
    pub exceeded : (m : Moment) (l : Limiter) (n : ℕ) → burst l < n → (wait_n m l n).0 ≡ true

  Ends-refused :
      (burst : Limiter → ℕ) (turn : Turn rate codec monitor_id) (l : Limiter) (m : ℕ)
      (r : Stop ⊎ Bool) (t t' : Transmitter rate codec monitor_id) (ws rest : List (Pending R))
      → HasBurst burst
      → burst l < length ws
      → Ends rate codec monitor_id turn l m r t t' ws rest
      → (r ≡ inl (Stop.next_failed rate_limited))
        × Moves rate codec monitor_id m
            (wait_n turn.moment l (length (map result_of ws))).1
            t
            t'
            []
            (ws ++ rest)
  Ends-refused burst turn l m r t t' ws rest h over (Ends.sent _ _ free _) =
      let e =
        h.exceeded turn.moment l (length (map result_of ws))
          (omega (arith, over, length-map result_of ws)) in
      absurd (cc)
  Ends-refused burst turn l m r t t' ws rest h over (Ends.not_sent _ _ free _) =
      let e =
        h.exceeded turn.moment l (length (map result_of ws))
          (omega (arith, over, length-map result_of ws)) in
      absurd (cc)
  Ends-refused burst turn l m r t t' ws rest h over (Ends.refused stops _ moves) = (stops, moves)
  Ends-refused burst turn l m r t t' ws rest h over (Ends.idle _ nothing _) =
      absurd (omega (arith, over, ap length nothing))

  round_over_burst :
      (burst : Limiter → ℕ) (turn : Turn rate codec monitor_id)
      (t : Transmitter rate codec monitor_id) (c : Controller rate) (s : Store)
      (ps : List (Pending R))
      → HasBurst burst
      → IsQuiet rate codec monitor_id turn
      → turn.is_done ≡ false
      → t.queue.items ≡ []
      → t.backfill ≡ some c
      → t.queue.spill ≡ some s
      → Holds codec s ps
      → burst c.limiter < room_of (batch_limit rate codec t.batch_size c)
      → burst c.limiter < length ps
      → let (r, t') = round rate codec monitor_id turn t in
        (r ≡ inl (Stop.next_failed rate_limited))
        × (t'.delivered ≡ t.delivered)
        × Backlog rate codec monitor_id t' ps
  round_over_burst burst turn t c s ps h quiet running e c_at at held wide long =
      let (_, _, spill, _, _) = drain_splits t.batch_size t.queue in
      let k = room_of (batch_limit rate codec t.batch_size c) in
      let ends =
        flush_backfill-Ends rate codec monitor_id turn c ps s (drained rate codec monitor_id t)
          quiet c_at (spill ∙ at) held in
      let (stops, m) =
        Ends-refused burst turn c.limiter c.max_batch _ _ _ (take k ps) (drop k ps) h
          (omega (arith, length-take k ps, wide, long)) ends in
      subst
        (λ x.
          (x.0 ≡ inl (Stop.next_failed rate_limited))
          × (x.1.delivered ≡ t.delivered)
          × Backlog rate codec monitor_id x.1 ps)
        (sym (round_empty rate codec monitor_id turn t e running quiet.none_sleeping))
        (
          stops,
          m.delivered ∙ append-nil t.delivered,
          subst
              (Backlog rate codec monitor_id
                (flush_backfill rate codec monitor_id turn (drained rate codec monitor_id t)).1)
              (take-append-drop k ps) m.backlog,
        )

  default_limiter :
      (s : Store) (calls : Option (List ℕ))
      → (new_controller rate (some s) (with_metrics rate calls ∷ [])).limiter
        ≡ new_limiter fifty 100
  unfolding new_controller with_metrics record_pending
  default_limiter s none = refl
  default_limiter s (some calls) = refl

  default_batch :
      (s : Store) (calls : Option (List ℕ))
      → batch_limit rate codec 256 (new_controller rate (some s) (with_metrics rate calls ∷ []))
        ≡ 256
  unfolding new_controller with_metrics record_pending batch_limit
  default_batch s none = refl
  default_batch s (some calls) = refl

  -- With the default rate (a burst of 100) and the default batch sizes (256), a store that holds
  -- more than 100 results is never replayed: when there is no live result, Run returns the
  -- limiter's error, nothing was delivered, and the store holds all the results. The limiter behaves
  -- as documented, and in that round nothing fails and no result arrives.
  pub run_over_burst :
      (burst : Limiter → ℕ) (turn : Turn rate codec monitor_id)
      (turns : List (Turn rate codec monitor_id)) (q : Queue R Store) (s : Store)
      (calls : Option (List ℕ)) (ps : List (Pending R))
      → HasBurst burst
      → IsQuiet rate codec monitor_id turn
      → turn.is_done ≡ false
      → q.items ≡ []
      → q.spill ≡ some s
      → Holds codec s ps
      → 100 < length ps
      → let c = new_controller rate (some s) (with_metrics rate calls ∷ []) in
        let (stopped, t') =
          run rate codec monitor_id
            (turn ∷ turns)
            (new_transmitter rate codec monitor_id q (some c) 0) in
        (stopped ≡ some (Stop.next_failed rate_limited))
        × (t'.delivered ≡ [])
        × Backlog rate codec monitor_id t' ps
  unfolding run new_transmitter with_batch_size
  run_over_burst burst turn turns q s calls ps h quiet running e at held long =
      let c = new_controller rate (some s) (with_metrics rate calls ∷ []) in
      let t = new_transmitter rate codec monitor_id q (some c) 0 in
      let hundred = ap burst (default_limiter s calls) ∙ h.made fifty 100 in
      let (stops, nothing, backlog) =
        round_over_burst burst turn t c s ps h quiet running e refl at held
          (omega (arith, hundred, ap room_of (default_batch s calls)))
          (omega (arith, hundred, long)) in
      rw stops (refl, nothing, backlog)
