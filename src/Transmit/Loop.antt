-- ===== src/Transmit/Loop.antt =====
-- What Run does with the spilled results while no live result comes.
use Prim.Native.String.{String}
use ping_santo.Prelude.{
  if◌then◌else◌, ℕ, ◌-◌, ◌<◌, ◌≤◌, ◌≡◌, ◌⊎◌, refl, sym, ap, ◌∙◌, arith, inl, inr, Bool, true, false,
  none, some, List, [], ◌∷◌, ◌++◌, append-nil, append_assoc, map-append, map, length, take, drop,
  drop-nil, length-take, length-drop, length-map, take-append-drop, List-cases, All,
}
use mathlib.Core.Path.{subst}
use ping_santo.Persist.Frame.{Codec}
use ping_santo.Persist.Reader.{room_of}
use ping_santo.Persist.View.{Pending, result_of}
use ping_santo.Queue.{drain}
use ping_santo.Queue.Drains.{drain_splits}
use ping_santo.Backfill.{RateLimit, Controller, batch_limit}
use ping_santo.Transmit.{
  Transmitter, Turn, Stop, enqueue_all, asleep, send_live, flush_queue, flush_backfill, round, run,
}
use ping_santo.Transmit.Spilled.{IsQuiet, Backlog, Moves, Ends, flush_backfill-Ends}

module _ (rate : RateLimit) {R : Type 0} (codec : Codec R) (monitor_id : R → String) where
  open rate use {wait_n, Limiter}

  -- The sink takes what it gets, and a limiter of the kind `Admits` lets a batch of up to `b` results
  -- pass, and stays of that kind.
  pub record IsGood (Admits : Limiter → Type 0) (b : ℕ) (turn : Turn rate codec monitor_id)
      : Type 0 where
    pub running : turn.is_done ≡ false
    pub sends : turn.send_fails ≡ false
    pub quiet : IsQuiet rate codec monitor_id turn
    pub patient :
        (l : Limiter) (n : ℕ)
        → Admits l
        → n ≤ b
        → ((wait_n turn.moment l n).0 ≡ false) × Admits (wait_n turn.moment l n).1

  -- The transmitter behind a `Drain` of an empty queue.
  abbrev pub drained : Transmitter rate codec monitor_id → Transmitter rate codec monitor_id
  drained t = record t { queue = (drain t.batch_size t.queue).1 }

  asleep-quiet :
      (turn : Turn rate codec monitor_id) (x : (Stop ⊎ Bool) × Transmitter rate codec monitor_id)
      → turn.sleeping ≡ []
      → asleep rate codec monitor_id turn x ≡ x
  unfolding asleep enqueue_all
  asleep-quiet turn (inl stop, t) e = refl
  asleep-quiet turn (inr flushed, t) e = rw e refl

  pub round_empty :
      (turn : Turn rate codec monitor_id) (t : Transmitter rate codec monitor_id)
      → t.queue.items ≡ []
      → turn.is_done ≡ false
      → turn.sleeping ≡ []
      → round rate codec monitor_id turn t ≡ flush_backfill rate codec monitor_id turn (drained t)
  unfolding round flush_queue send_live
  round_empty turn t e running alone =
      let (split, count, _, _, _) = drain_splits t.batch_size t.queue in
      let none_drained : (drain t.batch_size t.queue).0 ≡ [] =
        elim (List-cases (drain t.batch_size t.queue).0) [
          | inl empty ↦ empty
          | inr (y, ys, f) ↦ absurd (cc)
        ] in
      let sends = λ (l : List R). send_live rate codec monitor_id turn l (drained t) in
      let flushes : List R → (Stop ⊎ Bool) × Transmitter rate codec monitor_id = λ l.
        if (sends l).0
        then (inr true, (sends l).1)
        else flush_backfill rate codec monitor_id turn (sends l).1 in
      ap
        (λ b.
          if b
          then (inl Stop.cancelled, t)
          else asleep rate codec monitor_id turn (flushes (drain t.batch_size t.queue).0))
        running
      ∙ ap (λ l. asleep rate codec monitor_id turn (flushes l)) none_drained
      ∙ asleep-quiet turn (flush_backfill rate codec monitor_id turn (drained t)) alone

  -- What the loop keeps while no live result comes: the store holds `ps`, and at most `b` results
  -- go into a batch.
  pub record IsReplaying (Admits : Limiter → Type 0) (b : ℕ) (t : Transmitter rate codec monitor_id)
      (ps : List (Pending R)) : Type 0 where
    pub idle : t.queue.items ≡ []
    pub backlog : Backlog rate codec monitor_id t ps
    pub controller :
        (c : Controller rate) × (t.backfill ≡ some c)
        × (room_of (batch_limit rate codec t.batch_size c) ≤ b)
        × Admits c.limiter

  drained_items :
      (t : Transmitter rate codec monitor_id) → t.queue.items ≡ [] → (drained t).queue.items ≡ []
  unfolding drain
  drained_items t e = ap (drop _) e ∙ drop-nil _

  batch_limit-same :
      (n k : ℕ) (c d : Controller rate)
      → n ≡ k
      → c.max_batch ≡ d.max_batch
      → batch_limit rate codec n c ≡ batch_limit rate codec k d
  unfolding batch_limit
  batch_limit-same n k c d e f = cc

  Moves-IsReplaying :
      (Admits : Limiter → Type 0) (b : ℕ) (c : Controller rate) (l : Limiter)
      (t t' : Transmitter rate codec monitor_id) (sent left : List (Pending R))
      → t.queue.items ≡ []
      → room_of (batch_limit rate codec t.batch_size c) ≤ b
      → Moves rate codec monitor_id c.max_batch l (drained t) t' sent left
      → Admits l
      → IsReplaying Admits b t' left
  Moves-IsReplaying Admits b c l t t' sent left e le m admits =
      let (d, at, same, lim) = m.controller in
      record {
        idle = m.items ∙ drained_items t e;
        backlog = m.backlog;
        controller = (
          d,
          at,
          subst (λ n. room_of n ≤ b)
              (sym (batch_limit-same t'.batch_size t.batch_size d c m.batch_size same)) le,
          subst Admits (sym lim) admits,
        );
      }

  room_of-pos : (n : ℕ) → 0 < room_of n
  room_of-pos n = ground arith

  -- What a good round does: it delivers the oldest `k` results, and goes on.
  record Delivers (Admits : Limiter → Type 0) (b : ℕ) (r : Stop ⊎ Bool)
      (t t' : Transmitter rate codec monitor_id) (k : ℕ) (ps : List (Pending R)) : Type 0 where
    flushed : Bool
    goes_on : r ≡ inr flushed
    fewer : length (drop k ps) ≤ length ps - 1
    replaying : IsReplaying Admits b t' (drop k ps)
    delivered : t'.delivered ≡ t.delivered ++ map result_of (take k ps)

  passes :
      (Admits : Limiter → Type 0) (b : ℕ) (turn : Turn rate codec monitor_id) (c : Controller rate)
      (k : ℕ) (ps : List (Pending R))
      → IsGood Admits b turn
      → k ≤ b
      → Admits c.limiter
      → let wait = wait_n turn.moment c.limiter (length (map result_of (take k ps))) in
        (wait.0 ≡ false) × Admits wait.1
  passes Admits b turn c k ps g le admits =
      g.patient c.limiter (length (map result_of (take k ps))) admits
        (omega (arith, length-map result_of (take k ps), length-take k ps, le))

  Ends-Delivers :
      (Admits : Limiter → Type 0) (b : ℕ) (turn : Turn rate codec monitor_id) (c : Controller rate)
      (r : Stop ⊎ Bool) (t t' : Transmitter rate codec monitor_id) (k : ℕ) (ps : List (Pending R))
      → IsGood Admits b turn
      → t.queue.items ≡ []
      → room_of (batch_limit rate codec t.batch_size c) ≡ k
      → k ≤ b
      → Admits c.limiter
      → Ends rate codec monitor_id turn c.limiter c.max_batch r
          (drained t)
          t'
          (take k ps)
          (drop k ps)
      → Delivers Admits b r t t' k ps
  Ends-Delivers Admits b turn c r t t' k ps g e room le admits (Ends.sent on _ _ m) = record {
    flushed = true;
    goes_on = on;
    fewer =
        omega (arith, length-drop k ps, room, room_of-pos (batch_limit rate codec t.batch_size c));
    replaying =
        Moves-IsReplaying Admits b c _ t t' (take k ps) (drop k ps) e (omega (arith, room, le)) m
          (passes Admits b turn c k ps g le admits).1;
    delivered = m.delivered;
  }
  Ends-Delivers Admits b turn c r t t' k ps g e room le admits (Ends.not_sent _ fails _ _) =
      absurd (cc)
  Ends-Delivers Admits b turn c r t t' k ps g e room le admits (Ends.refused _ limited _) =
      let free = (passes Admits b turn c k ps g le admits).0 in absurd (cc)
  Ends-Delivers Admits b turn c r t t' k ps g e room le admits (Ends.idle on nothing m) = record {
    flushed = false;
    goes_on = on;
    fewer =
        omega (arith, length-drop k ps, room, room_of-pos (batch_limit rate codec t.batch_size c));
    replaying =
        Moves-IsReplaying Admits b c c.limiter t t' [] (drop k ps) e (omega (arith, room, le))
          (subst
            (λ l.
              Moves rate codec monitor_id c.max_batch c.limiter (drained t) t' [] (l ++ drop k ps))
            nothing m)
          admits;
    delivered = m.delivered ∙ ap (λ l. t.delivered ++ map result_of l) (sym nothing);
  }

  round-Delivers :
      (Admits : Limiter → Type 0) (b : ℕ) (turn : Turn rate codec monitor_id)
      (t : Transmitter rate codec monitor_id) (ps : List (Pending R))
      → IsGood Admits b turn
      → IsReplaying Admits b t ps
      → (k : ℕ) × Delivers Admits b
          (round rate codec monitor_id turn t).0
          t
          (round rate codec monitor_id turn t).1
          k
          ps
  round-Delivers Admits b turn t ps g v =
      let (s, at, h) = v.backlog in
      let (c, c_at, le, admits) = v.controller in
      let (_, _, spill, _, _) = drain_splits t.batch_size t.queue in
      let k = room_of (batch_limit rate codec t.batch_size c) in
      let ends =
        flush_backfill-Ends rate codec monitor_id turn c ps s (drained t) g.quiet c_at (spill ∙ at)
          h in
      (
        k,
        subst (λ x. Delivers Admits b x.0 t x.1 k ps)
            (sym (round_empty turn t v.idle g.running g.quiet.none_sleeping))
            (Ends-Delivers Admits b turn c _ t _ k ps g v.idle refl le admits ends),
      )

  -- While no live result comes, good rounds deliver the backlog: all of it, in order and once, if
  -- there are as many rounds as results. In a good round the sink takes what it gets and the limiter
  -- lets the batch pass. Run has not returned by then, and the store is empty.
  pub run_delivers :
      (Admits : Limiter → Type 0) (b : ℕ) (turns : List (Turn rate codec monitor_id))
      (t : Transmitter rate codec monitor_id) (ps : List (Pending R))
      → All (IsGood Admits b) turns
      → IsReplaying Admits b t ps
      → length ps ≤ length turns
      → let (stopped, t') = run rate codec monitor_id turns t in
        (stopped ≡ none)
        × (t'.delivered ≡ t.delivered ++ map result_of ps)
        × IsReplaying Admits b t' []
  unfolding run
  run_delivers Admits b [] t [] good v le = (refl, sym (append-nil t.delivered), v)
  run_delivers Admits b [] t (p ∷ ps) good v le = absurd (omega (arith, le))
  run_delivers Admits b (turn ∷ turns) t ps (g, good) v le =
      let (k, d) = round-Delivers Admits b turn t ps g v in
      let t' = (round rate codec monitor_id turn t).1 in
      let (stopped, delivered, done) =
        run_delivers Admits b turns t' (drop k ps) good d.replaying (omega (arith, d.fewer, le)) in
      rw (d.goes_on) (
        stopped,
        delivered
            ∙ ap (λ l. l ++ map result_of (drop k ps)) d.delivered
            ∙ append_assoc t.delivered (map result_of (take k ps)) (map result_of (drop k ps))
            ∙ ap (λ l. t.delivered ++ l)
                (sym (map-append result_of (take k ps) (drop k ps))
                  ∙ ap (map result_of) (take-append-drop k ps)),
        done,
      )
