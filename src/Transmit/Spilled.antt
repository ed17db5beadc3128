-- ===== src/Transmit/Spilled.antt =====
-- What flushBackfill does with the results of the spill store.
use Prim.Native.String.{String}
use ping_santo.Prelude.{
  ℕ, ◌≡◌, ◌⊎◌, refl, sym, ap, ◌∙◌, inl, inr, Bool, true, false, Option, some, List, [], ◌∷◌, ◌++◌,
  append-nil, map, length, take, drop, take-append-drop, Bool-cases,
}
use mathlib.Core.Path.{subst}
use ping_santo.Persist.Frame.{Codec}
use ping_santo.Persist.State.{Store, no_faults}
use ping_santo.Persist.Reader.{room_of}
use ping_santo.Persist.Acker.{ack}
use ping_santo.Persist.View.{Pending, Holds, result_of}
use ping_santo.Persist.View.Reads.{batch_of}
use ping_santo.Persist.View.Acks.{ack-Holds}
use ping_santo.Backfill.{
  RateLimit, Controller, ReplayBatch, NextError, batch_limit, admit, answer, ack_replay, ack_done,
  record_pending, next, rate_limited,
}
use ping_santo.Backfill.Replays.{next-Holds}
use ping_santo.Transmit.{
  Transmitter, Turn, Stop, enqueue_all, settle, send_replay, replay_or_stop, flush_with,
  flush_backfill,
}

module _ (rate : RateLimit) {R : Type 0} (codec : Codec R) (monitor_id : R → String) where
  open rate use {wait_n, Limiter}

  -- Nothing but the sink and the limiter acts during the round.
  pub record IsQuiet (turn : Turn rate codec monitor_id) : Type 0 where
    pub no_arrivals : turn.arrivals ≡ []
    pub none_sleeping : turn.sleeping ≡ []
    pub no_faults : turn.io ≡ no_faults

  -- The store of the transmitter holds the results `ps`.
  abbrev pub Backlog : Transmitter rate codec monitor_id → List (Pending R) → Type 0
  Backlog t ps = (s : Store) × (t.queue.spill ≡ some s) × Holds codec s ps

  -- From `t` to `t'` the results `sent` were delivered out of the store, and `left` are still in it.
  -- The live queue, the batch size and the controller's maximum `m` stay; its limiter is `l`.
  pub record Moves (m : ℕ) (l : Limiter) (t t' : Transmitter rate codec monitor_id)
      (sent left : List (Pending R)) : Type 0 where
    pub backlog : Backlog t' left
    pub delivered : t'.delivered ≡ t.delivered ++ map result_of sent
    pub items : t'.queue.items ≡ t.queue.items
    pub controller :
        (c : Controller rate) × (t'.backfill ≡ some c) × (c.max_batch ≡ m) × (c.limiter ≡ l)
    pub batch_size : t'.batch_size ≡ t.batch_size

  abbrev at_store :
      Store
      → Controller rate
      → Transmitter rate codec monitor_id
      → Transmitter rate codec monitor_id
  at_store s c t = record t { queue = record t.queue { spill = some s }; backfill = some c }

  settle-Moves :
      (turn : Turn rate codec monitor_id) (ws rest : List (Pending R)) (s : Store)
      (c : Controller rate) (t : Transmitter rate codec monitor_id)
      → IsQuiet turn
      → Holds codec s (ws ++ rest)
      → let (r, t') =
          settle rate codec monitor_id turn
            (some s)
            (record { results = map result_of ws; ack = some (batch_of ws) })
            c
            (record t { delivered = t.delivered ++ map result_of ws }) in
        (r ≡ inr true) × Moves c.max_batch c.limiter t t' ws rest
  unfolding settle ack_replay ack_done record_pending
  settle-Moves turn ws rest s c t q v =
      let (done, holds, _) = ack-Holds codec ws rest s v in
      rw (q.no_faults, done)
        (
          refl,
          record {
            backlog = ((ack no_faults (batch_of ws) s).1, refl, holds);
            delivered = refl;
            items = refl;
            controller = (_, refl, refl, refl);
            batch_size = refl;
          },
        )

  -- The results `ws` are offered: all of them are delivered, or the store keeps them.
  offer-Moves :
      (turn : Turn rate codec monitor_id) (w : Pending R) (ws rest : List (Pending R)) (s : Store)
      (c : Controller rate) (t : Transmitter rate codec monitor_id)
      → IsQuiet turn
      → Holds codec s ((w ∷ ws) ++ rest)
      → let (r, t') =
          send_replay rate codec monitor_id turn
            (map result_of (w ∷ ws))
            (record { results = map result_of (w ∷ ws); ack = some (batch_of (w ∷ ws)) })
            c
            (at_store s c t) in
        (r ≡ inr true)
        × (((turn.send_fails ≡ false) × Moves c.max_batch c.limiter t t' (w ∷ ws) rest)
            ⊎ ((turn.send_fails ≡ true) × Moves c.max_batch c.limiter t t' [] ((w ∷ ws) ++ rest)))
  unfolding send_replay enqueue_all settle
  offer-Moves turn w ws rest s c t q v = elim (Bool-cases turn.send_fails) [
    | inl fails ↦
        rw (fails, q.no_arrivals)
          (
            refl,
            inr (
              refl,
              record {
                backlog = (s, refl, v);
                delivered = sym (append-nil t.delivered);
                items = refl;
                controller = (_, refl, refl, refl);
                batch_size = refl;
              },
            ),
          )
    | inr works ↦
        let (done, moves) = settle-Moves turn (w ∷ ws) rest s c (at_store s c t) q v in
        rw (works, q.no_arrivals)
          (
            done,
            inl (
              refl,
              record {
                backlog = moves.backlog;
                delivered = moves.delivered;
                items = moves.items;
                controller = moves.controller;
                batch_size = moves.batch_size;
              },
            ),
          )
  ]

  -- How a round of the backfill ends that finds the results `ws` to send, ahead of `rest`.
  pub data Ends (turn : Turn rate codec monitor_id) (l : Limiter) (m : ℕ) (r : Stop ⊎ Bool)
      (t t' : Transmitter rate codec monitor_id) (ws rest : List (Pending R)) : Type 0 where
    sent :
        r ≡ inr true
        → turn.send_fails ≡ false
        → (wait_n turn.moment l (length (map result_of ws))).0 ≡ false
        → Moves m (wait_n turn.moment l (length (map result_of ws))).1 t t' ws rest
        → Ends turn l m r t t' ws rest
    not_sent :
        r ≡ inr true
        → turn.send_fails ≡ true
        → (wait_n turn.moment l (length (map result_of ws))).0 ≡ false
        → Moves m (wait_n turn.moment l (length (map result_of ws))).1 t t' [] (ws ++ rest)
        → Ends turn l m r t t' ws rest
    refused :
        r ≡ inl (Stop.next_failed rate_limited)
        → (wait_n turn.moment l (length (map result_of ws))).0 ≡ true
        → Moves m (wait_n turn.moment l (length (map result_of ws))).1 t t' [] (ws ++ rest)
        → Ends turn l m r t t' ws rest
    idle : r ≡ inr false → ws ≡ [] → Moves m l t t' [] (ws ++ rest) → Ends turn l m r t t' ws rest

  admit-Ends :
      (turn : Turn rate codec monitor_id) (ws rest : List (Pending R)) (s : Store)
      (c : Controller rate) (t : Transmitter rate codec monitor_id)
      → IsQuiet turn
      → Holds codec s (ws ++ rest)
      → let (a, c') = admit rate codec turn.moment (batch_of ws) c in
        let (r, t') =
          replay_or_stop rate codec monitor_id turn (answer rate codec a) c' (at_store s c' t) in
        Ends turn c.limiter c.max_batch r t t' ws rest
  unfolding admit replay_or_stop send_replay
  admit-Ends turn [] rest s c t q v = idle refl refl (record {
    backlog = (s, refl, v);
    delivered = sym (append-nil t.delivered);
    items = refl;
    controller = (c, refl, refl, refl);
    batch_size = refl;
  })
  admit-Ends turn (w ∷ ws) rest s c t q v =
      let wait = wait_n turn.moment c.limiter (length (map result_of (w ∷ ws))) in
      let c' = record c { limiter = wait.1 } in
      elim (Bool-cases wait.0) [
        | inl limited ↦ rw limited (
            refused refl limited (record {
              backlog = (s, refl, v);
              delivered = sym (append-nil t.delivered);
              items = refl;
              controller = (c', refl, refl, refl);
              batch_size = refl;
            }))
        | inr free ↦ rw free (
            let (done, moves) = offer-Moves turn w ws rest s c' t q v in
            elim moves [
              | inl (works, m) ↦ sent done works free m
              | inr (fails, m) ↦ not_sent done fails free m
            ])
      ]

  -- `flushBackfill` with the answer of `Next`
  abbrev resume :
      Turn rate codec monitor_id
      → Transmitter rate codec monitor_id
      → (NextError ⊎ ReplayBatch R) × (Option Store × Controller rate)
      → (Stop ⊎ Bool) × Transmitter rate codec monitor_id
  resume turn t (a, (store, c)) =
      replay_or_stop rate codec monitor_id turn a c
        (record t { queue = record t.queue { spill = store }; backfill = some c })

  flush_with-Ends :
      (turn : Turn rate codec monitor_id) (c : Controller rate) (ps : List (Pending R)) (s : Store)
      (t : Transmitter rate codec monitor_id)
      → IsQuiet turn
      → t.queue.spill ≡ some s
      → Holds codec s ps
      → let (r, t') = flush_with rate codec monitor_id turn (some c) t in
        let k = room_of (batch_limit rate codec t.batch_size c) in
        Ends turn c.limiter c.max_batch r t t' (take k ps) (drop k ps)
  unfolding flush_with record_pending
  flush_with-Ends turn c ps s t q at v =
      let k = room_of (batch_limit rate codec t.batch_size c) in
      let eq =
        ap (λ io. next rate codec io turn.moment t.batch_size t.queue.spill c) q.no_faults
        ∙ ap (λ o. next rate codec no_faults turn.moment t.batch_size o c) at
        ∙ next-Holds rate codec turn.moment t.batch_size s ps c v in
      let held = subst (Holds codec s) (sym (take-append-drop k ps)) v in
      let ends =
        admit-Ends turn (take k ps) (drop k ps) s (record_pending rate (some s) c) t q held in
      subst
        (λ x.
          Ends turn c.limiter c.max_batch (resume turn t x).0 t (resume turn t x).1 (take k ps)
            (drop k ps))
        (sym eq) ends

  -- Over a store that holds the results `ps`, with no faults and no arrivals, flushBackfill ends in
  -- one of four ways. The next batch, which is the oldest results, was sent, is delivered in order
  -- and leaves the store; or the sink failed, or the limiter refused and the error is returned, or
  -- there was nothing to send, and the store keeps every result and nothing is delivered.
  pub flush_backfill-Ends :
      (turn : Turn rate codec monitor_id) (c : Controller rate) (ps : List (Pending R)) (s : Store)
      (t : Transmitter rate codec monitor_id)
      → IsQuiet turn
      → t.backfill ≡ some c
      → t.queue.spill ≡ some s
      → Holds codec s ps
      → let (r, t') = flush_backfill rate codec monitor_id turn t in
        let k = room_of (batch_limit rate codec t.batch_size c) in
        Ends turn c.limiter c.max_batch r t t' (take k ps) (drop k ps)
  unfolding flush_backfill
  flush_backfill-Ends turn c ps s t q b at v =
      let k = room_of (batch_limit rate codec t.batch_size c) in
      subst
        (λ o.
          Ends turn c.limiter c.max_batch (flush_with rate codec monitor_id turn o t).0 t
            (flush_with rate codec monitor_id turn o t).1 (take k ps) (drop k ps))
        (sym b) (flush_with-Ends turn c ps s t q at v)
