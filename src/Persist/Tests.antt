-- ===== src/Persist/Tests.antt =====
-- The spill store at concrete inputs.
use ping_santo.Prelude.{
  ℕ, zero, suc, ◌+◌, ◌≤◌, ◌<◌, ◌≡◌, ◌≢◌, ◌⊎◌, ap, sym, append-nil, All, length, inr, refl, Option,
  none, some, List, [], ◌∷◌, arith, drop,
}
use ping_santo.Persist.Frame.{Codec, IsFaithful, frame, get_uint32, put_uint32}
use ping_santo.Persist.State.{Store, ok, no_faults}
use ping_santo.Persist.Writer.{append}
use ping_santo.Persist.Reader.{read_batch, read_from, read_segments, read_frames, read_full}
use ping_santo.Persist.Segments.{from_seq, sum_sizes, last_seq}
use ping_santo.Persist.Acker.{ack}
use ping_santo.Persist.View.{Pending, Holds, InSegment, encode}
use ping_santo.Persist.View.Stale.{stale_ack_deletes}
use ping_santo.Persist.View.Reads.{batch_of, read_batch-Holds}
use ping_santo.Persist.View.Acks.{ack-Holds}
use ping_santo.Persist.View.Appends.{append-Holds}

-- Results are single bytes, each its own payload.
abbrev decode_byte : List ℕ → Option ℕ
decode_byte (n ∷ []) = some n
decode_byte _ = none

abbrev pub byte_codec : Codec ℕ
byte_codec = record { marshal = λ n. some (n ∷ []); unmarshal = decode_byte }

pub byte_codec-IsFaithful : IsFaithful byte_codec
byte_codec-IsFaithful = record { roundtrip = λ r d e. ground arith }

-- One result in each of two segments, the first of them read in part.
abbrev pub pending : ℕ → ℕ → Pending ℕ
pending q n = record { seq = q; payload = n ∷ []; result = n }

abbrev pub stored : Store
stored = record {
  max_bytes = 15;
  segment_size = 10;
  segments =
      record { seq = 1; size = 10; bytes = 0 ∷ 0 ∷ 0 ∷ 1 ∷ 40 ∷ 0 ∷ 0 ∷ 0 ∷ 1 ∷ 41 ∷ [] }
      ∷ record { seq = 2; size = 5; bytes = 0 ∷ 0 ∷ 0 ∷ 1 ∷ 42 ∷ [] }
      ∷ [];
  write_seg = some 2;
  head_state = record { seq = 1; offset = 5 };
  total_size = 15;
  state_file = none;
}

pub stored-Holds : Holds byte_codec stored (pending 1 41 ∷ pending 2 42 ∷ [])
unfolding frame put_uint32 sum_sizes last_seq
stored-Holds = record {
  ascending = omega arith;
  total = refl;
  writer = refl;
  at_head = inr (
    pending 1 40 ∷ [],
    pending 1 41,
    [],
    pending 2 42 ∷ [],
    refl,
    (((refl, refl, omega arith), ((refl, refl, omega arith), tt)), refl, refl),
    refl,
    inr refl,
    (pending 2 42, [], [], refl, (((refl, refl, omega arith), tt), refl, refl), refl),
  );
}

-- Both results are read, across the segment boundary.
read_stored :
    (read_batch byte_codec no_faults 0 stored).0 ≡ ok (batch_of (pending 1 41 ∷ pending 2 42 ∷ []))
unfolding read_batch read_from read_segments read_frames read_full from_seq get_uint32
read_stored = refl

read_batch-Holds_example :
    read_batch byte_codec no_faults 1 stored ≡ (ok (batch_of (pending 1 41 ∷ [])), stored)
read_batch-Holds_example =
    read_batch-Holds byte_codec 1 stored (pending 1 41 ∷ pending 2 42 ∷ []) stored-Holds

-- The first segment's last result is acknowledged: the segment goes.
ack-Holds_example :
    let (r, t) = ack no_faults (batch_of (pending 1 41 ∷ [])) stored in
    (r ≡ ok tt)
    × Holds byte_codec t (pending 2 42 ∷ [])
    × ((pending 1 41 ∷ [] ≡ []) ⊎ (t.state_file ≡ some t.head_state))
ack-Holds_example = ack-Holds byte_codec (pending 1 41 ∷ []) (pending 2 42 ∷ []) stored stored-Holds

-- A third record exceeds the cap: the oldest segment is dropped.
append-Holds_example :
    let (result, t) = append byte_codec no_faults 43 stored in
    (p : Pending ℕ) × (k : ℕ) × (p.result ≡ 43)
    × (result ≡ ok tt)
    × Holds byte_codec t (drop k (pending 1 41 ∷ pending 2 42 ∷ p ∷ []))
    × (t.total_size ≤ t.max_bytes)
    × ((15 < 15 + (4 + 1)) ⊎ (k ≡ 0))
    × (t.state_file ≡ some t.head_state)
append-Holds_example =
    append-Holds byte_codec 43 (43 ∷ []) stored (pending 1 41 ∷ pending 2 42 ∷ [])
      byte_codec-IsFaithful refl (omega arith) (omega arith) stored-Holds

-- A batch of segment 7 is acknowledged after that segment was evicted: segment 1 goes, unread.
abbrev evicted : Store
evicted = record {
  max_bytes = 15;
  segment_size = 10;
  segments =
      record { seq = 1; size = 5; bytes = 0 ∷ 0 ∷ 0 ∷ 1 ∷ 41 ∷ [] }
      ∷ record { seq = 2; size = 5; bytes = 0 ∷ 0 ∷ 0 ∷ 1 ∷ 42 ∷ [] }
      ∷ [];
  write_seg = some 2;
  head_state = record { seq = 1; offset = 0 };
  total_size = 10;
  state_file = none;
}

evicted-Holds : Holds byte_codec evicted (pending 1 41 ∷ pending 2 42 ∷ [])
unfolding frame put_uint32 sum_sizes last_seq
evicted-Holds = record {
  ascending = omega arith;
  total = refl;
  writer = refl;
  at_head = inr (
    [],
    pending 1 41,
    [],
    pending 2 42 ∷ [],
    refl,
    (((refl, refl, omega arith), tt), refl, refl),
    refl,
    inr refl,
    (pending 2 42, [], [], refl, (((refl, refl, omega arith), tt), refl, refl), refl),
  );
}

stale_ack_deletes_example :
    let (r, t) =
      ack {R = ℕ} no_faults
        (record { results = []; entries = record { seq = 7; bytes = 5 } ∷ [] })
        evicted in
    ((pending 1 41).seq ≡ 1)
    × ((pending 1 41).seq ≢ 7)
    × (r ≡ ok tt)
    × (t.segments ≡ record { seq = 2; size = 5; bytes = 0 ∷ 0 ∷ 0 ∷ 1 ∷ 42 ∷ [] } ∷ [])
stale_ack_deletes_example =
    stale_ack_deletes byte_codec (record { seq = 1; size = 5; bytes = 0 ∷ 0 ∷ 0 ∷ 1 ∷ 41 ∷ [] })
      (record { seq = 2; size = 5; bytes = 0 ∷ 0 ∷ 0 ∷ 1 ∷ 42 ∷ [] } ∷ [])
      (record { seq = 7; bytes = 5 }) evicted (pending 1 41) (pending 2 42 ∷ []) evicted-Holds refl
      (λ e. cc) (λ e. cc) (omega arith)

-- A store with one segment of any number of results.
abbrev pub copies : ℕ → List (Pending ℕ)
copies zero = []
copies (suc n) = pending 1 7 ∷ copies n

abbrev pub many : ℕ → Store
many n = record {
  max_bytes = 1000000;
  segment_size = 1000000;
  segments = record { seq = 1; size = length (encode (copies n)); bytes = encode (copies n) } ∷ [];
  write_seg = some 1;
  head_state = record { seq = 1; offset = 0 };
  total_size = length (encode (copies n));
  state_file = none;
}

copies-InSegment : (n : ℕ) → All (InSegment byte_codec 1) (copies n)
copies-InSegment zero = tt
copies-InSegment (suc n) = ((refl, refl, omega arith), copies-InSegment n)

pub many-Holds : (n : ℕ) → Holds byte_codec (many (suc n)) (copies (suc n))
unfolding sum_sizes last_seq
many-Holds n = record {
  ascending = omega arith;
  total = omega arith;
  writer = refl;
  at_head = inr (
    [],
    pending 1 7,
    copies n,
    [],
    ap (◌∷◌ (pending 1 7)) (sym (append-nil (copies n))),
    (copies-InSegment (suc n), refl, refl),
    refl,
    inr refl,
    refl,
  );
}
