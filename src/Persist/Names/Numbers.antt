-- ===== src/Persist/Names/Numbers.antt =====
-- The number of a segment is read back from the name of its file.
use ping_santo.Prelude.{
  ℕ, zero, suc, ◌+◌, ◌-◌, ◌*◌, ◌/◌, ◌%◌, ◌^◌, ◌≤◌, ◌<◌, ltb, ◌≡◌, refl, ap, ◌∙◌, true, lt→ltb,
  le→leb, some, List, [], ◌∷◌, ◌++◌, arith, length, length-append, take-length-append,
  drop-length-append, Bool-cases, not_ltb→le, inl, inr,
}
use ping_santo.Prelude.Decimals.{parse_digits, in_int64, parse_int}
use ping_santo.Persist.Names.{
  segment_prefix, segment_suffix, decimal, zeros, six_digits, segment_name, same_bytes,
  strip_prefix, strip_suffix, segment_number,
}

same_bytes_refl : (xs : List ℕ) → same_bytes xs xs ≡ true
unfolding same_bytes
same_bytes_refl [] = refl
same_bytes_refl (x ∷ xs) = ground (arith, same_bytes_refl xs)

strip_prefix-append : (p xs : List ℕ) → strip_prefix p (p ++ xs) ≡ some xs
unfolding strip_prefix
strip_prefix-append p xs = rw (
  le→leb (length p) (length (p ++ xs)) (omega (arith, length-append p xs)),
  take-length-append p xs,
  same_bytes_refl p,
  drop-length-append p xs,
)

strip_suffix-append : (s xs : List ℕ) → strip_suffix s (xs ++ s) ≡ some xs
unfolding strip_suffix
strip_suffix-append s xs =
    let e : length (xs ++ s) - length s ≡ length xs = omega (arith, length-append xs s) in
    rw (
      le→leb (length s) (length (xs ++ s)) (omega (arith, length-append xs s)),
      e,
      drop-length-append xs s,
      same_bytes_refl s,
      take-length-append xs s,
    )

parse_digits-snoc :
    (acc v d : ℕ) (xs : List ℕ)
    → d < 10
    → parse_digits acc xs ≡ some v
    → parse_digits acc (xs ++ ((48 + d) ∷ [])) ≡ some (v * 10 + d)
unfolding parse_digits
parse_digits-snoc acc v d [] h e = ground arith
parse_digits-snoc acc v d (x ∷ xs) h e =
    ground (arith, parse_digits-snoc (acc * 10 + (x - 48)) v d xs h)

parse_digits-decimal : (fuel n : ℕ) → n ≤ fuel → parse_digits 0 (decimal fuel n) ≡ some n
unfolding decimal
parse_digits-decimal zero n h = unfold parse_digits in ground arith
parse_digits-decimal (suc fuel) n h = elim (Bool-cases (ltb n 10)) [
  | inl small ↦ rw small (unfold parse_digits in ground arith)
  | inr big ↦
      let low = not_ltb→le n 10 big in
      let e : n / 10 * 10 + n % 10 ≡ n = omega arith in
      rw big (
        parse_digits-snoc 0 (n / 10) (n % 10) (decimal fuel (n / 10)) (omega arith)
          (parse_digits-decimal fuel (n / 10) (omega arith))
        ∙ ap some e)
]

parse_digits-zeros : (k : ℕ) (xs : List ℕ) → parse_digits 0 (zeros k ++ xs) ≡ parse_digits 0 xs
unfolding parse_digits
parse_digits-zeros zero xs = refl
parse_digits-zeros (suc k) xs = parse_digits-zeros k xs

length-decimal : (fuel n : ℕ) → 0 < length (decimal fuel n)
unfolding decimal
length-decimal zero n = omega arith
length-decimal (suc fuel) n =
    ground (arith, length-append (decimal fuel (n / 10)) ((48 + n % 10) ∷ []))

-- Digits alone have no sign before them.
parse_int_unsigned :
    (xs : List ℕ) (n : ℕ)
    → 0 < length xs
    → parse_digits 0 xs ≡ some n
    → n < 2 ^ 63
    → parse_int xs ≡ some n
parse_int_unsigned [] n h e small = absurd (omega arith)
parse_int_unsigned (c ∷ cs) n h e small =
    let f : in_int64 (parse_digits 0 (c ∷ cs)) ≡ some n =
      rw e (unfold in_int64 in rw (lt→ltb n (2 ^ 63) small)) in
    unfold parse_int parse_digits in ground (arith, f)

-- The name that the store gives to the file of a segment is read back as the segment's number, which
-- is within an int64.
pub segment_number-segment_name :
    (seq : ℕ) → seq < 2 ^ 63 → segment_number (segment_name seq) ≡ some seq
unfolding segment_number segment_name
segment_number-segment_name seq h =
    let read : parse_int (six_digits seq) ≡ some seq =
      unfold six_digits in
      parse_int_unsigned (zeros (6 - length (decimal seq seq)) ++ decimal seq seq) seq
        (omega (
          arith,
          length-append (zeros (6 - length (decimal seq seq))) (decimal seq seq),
          length-decimal seq seq,
        ))
        (parse_digits-zeros (6 - length (decimal seq seq)) (decimal seq seq)
          ∙ parse_digits-decimal seq seq (omega arith))
        h in
    rw
      (
        strip_prefix-append segment_prefix (six_digits seq ++ segment_suffix),
        strip_suffix-append segment_suffix (six_digits seq),
      )
      read
