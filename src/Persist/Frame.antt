-- ===== src/Persist/Frame.antt =====
-- The record format of a segment file: a four byte big-endian length, then the JSON payload.
-- Bytes are numbers below 256; `encoding/json` is a parameter.
use ping_santo.Prelude.{
  ℕ, ◌+◌, ◌*◌, ◌/◌, ◌%◌, ◌^◌, ◌<◌, ◌≡◌, refl, Option, some, List, [], ◌∷◌, ◌++◌, arith, length,
  length-append,
}

-- `json.Marshal` and `json.Unmarshal` at the result type `R` (types.ProbeResult).
pub record Codec (R : Type 0) : Type 0 where
  pub marshal : R → Option (List ℕ)
  pub unmarshal : List ℕ → Option R

-- What the store relies on: a marshalled result is read back as it was.
pub record IsFaithful {R : Type 0} (c : Codec R) : Type 0 where
  pub roundtrip : (r : R) (d : List ℕ) → c.marshal r ≡ some d → c.unmarshal d ≡ some r

-- `binary.BigEndian.PutUint32`
unfoldable pub put_uint32 : ℕ → List ℕ
put_uint32 n = (n / 2 ^ 24 % 256) ∷ (n / 2 ^ 16 % 256) ∷ (n / 2 ^ 8 % 256) ∷ (n % 256) ∷ []

-- `binary.BigEndian.Uint32` of a buffer of four bytes
unfoldable pub get_uint32 : List ℕ → ℕ
get_uint32 (a ∷ b ∷ c ∷ d ∷ []) = a * 2 ^ 24 + b * 2 ^ 16 + c * 2 ^ 8 + d
get_uint32 _ = 0

pub get_uint32-put_uint32 : (n : ℕ) → n < 2 ^ 32 → get_uint32 (put_uint32 n) ≡ n
unfolding put_uint32 get_uint32
get_uint32-put_uint32 n h = omega arith

pub length-put_uint32 : (n : ℕ) → length (put_uint32 n) ≡ 4
unfolding put_uint32
length-put_uint32 n = refl

-- `record` in `Append`
unfoldable pub frame : List ℕ → List ℕ
frame payload = put_uint32 (length payload % 2 ^ 32) ++ payload

pub length-frame : (payload : List ℕ) → length (frame payload) ≡ 4 + length payload
unfolding frame
length-frame payload = omega (
  arith,
  length-append (put_uint32 (length payload % 2 ^ 32)) payload,
  length-put_uint32 (length payload % 2 ^ 32),
)
