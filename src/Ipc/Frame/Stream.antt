-- ===== src/Ipc/Frame/Stream.antt =====
-- Frames on a stream: the reader finds the messages that the writer put there.
use avix.Base.{
  append_assoc, ℕ, zero, suc, ◌/◌, ◌%◌, ◌^◌, ◌≤◌, ◌≡◌, refl, List, [], ◌∷◌, ◌++◌, length, arith,
  inl, inr,
}
use avix.Errors.{AvixError, Result, ok, ◌>>=◌, bind_eq_ok, Result-cases}
use avix.Ipc.Frame.{
  max_frame_bytes, Serde, to_le_bytes, from_le_bytes, encode, decode, add_byte, read_exact,
  read_body, read_from,
}

from_le_bytes-to_le_bytes :
    (n : ℕ)
    → n ≤ max_frame_bytes
    → let len = n % 2 ^ 32 in
      from_le_bytes (len % 256) (len / 256 % 256) (len / 256 ^ 2 % 256) (len / 256 ^ 3 % 256) ≡ n
from_le_bytes-to_le_bytes n h = omega arith

module _ {T : Type 0} (serde : Serde T) where
  -- serde_json reads back what it has written.
  abbrev pub RoundTrips : Type 0
  RoundTrips =
      (msg : T) (body : List ℕ) → serde.to_vec msg ≡ ok body → serde.from_slice body ≡ ok msg

  read_exact-append : (xs ys : List ℕ) → read_exact serde (length xs) (xs ++ ys) ≡ ok (xs, ys)
  unfolding read_exact add_byte
  read_exact-append [] ys = refl
  read_exact-append (x ∷ xs) ys = ground (arith, read_exact-append xs ys)

  encode_eq_ok :
      (msg : T) (bytes : List ℕ)
      → encode serde msg ≡ ok bytes
      → (body : List ℕ) × (serde.to_vec msg ≡ ok body)
        × (length body ≤ max_frame_bytes)
        × (bytes ≡ to_le_bytes (length body % 2 ^ 32) ++ body)
  unfolding encode
  encode_eq_ok msg bytes h = elim (Result-cases (serde.to_vec msg)) [
    | inl (body, e) ↦ (body, e, ground arith, ground arith)
    | inr (x, e) ↦ absurd (ground arith)
  ]

  read_body-append :
      (msg : T) (body rest : List ℕ)
      → length body ≤ max_frame_bytes
      → serde.from_slice body ≡ ok msg
      → read_body serde (length body) (body ++ rest) ≡ ok (msg, rest)
  unfolding read_body
  read_body-append msg body rest small back = ground (arith, read_exact-append body rest)

  -- A frame comes back from the front of a stream as the message that it was made of, and what follows
  -- it is left on the stream; the frame alone decodes to the message too.
  pub read_from-encode :
      (msg : T) (bytes rest : List ℕ)
      → RoundTrips
      → encode serde msg ≡ ok bytes
      → (read_from serde (bytes ++ rest) ≡ ok (msg, rest)) × (decode serde bytes ≡ ok msg)
  unfolding read_from read_body decode
  read_from-encode msg bytes rest back h =
      let (body, made, small, same) = encode_eq_ok msg bytes h in
      let whole = from_le_bytes-to_le_bytes (length body) small in
      rw same (
        rw whole (read_body-append msg body rest small (back msg body made)),
        rw (back msg body made) refl,
      )

  unfoldable pub encode_all : List T → Result AvixError (List ℕ)
  encode_all [] = ok []
  encode_all (msg ∷ msgs) = do bytes ← encode serde msg; more ← encode_all msgs; ok (bytes ++ more)

  unfoldable pub read_all : ℕ → List ℕ → Result AvixError (List T × List ℕ)
  read_all zero bytes = ok ([], bytes)
  read_all (suc n) bytes = do
    (msg, later) ← read_from serde bytes
    (msgs, rest) ← read_all n later
    ok (msg ∷ msgs, rest)

  -- Where serde_json reads back what it writes, all the messages that are written to a stream one after
  -- the other are read from it in that order, and nothing that follows is touched.
  pub read_all-encode_all :
      (msgs : List T) (bytes rest : List ℕ)
      → RoundTrips
      → encode_all msgs ≡ ok bytes
      → read_all (length msgs) (bytes ++ rest) ≡ ok (msgs, rest)
  unfolding read_all encode_all
  read_all-encode_all [] bytes rest back h = ground arith
  read_all-encode_all (msg ∷ msgs) bytes rest back h =
      let (front, made, later) = bind_eq_ok (encode serde msg) _ h in
      let (more, made_more, whole) = bind_eq_ok (encode_all msgs) _ later in
      let first = (read_from-encode msg front (more ++ rest) back made).0 in
      let others = read_all-encode_all msgs more rest back made_more in
      ground (arith, append_assoc front more rest, first, others, whole)
