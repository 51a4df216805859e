-- ===== src/Ipc/Tests.antt =====
-- Tests and witnesses of the frames.
use avix.Base.{ℕ, ◌≡◌, refl, String, List, [], ◌∷◌, ◌++◌, arith}
use avix.Errors.{Result, ok, err}
use avix.Ipc.Frame.{Serde, encode}
use avix.Ipc.Frame.Stream.{RoundTrips, encode_all, read_all, read_all-encode_all}

-- A message is a byte here.
abbrev one_byte : List ℕ → Result String ℕ
one_byte (b ∷ []) = ok b
one_byte _ = err "not one byte"

abbrev serde : Serde ℕ
serde = record { to_vec = λ n. ok (n ∷ []); from_slice = one_byte; eof = "early eof" }

serde-RoundTrips : RoundTrips serde
serde-RoundTrips msg body h = ground arith

abbrev wire : List ℕ
wire = 1 ∷ 0 ∷ 0 ∷ 0 ∷ 65 ∷ 1 ∷ 0 ∷ 0 ∷ 0 ∷ 66 ∷ []

encoded : encode_all serde (65 ∷ 66 ∷ []) ≡ ok wire
unfolding encode_all encode
encoded = refl

read_all-encode_all_example : read_all serde 2 (wire ++ 9 ∷ []) ≡ ok (65 ∷ 66 ∷ [], 9 ∷ [])
read_all-encode_all_example =
    read_all-encode_all serde (65 ∷ 66 ∷ []) wire (9 ∷ []) serde-RoundTrips encoded
