-- ===== src/Ipc/Frame.antt =====
-- crates/avix-core/src/ipc/frame.rs. Bytes are numbers. serde_json is the record `Serde`; `eof` is the
-- text of the error of `read_exact` at the end of the stream, and the rest of a stream is given back.
pub mod Stream
use avix.Base.{
  ℕ, zero, suc, ◌+◌, ◌*◌, ◌/◌, ◌%◌, ◌^◌, String, Bool, if◌then◌else◌, ltb, List, [], ◌∷◌, ◌++◌,
  length, Option, none, some,
}
use avix.Errors.{AvixError, config_parse, Result, ok, err, ◌>>=◌, map_err}

abbrev pub max_frame_bytes : ℕ
max_frame_bytes = 16 * 1024 * 1024

pub record Serde (T : Type 0) : Type 0 where
  pub to_vec : T → Result String (List ℕ)
  pub from_slice : List ℕ → Result String T
  pub eof : String

-- `to_le_bytes` and `from_le_bytes` of a `u32`
abbrev pub to_le_bytes : ℕ → List ℕ
to_le_bytes n = n % 256 ∷ n / 256 % 256 ∷ n / 256 ^ 2 % 256 ∷ n / 256 ^ 3 % 256 ∷ []

abbrev pub from_le_bytes : ℕ → ℕ → ℕ → ℕ → ℕ
from_le_bytes a b c d = a + b * 256 + c * 256 ^ 2 + d * 256 ^ 3

module _ {T : Type 0} (serde : Serde T) where
  unfoldable pub encode : T → Result AvixError (List ℕ)
  encode msg = do
    body ← map_err config_parse (serde.to_vec msg)
    if ltb max_frame_bytes (length body)
        then err (config_parse "message exceeds 16 MB limit")
        else ok (to_le_bytes (length body % 2 ^ 32) ++ body)

  unfoldable pub decode : List ℕ → Result AvixError T
  decode (a ∷ b ∷ c ∷ d ∷ body) = map_err config_parse (serde.from_slice body)
  decode _ = err (config_parse "frame too short")

  add_byte : ℕ → Result AvixError (List ℕ × List ℕ) → Result AvixError (List ℕ × List ℕ)
  add_byte b (err e) = err e
  add_byte b (ok (taken, rest)) = ok (b ∷ taken, rest)

  unfoldable pub read_exact : ℕ → List ℕ → Result AvixError (List ℕ × List ℕ)
  unfolding add_byte
  read_exact zero bytes = ok ([], bytes)
  read_exact (suc n) [] = err (config_parse serde.eof)
  read_exact (suc n) (b ∷ bytes) = add_byte b (read_exact n bytes)

  unfoldable pub read_body : ℕ → List ℕ → Result AvixError (T × List ℕ)
  unfolding read_exact
  read_body len bytes = if ltb max_frame_bytes len then err (config_parse "frame too large") else do
    (body, rest) ← read_exact len bytes
    msg ← map_err config_parse (serde.from_slice body)
    ok (msg, rest)

  unfoldable pub read_from : List ℕ → Result AvixError (T × List ℕ)
  unfolding read_body
  read_from (a ∷ b ∷ c ∷ d ∷ bytes) = read_body (from_le_bytes a b c d) bytes
  read_from _ = err (config_parse serde.eof)

  -- What a writer puts on its stream
  unfoldable pub write_to : T → List ℕ → Result AvixError (List ℕ)
  unfolding encode
  write_to msg written = do bytes ← encode msg; ok (written ++ bytes)
