-- ===== src/Protocol.antt =====
-- The frames of the control socket, src/protocol.rs: a length, a version, one postcard message.
pub mod RoundTrip
use secret_manager.Base.{
  ℕ, ◌+◌, ◌*◌, ◌/◌, ◌%◌, ◌^◌, ◌≡◌, [], ◌∷◌, ◌++◌, ltb, ◌==◌, if◌then◌else◌, length, is_empty, take,
  drop, Bytes, Result, ok, err, ◌>>=◌, ◌>>◌,
}
use secret_manager.Vault.Types.{IoError}

abbrev pub max_frame : ℕ
max_frame = 2 ^ 20

abbrev pub protocol_version : ℕ
protocol_version = 5

-- `postcard::Error`, by the kinds that the source tells apart.
pub data PostcardError : Type 0 where
  serialize_buffer_full deserialize_unexpected_end : PostcardError
  other : ℕ → PostcardError

pub data ProtocolError : Type 0 where
  connect io : IoError → ProtocolError
  no_runtime_dir : ProtocolError
  untrusted_peer : ℕ → ℕ → ProtocolError
  encoding : PostcardError → ProtocolError
  frame_too_large unsupported_version trailing_bytes : ℕ → ProtocolError

-- postcard at one message type: `to_slice` into a buffer of that length, and `take_from_bytes`.
pub record Postcard (Message : Type 0) : Type 0 where
  pub to_slice : Message → ℕ → Result PostcardError Bytes
  pub take_from_bytes : Bytes → Result PostcardError (Message × Bytes)

-- A message that was encoded is read back, with what follows it.
pub record PostcardLaws {Message : Type 0} (c : Postcard Message) : Type 0 where
  pub from-to :
      (m : Message) (n : ℕ) (body rest : Bytes)
      → c.to_slice m n ≡ ok body
      → c.take_from_bytes (body ++ rest) ≡ ok (m, rest)

unfoldable pub to_be_bytes : ℕ → Bytes
to_be_bytes n = (n / 2 ^ 24) % 256 ∷ (n / 2 ^ 16) % 256 ∷ (n / 2 ^ 8) % 256 ∷ n % 256 ∷ []

unfoldable pub from_be_bytes : Bytes → ℕ
from_be_bytes (a ∷ b ∷ c ∷ d ∷ rest) = 2 ^ 24 * a + 2 ^ 16 * b + 2 ^ 8 * c + d
from_be_bytes _ = 0

-- `Read::read_exact` on the bytes that the peer sends before it closes.
unfoldable pub read_exact : ℕ → Bytes → Result ProtocolError (Bytes × Bytes)
read_exact n input =
    if ltb (length input) n
    then err (ProtocolError.io IoError.unexpected_eof)
    else ok (take n input, drop n input)

unfoldable pub read_frame_sync : Bytes → Result ProtocolError (Bytes × Bytes)
unfolding read_exact from_be_bytes
read_frame_sync input = read_exact 4 input >>= λ head.
    let len = from_be_bytes head.0 in
    if ltb max_frame len then err (ProtocolError.frame_too_large len) else read_exact len head.1

abbrev pub scratch : ℕ
scratch = 8 * 1024

module _ {Message : Type 0} (c : Postcard Message) where
  -- The second attempt of `encode_frame`, with a buffer of the largest size.
  unfoldable pub slice_again : Result PostcardError Bytes → Result ProtocolError Bytes
  slice_again (ok body) = ok body
  slice_again (err PostcardError.serialize_buffer_full) =
      err (ProtocolError.frame_too_large (max_frame + 1))
  slice_again (err e) = err (ProtocolError.encoding e)

  unfoldable pub slice : Message → Result PostcardError Bytes → Result ProtocolError Bytes
  unfolding slice_again
  slice m (ok body) = ok body
  slice m (err PostcardError.serialize_buffer_full) = slice_again (c.to_slice m (max_frame + 1))
  slice m (err e) = err (ProtocolError.encoding e)

  unfoldable pub encode_frame : Message → Result ProtocolError Bytes
  unfolding slice to_be_bytes
  encode_frame m = slice m (c.to_slice m scratch) >>= λ body.
      let framed_len = length body + 1 in
      if ltb max_frame framed_len
      then err (ProtocolError.frame_too_large framed_len)
      else ok (to_be_bytes (framed_len % 2 ^ 32) ++ (protocol_version ∷ body))

  unfoldable pub decode_message :
      Result PostcardError (Message × Bytes) → Result ProtocolError Message
  decode_message (err e) = err (ProtocolError.encoding e)
  decode_message (ok (value, rest)) =
      if is_empty rest then ok value else err (ProtocolError.trailing_bytes (length rest))

  unfoldable pub decode_frame : Bytes → Result ProtocolError Message
  unfolding decode_message
  decode_frame [] = err (ProtocolError.encoding PostcardError.deserialize_unexpected_end)
  decode_frame (version ∷ rest) =
      if version == protocol_version
      then decode_message (c.take_from_bytes rest)
      else err (ProtocolError.unsupported_version version)
