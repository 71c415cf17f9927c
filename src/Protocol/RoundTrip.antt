-- ===== src/Protocol/RoundTrip.antt =====
-- Writing a frame and reading it back (src/protocol.rs).
use secret_manager.Base.{
  ℕ, ◌+◌, ◌%◌, ◌^◌, ◌≤◌, ◌<◌, ◌≡◌, refl, sym, inl, inr, [], ◌∷◌, ◌++◌, append_assoc, append-nil,
  arith, le→not-ltb, length, length-append, take-append-length, drop-append-length, Bytes, Result,
  ok, err, Result-cases,
}
use secret_manager.Protocol.{
  max_frame, protocol_version, PostcardError, Postcard, PostcardLaws, to_be_bytes, from_be_bytes,
  read_exact, read_frame_sync, scratch, slice_again, slice, encode_frame, decode_message,
  decode_frame,
}

from-to_be_bytes : (n : ℕ) → n < 2 ^ 32 → from_be_bytes (to_be_bytes n) ≡ n
unfolding from_be_bytes to_be_bytes
from-to_be_bytes n h = omega arith

read_exact-append :
    (front rest : Bytes) → read_exact (length front) (front ++ rest) ≡ ok (front, rest)
unfolding read_exact
read_exact-append front rest =
    let fits : length front ≤ length (front ++ rest) = omega (arith, length-append front rest) in
    rw
      (
        le→not-ltb (length (front ++ rest)) (length front) fits,
        take-append-length front rest,
        drop-append-length front rest,
      )
      refl

read_body :
    (body rest : Bytes)
    → length body ≤ max_frame
    → read_frame_sync (to_be_bytes (length body) ++ (body ++ rest)) ≡ ok (body, rest)
unfolding read_frame_sync to_be_bytes
read_body body rest fits =
    let head = read_exact-append (to_be_bytes (length body)) (body ++ rest) in
    let len = from-to_be_bytes (length body) (omega (arith, fits)) in
    rw (head, len, le→not-ltb max_frame (length body) fits) (read_exact-append body rest)

module _ {Message : Type 0} (c : Postcard Message) where
  again_inv :
      (m : Message) (r : Result PostcardError Bytes) (body : Bytes)
      → slice_again c r ≡ ok body
      → r ≡ ok body
  unfolding slice_again
  again_inv m (ok b) body h = cc
  again_inv m (err PostcardError.serialize_buffer_full) body h = cc
  again_inv m (err PostcardError.deserialize_unexpected_end) body h = cc
  again_inv m (err (PostcardError.other n)) body h = cc

  -- What the two attempts return is what postcard wrote into one of the two buffers.
  slice_inv :
      (m : Message) (n : ℕ) (r : Result PostcardError Bytes) (body : Bytes)
      → c.to_slice m n ≡ r
      → slice c m r ≡ ok body
      → (k : ℕ) × (c.to_slice m k ≡ ok body)
  unfolding slice
  slice_inv m n (ok b) body e h = (n, cc)
  slice_inv m n (err PostcardError.serialize_buffer_full) body e h =
      (max_frame + 1, again_inv m (c.to_slice m (max_frame + 1)) body h)
  slice_inv m n (err PostcardError.deserialize_unexpected_end) body e h = cc
  slice_inv m n (err (PostcardError.other x)) body e h = cc

  record Framed (m : Message) (frame : Bytes) : Type 0 where
    body : Bytes
    size : ℕ
    sliced : c.to_slice m size ≡ ok body
    fits : length body + 1 ≤ max_frame
    shape : frame ≡ to_be_bytes (length body + 1) ++ (protocol_version ∷ body)

  encode_frame-Framed : (m : Message) (frame : Bytes) → encode_frame c m ≡ ok frame → Framed m frame
  unfolding encode_frame
  encode_frame-Framed m frame h = elim (Result-cases (slice c m (c.to_slice m scratch))) [
    | inr (x, e) ↦ cc (rw (e, encode_frame) at h)
    | inl (body, e) ↦
        let (size, sliced) = slice_inv m scratch (c.to_slice m scratch) body refl e in
        let fits : length body + 1 ≤ max_frame = ground (arith, e) in
        let small : (length body + 1) % 2 ^ 32 ≡ length body + 1 = omega arith in
        let shape : to_be_bytes ((length body + 1) % 2 ^ 32) ++ (protocol_version ∷ body) ≡ frame =
          ground (arith, e) in
        record {
          body = body;
          size = size;
          sliced = sliced;
          fits = fits;
          shape = sym (rw small at shape);
        }
  ]

  -- A frame that `encode_frame` made is read off the front of whatever the peer sends, to the last
  -- byte and no further, and decodes to the message.
  pub decode-read-encode :
      (m : Message) (frame rest : Bytes)
      → PostcardLaws c
      → encode_frame c m ≡ ok frame
      → (body : Bytes) × (read_frame_sync (frame ++ rest) ≡ ok (body, rest))
        × (decode_frame c body ≡ ok m)
  unfolding decode_frame decode_message
  decode-read-encode m frame rest laws h =
      let f = encode_frame-Framed m frame h in
      let back = rw append-nil at (laws.from-to m f.size f.body [] f.sliced) in
      let whole = protocol_version ∷ f.body in
      let count : length f.body + 1 ≡ length whole = omega arith in
      let assoc = append_assoc (to_be_bytes (length whole)) whole rest in
      (
        whole,
        rw (f.shape, count, assoc) (read_body whole rest (omega (arith, f.fits))),
        rw back refl,
      )
