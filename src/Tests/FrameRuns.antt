-- ===== src/Tests/FrameRuns.antt =====
-- The round trip of a frame, for messages that are byte strings.
use secret_manager.Base.{
  ℕ, ◌≡◌, refl, inl, inr, [], ◌∷◌, ◌++◌, ltb, if◌then◌else◌, Bool-cases, length, Bytes, ok, err,
  ok_or,
}
use secret_manager.Protocol.{
  PostcardError, Postcard, PostcardLaws, read_frame_sync, encode_frame, decode_frame,
}
use secret_manager.Protocol.RoundTrip.{decode-read-encode}
use secret_manager.Tests.Codec.{put_bytes, get_bytes, get-put_bytes}

abbrev postcard : Postcard Bytes
postcard = record {
  to_slice = λ m n.
      if ltb n (length (put_bytes m))
      then err PostcardError.serialize_buffer_full
      else ok (put_bytes m);
  take_from_bytes = λ input. ok_or (get_bytes input) PostcardError.deserialize_unexpected_end;
}

sliced : (m : Bytes) (n : ℕ) (body : Bytes) → postcard.to_slice m n ≡ ok body → put_bytes m ≡ body
sliced m n body h = elim (Bool-cases (ltb n (length (put_bytes m)))) [
  | inl e ↦ cc (rw e at h)
  | inr e ↦ cc (rw e at h)
]

postcard_laws : PostcardLaws postcard
postcard_laws = record {
  from-to = λ m n body rest h. rw (← sliced m n body h, get-put_bytes m rest) refl;
}

abbrev frame : Bytes
frame = 0 ∷ 0 ∷ 0 ∷ 4 ∷ 5 ∷ 2 ∷ 8 ∷ 9 ∷ []

encoded : encode_frame postcard (8 ∷ 9 ∷ []) ≡ ok frame
unfolding encode_frame put_bytes
encoded = refl

decode-read-encode_example :
    (body : Bytes) × (read_frame_sync (frame ++ (1 ∷ [])) ≡ ok (body, 1 ∷ []))
    × (decode_frame postcard body ≡ ok (8 ∷ 9 ∷ []))
decode-read-encode_example =
    decode-read-encode postcard (8 ∷ 9 ∷ []) frame (1 ∷ []) postcard_laws encoded
