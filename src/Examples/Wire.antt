-- ===== src/Examples/Wire.antt =====
-- Frames and payloads: internal/common/protocol/frame.go, reader.go, text/types.go, image/types.go.
use chat_libp2p.Common.{ℕ, List, ◌≡◌, ◌≢◌, refl, arith, Bool, some, [], ◌∷◌, ◌++◌, ◌==◌}
use chat_libp2p.Frame.{flag_ack, Frame, IsFrame, new_frame, encode, decode, header, head_byte}
use chat_libp2p.Reader.{ReadError, meta_byte, done, failed, stuck, read}
use chat_libp2p.Reader.RoundTrip.{read-encode, decode-read}
use chat_libp2p.Reader.Outcomes.{read-ne-stuck}
use chat_libp2p.Reader.Prefixes.{read-prefix}
use chat_libp2p.Streams.ReadLoop.{
  read_loop, written, meta, bulk, other, Meant, meta_func, data_func, frames_of, read_loop-written,
}
use chat_libp2p.Text as Txt
use chat_libp2p.Text.RoundTrip.{parse-payload_bytes}
use chat_libp2p.Image as Img
use chat_libp2p.Image.RoundTrip.{parse-image_payload_bytes}

abbrev small : Frame
small = new_frame 2 (7 ∷ 8 ∷ 9 ∷ [])

small-IsFrame : IsFrame 1000 small
small-IsFrame = record {
  flag_fits = omega arith;
  payload_fits = omega arith;
  size_fits = omega arith;
}

abbrev empty_frame : Frame
empty_frame = new_frame 0 []

read-encode_example : read 1000 empty_frame (encode small ++ 5 ∷ []) ≡ (done, small, 5 ∷ [])
read-encode_example = read-encode 1000 empty_frame small (5 ∷ []) small-IsFrame

decode-read_example : decode 1000 (encode small ++ 5 ∷ []) ≡ some small
decode-read_example =
    decode-read 1000 empty_frame small (encode small ++ 5 ∷ []) (5 ∷ [])
      (read-encode 1000 empty_frame small (5 ∷ []) small-IsFrame)

small_bytes : encode small ≡ (67 ∷ 7 ∷ 8 ∷ []) ++ 9 ∷ []
unfolding encode header head_byte
small_bytes = refl

read-prefix_example : (e : ReadError) × ((read 1000 empty_frame (67 ∷ 7 ∷ 8 ∷ [])).0 ≡ failed e)
read-prefix_example =
    read-prefix 1000 empty_frame small (67 ∷ 7 ∷ 8 ∷ []) [] 9 small-IsFrame small_bytes

read-ne-stuck_example : (read 1000 empty_frame (67 ∷ 7 ∷ 8 ∷ 9 ∷ [])).0 ≢ stuck
read-ne-stuck_example = read-ne-stuck 1000 empty_frame (67 ∷ 7 ∷ 8 ∷ 9 ∷ [])

parse-payload_bytes_example :
    Txt.parse (Txt.payload_bytes (Txt.req_sync_text 3 60 (104 ∷ 105 ∷ [])))
    ≡ some (some (Txt.req_sync_text 3 60 (104 ∷ 105 ∷ [])))
parse-payload_bytes_example =
    parse-payload_bytes (Txt.req_sync_text 3 60 (104 ∷ 105 ∷ [])) (omega arith, omega arith)

abbrev is_slash : ℕ → Bool
is_slash c = c == 47

parse-image_payload_bytes_example :
    Img.parse is_slash (Img.payload_bytes (Img.req_sync_bytes 3 (97 ∷ 47 ∷ []) (1 ∷ 2 ∷ [])))
    ≡ some (some (Img.req_sync_bytes 3 (97 ∷ 47 ∷ []) (1 ∷ 2 ∷ [])))
parse-image_payload_bytes_example =
    parse-image_payload_bytes is_slash (Img.req_sync_bytes 3 (97 ∷ 47 ∷ []) (1 ∷ 2 ∷ []))
      (omega arith, omega arith)

-- A meta frame, an acknowledgement and a data frame.
abbrev three_frames : List Meant
three_frames =
    meta (7 ∷ [])
    ∷ other flag_ack (λ e. omega (arith, e)) (λ e. omega (arith, e)) []
    ∷ bulk (4 ∷ [])
    ∷ []

read_loop-written_example :
    read_loop 4 1000 empty_frame (written (frames_of three_frames))
    ≡ (meta_func (7 ∷ []) ∷ data_func (4 ∷ []) ∷ [], failed meta_byte)
read_loop-written_example = read_loop-written 1000 empty_frame three_frames (
  record { flag_fits = omega arith; payload_fits = omega arith; size_fits = omega arith },
  (
    record { flag_fits = omega arith; payload_fits = omega arith; size_fits = omega arith },
    (record { flag_fits = omega arith; payload_fits = omega arith; size_fits = omega arith }, tt),
  ),
)
