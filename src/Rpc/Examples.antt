-- ===== src/Rpc/Examples.antt =====
-- Instances of the theorems, and tests of the reader.
use higgs.Base.Text.{Text, text_beq, codes}
use higgs.Base.{
  length, is_some, if◌then◌else◌, arith, some, none, Option, ◌↔◌, ◌<◌, ◌∷◌, [], false, refl, ◌≡◌,
}
use higgs.Rpc.Reader.{pop_cr, Reader, is_empty, read_bounded_frame, is_utf8, oversize, line, bytes}
use higgs.Rpc.RoundTrip.{read_frames-write_frames, plain, plain_error, present}
use higgs.Rpc.Codec.{
  read_frames, write_frames, write_frame, encode, frame, frame_value, if_some, unless_null,
  notification, response, RpcFrame, value_at, entry_of, null, Value,
}
use higgs.Rpc.Lines.{
  oversize_exactly, read_bounded_frame-read_text, forget_chunks, read_text, Flowing, flows, joined,
  behind, first_line,
}

crlf :
    read_bounded_frame 8 (bytes (codes "{}\r") ∷ bytes (codes "\n[]") ∷ [])
    ≡ line (codes "{}") (bytes (codes "[]") ∷ [])
unfolding read_bounded_frame
crlf = refl

bare_cr : read_bounded_frame 8 (bytes (codes "a\r") ∷ []) ≡ line (codes "a\r") []
unfolding read_bounded_frame
bare_cr = refl

at_the_cap : read_bounded_frame 2 (bytes (codes "ab\n") ∷ []) ≡ line (codes "ab") []
unfolding read_bounded_frame
at_the_cap = refl

over_the_cap : read_bounded_frame 2 (bytes (codes "abc\n") ∷ []) ≡ oversize
unfolding read_bounded_frame
over_the_cap = refl

surrogate : is_utf8 (0xed ∷ 0xa0 ∷ 0x80 ∷ []) ≡ false
unfolding is_utf8
surrogate = refl

-- Chunks that end within a line and behind a newline.
abbrev cut_chunks : Reader
cut_chunks = bytes (codes "p") ∷ bytes (codes "\nq") ∷ bytes (codes "\n") ∷ []

read_bounded_frame-read_text_example :
    forget_chunks (read_bounded_frame 4 cut_chunks) ≡ read_text 4 (joined cut_chunks)
unfolding Flowing flows
read_bounded_frame-read_text_example =
    read_bounded_frame-read_text 4 cut_chunks (refl, (refl, (refl, tt)))

abbrev too_long : Reader
too_long = bytes (codes "{\"") ∷ bytes (codes "id\":") ∷ bytes (codes "1}\n") ∷ []

oversize_exactly_example :
    (read_bounded_frame 4 too_long ≡ oversize) ↔ (4 < length (first_line (joined too_long)))
unfolding Flowing flows
oversize_exactly_example = oversize_exactly 4 too_long (refl, (refl, (refl, tt)))

abbrev ping : RpcFrame
ping = notification (record { jsonrpc = "2.0"; method = "ping"; params = null })

abbrev pong : RpcFrame
pong = response (record { jsonrpc = "2.0"; id = 7; result = none; error = none })

-- A text format for these two frames.
abbrev short_text : Value → Text
short_text v = if is_some (value_at "id" v) then codes "q" else codes "p"

abbrev short_value : Text → Option Value
short_value text =
    if text_beq text (codes "q")
    then some (frame_value pong)
    else if text_beq text (codes "p")
    then some (frame_value ping)
    else none

read_frames-write_frames_example :
    read_frames short_value 3 4 cut_chunks ≡ frame ping ∷ frame pong ∷ []
unfolding Flowing flows is_empty joined write_frames write_frame encode frame_value unless_null
    if_some value_at entry_of behind is_utf8 pop_cr plain present plain_error
read_frames-write_frames_example =
    read_frames-write_frames short_text short_value 4 3 (ping ∷ pong ∷ []) cut_chunks
      (refl, (refl, (refl, tt))) refl
      (
        record {
          sendable = record { one_line = refl; short = omega arith; no_cr = refl; valid = refl };
          parses = refl;
          is_plain = refl;
        },
        (
          record {
            sendable = record { one_line = refl; short = omega arith; no_cr = refl; valid = refl };
            parses = refl;
            is_plain = refl;
          },
          tt,
        ),
      )
      (omega arith)
