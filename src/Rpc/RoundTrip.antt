-- ===== src/Rpc/RoundTrip.antt =====
-- A frame decodes to what was encoded, and a stream of frames arrives as it was written.
use mathlib.Core.Option
use mathlib.Core.List.{append_assoc}
use higgs.Base.Text.{Text}
use higgs.Base.{
  All, length, map, ◌++◌, ◌∷◌, [], List, ◌∙◌, ap, ◌<◌, suc, arith, String, ℕ, absurd_bool, leb, ltb,
  some, none, Option, ◌&&◌, not, false, true, Bool, refl, ◌≡◌, ◌^◌,
}
use higgs.Rpc.Codec.{
  read_frames, write_frames, write_frame, decode, encode, or_malformed, notification_from,
  response_from, request_from, as_u64, decode_value, discriminate, frame, error_from, error_of,
  optional, or_null, required, frame_value, error_value, if_some, unless_null, notification,
  response, request, RpcFrame, RpcError, as_string, as_i64, value_at, entry_of, no_entry, object,
  array, string, number, boolean, null, Value, float, negative, unsigned, Number,
}
use higgs.Rpc.Delivery.{read_lines-wire, Sendable, wire}
use higgs.Rpc.Lines.{Flowing, joined}
use higgs.Rpc.Reader.{Reader}

-- A value that an optional field can carry: null reads back as an absent field.
unfoldable pub is_null : Value → Bool
is_null null = true
is_null _ = false

unfoldable pub present : Option Value → Bool
unfolding is_null
present none = true
present (some v) = not (is_null v)

unfoldable pub in_i64 : Number → Bool
in_i64 (unsigned n) = ltb n (2 ^ 63)
in_i64 (negative n) = leb n (2 ^ 63)
in_i64 (float _) = false

unfoldable pub plain_error : Option RpcError → Bool
unfolding present in_i64
plain_error none = true
plain_error (some e) = present e.data_ && in_i64 e.code

-- Frames whose fields lie in the Rust types, and that carry no null where an optional value is meant.
unfoldable pub plain : RpcFrame → Bool
unfolding present plain_error
plain (request r) = true
plain (response r) = present r.result && plain_error r.error
plain (notification n) = true

as_i64-in : (n : Number) → in_i64 n ≡ true → as_i64 (number n) ≡ some n
unfolding as_i64 in_i64
as_i64-in (unsigned n) h = rw h refl
as_i64-in (negative n) h = rw h refl
as_i64-in (float n) h = absurd_bool h

params-back : (v : Value) → or_null (entry_of "params" (unless_null "params" v no_entry)) ≡ v
unfolding or_null entry_of unless_null
params-back null = refl
params-back (boolean b) = refl
params-back (number n) = refl
params-back (string s) = refl
params-back (array xs) = refl
params-back (object fs) = refl

optional-back : (o : Option Value) → present o ≡ true → optional some o ≡ some o
unfolding optional present is_null
optional-back none h = refl
optional-back (some null) h = absurd_bool h
optional-back (some (boolean b)) h = refl
optional-back (some (number n)) h = refl
optional-back (some (string s)) h = refl
optional-back (some (array xs)) h = refl
optional-back (some (object fs)) h = refl

error_of-back :
    (code : Number) (message : String) (o : Option Value)
    → in_i64 code ≡ true
    → present o ≡ true
    → error_of (some (number code)) (some (string message)) o
      ≡ some (record { code = code; message = message; data_ = o })
unfolding error_of required as_string
error_of-back code message o c p = rw (as_i64-in code c, optional-back o p) refl

error-back :
    (code : Number) (message : String) (o : Option Value)
    → present o && in_i64 code ≡ true
    → error_from (error_value (record { code = code; message = message; data_ = o }))
      ≡ some (record { code = code; message = message; data_ = o })
unfolding error_from error_value if_some entry_of present
error-back code message none h = error_of-back code message none h refl
error-back code message (some v) h =
    error_of-back code message (some v) (ground (arith, h)) (ground (arith, h))

error_value-present :
    (e : RpcError)
    → optional error_from (some (error_value e)) ≡ Option.map some (error_from (error_value e))
unfolding optional error_value
error_value-present e = refl

response-back :
    (jsonrpc : String) (id : ℕ) (result : Option Value) (error : Option RpcError)
    → present result ≡ true
    → plain_error error ≡ true
    → decode_value (
        some (
          frame_value
            (response (record { jsonrpc = jsonrpc; id = id; result = result; error = error }))))
      ≡ frame (response (record { jsonrpc = jsonrpc; id = id; result = result; error = error }))
unfolding decode_value frame_value value_at entry_of discriminate response_from or_malformed if_some
    required as_u64 as_string plain_error
response-back jsonrpc id none none p q = refl
response-back jsonrpc id (some v) none p q = rw (optional-back (some v) p) refl
response-back jsonrpc id none (some e) p q =
    rw (error_value-present e, error-back e.code e.message e.data_ q) refl
response-back jsonrpc id (some v) (some e) p q =
    rw (optional-back (some v) p, error_value-present e, error-back e.code e.message e.data_ q) refl

request-back :
    (jsonrpc method : String) (id : ℕ) (params : Value)
    → decode_value (
        some (
          frame_value
            (request (record { jsonrpc = jsonrpc; id = id; method = method; params = params }))))
      ≡ frame (request (record { jsonrpc = jsonrpc; id = id; method = method; params = params }))
unfolding decode_value frame_value value_at entry_of discriminate request_from or_malformed required
    as_u64 as_string
request-back jsonrpc method id params = rw (params-back params) refl

notification-back :
    (jsonrpc method : String) (params : Value)
    → decode_value (
        some (
          frame_value
            (notification (record { jsonrpc = jsonrpc; method = method; params = params }))))
      ≡ frame (notification (record { jsonrpc = jsonrpc; method = method; params = params }))
unfolding decode_value frame_value value_at entry_of discriminate notification_from or_malformed
    required as_string or_null unless_null
notification-back jsonrpc method null = refl
notification-back jsonrpc method (boolean b) = refl
notification-back jsonrpc method (number n) = refl
notification-back jsonrpc method (string s) = refl
notification-back jsonrpc method (array xs) = refl
notification-back jsonrpc method (object fs) = refl

decode_value-frame_value :
    (f : RpcFrame) → plain f ≡ true → decode_value (some (frame_value f)) ≡ frame f
unfolding plain
decode_value-frame_value (request r) h = request-back r.jsonrpc r.method r.id r.params
decode_value-frame_value (response r) h =
    response-back r.jsonrpc r.id r.result r.error (ground (arith, h)) (ground (arith, h))
decode_value-frame_value (notification n) h = notification-back n.jsonrpc n.method n.params

-- Every frame decodes to itself once encoded, where serde_json reads back the text it writes for it, and
-- it carries no null as an optional value.
pub decode-encode :
    (to_string : Value → Text) (from_str : Text → Option Value) (f : RpcFrame)
    → from_str (to_string (frame_value f)) ≡ some (frame_value f)
    → plain f ≡ true
    → decode from_str (encode to_string f) ≡ frame f
unfolding decode encode
decode-encode to_string from_str f h p = rw h (decode_value-frame_value f p)

-- What a frame needs to arrive: its text is one line that the reader takes, and serde_json reads it back.
pub record Carried (max_bytes : ℕ) (to_string : Value → Text) (from_str : Text → Option Value)
    (f : RpcFrame) : Type 0 where
  pub sendable : Sendable max_bytes (encode to_string f)
  pub parses : from_str (to_string (frame_value f)) ≡ some (frame_value f)
  pub is_plain : plain f ≡ true

module _ (to_string : Value → Text) (from_str : Text → Option Value) where
  write_frames-wire :
      (frames : List RpcFrame)
      → write_frames to_string frames ≡ wire (map (encode to_string) frames)
  unfolding write_frames wire write_frame
  write_frames-wire [] = refl
  write_frames-wire (f ∷ frames) =
      append_assoc (encode to_string f) (b'\n' ∷ []) (write_frames to_string frames)
      ∙ ap (λ x. encode to_string f ++ b'\n' ∷ x) (write_frames-wire frames)

  All-Sendable :
      (max_bytes : ℕ) (frames : List RpcFrame)
      → All (Carried max_bytes to_string from_str) frames
      → All (Sendable max_bytes) (map (encode to_string) frames)
  All-Sendable max_bytes [] h = tt
  All-Sendable max_bytes (f ∷ frames) h = (h.0.sendable, All-Sendable max_bytes frames h.1)

  length-encode : (frames : List RpcFrame) → length (map (encode to_string) frames) ≡ length frames
  length-encode [] = refl
  length-encode (f ∷ frames) = ap suc (length-encode frames)

  decoded-All :
      (max_bytes : ℕ) (frames : List RpcFrame)
      → All (Carried max_bytes to_string from_str) frames
      → map (decode from_str) (map (encode to_string) frames) ≡ map frame frames
  decoded-All max_bytes [] h = refl
  decoded-All max_bytes (f ∷ frames) h =
      rw (decode-encode to_string from_str f h.0.parses h.0.is_plain)
        (ap (λ x. frame f ∷ x) (decoded-All max_bytes frames h.1))

  -- Where each frame has no result or data that is `Some(null)` and an error code in the range of `i64`,
  -- its text is one line of at most `max_bytes` that `from_str` reads back to the frame's value, and the
  -- stream gives the written bytes without an error: the frames that one side writes are those that the
  -- other side reads, all of them, in their order and nothing else, however the stream is cut into chunks,
  -- with fuel above the number of frames.
  pub read_frames-write_frames :
      (max_bytes fuel : ℕ) (frames : List RpcFrame) (reader : Reader)
      → Flowing reader
      → joined reader ≡ write_frames to_string frames
      → All (Carried max_bytes to_string from_str) frames
      → length frames < fuel
      → read_frames from_str fuel max_bytes reader ≡ map frame frames
  unfolding read_frames
  read_frames-write_frames max_bytes fuel frames reader h e c f =
      ap (λ x. map (decode from_str) x)
        (read_lines-wire max_bytes fuel (map (encode to_string) frames) reader h
          (e ∙ write_frames-wire frames) (All-Sendable max_bytes frames c)
          (omega (arith, f, length-encode frames)))
      ∙ decoded-All max_bytes frames c
