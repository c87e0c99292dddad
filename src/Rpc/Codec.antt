-- ===== src/Rpc/Codec.antt =====
-- The frames of src/rpc.rs, `encode` and `decode`. serde_json's reading and writing of JSON texts are
-- the parameters `to_string` and `from_str`; what the derived Serialize and Deserialize do with the
-- fields of a frame is written out. The fields of an object stand in the order of their keys.
use mathlib.Core.Option
use higgs.Base.Text.{Text}
use higgs.Base.{
  map, string_eq, nat_eq, ◌==◌, is_some, if◌then◌else◌, leb, ltb, ◌++◌, ◌∷◌, [], List, some, none,
  Option, false, true, Bool, String, ◌^◌, ℕ,
}
use higgs.Rpc.Reader.{read_lines, Reader}

-- serde_json::Value, with its Number: an unsigned or negative integer, or the bits of a float
pub data Number : Type 0 where
  unsigned negative float : ℕ → Number

mutual
  pub data JsonMap : Type 0 where
    no_entry : JsonMap
    entry : String → Value → JsonMap → JsonMap

  pub data Elements : Type 0 where
    no_element : Elements
    element : Value → Elements → Elements

  pub data Value : Type 0 where
    null : Value
    number : Number → Value
    string : String → Value
    boolean : Bool → Value
    object : JsonMap → Value
    array : Elements → Value

unfoldable pub entry_of : String → JsonMap → Option Value
entry_of key no_entry = none
entry_of key (entry k v rest) = let found = entry_of key rest in if k == key then some v else found

-- Value::get with a key
unfoldable pub value_at : String → Value → Option Value
unfolding entry_of
value_at key (object fields) = entry_of key fields
value_at key _ = none

-- Deserialize of u64, i64 and String; an i64 is kept as its Number.
unfoldable pub as_u64 : Value → Option ℕ
as_u64 (number (unsigned n)) = some n
as_u64 _ = none

unfoldable pub as_i64 : Value → Option Number
as_i64 (number (unsigned n)) = if ltb n (2 ^ 63) then some (unsigned n) else none
as_i64 (number (negative n)) = if leb n (2 ^ 63) then some (negative n) else none
as_i64 _ = none

unfoldable pub as_string : Value → Option String
as_string (string s) = some s
as_string _ = none

pub record RpcRequest : Type 0 where
  pub jsonrpc : String
  pub id : ℕ
  pub method : String
  pub params : Value

pub record RpcError : Type 0 where
  pub code : Number
  pub message : String
  pub data_ : Option Value

pub record RpcResponse : Type 0 where
  pub jsonrpc : String
  pub id : ℕ
  pub result : Option Value
  pub error : Option RpcError

pub record RpcNotification : Type 0 where
  pub jsonrpc : String
  pub method : String
  pub params : Value

pub data RpcFrame : Type 0 where
  request : RpcRequest → RpcFrame
  response : RpcResponse → RpcFrame
  notification : RpcNotification → RpcFrame

-- `skip_serializing_if`: the field, or nothing
unfoldable pub unless_null : String → Value → JsonMap → JsonMap
unless_null key null rest = rest
unless_null key v rest = entry key v rest

unfoldable pub if_some : String → Option Value → JsonMap → JsonMap
if_some key none rest = rest
if_some key (some v) rest = entry key v rest

unfoldable pub error_value : RpcError → Value
unfolding if_some
error_value e = object (
    entry "code" (number e.code)
      (if_some "data" e.data_ (entry "message" (string e.message) no_entry)))

unfoldable pub frame_value : RpcFrame → Value
unfolding unless_null if_some error_value
frame_value (request r) = object (
    entry "id" (number (unsigned r.id)) (
      entry "jsonrpc" (string r.jsonrpc)
        (entry "method" (string r.method) (unless_null "params" r.params no_entry))))
frame_value (response r) = object (
    if_some "error" (Option.map error_value r.error) (
      entry "id" (number (unsigned r.id))
        (entry "jsonrpc" (string r.jsonrpc) (if_some "result" r.result no_entry))))
frame_value (notification n) = object (
    entry "jsonrpc" (string n.jsonrpc)
      (entry "method" (string n.method) (unless_null "params" n.params no_entry)))

-- The fields that a derived Deserialize reads: required, `#[serde(default)]` of a Value, and
-- `#[serde(default)]` of an Option, where null is None.
unfoldable pub required {ℓ} : {A : Type ℓ} → (Value → Option A) → Option Value → Option A
required parse none = none
required parse (some v) = parse v

unfoldable pub or_null : Option Value → Value
or_null none = null
or_null (some v) = v

unfoldable pub optional {ℓ} : {A : Type ℓ} → (Value → Option A) → Option Value → Option (Option A)
optional parse none = some none
optional parse (some null) = some none
optional parse (some v) = Option.map some (parse v)

infixl 1 ◌>>=◌
abbrev ◌>>=◌ {ℓ κ} : {A : Type ℓ} {B : Type κ} → Option A → (A → Option B) → Option B
none >>= f = none
some a >>= f = f a

unfoldable pub error_of : Option Value → Option Value → Option Value → Option RpcError
unfolding required as_i64 as_string optional
error_of code_value message_value data_value = do
  code ← required as_i64 code_value
  message ← required as_string message_value
  data_ ← optional some data_value
  some (record { code = code; message = message; data_ = data_ })

-- A derived Deserialize takes a struct from an array too, its fields in the order of declaration.
unfoldable pub error_from : Value → Option RpcError
unfolding value_at error_of
error_from (object fields) =
    error_of (entry_of "code" fields) (entry_of "message" fields) (entry_of "data" fields)
error_from (array (element code (element message no_element))) =
    error_of (some code) (some message) none
error_from (array (element code (element message (element data_ no_element)))) =
    error_of (some code) (some message) (some data_)
error_from _ = none

-- serde_json::from_value at each type of frame
unfoldable pub request_from : Value → Option RpcRequest
unfolding value_at required as_u64 as_string or_null
request_from v = do
  jsonrpc ← required as_string (value_at "jsonrpc" v)
  id ← required as_u64 (value_at "id" v)
  method ← required as_string (value_at "method" v)
  some (record {
    jsonrpc = jsonrpc;
    id = id;
    method = method;
    params = or_null (value_at "params" v);
  })

unfoldable pub response_from : Value → Option RpcResponse
unfolding value_at required as_u64 as_string optional error_from
response_from v = do
  jsonrpc ← required as_string (value_at "jsonrpc" v)
  id ← required as_u64 (value_at "id" v)
  result ← optional some (value_at "result" v)
  error ← optional error_from (value_at "error" v)
  some (record { jsonrpc = jsonrpc; id = id; result = result; error = error })

unfoldable pub notification_from : Value → Option RpcNotification
unfolding value_at required as_string or_null
notification_from v = do
  jsonrpc ← required as_string (value_at "jsonrpc" v)
  method ← required as_string (value_at "method" v)
  some (record { jsonrpc = jsonrpc; method = method; params = or_null (value_at "params" v) })

-- HiggsError::RpcDecode by its three details: not JSON, a frame that does not deserialize, neither
-- `id` nor `method`
pub data Decoded : Type 0 where
  frame : RpcFrame → Decoded
  not_json malformed neither : Decoded

unfoldable pub or_malformed {ℓ} : {A : Type ℓ} → (A → RpcFrame) → Option A → Decoded
or_malformed make none = malformed
or_malformed make (some a) = frame (make a)

unfoldable pub discriminate : Value → Bool → Bool → Decoded
unfolding or_malformed request_from response_from notification_from
discriminate v true true = or_malformed request (request_from v)
discriminate v true false = or_malformed response (response_from v)
discriminate v false true = or_malformed notification (notification_from v)
discriminate v false false = neither

-- After `from_str`; another version than "2.0" is only logged.
unfoldable pub decode_value : Option Value → Decoded
unfolding discriminate value_at
decode_value none = not_json
decode_value (some v) = discriminate v (is_some (value_at "id" v)) (is_some (value_at "method" v))

unfoldable pub encode : (to_string : Value → Text) → RpcFrame → Text
unfolding frame_value
encode to_string f = to_string (frame_value f)

unfoldable pub decode : (from_str : Text → Option Value) → Text → Decoded
unfolding decode_value
decode from_str text = decode_value (from_str text)

-- write_frame of src/node/mod.rs: the text with its newline
unfoldable pub write_frame : (to_string : Value → Text) → RpcFrame → Text
unfolding encode
write_frame to_string f = encode to_string f ++ b'\n' ∷ []

-- The bytes of a sequence of frames.
unfoldable pub write_frames : (to_string : Value → Text) → List RpcFrame → Text
unfolding write_frame
write_frames to_string [] = []
write_frames to_string (f ∷ frames) = write_frame to_string f ++ write_frames to_string frames

-- The frames of a stream, line by line.
unfoldable pub read_frames : (from_str : Text → Option Value) → ℕ → ℕ → Reader → List Decoded
unfolding read_lines decode
read_frames from_str fuel max_bytes reader =
    map (decode from_str) (read_lines fuel max_bytes reader)
