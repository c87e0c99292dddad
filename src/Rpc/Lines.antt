-- ===== src/Rpc/Lines.antt =====
-- The lines of a byte stream, and that the reader finds them however the stream is cut into chunks.
use higgs.Base.Text.{Text}
use mathlib.Core.List.{append_assoc, append-nil}
use higgs.Base.{
  drop, take, ◌↔◌, ◌≢◌, ◌∙◌, absurd_bool, ltb→lt, sym, length-append, ◌≤◌, Bool-cases, inr, inl, ap,
  ◌<◌, suc, string_eq, nat_eq, ◌==◌, All, length, if◌then◌else◌, ltb, arith, ◌++◌, ◌∷◌, [], some,
  none, Option, not, false, true, Bool, refl, ◌≡◌, ◌+◌, ℕ,
}
use higgs.Rpc.Reader.{
  read_bounded_frame, take_chunk, consume, fill, at_end, finish, buffered, position, io_error,
  oversize, not_utf8, line, Frame, Reader, broken, bytes, Fill, is_empty, ended,
}

-- A stream of bytes without chunks: the bytes before the first newline, and those behind it.
unfoldable pub first_line : Text → Text
first_line [] = []
first_line (b ∷ rest) = let line = first_line rest in if b == b'\n' then [] else b ∷ line

unfoldable pub behind : Text → Option Text
behind [] = none
behind (b ∷ rest) = let more = behind rest in if b == b'\n' then some rest else more

-- The chunks of a reader that answers neither an error nor the end, joined.
unfoldable pub joined : Reader → Text
joined [] = []
joined (bytes chunk ∷ more) = chunk ++ joined more
joined (broken ∷ more) = joined more

unfoldable pub flows : Fill → Bool
unfolding is_empty
flows (bytes chunk) = not (is_empty chunk)
flows broken = false

unfoldable pub Flowing : Reader → Type 0
Flowing = All (λ f. flows f ≡ true)

-- What a read gives when only the bytes of the stream count.
unfoldable pub read_from : ℕ → Text → Option Text → Frame Text
unfolding finish at_end
read_from max_bytes text (some rest) =
    if ltb max_bytes (length text) then oversize else finish true text rest
read_from max_bytes text none = if ltb max_bytes (length text) then oversize else at_end text []

unfoldable pub read_text : ℕ → Text → Frame Text
unfolding read_from first_line behind
read_text max_bytes text = read_from max_bytes (first_line text) (behind text)

-- The frame with the rest of its reader joined.
unfoldable pub forget_chunks : Frame Reader → Frame Text
unfolding joined
forget_chunks (line text more) = line text (joined more)
forget_chunks (ended more) = ended (joined more)
forget_chunks (not_utf8 more) = not_utf8 (joined more)
forget_chunks oversize = oversize
forget_chunks io_error = io_error

joined-buffered : (rest : Text) (more : Reader) → joined (buffered rest more) ≡ rest ++ joined more
unfolding joined buffered
joined-buffered [] more = refl
joined-buffered (b ∷ rest) more = refl

forget-finish :
    (t : Bool) (buf : Text) (more : Reader)
    → forget_chunks (finish t buf more) ≡ finish t buf (joined more)
unfolding forget_chunks finish
forget-finish t buf more = ground arith

forget-at_end :
    (buf : Text) (more : Reader) → forget_chunks (at_end buf more) ≡ at_end buf (joined more)
unfolding forget_chunks at_end
forget-at_end buf more = ground (arith, forget-finish false buf more)

-- What `position` finds: the text is cut at its first newline, or has none.
data Cut (chunk : Text) : Type 0 where
  at :
      (pos : ℕ)
      → position chunk ≡ some pos
      → length (take pos chunk) ≡ pos
      → ((more : Text) → first_line (chunk ++ more) ≡ take pos chunk)
      → ((more : Text) → behind (chunk ++ more) ≡ some (drop (suc pos) chunk ++ more))
      → Cut chunk
  nowhere :
      position chunk ≡ none
      → ((more : Text) → first_line (chunk ++ more) ≡ chunk ++ first_line more)
      → ((more : Text) → behind (chunk ++ more) ≡ behind more)
      → Cut chunk

cut-behind : (b : ℕ) (chunk : Text) → b == b'\n' ≡ false → Cut chunk → Cut (b ∷ chunk)
unfolding position first_line behind take drop
cut-behind b chunk n (at pos e l f h) =
    at (suc pos) (rw (n, e) refl) (ap suc l) (λ more. rw (n, f more) refl)
      (λ more. rw (n, h more) refl)
cut-behind b chunk n (nowhere e f h) =
    nowhere (rw (n, e) refl) (λ more. rw (n, f more) refl) (λ more. rw (n, h more) refl)

cut : (chunk : Text) → Cut chunk
unfolding position first_line behind take drop
cut [] = nowhere refl (λ _. refl) (λ _. refl)
cut (b ∷ chunk) = elim (Bool-cases (b == b'\n')) [
  | inl e ↦ at 0 (rw e refl) refl (λ _. rw e refl) (λ _. rw e refl)
  | inr e ↦ cut-behind b chunk e (cut chunk)
]

read_from-first_line :
    (max_bytes : ℕ) (text : Text) (o : Option Text)
    → max_bytes < length text
    → read_from max_bytes text o ≡ oversize
unfolding read_from
read_from-first_line max_bytes text none h = ground arith
read_from-first_line max_bytes text (some rest) h = ground arith

is_empty-append : (buf chunk : Text) → is_empty chunk ≡ false → is_empty (buf ++ chunk) ≡ false
unfolding is_empty
is_empty-append [] chunk h = h
is_empty-append (b ∷ buf) chunk h = refl

flows-bytes : (chunk : Text) → flows (bytes chunk) ≡ true → is_empty chunk ≡ false
unfolding flows
flows-bytes chunk h = ground arith

take_chunk-found :
    (max_bytes pos : ℕ) (buf chunk : Text) (more : Reader) (next : Frame Reader)
    → length (take pos chunk) ≡ pos
    → forget_chunks (take_chunk max_bytes buf chunk more next (some pos))
      ≡ read_from max_bytes (buf ++ take pos chunk) (some (drop (suc pos) chunk ++ joined more))
unfolding take_chunk read_from forget_chunks consume
take_chunk-found max_bytes pos buf chunk more next l = ground (
  arith,
  length-append buf (take pos chunk),
  l,
  forget-finish true (buf ++ take pos chunk) (consume (suc pos) chunk more),
  joined-buffered (drop (suc pos) chunk) more,
)

take_chunk-none :
    (max_bytes : ℕ) (buf chunk text : Text) (o : Option Text) (more : Reader) (next : Frame Reader)
    → (length buf + length chunk ≤ max_bytes
        → forget_chunks next ≡ read_from max_bytes ((buf ++ chunk) ++ text) o)
    → forget_chunks (take_chunk max_bytes buf chunk more next none)
      ≡ read_from max_bytes (buf ++ (chunk ++ text)) o
unfolding take_chunk read_from forget_chunks
take_chunk-none max_bytes buf chunk text o more next h =
    elim (Bool-cases (ltb max_bytes (length buf + length chunk))) [
      | inl e ↦ rw e (
          sym (
            read_from-first_line max_bytes (buf ++ (chunk ++ text)) o (
              omega (
                arith,
                ltb→lt _ _ e,
                length-append buf (chunk ++ text),
                length-append chunk text,
              ))))
      | inr e ↦ rw (e, ← append_assoc buf chunk text) (h (ground (arith, e)))
    ]

broken_stops : flows broken ≡ true → false ≡ true
unfolding flows
broken_stops h = h

-- The loop with `buf` filled, against the stream that continues `buf`.
fill-read_from :
    (max_bytes : ℕ) (buf : Text) (reader : Reader)
    → Flowing reader
    → length buf ≤ max_bytes
    → forget_chunks (fill max_bytes buf reader)
      ≡ read_from max_bytes (buf ++ first_line (joined reader)) (behind (joined reader))
unfolding Flowing fill joined first_line behind read_from
fill-read_from max_bytes buf [] h b = rw (append-nil buf) ground (arith, forget-at_end buf [])
fill-read_from max_bytes buf (broken ∷ more) h b = absurd_bool (broken_stops h.0)
fill-read_from max_bytes buf (bytes chunk ∷ more) h b = elim (cut chunk) [
  | at pos e l f r ↦
      rw (flows-bytes chunk h.0, e, f (joined more), r (joined more))
        (take_chunk-found max_bytes pos buf chunk more (fill max_bytes (buf ++ chunk) more) l)
  | nowhere e f r ↦
      rw (flows-bytes chunk h.0, e, f (joined more), r (joined more))
        (take_chunk-none max_bytes buf chunk (first_line (joined more)) (behind (joined more)) more
          (fill max_bytes (buf ++ chunk) more)
          λ short.
            fill-read_from max_bytes (buf ++ chunk) more h.1
              (omega (arith, short, length-append buf chunk)))
]

-- However a stream is cut into chunks, a read gives what the bytes alone give, with what is left
-- of them: its first line, its end, or the error.
pub read_bounded_frame-read_text :
    (max_bytes : ℕ) (reader : Reader)
    → Flowing reader
    → forget_chunks (read_bounded_frame max_bytes reader) ≡ read_text max_bytes (joined reader)
unfolding read_bounded_frame read_text
read_bounded_frame-read_text max_bytes reader h = fill-read_from max_bytes [] reader h (omega arith)

not_oversize-finish : (t : Bool) (buf rest : Text) → finish t buf rest ≢ oversize
unfolding finish
not_oversize-finish t buf rest e = ground (arith, e)

not_oversize-at_end : (buf rest : Text) → at_end buf rest ≢ oversize
unfolding at_end
not_oversize-at_end buf rest e = ground (arith, e, not_oversize-finish false buf rest)

if_oversize :
    (b : Bool) (f : Frame Text) → (if b then oversize else f) ≡ oversize → f ≢ oversize → b ≡ true
if_oversize true f e n = refl
if_oversize false f e n = absurd (n e)

read_from-oversize :
    (max_bytes : ℕ) (text : Text) (o : Option Text)
    → read_from max_bytes text o ≡ oversize
    → max_bytes < length text
unfolding read_from
read_from-oversize max_bytes text none e =
    ltb→lt max_bytes (length text)
      (if_oversize (ltb max_bytes (length text)) (at_end text []) e (not_oversize-at_end text []))
read_from-oversize max_bytes text (some rest) e = ltb→lt max_bytes (length text) (
    if_oversize (ltb max_bytes (length text)) (finish true text rest) e
      (not_oversize-finish true text rest))

forget-oversize : (f : Frame Reader) → forget_chunks f ≡ oversize → f ≡ oversize
unfolding forget_chunks
forget-oversize (line text more) e = cc e
forget-oversize (ended more) e = cc e
forget-oversize (not_utf8 more) e = cc e
forget-oversize oversize e = refl
forget-oversize io_error e = cc e

-- A read of a flowing reader is refused as oversize when the bytes before the first newline, or before
-- the end, are more than the limit, and only then.
pub oversize_exactly :
    (max_bytes : ℕ) (reader : Reader)
    → Flowing reader
    → (read_bounded_frame max_bytes reader ≡ oversize)
      ↔ (max_bytes < length (first_line (joined reader)))
unfolding read_text forget_chunks
oversize_exactly max_bytes reader h = (
  λ e.
      read_from-oversize max_bytes (first_line (joined reader)) (behind (joined reader))
        (sym (read_bounded_frame-read_text max_bytes reader h) ∙ ap forget_chunks e),
  λ long. forget-oversize (read_bounded_frame max_bytes reader) (
      read_bounded_frame-read_text max_bytes reader h
      ∙ read_from-first_line max_bytes (first_line (joined reader)) (behind (joined reader)) long),
)
