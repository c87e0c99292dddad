-- ===== src/Rpc/Delivery.antt =====
-- What one side writes as lines, the other side reads as the same lines.
use higgs.Base.Text.{Text}
use higgs.Base.{
  drop, take, absurd_bool, All, ◌∙◌, ap, ◌<◌, zero, length, arith, ◌++◌, ◌∷◌, [], List, some, none,
  Option, false, true, Bool, refl, ◌≡◌, ◌≤◌, suc, ℕ,
}
use higgs.Rpc.Reader.{
  read_lines, read_bounded_frame, fill, take_chunk, at_end, finish, is_utf8, pop_cr, consume,
  buffered, position, io_error, oversize, not_utf8, line, Frame, Reader, broken, bytes, is_empty,
  ended,
}
use higgs.Rpc.Lines.{
  read_bounded_frame-read_text, forget_chunks, joined, read_text, read_from, Flowing, flows, behind,
  first_line,
}

-- Each line with its newline, as the writers send them.
unfoldable pub wire : List Text → Text
wire [] = []
wire (text ∷ lines) = text ++ b'\n' ∷ wire lines

-- A line that a sender may write: text without a newline, not over the limit, without a CR at its end.
pub record Sendable (max_bytes : ℕ) (text : Text) : Type 0 where
  pub one_line : behind text ≡ none
  pub short : length text ≤ max_bytes
  pub no_cr : pop_cr text ≡ text
  pub valid : is_utf8 text ≡ true

first_line-line : (text rest : Text) → behind text ≡ none → first_line (text ++ b'\n' ∷ rest) ≡ text
unfolding first_line behind
first_line-line [] rest h = refl
first_line-line (b ∷ text) rest h = ground (arith, first_line-line text rest)

behind-line : (text rest : Text) → behind text ≡ none → behind (text ++ b'\n' ∷ rest) ≡ some rest
unfolding behind
behind-line [] rest h = refl
behind-line (b ∷ text) rest h = ground (arith, behind-line text rest)

read_text-line :
    (max_bytes : ℕ) (text rest : Text)
    → Sendable max_bytes text
    → read_text max_bytes (text ++ b'\n' ∷ rest) ≡ line text rest
unfolding read_text read_from finish
read_text-line max_bytes text rest s =
    rw (first_line-line text rest s.one_line, behind-line text rest s.one_line, s.no_cr, s.valid)
      ground (arith, s.short)

-- What a read leaves of a flowing reader flows.
Leaves : Frame Reader → Type 0
Leaves (line _ more) = Flowing more
Leaves (ended more) = Flowing more
Leaves (not_utf8 more) = Flowing more
Leaves oversize = Unit
Leaves io_error = Unit

Leaves-finish : (t : Bool) (buf : Text) (more : Reader) → Flowing more → Leaves (finish t buf more)
unfolding finish Leaves
Leaves-finish t buf more h = ground (arith, h)

Leaves-at_end : (buf : Text) (more : Reader) → Flowing more → Leaves (at_end buf more)
unfolding at_end Leaves
Leaves-at_end buf more h = ground (arith, h, Leaves-finish false buf more h)

Flowing-buffered : (rest : Text) (more : Reader) → Flowing more → Flowing (buffered rest more)
unfolding Flowing buffered flows is_empty
Flowing-buffered [] more h = h
Flowing-buffered (b ∷ rest) more h = (refl, h)

Leaves-take_chunk :
    (max_bytes : ℕ) (buf chunk : Text) (more : Reader) (next : Frame Reader) (o : Option ℕ)
    → Flowing more
    → Leaves next
    → Leaves (take_chunk max_bytes buf chunk more next o)
unfolding take_chunk Leaves consume
Leaves-take_chunk max_bytes buf chunk more next none h l = ground (arith, l)
Leaves-take_chunk max_bytes buf chunk more next (some pos) h l = ground (
  arith,
  Leaves-finish true (buf ++ take pos chunk) (consume (suc pos) chunk more)
      (Flowing-buffered (drop (suc pos) chunk) more h),
)

Leaves-fill :
    (max_bytes : ℕ) (buf : Text) (reader : Reader)
    → Flowing reader
    → Leaves (fill max_bytes buf reader)
unfolding fill Leaves Flowing
Leaves-fill max_bytes buf [] h = Leaves-at_end buf [] h
Leaves-fill max_bytes buf (broken ∷ more) h = tt
Leaves-fill max_bytes buf (bytes chunk ∷ more) h = ground (
  arith,
  Leaves-at_end buf more h.1,
  Leaves-take_chunk max_bytes buf chunk more (fill max_bytes (buf ++ chunk) more) (position chunk)
      h.1 (Leaves-fill max_bytes (buf ++ chunk) more h.1),
)

-- The frame of a read whose bytes are known.
data IsLine (text rest : Text) (frame : Frame Reader) : Type 0 where
  is_line :
      (more : Reader)
      → frame ≡ line text more
      → joined more ≡ rest
      → Flowing more
      → IsLine text rest frame

IsLine-forget :
    (text rest : Text) (frame : Frame Reader)
    → forget_chunks frame ≡ line text rest
    → Leaves frame
    → IsLine text rest frame
unfolding forget_chunks Leaves
IsLine-forget text rest (line t more) e l = is_line more (ground (arith, e)) (ground (arith, e)) l
IsLine-forget text rest (ended more) e l = cc e
IsLine-forget text rest (not_utf8 more) e l = cc e
IsLine-forget text rest oversize e l = cc e
IsLine-forget text rest io_error e l = cc e

read-IsLine :
    (max_bytes : ℕ) (text rest : Text) (reader : Reader)
    → Flowing reader
    → joined reader ≡ text ++ b'\n' ∷ rest
    → Sendable max_bytes text
    → IsLine text rest (read_bounded_frame max_bytes reader)
unfolding read_bounded_frame
read-IsLine max_bytes text rest reader h e s =
    IsLine-forget text rest (read_bounded_frame max_bytes reader)
      (read_bounded_frame-read_text max_bytes reader h
        ∙ rw e (read_text-line max_bytes text rest s))
      (Leaves-fill max_bytes [] reader h)

no_bytes_ended :
    (max_bytes : ℕ) (reader : Reader)
    → Flowing reader
    → joined reader ≡ []
    → read_bounded_frame max_bytes reader ≡ ended []
unfolding read_bounded_frame fill at_end is_empty joined Flowing flows
no_bytes_ended max_bytes [] h e = refl
no_bytes_ended max_bytes (broken ∷ more) h e = absurd_bool h.0
no_bytes_ended max_bytes (bytes [] ∷ more) h e = absurd_bool h.0
no_bytes_ended max_bytes (bytes (b ∷ chunk) ∷ more) h e = cc e

-- Lines that a sender writes arrive as they were written, and no others, however the bytes are cut into
-- chunks: no line is empty of meaning to the reader, split or joined with the next.
pub read_lines-wire :
    (max_bytes fuel : ℕ) (lines : List Text) (reader : Reader)
    → Flowing reader
    → joined reader ≡ wire lines
    → All (Sendable max_bytes) lines
    → length lines < fuel
    → read_lines fuel max_bytes reader ≡ lines
unfolding read_lines wire
read_lines-wire max_bytes zero lines reader h e s f = ground (arith, f)
read_lines-wire max_bytes (suc fuel) [] reader h e s f =
    rw (read_lines, no_bytes_ended max_bytes reader h e) refl
read_lines-wire max_bytes (suc fuel) (text ∷ lines) reader h e s f =
    elim (read-IsLine max_bytes text (wire lines) reader h e s.0) [
      | is_line more q j l ↦
          rw (read_lines, q)
            (ap (λ x. text ∷ x)
              (read_lines-wire max_bytes fuel lines more l j s.1 (omega (arith, f))))
    ]
