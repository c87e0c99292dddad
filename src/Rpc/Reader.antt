-- ===== src/Rpc/Reader.antt =====
-- `read_bounded_frame` of src/rpc.rs, and the loop of `handle_node_stream` in src/node/mod.rs that
-- calls it. The buffered reader is the sequence of what its `fill_buf` answers; an answer without
-- bytes is the end of the stream, and so is the end of the sequence. A String is the list of its
-- UTF-8 bytes.
use mathlib.Core.Option
use higgs.Base.Text.{Text}
use higgs.Base.{
  drop, take, zero, string_eq, nat_eq, ◌==◌, length, if◌then◌else◌, leb, ltb, ◌++◌, ◌∷◌, [], List,
  some, none, Option, ◌&&◌, false, true, Bool, ◌+◌, suc, ℕ,
}

pub data Fill : Type 0 where
  bytes : Text → Fill
  broken : Fill

abbrev pub Reader : Type 0
Reader = List Fill

-- The io::Result of a read, with what is left of the reader; after `oversize` and `io_error` the
-- callers drop the stream.
pub data Frame {ℓ} (R : Type ℓ) : Type ℓ where
  line : Text → R → Frame R
  ended : R → Frame R
  not_utf8 : R → Frame R
  oversize io_error : Frame R

unfoldable pub is_empty : Text → Bool
is_empty [] = true
is_empty (_ ∷ _) = false

-- `iter().position(|&b| b == b'\n')`
unfoldable pub position : Text → Option ℕ
position [] = none
position (b ∷ rest) = if b == b'\n' then some 0 else Option.map suc (position rest)

-- AsyncBufRead::consume: what is not consumed of the answer stays buffered.
unfoldable pub buffered : Text → Reader → Reader
buffered [] more = more
buffered (b ∷ rest) more = bytes (b ∷ rest) ∷ more

unfoldable pub consume : ℕ → Text → Reader → Reader
unfolding drop buffered
consume n chunk more = buffered (drop n chunk) more

-- `buf.last() == Some(&b'\r')` and `buf.pop()`
unfoldable pub pop_cr : Text → Text
pop_cr [] = []
pop_cr (b ∷ []) = if b == b'\r' then [] else b ∷ []
pop_cr (b ∷ c ∷ rest) = b ∷ pop_cr (c ∷ rest)

-- Whether a byte can lead, how many bytes continue it, and the range of the first of them.
unfoldable pub lead : ℕ → Bool × ℕ × ℕ × ℕ
lead b =
    if ltb b 0x80
    then (true, 0, 0x80, 0xbf)
    else if leb 0xc2 b && leb b 0xdf
    then (true, 1, 0x80, 0xbf)
    else if b == 0xe0
    then (true, 2, 0xa0, 0xbf)
    else if b == 0xed
    then (true, 2, 0x80, 0x9f)
    else if leb 0xe1 b && leb b 0xef
    then (true, 2, 0x80, 0xbf)
    else if b == 0xf0
    then (true, 3, 0x90, 0xbf)
    else if leb 0xf1 b && leb b 0xf3
    then (true, 3, 0x80, 0xbf)
    else if b == 0xf4
    then (true, 3, 0x80, 0x8f)
    else (false, 0, 0x80, 0xbf)

-- The test of `String::from_utf8`, with `n` continuation bytes due, the first of them in a range.
unfoldable pub continues : ℕ → ℕ → ℕ → Text → Bool
unfolding lead
continues zero low high [] = true
continues (suc n) low high [] = false
continues zero low high (b ∷ rest) = let (leads, n, l, h) = lead b in leads && continues n l h rest
continues (suc n) low high (b ∷ rest) = leb low b && leb b high && continues n 0x80 0xbf rest

unfoldable pub is_utf8 : Text → Bool
unfolding continues
is_utf8 = continues 0 0x80 0xbf

-- After the loop: the CR of a CRLF goes, and the bytes become a String.
unfoldable pub finish {ℓ} : {R : Type ℓ} → Bool → Text → R → Frame R
unfolding is_utf8 pop_cr
finish terminated buf reader =
    let text = if terminated then pop_cr buf else buf in
    if is_utf8 text then line text reader else not_utf8 reader

unfoldable pub at_end {ℓ} : {R : Type ℓ} → Text → R → Frame R
unfolding finish is_empty
at_end buf reader = if is_empty buf then ended reader else finish false buf reader

-- A chunk with bytes: `next` is the loop on the chunks behind it.
unfoldable pub take_chunk : ℕ → Text → Text → Reader → Frame Reader → Option ℕ → Frame Reader
unfolding finish consume take
take_chunk max_bytes buf chunk more next (some pos) =
    if ltb max_bytes (length buf + pos)
    then oversize
    else finish true (buf ++ take pos chunk) (consume (suc pos) chunk more)
take_chunk max_bytes buf chunk more next none =
    if ltb max_bytes (length buf + length chunk) then oversize else next

-- The loop, from what is in `buf`.
unfoldable pub fill : ℕ → Text → Reader → Frame Reader
unfolding at_end is_empty take_chunk position
fill max_bytes buf [] = at_end buf []
fill max_bytes buf (broken ∷ more) = io_error
fill max_bytes buf (bytes chunk ∷ more) =
    let next = fill max_bytes (buf ++ chunk) more in
    if is_empty chunk
    then at_end buf more
    else take_chunk max_bytes buf chunk more next (position chunk)

unfoldable pub read_bounded_frame : ℕ → Reader → Frame Reader
unfolding fill
read_bounded_frame max_bytes reader = fill max_bytes [] reader

-- `while let Ok(Some(line)) = ...`, the lines that the loop sees, on fuel.
unfoldable pub read_lines : ℕ → ℕ → Reader → List Text
read_lines zero max_bytes reader = []
read_lines (suc fuel) max_bytes reader = elim (read_bounded_frame max_bytes reader) [
  | line text rest ↦ text ∷ read_lines fuel max_bytes rest
  | _ ↦ []
]
