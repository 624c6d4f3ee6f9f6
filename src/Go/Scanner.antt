-- ===== src/Go/Scanner.antt =====
-- bufio.Scanner over ScanLines, as internal/parser/sse.go uses it: the lines of a stream without
-- their line ends, up to a line that does not fit in the buffer.
use langley.Prelude.{
  ℕ, Bool, true, false, List, [], ◌∷◌, Bytes, leb, ◌==◌, if◌then◌else◌, length, is_empty,
}
use langley.Go.Strings.{split_on}

-- a carriage return at the end of a line is dropped
unfoldable pub drop_cr : Bytes → Bytes
drop_cr [] = []
drop_cr (c ∷ []) = if c == 13 then [] else c ∷ []
drop_cr (c ∷ d ∷ s) = c ∷ drop_cr (d ∷ s)

-- the lines that are scanned, and whether a line was too long
abbrev pub Scanned : Type 0
Scanned = List Bytes × Bool

-- the parts between line feeds; the last part, which no line feed ends, is a line at the end of the
-- stream if it is not empty
unfoldable pub scan_parts : ℕ → Bool → List Bytes → Scanned
unfolding drop_cr
scan_parts max at_end [] = ([], false)
scan_parts max at_end (p ∷ []) =
    if leb max (length p)
    then ([], true)
    else if is_empty p
    then ([], false)
    else (if at_end then drop_cr p ∷ [] else [], false)
scan_parts max at_end (p ∷ q ∷ ps) =
    let (lines, too_long) = scan_parts max at_end (q ∷ ps) in
    if leb max (length p) then ([], true) else (drop_cr p ∷ lines, too_long)

unfoldable pub scan_lines : ℕ → Bool → Bytes → Scanned
unfolding scan_parts
scan_lines max at_end s = scan_parts max at_end (split_on 10 s)
