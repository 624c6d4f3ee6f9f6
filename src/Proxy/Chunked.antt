-- ===== src/Proxy/Chunked.antt =====
-- chunkedWriter of internal/proxy/mitm.go: HTTP/1.1 chunked framing of a stream of writes. A write
-- gives the bytes that go to the connection, which accepts them all.
pub mod Decoded
use langley.Prelude.{
  ℕ, zero, suc, ◌/◌, ◌%◌, List, [], ◌∷◌, ◌++◌, Bytes, codes, ltb, ◌==◌, if◌then◌else◌, length,
  get_or,
}
use langley.Go.Strings.{hex_digits}

-- fmt's %x of a length
unfoldable pub hex_loop : ℕ → ℕ → Bytes → Bytes
hex_loop zero n result = result
hex_loop (suc k) n result =
    let more = hex_loop k (n / 16) (get_or hex_digits (n % 16) 0 ∷ result) in
    if ltb 0 n then more else result

abbrev pub crlf : Bytes
crlf = 13 ∷ 10 ∷ []

unfoldable pub format_hex : ℕ → Bytes
unfolding hex_loop
format_hex n = if n == 0 then codes "0" else hex_loop n n []

-- Write
unfoldable pub write_chunk : Bytes → Bytes
write_chunk [] = []
write_chunk (c ∷ p) = format_hex (length (c ∷ p)) ++ (crlf ++ ((c ∷ p) ++ crlf))

-- Close
abbrev pub close_chunks : Bytes
close_chunks = codes "0" ++ (crlf ++ crlf)

-- the connection's bytes after some writes and Close
unfoldable pub write_all : List Bytes → Bytes
write_all [] = close_chunks
write_all (p ∷ ps) = write_chunk p ++ write_all ps
