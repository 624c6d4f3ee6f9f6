-- ===== src/Proxy/Tests.antt =====
-- Runs of the copy and of the chunked framing of internal/proxy/mitm.go, and their theorems at
-- concrete responses.
use langley.Proxy.Headers.{Header}
use langley.Prelude.{◌≡◌, refl, true, List, [], ◌∷◌, ◌++◌, some, arith, Bytes, codes}
use langley.Proxy.Capture.{write, copy_chunks, copy_body}
use langley.Proxy.Capture.Copied.{copy_body_cut}
use langley.Proxy.Chunked.{write_all, write_chunk, format_hex}
use langley.Proxy.Chunked.Decoded
use langley.Proxy.Chunked.Decoded.{read_chunks, read_chunks-write_all}

program : Unit {0}
unfolding write copy_chunks copy_body write_all write_chunk format_hex
program = tt

abbrev chunks : List Bytes
chunks = codes "hello " ∷ codes "wide " ∷ codes "world" ∷ []

-- at a limit of 8 bytes the last chunk does not reach the client
cut_copy : (copy_body 8 chunks).client ≡ codes "hello wide "
unfolding program
cut_copy = refl

-- at a limit where a chunk ends it does
whole_copy : (copy_body 6 chunks).client ≡ codes "hello wide world"
unfolding program
whole_copy = refl

framing :
    write_all (codes "hello world, hello" ∷ [])
    ≡ codes "12"
      ++ 13 ∷ 10 ∷ codes "hello world, hello"
      ++ 13 ∷ 10 ∷ codes "0"
      ++ 13 ∷ 10 ∷ 13 ∷ 10 ∷ []
unfolding program
framing = refl

copy_body_cut_example :
    ((copy_body 8 chunks).client ≡ codes "hello wide ") × ((copy_body 8 chunks).failed ≡ true)
copy_body_cut_example =
    copy_body_cut 8 (codes "hello " ∷ []) (codes "world" ∷ []) b'w' (codes "ide ") (omega arith)
      (omega arith)

read_chunks-write_all_example :
    read_chunks 4 (write_all chunks ++ codes "next") ≡ some (Decoded.concat chunks, codes "next")
read_chunks-write_all_example = read_chunks-write_all chunks 4 (codes "next") (omega arith)

abbrev three_headers : Header
three_headers =
    (codes "Connection", codes "close, X-Trace" ∷ [])
    ∷ (codes "X-Trace", codes "1" ∷ [])
    ∷ (codes "Accept", codes "*/*" ∷ [])
    ∷ []
