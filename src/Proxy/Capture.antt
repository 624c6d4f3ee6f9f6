-- ===== src/Proxy/Capture.antt =====
-- limitedBuffer of internal/proxy/mitm.go, and the copy of a response to the client beside it:
-- io.Copy into io.MultiWriter(client, limitedBuffer). The client's connection accepts all.
pub mod Copied
use langley.Prelude.{
  ℕ, ◌+◌, ◌-◌, Bool, true, false, List, [], ◌∷◌, ◌++◌, Bytes, ltb, leb, ◌==◌, if◌then◌else◌, length,
  take,
}

pub record LimitedBuffer : Type 0 where
  pub buf : Bytes
  pub max : ℕ
  pub truncated : Bool

abbrev pub new_buffer : ℕ → LimitedBuffer
new_buffer max = record { buf = []; max = max; truncated = false }

-- Write: the buffer, and the number of bytes that it reports
unfoldable pub write : LimitedBuffer → Bytes → LimitedBuffer × ℕ
write l p =
    if leb l.max (length l.buf)
    then (record l { truncated = true }, length p)
    else let remaining = l.max - length l.buf in
      if ltb remaining (length p)
      then (
        record l { buf = l.buf ++ take remaining p; truncated = true },
        length (take remaining p),
      )
      else (record l { buf = l.buf ++ p }, length p)

-- what the copy has done: the bytes at the client, the buffer, and whether it ended in an error
pub record Copy : Type 0 where
  pub client : Bytes
  pub capture : LimitedBuffer
  pub failed : Bool

-- io.Copy over the chunks that the reader returns. MultiWriter writes a chunk to the client and
-- then to the buffer; a count below the chunk's length is io.ErrShortWrite, which ends the copy.
-- A read of no bytes is not written.
unfoldable pub copy_chunks : Bytes → LimitedBuffer → List Bytes → Copy
copy_chunks client l [] = record { client = client; capture = l; failed = false }
copy_chunks client l ([] ∷ ps) = copy_chunks client l ps
copy_chunks client l ((c ∷ p) ∷ ps) =
    let (m, n) = write l (c ∷ p) in
    let rest = copy_chunks (client ++ c ∷ p) m ps in
    let stopped : Copy = record { client = client ++ c ∷ p; capture = m; failed = true } in
    if n == length (c ∷ p) then rest else stopped

unfoldable pub copy_body : ℕ → List Bytes → Copy
copy_body max chunks = copy_chunks [] (new_buffer max) chunks
