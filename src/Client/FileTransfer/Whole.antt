-- ===== src/Client/FileTransfer/Whole.antt =====
-- A whole file of client/handlers/file.py: from the upload over one connection to the download.
use chat_terminal.Common.{
  ℕ, zero, suc, ◌+◌, ◌<◌, ◌≡◌, refl, sym, ap, ◌∙◌, subst, String, Option, none, some, true, List,
  [], ◌∷◌, ◌++◌, arith, append_assoc, append-nil, length, ltb, bytes_eq,
}
use chat_terminal.Common.Dict.{Dict}
use chat_terminal.Client.FileCrypto.{Bytes}
use chat_terminal.Client.FileTable.{FileRow}
use chat_terminal.Client.FileTransfer.{Suite, upload_frame, receive_chunks, reassemble, chunks_of}
use chat_terminal.Client.FileTransfer.Uploads.{
  Upload, AttemptEnd, returned, upload_from, attempt, upload_chunks, parse_have, strip_bytes,
  lstrip, rstrip, is_blank, after_prefix, split_commas, indices, wrote, acknowledged,
}
use chat_terminal.Client.FileTransfer.Pieces.{numbered, reassemble-numbered, join-chunks_of}
use chat_terminal.Client.FileTransfer.Frames.{GoodSuite, Fits, frames, after_frame, receive-frames}
use chat_terminal.Shared.Text.{strip}
use chat_terminal.Server.Tcp.{codes}

-- The lines of a server that acknowledges so many chunks and says that it is done
abbrev pub replies : ℕ → List Bytes
replies zero = codes "DONE\n" ∷ []
replies (suc n) = codes "ACK\n" ∷ replies n

after_frame-some :
    (x y : Option Bytes) (bytes : Bytes)
    → after_frame x y ≡ some bytes
    → (a : Bytes) × (b : Bytes) × (x ≡ some a) × (y ≡ some b) × (bytes ≡ a ++ b)
after_frame-some (some a) (some b) bytes h = (a, b, refl, refl, cc)
after_frame-some none y bytes h = absurd (cc h)
after_frame-some (some a) none bytes h = absurd (cc h)

module _ (suite : Suite) (file_id : String) (key : Bytes) where
  -- An upload over which nothing goes wrong
  Uploaded : ℕ → Bytes → Upload → AttemptEnd × Upload → Type 0
  Uploaded n bytes u (end, u') =
      (end ≡ returned) × (u'.written ≡ u.written ++ bytes) × (u'.sent ≡ u.sent + n)

  end_step :
      (index : ℕ) (u : Upload)
      → upload_from suite file_id key [] index [] (codes "DONE\n" ∷ []) u ≡ (returned, u)
  unfolding upload_from strip_bytes lstrip rstrip is_blank
  end_step index u = refl

  chunk_step :
      (index : ℕ) (c bytes : Bytes) (chunks lines : List Bytes) (u : Upload)
      → upload_frame suite u.drawn index c key ≡ some bytes
      → upload_from suite file_id key [] index (c ∷ chunks) (codes "ACK\n" ∷ lines) u
        ≡ upload_from suite file_id key []
            (suc index)
            chunks
            lines
            (acknowledged file_id (wrote bytes u))
  unfolding upload_from strip_bytes lstrip rstrip is_blank
  chunk_step index c bytes chunks lines u h = rw (h, upload_from) refl

  upload_from_all :
      (chunks : List Bytes) (index : ℕ) (bytes : Bytes) (u : Upload)
      → frames suite key u.drawn index chunks ≡ some bytes
      → Uploaded
          (length chunks)
          bytes
          u
          (upload_from suite file_id key [] index chunks (replies (length chunks)) u)
  unfolding Uploaded
  upload_from_all [] index bytes u h =
      let none_written : [] ≡ bytes = cc h in
      subst (Uploaded 0 bytes u) (sym (end_step index u))
        (refl, sym (append-nil u.written) ∙ ap (λ b. u.written ++ b) none_written, omega arith)
  upload_from_all (c ∷ chunks) index bytes u h =
      let (first, rest, e, later, whole) =
        after_frame-some (upload_frame suite u.drawn index c key)
          (frames suite key (u.drawn + 1) (suc index) chunks) bytes h in
      let u' = acknowledged file_id (wrote first u) in
      let (end, written, sent) = upload_from_all chunks (suc index) rest u' later in
      subst (Uploaded (suc (length chunks)) bytes u)
        (sym (chunk_step index c first chunks (replies (length chunks)) u e))
        (
          end,
          written ∙ append_assoc u.written first rest ∙ ap (λ b. u.written ++ b) (sym whole),
          omega (arith, sent),
        )

have_nothing :
    (suite : Suite)
    → suite.decode (codes "HAVE \n") ≡ some "HAVE \n"
    → parse_have suite (codes "HAVE \n") ≡ some []
unfolding parse_have indices split_commas after_prefix strip
have_nothing suite d = rw (d, parse_have) refl

abbrev pub fresh : Upload → Upload
fresh u = record u { written = []; sent = 0 }

abbrev pub connection : ℕ → List (Option (List Bytes))
connection n = some (codes "HAVE \n" ∷ replies n) ∷ []

module _ (suite : Suite) (file_id : String) (key : Bytes) (chunks : List Bytes) where
  attempt_step :
      (lines : List Bytes) (u : Upload)
      → suite.decode (codes "HAVE \n") ≡ some "HAVE \n"
      → attempt suite file_id key chunks (codes "HAVE \n" ∷ lines) u
        ≡ upload_from suite file_id key [] 0 chunks lines (fresh u)
  unfolding attempt
  attempt_step lines u d = rw (have_nothing suite d, attempt) refl

  returned_step :
      (left total : ℕ) (lines : List Bytes) (u : Upload)
      → ltb u.sent total ≡ true
      → (attempt suite file_id key chunks lines u).0 ≡ returned
      → upload_chunks suite file_id key chunks total (suc left) (some lines ∷ []) u
        ≡ (true, (attempt suite file_id key chunks lines u).1)
  unfolding upload_chunks
  returned_step left total lines u more e = rw (e, upload_chunks, more) refl

-- Over a connection that knows no chunk, acknowledges each and then says that it is done, a file of any
-- chunk size but zero, whose chunks fit into frames, is uploaded in the first attempt, under a key of
-- 32 bytes. What is written behind the file's id, read as a download of so many chunks under the same
-- key, gives chunks that are put together to the file.
pub receive_chunks-upload_chunks :
    (suite : Suite) (file_id : String) (key raw : Bytes) (size left : ℕ) (u : Upload)
    (files : List FileRow)
    → GoodSuite suite
    → suite.decode (codes "HAVE \n") ≡ some "HAVE \n"
    → length key ≡ 32
    → 0 < size
    → Fits 0 (chunks_of size raw)
    → u.sent < length (chunks_of size raw)
    → let n = length (chunks_of size raw) in
      (u' : Upload) × (chunks : Dict ℕ Bytes) × (upload_chunks suite file_id key
          (chunks_of size raw)
          n
          (suc left)
          (connection n)
          u
        ≡ (true, u'))
      × (u'.sent ≡ n)
      × ((receive_chunks suite file_id key n [] u'.written files).0 ≡ some chunks)
      × (reassemble chunks ≡ raw)
unfolding Uploaded
receive_chunks-upload_chunks suite file_id key raw size left u files good d lk hs fit more =
    let cs = chunks_of size raw in
    let (bytes, wrote, got) =
      receive-frames suite good key lk file_id cs [] u.drawn 0 files fit (omega arith) in
    let lines = codes "HAVE \n" ∷ replies (length cs) in
    let result = attempt suite file_id key cs lines u in
    let (end, written, sent) =
      subst (Uploaded suite file_id key (length cs) bytes (fresh u))
        (sym (attempt_step suite file_id key cs (replies (length cs)) u d))
        (upload_from_all suite file_id key cs 0 bytes (fresh u) wrote) in
    (
      result.1,
      numbered 0 cs,
      returned_step suite file_id key cs left (length cs) lines u (ground (arith, more)) end,
      omega (arith, sent),
      ap (λ w. (receive_chunks suite file_id key (length cs) [] w files).0) written ∙ got,
      reassemble-numbered cs ∙ join-chunks_of size raw hs,
    )
