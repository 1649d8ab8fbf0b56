-- ===== src/Client/FileHandler/Offers.antt =====
-- The records of transfers, and a file that is sent and received, of client/handlers/file.py.
use chat_terminal.Common.{
  ℕ, ◌<◌, ◌≡◌, refl, ap, ◌∙◌, arith, String, true, false, Option, none, some, List, [], ◌∷◌, length,
  string_eq, beq_refl, ◌==◌, if◌then◌else◌,
}
use chat_terminal.Common.Dict.{Dict, lookup, insert, lookup-insert}
use chat_terminal.Common.Exec.{ok}
use chat_terminal.Shared.Text.{is_empty}
use chat_terminal.Client.World.{World, Env}
use chat_terminal.Client.FileCrypto.{Bytes}
use chat_terminal.Client.FileTable.{FileRow, pending, overwrite, save_file, get_file}
use chat_terminal.Client.FileTransfer.{chunk_size, chunks_of, receive_chunks, reassemble}
use chat_terminal.Client.FileTransfer.Uploads.{Upload, upload_chunks}
use chat_terminal.Client.FileTransfer.Frames.{GoodSuite, Fits}
use chat_terminal.Client.FileTransfer.Whole.{connection, receive_chunks-upload_chunks}
use chat_terminal.Client.FileHandler.{Relay, Meta, destination, downloaded, receive}
use chat_terminal.Server.Tcp.{codes}

abbrev pub saved : FileRow → Option FileRow → Option FileRow
saved row none = some (record row { received_chunks = 0; complete = pending })
saved row (some old) = some (overwrite row old)

-- After a record is saved, there is one with its identity: a new one, without chunks and not
-- complete, or the old one with all that the new one says in its place, its direction, path and key
-- as well, except for the chunks received and the completion. The others are as they were.
pub get_file-save_file :
    (row : FileRow) (rows : List FileRow) (id : String)
    → get_file id (save_file row rows)
      ≡ (if row.id == id then saved row (get_file id rows) else get_file id rows)
unfolding get_file save_file
get_file-save_file row [] id = refl
get_file-save_file row (r ∷ rows) id = ground (
  arith,
  string_eq.decides row.id id,
  string_eq.decides r.id row.id,
  string_eq.decides r.id id,
  get_file-save_file row rows id,
)

downloaded_lem :
    (relay : Relay) (file_id : String) (key : Bytes) (total : ℕ) (w : World) (chunks : Dict ℕ Bytes)
    → (receive_chunks relay.suite file_id key total [] relay.download w.files).0 ≡ some chunks
    → downloaded relay file_id key total w ≡ (
      ok chunks,
      record w {
        files = (receive_chunks relay.suite file_id key total [] relay.download w.files).1;
      },
    )
unfolding downloaded
downloaded_lem relay file_id key total w chunks got = rw (got, downloaded) refl

receive_lem :
    (env : Env) (relay : Relay) (file_id : String) (m : Meta) (w : World) (key : Bytes)
    (chunks : Dict ℕ Bytes)
    → is_empty m.file_key ≡ false
    → env.suite.b64decode m.file_key ≡ some key
    → (receive_chunks relay.suite file_id key m.total_chunks [] relay.download w.files).0
      ≡ some chunks
    → ((receive env relay file_id m w).0 ≡ ok (destination env m))
      × ((receive env relay file_id m w).1.downloads
          ≡ insert (destination env m) (reassemble chunks) w.downloads)
unfolding receive
receive_lem env relay file_id m w key chunks there decoded got =
    let loop = downloaded_lem relay file_id key m.total_chunks w chunks got in
    (rw (there, decoded, loop) refl, rw (there, decoded, loop) refl)

-- A file is uploaded over a connection on which the server knows no chunk, acknowledges each, and then
-- says that it is done. Whoever receives it with the same key, the offer's number of chunks, and what was
-- written as the download, is told where it is, and there is the file, whatever the offer's name
-- for it. The key has 32 bytes, each chunk fits into a frame, and the ciphers, hashes and texts are what the
-- code relies on.
pub receive-upload_chunks :
    (env : Env) (relay : Relay) (file_id : String) (m : Meta) (w : World) (u : Upload)
    (key raw : Bytes)
    → GoodSuite relay.suite
    → relay.suite.decode (codes "HAVE \n") ≡ some "HAVE \n"
    → length key ≡ 32
    → Fits 0 (chunks_of chunk_size raw)
    → u.sent < length (chunks_of chunk_size raw)
    → is_empty m.file_key ≡ false
    → env.suite.b64decode m.file_key ≡ some key
    → m.total_chunks ≡ length (chunks_of chunk_size raw)
    → let n = length (chunks_of chunk_size raw) in
      (u' : Upload) × (upload_chunks relay.suite file_id key
          (chunks_of chunk_size raw)
          n
          3
          (connection n)
          u
        ≡ (true, u'))
      × ((receive env (record relay { download = u'.written }) file_id m w).0
          ≡ ok (destination env m))
      × (lookup
            (destination env m)
            (receive env (record relay { download = u'.written }) file_id m w).1.downloads
          ≡ some raw)
receive-upload_chunks env relay file_id m w u key raw good d lk fit more there decoded total =
    let (u', chunks, uploaded, _, got, whole) =
      receive_chunks-upload_chunks relay.suite file_id key raw chunk_size 2 u w.files good d lk
        (omega arith) fit more in
    let (told, kept) =
      receive_lem env (record relay { download = u'.written }) file_id m w key chunks there decoded
        (ap (λ n. (receive_chunks relay.suite file_id key n [] u'.written w.files).0) total
          ∙ got) in
    (
      u',
      uploaded,
      told,
      ap (lookup (destination env m)) kept
          ∙ lookup-insert (destination env m) (destination env m) (reassemble chunks) w.downloads
          ∙ rw (beq_refl (destination env m)) (ap some whole),
    )
