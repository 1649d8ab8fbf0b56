-- ===== src/Client/FileTransfer.antt =====
-- client/handlers/file.py: how a file is cut into chunks, the frame of a chunk, and how a file
-- is put together from a download, which is the list of the bytes that will be read.
use Prim.Native.Char.{code}
use Prim.Native.Char.{Char}
pub mod Pieces
pub mod Uploads
pub mod Frames
pub mod Whole
use chat_terminal.Common.{
  ℕ, zero, suc, ◌+◌, ◌-◌, ◌^◌, String, Bool, true, false, not, ◌&&◌, ◌||◌, Option, none, some, List,
  [], ◌∷◌, ◌++◌, nat_eq, ◌==◌, bytes_eq, bytes_beq, nat_beq, ltb, leb, length, take, drop,
  exists_row, if◌then◌else◌,
}
use chat_terminal.Common.Dict.{Dict, insert}
use chat_terminal.Shared.Text.{strip, is_empty}
use chat_terminal.Client.FileCrypto.{Bytes, Aead, encrypt_chunk, decrypt_chunk}
use chat_terminal.Client.FileTable.{FileRow, update_file}
use chat_terminal.Server.Tcp.{pack32, unpack32, codes}

-- 512 * 1024
abbrev pub chunk_size : ℕ
chunk_size = 524288

-- `[raw[offset : offset + size] for offset in range(0, len(raw), size)]`, where the fuel is no smaller than
-- the number of bytes
unfoldable pub pieces : ℕ → ℕ → Bytes → List Bytes
pieces size zero raw = []
pieces size (suc fuel) [] = []
pieces size (suc fuel) (b ∷ raw) = take size (b ∷ raw) ∷ pieces size fuel (drop size (b ∷ raw))

abbrev or_one_empty : List Bytes → List Bytes
or_one_empty [] = [] ∷ []
or_one_empty (c ∷ chunks) = c ∷ chunks

-- The chunks of `send` and `resume_send`: an empty file has one, which is empty.
unfoldable pub chunks_of : ℕ → Bytes → List Bytes
unfolding pieces
chunks_of size raw = or_one_empty (pieces size (length raw) raw)

-- What comes from the cryptographic library and the codecs. `nonce n` is the n-th that is drawn.
pub record Suite : Type 0 where
  pub aead : Aead
  pub sha256_hex : Bytes → Bytes
  pub nonce : ℕ → Bytes
  -- `bytes.decode()` and `int(s)`, which may raise
  pub decode : Bytes → Option String
  pub int_of : String → Option ℕ

-- What is written for one chunk: index, length, checksum, and the nonce, the tag and the ciphertext. `none`
-- stands for the ValueError and the struct.error.
unfoldable pub upload_frame : Suite → ℕ → ℕ → Bytes → Bytes → Option Bytes
unfolding pack32
upload_frame suite drawn index plain key =
    elim (encrypt_chunk suite.aead (suite.nonce drawn) plain key) [
      | none ↦ none
      | some (ciphertext, nonce, tag) ↦
          let payload = nonce ++ (tag ++ ciphertext) in
          if leb (2 ^ 32) index || leb (2 ^ 32) (length payload)
          then none
          else some
              (pack32 index ++ (pack32 (length payload) ++ (suite.sha256_hex plain ++ payload)))
    ]

-- One round of `receive`: an index and the plaintext, and the bytes behind. `none` stands for an
-- exception. A checksum that is no ASCII raises, as it would for not being the hash.
unfoldable pub read_chunk : Suite → Bytes → Bytes → Option ((ℕ × Bytes) × Bytes)
unfolding unpack32
read_chunk suite key input =
    let size = unpack32 (drop 4 input) in
    let rest = drop 72 input in
    let payload = take size rest in
    if ltb (length input) 72 || ltb (length rest) size
    then none
    else elim (decrypt_chunk suite.aead (drop 28 payload) (take 12 payload)
        (take 16 (drop 12 payload)) key) [
          | none ↦ none
          | some plain ↦
              if bytes_beq (suite.sha256_hex plain) (take 64 (drop 8 input))
              then some ((unpack32 input, plain), drop size rest)
              else none
        ]

-- The loop of `receive` over so many chunks. The table is left as it was when the loop raises, up to the count of
-- the chunks that came before.
unfoldable pub receive_chunks :
    Suite
    → String
    → Bytes
    → ℕ
    → Dict ℕ Bytes
    → Bytes
    → List FileRow
    → Option (Dict ℕ Bytes) × List FileRow
unfolding read_chunk
receive_chunks suite file_id key zero chunks input files = (some chunks, files)
receive_chunks suite file_id key (suc more) chunks input files = elim (read_chunk suite key input) [
  | none ↦ (none, files)
  | some ((index, plain), rest) ↦
      let chunks' = insert index plain chunks in
      receive_chunks suite file_id key more chunks' rest
        (update_file file_id (λ r. record r { received_chunks = length chunks' }) files)
]

insert_sorted : ℕ × Bytes → Dict ℕ Bytes → Dict ℕ Bytes
insert_sorted (i, c) [] = (i, c) ∷ []
insert_sorted (i, c) ((j, d) ∷ rest) =
    let later = insert_sorted (i, c) rest in
    if leb i j then (i, c) ∷ (j, d) ∷ rest else (j, d) ∷ later

by_index : Dict ℕ Bytes → Dict ℕ Bytes
unfolding insert_sorted
by_index [] = []
by_index (c ∷ chunks) = insert_sorted c (by_index chunks)

abbrev joined : Dict ℕ Bytes → Bytes
joined [] = []
joined ((i, c) ∷ chunks) = c ++ joined chunks

-- `b"".join(chunks[i] for i in sorted(chunks))`
unfoldable pub reassemble : Dict ℕ Bytes → Bytes
unfolding by_index
reassemble chunks = joined (by_index chunks)
