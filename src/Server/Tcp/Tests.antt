-- ===== src/Server/Tcp/Tests.antt =====
-- Witnesses of the TCP server.
use chat_terminal.Common.{
  String, ◌≡◌, refl, none, some, [], ◌∷◌, ◌++◌, string_eq, bytes_eq, bytes_beq_iff, eq_iff, ◌==◌,
  arith, if◌then◌else◌,
}
use chat_terminal.Common.Dict.{lookup}
use chat_terminal.Shared.Text.{strip}
use chat_terminal.Server.World.{World, Chunk}
use chat_terminal.Server.World.Samples.{env, world, report, first_chunk}
use chat_terminal.Server.Files.{Bytes, get_chunk}
use chat_terminal.Server.Tcp.{
  Codec, codes, pack32, frame, read_frame, download_frame, process_upload,
}
use chat_terminal.Server.Tcp.Frames.{DecodesEncoded, read_frame-download_frame}
use chat_terminal.Server.Tcp.Receive.{process_upload_total}

abbrev sum : String
sum = "0000000000000000000000000000000000000000000000000000000000000000"

-- A codec of one text
abbrev codec : Codec
codec = record {
  decode = λ b. if b == codes sum then some sum else none;
  encode = λ s. if s == sum then some (codes sum) else none;
  digits = λ n. 48 ∷ [];
}

codec-DecodesEncoded : DecodesEncoded codec
codec-DecodesEncoded s b h = ground (arith, h, eq_iff s sum, bytes_beq_iff b (codes sum))

abbrev chunk : Chunk
chunk = record first_chunk { checksum = sum }

abbrev chunk_frame : Bytes
chunk_frame = 0 ∷ 0 ∷ 0 ∷ 0 ∷ 0 ∷ 0 ∷ 0 ∷ 1 ∷ (codes sum ++ 7 ∷ [])

chunk_written : download_frame codec "f1" world chunk ≡ some chunk_frame
unfolding download_frame get_chunk pack32 lookup
chunk_written = refl

read_frame-download_frame_example :
    (payload : Bytes) × (get_chunk "f1" 0 world ≡ some payload)
    × (read_frame codec (chunk_frame ++ 1 ∷ 2 ∷ [])
        ≡ frame (record { index = 0; checksum = strip sum; payload = payload }) (1 ∷ 2 ∷ []))
read_frame-download_frame_example =
    read_frame-download_frame codec "f1" world chunk chunk_frame (1 ∷ 2 ∷ []) codec-DecodesEncoded
      chunk_written

-- An upload of one chunk
abbrev file_id : String
file_id = "123e4567-e89b-12d3-a456-426614174000"

abbrev upload_world : World
upload_world = record world { files = record report { id = file_id; total_chunks = 1 } ∷ [] }

process_upload_total_example :
    (sent : Bytes) × (w' : World) × (process_upload env codec file_id chunk_frame upload_world
      ≡ some (sent, w'))
process_upload_total_example = process_upload_total env codec file_id chunk_frame upload_world
