-- ===== src/Server/Tcp.antt =====
-- server/tcp_server.py: chunk uploads and downloads. The first line comes decoded, "" at the end of
-- the stream; what follows it is the list of bytes that the reader will get before the end. Writes
-- do not fail. The wait for a file's registration is over when `process_upload` starts.
pub mod Tests
pub mod Frames
pub mod Receive
use Prim.Native.Char.{code}
use mathlib.Core.List.{map}
use chat_terminal.Common.{
  ℕ, zero, suc, ◌+◌, ◌*◌, ◌/◌, ◌%◌, ◌^◌, String, Bool, true, false, not, Option, none, some, List,
  [], ◌∷◌, ◌++◌, string_eq, ◌==◌, nat_beq, ltb, leb, length, take, drop, if◌then◌else◌,
}
use chat_terminal.Shared.Protocol.{Json, null, num, text, Packet, file_done, make_packet}
use chat_terminal.Shared.Text.{strip, is_empty}
use chat_terminal.Server.World.{World, Env, File, Chunk}
use chat_terminal.Server.Exec.{Exec, ◌>>=◌, ◌>>◌, pure, gets, modify, skip, try_else, new_id, send}
use chat_terminal.Server.Router
use chat_terminal.Server.Offline
use chat_terminal.Server.Files
use chat_terminal.Server.Files.{Bytes}

-- Python's ASCII codec, and the digits of `str(i)`
pub record Codec : Type 0 where
  pub decode : Bytes → Option String
  pub encode : String → Option Bytes
  pub digits : ℕ → Bytes

abbrev pub chunk_header_size : ℕ
chunk_header_size = 72

abbrev pub checksum_len : ℕ
checksum_len = 64

-- `struct.pack(">I", n)`, for n below 2 ** 32
unfoldable pub pack32 : ℕ → Bytes
pack32 n = n / 2 ^ 24 % 256 ∷ n / 2 ^ 16 % 256 ∷ n / 2 ^ 8 % 256 ∷ n % 256 ∷ []

-- `struct.unpack_from(">I", bytes, 0)[0]`, of four bytes at least
unfoldable pub unpack32 : Bytes → ℕ
unpack32 (a ∷ b ∷ c ∷ d ∷ _) = a * 2 ^ 24 + b * 2 ^ 16 + c * 2 ^ 8 + d
unpack32 _ = 0

-- The code points of an ASCII text
abbrev pub codes : String → Bytes
codes String.[] = []
codes (String.◌∷◌ c s) = code c ∷ codes s

pub record Frame : Type 0 where
  pub index : ℕ
  pub checksum : String
  pub payload : Bytes

-- What the reads of one round give: a frame and the bytes behind it, a closed connection, or an
-- exception (a checksum that is no ASCII).
pub data Read : Type 0 where
  frame : Frame → Bytes → Read
  incomplete undecodable : Read

unfoldable pub read_frame : Codec → Bytes → Read
unfolding unpack32
read_frame codec input =
    if ltb (length input) chunk_header_size
    then incomplete
    else (let header = take chunk_header_size input in
        let rest = drop chunk_header_size input in
        let data_length = unpack32 (drop 4 header) in
        elim (codec.decode (drop 8 header)) [
          | none ↦ undecodable
          | some checksum ↦
              if ltb (length rest) data_length
              then incomplete
              else frame
                  (record {
                    index = unpack32 header;
                    checksum = strip checksum;
                    payload = take data_length rest;
                  })
                  (drop data_length rest)
        ])

-- How an upload ends: all chunks are there, or the connection or the round failed.
pub data UploadEnd : Type 0 where
  complete broken : UploadEnd

pub record Upload : Type 0 where
  pub outcome : UploadEnd
  pub sent : Bytes
  pub unread : Bytes
  pub world : World

abbrev ended_at : UploadEnd → Bytes → Bytes → World → Upload
ended_at outcome sent unread w = record {
  outcome = outcome;
  sent = sent;
  unread = unread;
  world = w;
}

-- `while await count_delivered(file_id) < total_chunks`; `none` means that the fuel ran out.
unfoldable pub receive : Env → Codec → String → ℕ → ℕ → Bytes → Bytes → World → Option Upload
receive env codec file_id total_chunks zero sent input w = none
receive env codec file_id total_chunks (suc fuel) sent input w =
    if leb total_chunks (Files.count_delivered file_id w)
    then some (ended_at complete sent input w)
    else elim (read_frame codec input) [
      | incomplete ↦ some (ended_at broken sent input w)
      | undecodable ↦ some (ended_at broken sent input w)
      | frame f rest ↦
          receive env codec file_id total_chunks fuel (sent ++ codes "ACK\n") rest
            (Files.store_chunk env file_id f.index f.payload f.checksum w).1
    ]

-- Step 3: the recipient is told, or the notice is queued.
unfoldable pub notify : Env → File → Exec (Unit {0})
unfolding new_id send Router.get Offline.enqueue
notify env meta = if is_empty meta.recipient then skip else do
  id ← new_id env
  let pkt = env.dumps (
      make_packet file_done id env.now (
        ("file_id", text meta.id)
        ∷ ("name", meta.name)
        ∷ ("size", num meta.size)
        ∷ ("uploader", text meta.uploader)
        ∷ ("encrypted_key", elim meta.encrypted_key [ none ↦ null | some k ↦ text k ])
        ∷ []))
  ws ← gets (Router.get meta.recipient)
  elim ws [
    | some target ↦ try_else (send env target pkt) skip
    | none ↦ Offline.enqueue env id meta.recipient pkt
  ]

-- `",".join(str(i) for i in indices)`
unfoldable pub comma_separated : Codec → List ℕ → Bytes
comma_separated codec [] = []
comma_separated codec (i ∷ []) = codec.digits i
comma_separated codec (i ∷ j ∷ is) = codec.digits i ++ codes "," ++ comma_separated codec (j ∷ is)

unfoldable pub have_line : Codec → List Chunk → Bytes
unfolding comma_separated
have_line codec chunks =
    codes "HAVE " ++ comma_separated codec (map (λ c. c.chunk_index) chunks) ++ codes "\n"

-- One frame of a download, or `none` where the code returns: the data or the checksum is bad.
unfoldable pub download_frame : Codec → String → World → Chunk → Option Bytes
unfolding pack32 Files.get_chunk
download_frame codec file_id w chunk = elim (Files.get_chunk file_id chunk.chunk_index w) [
  | none ↦ none
  | some payload ↦ elim (codec.encode chunk.checksum) [
    | none ↦ none
    | some checksum ↦
        if not (nat_beq (length checksum) checksum_len)
        then none
        else if leb (2 ^ 32) chunk.chunk_index
        then none
        else if leb (2 ^ 32) (length payload)
        then none
        else some (pack32 chunk.chunk_index ++ (pack32 (length payload) ++ (checksum ++ payload)))
  ]
]

unfoldable pub download_all : Codec → String → World → List Chunk → Bytes
unfolding download_frame
download_all codec file_id w [] = []
download_all codec file_id w (chunk ∷ chunks) =
    let rest = download_all codec file_id w chunks in
    elim (download_frame codec file_id w chunk) [ none ↦ [] | some bytes ↦ bytes ++ rest ]

-- `len(s)`, in characters
abbrev pub text_length : String → ℕ
text_length s = length (codes s)

unfoldable process_download : Codec → String → World → Bytes
unfolding download_all Files.get_file Files.get_chunks
process_download codec file_id w =
    if not (nat_beq (text_length file_id) 36) then [] else elim (Files.get_file file_id w) [
      | none ↦ []
      | some _ ↦ download_all codec file_id w (Files.get_chunks file_id w)
    ]

-- An upload is finished: DONE, then the notice to the recipient.
unfoldable pub finish_upload : Env → File → Upload → Bytes × World
unfolding notify
finish_upload env meta up = elim up.outcome [
  | broken ↦ (up.sent, up.world)
  | complete ↦ (up.sent ++ codes "DONE\n", (notify env meta up.world).1)
]

-- `_process_upload` of a line that is no DOWNLOAD command: what is sent, and the world afterwards.
unfoldable pub process_upload : Env → Codec → String → Bytes → World → Option (Bytes × World)
unfolding receive have_line finish_upload Files.get_file Files.get_chunks
process_upload env codec line input w =
    let file_id = strip line in
    if not (nat_beq (text_length file_id) 36)
    then some ([], w)
    else elim (Files.get_file file_id w) [
      | none ↦ some ([], w)
      | some meta ↦
          elim (receive env codec file_id meta.total_chunks (suc (length input))
            (have_line codec (Files.get_chunks file_id w)) input w) [
              | none ↦ none
              | some up ↦ some (finish_upload env meta up)
            ]
    ]
