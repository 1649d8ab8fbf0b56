-- ===== src/Server/Tcp/Frames.antt =====
-- The frames of server/tcp_server.py: what a download writes, an upload reads.
use chat_terminal.Common.{
  ℕ, ◌^◌, ◌<◌, String, ◌≡◌, refl, subst, append_assoc, ◌∙◌, ap, false, some, ◌++◌, arith, ltb,
  length, take, drop, length-append, take-append, le→ltb, drop-append, Option-cases, inl, inr,
}
use chat_terminal.Shared.Text.{strip}
use chat_terminal.Server.World.{World, Chunk}
use chat_terminal.Server.Files.{Bytes, get_chunk}
use chat_terminal.Server.Tcp.{Codec, frame, read_frame, pack32, unpack32, download_frame}

-- A number below 2 ** 32 is read back from its four bytes, whatever follows them.
pub unpack32-pack32 : (n : ℕ) (rest : Bytes) → n < 4294967296 → unpack32 (pack32 n ++ rest) ≡ n
unfolding unpack32 pack32
unpack32-pack32 n rest h = omega (arith, h)

frame_of : ℕ → Bytes → Bytes → Bytes
frame_of index sum payload = pack32 index ++ (pack32 (length payload) ++ (sum ++ payload))

module _ (codec : Codec) (index : ℕ) (sum payload rest : Bytes) (checksum : String) where
  read_written :
      length sum ≡ 64
      → codec.decode sum ≡ some checksum
      → index < 2 ^ 32
      → length payload < 2 ^ 32
      → read_frame codec (frame_of index sum payload ++ rest)
        ≡ frame (record { index = index; checksum = strip checksum; payload = payload }) rest
  unfolding read_frame frame_of pack32
  read_written ls d hi hp =
      let full = frame_of index sum payload ++ rest in
      let assoc : (sum ++ payload) ++ rest ≡ sum ++ (payload ++ rest) =
        append_assoc sum payload rest in
      let first : take 64 ((sum ++ payload) ++ rest) ≡ sum =
        ap (take 64) assoc
        ∙ subst (λ n. take n (sum ++ (payload ++ rest)) ≡ sum) ls
            (take-append sum (payload ++ rest)) in
      let last : drop 72 full ≡ payload ++ rest =
        ap (drop 64) assoc
        ∙ subst (λ n. drop n (sum ++ (payload ++ rest)) ≡ payload ++ rest) ls
            (drop-append sum (payload ++ rest)) in
      let header : take 72 full ≡ pack32 index ++ (pack32 (length payload) ++ sum) =
        ap (λ s. pack32 index ++ (pack32 (length payload) ++ s)) first in
      let enough : ltb (length full) 72 ≡ false =
        le→ltb (length full) 72
          (omega (arith, length-append (sum ++ payload) rest, length-append sum payload, ls)) in
      let short : ltb (length (payload ++ rest)) (length payload) ≡ false =
        le→ltb (length (payload ++ rest)) (length payload)
          (omega (arith, length-append payload rest)) in
      let decoded : codec.decode (drop 8 (take 72 full)) ≡ some checksum =
        ap (λ h. codec.decode (drop 8 h)) header ∙ d in
      let index' : unpack32 (take 72 full) ≡ index =
        ap unpack32 header ∙ unpack32-pack32 index (pack32 (length payload) ++ sum) hi in
      let size : unpack32 (drop 4 (take 72 full)) ≡ length payload =
        ap (λ h. unpack32 (drop 4 h)) header ∙ unpack32-pack32 (length payload) sum hp in
      rw
        (
          enough,
          decoded,
          last,
          size,
          index',
          short,
          take-append payload rest,
          drop-append payload rest,
        )
        refl

written_frame :
    (codec : Codec) (file_id : String) (w : World) (chunk : Chunk) (bytes : Bytes)
    → download_frame codec file_id w chunk ≡ some bytes
    → (payload : Bytes) × (sum : Bytes) × (get_chunk file_id chunk.chunk_index w ≡ some payload)
      × (codec.encode chunk.checksum ≡ some sum)
      × (length sum ≡ 64)
      × (chunk.chunk_index < 2 ^ 32)
      × (length payload < 2 ^ 32)
      × (bytes ≡ frame_of chunk.chunk_index sum payload)
unfolding download_frame frame_of
written_frame codec file_id w chunk bytes h =
    elim (Option-cases (get_chunk file_id chunk.chunk_index w)) [
      | inl e ↦ absurd (ground (arith, h, e))
      | inr (payload, e) ↦ elim (Option-cases (codec.encode chunk.checksum)) [
        | inl k ↦ absurd (ground (arith, h, e, k))
        | inr (sum, k) ↦ (
          payload,
          sum,
          e,
          k,
          ground (arith, h, e, k),
          ground (arith, h, e, k),
          ground (arith, h, e, k),
          ground (arith, h, e, k),
        )
      ]
    ]

-- ASCII decoding undoes encoding.
abbrev pub DecodesEncoded : Codec → Type 0
DecodesEncoded codec =
    (s : String) (bytes : Bytes) → codec.encode s ≡ some bytes → codec.decode bytes ≡ some s

-- A frame that a download sends is read by an upload as the same chunk: its index, its data, and
-- its checksum without the white space around it; the bytes behind the frame are left unread.
-- ASCII decoding undoes encoding.
pub read_frame-download_frame :
    (codec : Codec) (file_id : String) (w : World) (chunk : Chunk) (bytes rest : Bytes)
    → DecodesEncoded codec
    → download_frame codec file_id w chunk ≡ some bytes
    → (payload : Bytes) × (get_chunk file_id chunk.chunk_index w ≡ some payload)
      × (read_frame codec (bytes ++ rest)
          ≡ frame
              (record {
                index = chunk.chunk_index;
                checksum = strip chunk.checksum;
                payload = payload;
              })
              rest)
read_frame-download_frame codec file_id w chunk bytes rest good h =
    let (payload, sum, found, encoded, ls, hi, hp, written) =
      written_frame codec file_id w chunk bytes h in
    (
      payload,
      found,
      rw written (
          read_written codec chunk.chunk_index sum payload rest chunk.checksum ls
            (good chunk.checksum sum encoded) hi hp),
    )
