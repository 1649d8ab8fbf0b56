-- ===== src/Client/FileTransfer/Frames.antt =====
-- The chunks that client/handlers/file.py uploads are the chunks that it reads from a download.
use chat_terminal.Common.{
  cut_at, ℕ, suc, ◌+◌, ◌^◌, ◌<◌, ◌≡◌, refl, sym, ap, ◌∙◌, String, Option, none, some, false, List,
  [], ◌∷◌, ◌++◌, arith, append_assoc, append-nil, nat_eq, length, take, drop, take-append,
  drop-append, length-append, leb, ltb, le→ltb, bytes_eq, beq_refl,
}
use chat_terminal.Common.Dict.{insert}
use chat_terminal.Client.FileCrypto.{Bytes, encrypt_chunk, decrypt_chunk}
use chat_terminal.Client.FileCrypto.Chunks.{GoodAead, decrypt_chunk-encrypt_chunk}
use chat_terminal.Client.FileTable.{FileRow, update_file}
use chat_terminal.Client.FileTransfer.{Suite, upload_frame, read_chunk, receive_chunks}
use chat_terminal.Client.FileTransfer.Pieces.{numbered, insert-numbered}
use chat_terminal.Server.Tcp.Frames.{unpack32-pack32}
use chat_terminal.Server.Tcp.{pack32, unpack32}

-- What the code relies on: the cipher, hashes of 64 digits, nonces of 12 bytes
pub record GoodSuite (suite : Suite) : Type 0 where
  pub good_aead : GoodAead suite.aead
  pub length-hash : (b : Bytes) → length (suite.sha256_hex b) ≡ 64
  pub length-nonce : (n : ℕ) → length (suite.nonce n) ≡ 12

abbrev pub frame_of : ℕ → Bytes → Bytes → Bytes
frame_of index sum payload = pack32 index ++ (pack32 (length payload) ++ (sum ++ payload))

-- What `receive` cuts out of a frame
module _ (index : ℕ) (sum payload rest : Bytes) (ls : length sum ≡ 64) where
  after_header :
      (take 64 (drop 8 (frame_of index sum payload ++ rest)) ≡ sum)
      × (drop 72 (frame_of index sum payload ++ rest) ≡ payload ++ rest)
  unfolding pack32
  after_header =
      let assoc : (sum ++ payload) ++ rest ≡ sum ++ (payload ++ rest) =
        append_assoc sum payload rest in
      let (first, last) = cut_at 64 sum (payload ++ rest) ls in
      (ap (take 64) assoc ∙ first, ap (drop 64) assoc ∙ last)

  header_index : index < 2 ^ 32 → unpack32 (frame_of index sum payload ++ rest) ≡ index
  unfolding pack32
  header_index h = unpack32-pack32 index ((pack32 (length payload) ++ (sum ++ payload)) ++ rest) h

  header_length :
      length payload < 2 ^ 32
      → unpack32 (drop 4 (frame_of index sum payload ++ rest)) ≡ length payload
  unfolding pack32
  header_length h = unpack32-pack32 (length payload) ((sum ++ payload) ++ rest) h

  frame_long : ltb (length (frame_of index sum payload ++ rest)) 72 ≡ false
  unfolding pack32
  frame_long =
      le→ltb (length (frame_of index sum payload ++ rest)) 72
        (omega (arith, length-append (sum ++ payload) rest, length-append sum payload, ls))

  payload_there : ltb (length (payload ++ rest)) (length payload) ≡ false
  payload_there =
      le→ltb (length (payload ++ rest)) (length payload) (omega (arith, length-append payload rest))

-- The parts of a payload
payload_parts :
    (nonce tag ciphertext : Bytes)
    → length nonce ≡ 12
    → length tag ≡ 16
    → (take 12 (nonce ++ (tag ++ ciphertext)) ≡ nonce)
      × (take 16 (drop 12 (nonce ++ (tag ++ ciphertext))) ≡ tag)
      × (drop 28 (nonce ++ (tag ++ ciphertext)) ≡ ciphertext)
payload_parts nonce tag ciphertext ln lt =
    let (n, behind) = cut_at 12 nonce (tag ++ ciphertext) ln in
    let (t, c) = cut_at 16 tag ciphertext lt in
    let both : length (nonce ++ tag) ≡ 28 = omega (arith, length-append nonce tag, ln, lt) in
    (
      n,
      ap (take 16) behind ∙ t,
      ap (drop 28) (sym (append_assoc nonce tag ciphertext))
          ∙ (cut_at 28 (nonce ++ tag) ciphertext both).1,
    )

module _ (suite : Suite) (good : GoodSuite suite) (key : Bytes) (lk : length key ≡ 32) where
  -- The three parts of an encrypted chunk in the order in which they are written
  Sealed : ℕ → Bytes → Bytes → Bytes → Type 0
  Sealed drawn plain ciphertext tag =
      (encrypt_chunk suite.aead (suite.nonce drawn) plain key
        ≡ some (ciphertext, suite.nonce drawn, tag))
      × (length ciphertext ≡ length plain)
      × (length tag ≡ 16)
      × (decrypt_chunk suite.aead ciphertext (suite.nonce drawn) tag key ≡ some plain)

  module _ (drawn index : ℕ) (plain ciphertext tag : Bytes) (hi : index < 2 ^ 32)
      (hp : length plain + 28 < 2 ^ 32) where
    payload : Bytes
    payload = suite.nonce drawn ++ (tag ++ ciphertext)

    length-payload : Sealed drawn plain ciphertext tag → length payload ≡ length plain + 28
    unfolding payload Sealed
    length-payload (enc, lc, lt, dec) = omega (
      arith,
      lc,
      lt,
      good.length-nonce drawn,
      length-append (suite.nonce drawn) (tag ++ ciphertext),
      length-append tag ciphertext,
    )

    upload_frame_lem :
        Sealed drawn plain ciphertext tag
        → upload_frame suite drawn index plain key
          ≡ some (frame_of index (suite.sha256_hex plain) payload)
    unfolding upload_frame payload Sealed
    upload_frame_lem sealed =
        let (enc, lc, lt, dec) = sealed in
        let size : length (suite.nonce drawn ++ (tag ++ ciphertext)) ≡ length plain + 28 =
          length-payload sealed in
        let big : leb (2 ^ 32) index ≡ false = ground (arith, hi) in
        let long : leb (2 ^ 32) (length (suite.nonce drawn ++ (tag ++ ciphertext))) ≡ false =
          ground (arith, hp, size) in
        rw (enc, upload_frame, big, long) refl

    read_chunk_lem :
        (rest : Bytes)
        → Sealed drawn plain ciphertext tag
        → read_chunk suite key (frame_of index (suite.sha256_hex plain) payload ++ rest)
          ≡ some ((index, plain), rest)
    unfolding read_chunk Sealed payload
    read_chunk_lem rest sealed =
        let (enc, lc, lt, dec) = sealed in
        let sum = suite.sha256_hex plain in
        let ls = good.length-hash plain in
        let body = suite.nonce drawn ++ (tag ++ ciphertext) in
        let size : length body < 2 ^ 32 = omega (arith, hp, length-payload sealed) in
        let (hash, behind) = after_header index sum body rest ls in
        let (n, t, c) =
          payload_parts (suite.nonce drawn) tag ciphertext (good.length-nonce drawn) lt in
        rw
          (
            frame_long index sum body rest ls,
            header_length index sum body rest ls size,
            behind,
            payload_there index sum body rest ls,
            take-append body rest,
            n,
            t,
            c,
            dec,
            hash,
            beq_refl sum,
            header_index index sum body rest ls hi,
            header_length index sum body rest ls size,
            behind,
            drop-append body rest,
          )
          refl

-- Chunks that fit into frames, from an index on
pub data Fits : ℕ → List Bytes → Type 0 where
  all_fit : {k : ℕ} → Fits k []
  fits :
      {k : ℕ} {c : Bytes} {chunks : List Bytes}
      → k < 2 ^ 32
      → length c + 28 < 2 ^ 32
      → Fits (suc k) chunks
      → Fits k (c ∷ chunks)

-- What is written for the chunks, from an index on, and for one
abbrev pub after_frame : Option Bytes → Option Bytes → Option Bytes
after_frame (some bytes) (some rest) = some (bytes ++ rest)
after_frame _ _ = none

abbrev pub frames : Suite → Bytes → ℕ → ℕ → List Bytes → Option Bytes
frames suite key drawn index [] = some []
frames suite key drawn index (c ∷ chunks) =
    after_frame (upload_frame suite drawn index c key)
      (frames suite key (drawn + 1) (suc index) chunks)

module _ (suite : Suite) (good : GoodSuite suite) (key : Bytes) (lk : length key ≡ 32) where
  -- A chunk has a frame, which is read back.
  one_frame :
      (drawn index : ℕ) (plain : Bytes)
      → index < 2 ^ 32
      → length plain + 28 < 2 ^ 32
      → (bytes : Bytes) × (upload_frame suite drawn index plain key ≡ some bytes)
        × ((rest : Bytes) → read_chunk suite key (bytes ++ rest) ≡ some ((index, plain), rest))
  unfolding Sealed
  one_frame drawn index plain hi hp =
      let (ciphertext, tag, enc, lc, lt, dec) =
        decrypt_chunk-encrypt_chunk suite.aead (suite.nonce drawn) plain key good.good_aead lk
          (good.length-nonce drawn) in
      let sealed : Sealed suite good key lk drawn plain ciphertext tag = (enc, lc, lt, dec) in
      (
        frame_of index (suite.sha256_hex plain)
            (payload suite good key lk drawn index plain ciphertext tag hi hp),
        upload_frame_lem suite good key lk drawn index plain ciphertext tag hi hp sealed,
        λ rest. read_chunk_lem suite good key lk drawn index plain ciphertext tag hi hp rest sealed,
      )

  pub receive-frames :
      (file_id : String) (chunks done : List Bytes) (drawn index : ℕ) (files : List FileRow)
      → Fits index chunks
      → index ≡ length done
      → (bytes : Bytes) × (frames suite key drawn index chunks ≡ some bytes)
        × ((receive_chunks suite file_id key (length chunks) (numbered 0 done) bytes files).0
            ≡ some (numbered 0 (done ++ chunks)))
  unfolding receive_chunks
  receive-frames file_id [] done drawn index files fit e =
      ([], refl, ap (λ cs. some (numbered 0 cs)) (sym (append-nil done)))
  receive-frames file_id (c ∷ chunks) done drawn index files (fits hi hp fit) e =
      let (bytes, wrote, read) = one_frame drawn index c hi hp in
      let added : insert index c (numbered 0 done) ≡ numbered 0 (done ++ c ∷ []) =
        insert-numbered 0 index done c (omega (arith, e)) in
      let set =
        λ (r : FileRow). record r { received_chunks = length (numbered 0 (done ++ c ∷ [])) } in
      let (rest, wrote', got) =
        receive-frames file_id chunks (done ++ c ∷ []) (drawn + 1) (suc index)
          (update_file file_id set files) fit (omega (arith, e, length-append done (c ∷ []))) in
      (
        bytes ++ rest,
        rw (wrote, wrote') refl,
        rw (read rest, receive_chunks, added)
            (got ∙ ap (λ cs. some (numbered 0 cs)) (append_assoc done (c ∷ []) chunks)),
      )
