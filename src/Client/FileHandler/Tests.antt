-- ===== src/Client/FileHandler/Tests.antt =====
-- Witnesses of file transfers.
use chat_terminal.Common.{◌≡◌, refl, arith, true, none, some, [], ◌∷◌, length, string_eq}
use chat_terminal.Common.Dict.{lookup}
use chat_terminal.Common.Exec.{ok}
use chat_terminal.Client.FileCrypto.{Bytes}
use chat_terminal.Client.FileTransfer.{Suite, chunk_size, chunks_of, pieces}
use chat_terminal.Client.FileTransfer.Uploads.{Upload, upload_chunks}
use chat_terminal.Client.FileTransfer.Frames.{GoodSuite, all_fit, fits}
use chat_terminal.Client.FileTransfer.Whole.{connection}
use chat_terminal.Client.FileHandler.{Relay, Meta, receive}
use chat_terminal.Client.FileHandler.Offers.{receive-upload_chunks}
use chat_terminal.Client.Samples.{zeros, plain_aead, plain-GoodAead, tally, from_tally-tally}
use chat_terminal.Client.Fixtures.{user, empty}

abbrev wire : Suite
wire = record {
  aead = plain_aead;
  sha256_hex = λ b. zeros 64;
  nonce = λ n. zeros 12;
  decode = λ b. some "HAVE \n";
  int_of = λ s. none;
}

wire-GoodSuite : GoodSuite wire
wire-GoodSuite = record {
  good_aead = plain-GoodAead;
  length-hash = λ b. refl;
  length-nonce = λ n. refl;
}

abbrev raw : Bytes
raw = 1 ∷ 2 ∷ 3 ∷ []

abbrev begun : Upload
begun = record { sent = 0; drawn = 0; files = []; progress = []; written = [] }

abbrev relay : Relay
relay = record { suite = wire; connections = []; download = [] }

abbrev offer : Meta
offer = record {
  name = "notes";
  total_chunks = 1;
  from_user = "alice";
  file_key = tally (zeros 32);
}

receive-upload_chunks_example :
    let n = length (chunks_of chunk_size raw) in
    (u' : Upload) × (upload_chunks wire "f"
        (zeros 32)
        (chunks_of chunk_size raw)
        n
        3
        (connection n)
        begun
      ≡ (true, u'))
    × ((receive (user "bob") (record relay { download = u'.written }) "f" offer empty).0
        ≡ ok "notes")
    × (lookup "notes"
          (receive
            (user "bob")
            (record relay { download = u'.written })
            "f"
            offer
            empty).1.downloads
        ≡ some raw)
unfolding chunks_of pieces
receive-upload_chunks_example =
    receive-upload_chunks (user "bob") relay "f" offer empty begun (zeros 32) raw wire-GoodSuite
      refl refl (fits (omega arith) (omega arith) all_fit) (omega arith) refl
      (from_tally-tally (zeros 32)) refl
