-- ===== src/Server/Tcp/Receive.antt =====
-- The upload loop of server/tcp_server.py ends when the client's bytes end.
use chat_terminal.Common.{
  ℕ, zero, suc, ◌<◌, String, ◌≡◌, refl, some, ◌++◌, ◌⊎◌, subst, arith, nat_beq, ltb, leb, length,
  take, drop, length-drop, Bool-cases, Option-cases, inl, inr,
}
use chat_terminal.Shared.Text.{strip}
use chat_terminal.Server.World.{World, Env}
use chat_terminal.Server.Files
use chat_terminal.Server.Files.{Bytes}
use chat_terminal.Server.Tcp.{
  Codec, Frame, Read, frame, incomplete, undecodable, read_frame, unpack32, Upload, receive, codes,
  process_upload, have_line, text_length,
}

-- Each frame takes at least its header from the input.
abbrev Shorter : Bytes → Read → Type 0
Shorter input (frame f rest) = length rest < length input
Shorter input incomplete = Unit
Shorter input undecodable = Unit

read_frame-Shorter : (codec : Codec) (input : Bytes) → Shorter input (read_frame codec input)
unfolding read_frame
read_frame-Shorter codec input = elim (Bool-cases (ltb (length input) 72)) [
  | inl e ↦ rw e tt
  | inr e ↦ elim (Option-cases (codec.decode (drop 8 (take 72 input)))) [
    | inl d ↦ rw (e, d) tt
    | inr (s, d) ↦
        let n = unpack32 (drop 4 (take 72 input)) in
        elim (Bool-cases (ltb (length (drop 72 input)) n)) [
          | inl k ↦ rw (e, d, k) tt
          | inr k ↦
              rw (e, d, k, length-drop n (drop 72 input), length-drop 72 input) (ground (arith, e))
        ]
  ]
]

Read-cases :
    (r : Read)
    → ((f : Frame) × (rest : Bytes) × (r ≡ frame f rest)) ⊎ ((r ≡ incomplete) ⊎ (r ≡ undecodable))
Read-cases (frame f rest) = inl (f, rest, refl)
Read-cases incomplete = inr (inl refl)
Read-cases undecodable = inr (inr refl)

-- With more fuel than bytes the loop ends: all chunks are there, or the connection is at its end,
-- or a checksum is no ASCII.
receive_enough :
    (env : Env) (codec : Codec) (file_id : String) (total fuel : ℕ) (sent input : Bytes) (w : World)
    → length input < fuel
    → (up : Upload) × (receive env codec file_id total fuel sent input w ≡ some up)
unfolding receive
receive_enough env codec file_id total zero sent input w h = absurd (omega (arith, h))
receive_enough env codec file_id total (suc fuel) sent input w h =
    elim (Bool-cases (leb total (Files.count_delivered file_id w))) [
      | inl e ↦ rw e (_, refl)
      | inr e ↦ elim (Read-cases (read_frame codec input)) [
        | inr (inl r) ↦ rw (e, r) (_, refl)
        | inr (inr r) ↦ rw (e, r) (_, refl)
        | inl (f, rest, r) ↦
            let shorter : length rest < length input =
              subst (Shorter input) r (read_frame-Shorter codec input) in
            rw (e, r)
              (receive_enough env codec file_id total fuel (sent ++ codes "ACK\n") rest
                (Files.store_chunk env file_id f.index f.payload f.checksum w).1
                (omega (arith, h, shorter)))
      ]
    ]

-- An upload whose client closes the connection after finitely many bytes has ended by then, whatever
-- those bytes are: there is a list of bytes that it sends, and a world that it leaves. A client that
-- neither sends the rest nor closes keeps the server waiting, and is not in this.
pub process_upload_total :
    (env : Env) (codec : Codec) (line : String) (input : Bytes) (w : World)
    → (sent : Bytes) × (w' : World) × (process_upload env codec line input w ≡ some (sent, w'))
unfolding process_upload
process_upload_total env codec line input w =
    elim (Bool-cases (nat_beq (text_length (strip line)) 36)) [
      | inr e ↦ rw e (_, _, refl)
      | inl e ↦ elim (Option-cases (Files.get_file (strip line) w)) [
        | inl f ↦ rw (e, f) (_, _, refl)
        | inr (meta, f) ↦
            let (up, p) =
              receive_enough env codec (strip line) meta.total_chunks (suc (length input))
                (have_line codec (Files.get_chunks (strip line) w)) input w (omega arith) in
            rw (e, f, p) (_, _, refl)
      ]
    ]
