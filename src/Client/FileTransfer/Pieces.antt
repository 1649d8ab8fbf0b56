-- ===== src/Client/FileTransfer/Pieces.antt =====
-- Cutting and joining of files in client/handlers/file.py.
use chat_terminal.Common.{
  ℕ, zero, suc, ◌+◌, ◌≤◌, ◌<◌, ◌≡◌, refl, ap, ◌∙◌, true, false, List, [], ◌∷◌, ◌++◌, arith, nat_eq,
  nat_beq, length, take, drop, take-drop, length-drop, leb,
}
use chat_terminal.Common.Dict.{Dict, insert}
use chat_terminal.Client.FileCrypto.{Bytes}
use chat_terminal.Client.FileTransfer.{
  pieces, chunks_of, or_one_empty, insert_sorted, by_index, joined, reassemble,
}

abbrev pub join : List Bytes → Bytes
join [] = []
join (c ∷ chunks) = c ++ join chunks

join-pieces :
    (size fuel : ℕ) (raw : Bytes) → 0 < size → length raw ≤ fuel → join (pieces size fuel raw) ≡ raw
unfolding pieces
join-pieces size zero [] hs h = refl
join-pieces size zero (b ∷ raw) hs h = absurd (omega (arith, h))
join-pieces size (suc fuel) [] hs h = refl
join-pieces size (suc fuel) (b ∷ raw) hs h =
    ap (λ r. take size (b ∷ raw) ++ r)
      (join-pieces size fuel (drop size (b ∷ raw)) hs
        (omega (arith, hs, h, length-drop size (b ∷ raw))))
    ∙ take-drop size (b ∷ raw)

join-or_one_empty : (chunks : List Bytes) → join (or_one_empty chunks) ≡ join chunks
join-or_one_empty [] = refl
join-or_one_empty (c ∷ chunks) = refl

-- The chunks of a file, put together in order, are the file, for any size of chunk but zero.
pub join-chunks_of : (size : ℕ) (raw : Bytes) → 0 < size → join (chunks_of size raw) ≡ raw
unfolding chunks_of
join-chunks_of size raw hs =
    join-or_one_empty (pieces size (length raw) raw)
    ∙ join-pieces size (length raw) raw hs (omega arith)

-- The chunks with their indices, from `k` on
abbrev pub numbered : ℕ → List Bytes → Dict ℕ Bytes
numbered k [] = []
numbered k (c ∷ chunks) = (k, c) ∷ numbered (suc k) chunks

pub insert-numbered :
    (k i : ℕ) (done : List Bytes) (c : Bytes)
    → i ≡ k + length done
    → insert i c (numbered k done) ≡ numbered k (done ++ c ∷ [])
unfolding insert
insert-numbered k i [] c h = ap (λ n. (n, c) ∷ []) (omega (arith, h))
insert-numbered k i (d ∷ done) c h =
    let other : nat_beq k i ≡ false = ground (arith, h) in
    rw other (ap (λ r. (k, d) ∷ r) (insert-numbered (suc k) i done c (omega (arith, h))))

by_index-numbered : (k : ℕ) (chunks : List Bytes) → by_index (numbered k chunks) ≡ numbered k chunks
unfolding by_index insert_sorted
by_index-numbered k [] = refl
by_index-numbered k (c ∷ []) = refl
by_index-numbered k (c ∷ d ∷ chunks) =
    let below : leb k (suc k) ≡ true = ground arith in
    ap (insert_sorted (k, c)) (by_index-numbered (suc k) (d ∷ chunks)) ∙ rw below refl

joined-numbered : (k : ℕ) (chunks : List Bytes) → joined (numbered k chunks) ≡ join chunks
joined-numbered k [] = refl
joined-numbered k (c ∷ chunks) = ap (λ r. c ++ r) (joined-numbered (suc k) chunks)

pub reassemble-numbered : (chunks : List Bytes) → reassemble (numbered 0 chunks) ≡ join chunks
unfolding reassemble
reassemble-numbered chunks = ap joined (by_index-numbered 0 chunks) ∙ joined-numbered 0 chunks
