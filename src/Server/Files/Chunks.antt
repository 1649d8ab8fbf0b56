-- ===== src/Server/Files/Chunks.antt =====
-- What is stored of a file's chunks by server/files.py: the data, the rows and their count.
use chat_terminal.Common.{
  ℕ, suc, String, ◌≡◌, refl, ◌∙◌, Bool, true, false, ◌&&◌, some, List, [], ◌∷◌, ◌++◌, arith,
  string_eq, eq_iff, subst, nat_eq, ◌==◌, beq_refl, exists_row, where_rows, length, Bool-cases, inl,
  inr, if◌then◌else◌,
}
use chat_terminal.Common.Dict.{insert, lookup-insert}
use chat_terminal.Server.World.{World, Env, Chunk}
use chat_terminal.Server.Exec.{new_id}
use chat_terminal.Server.Files.{
  Bytes, store_chunk, write_chunk, add_chunk, same_chunk, dir_of, get_chunk, count_delivered,
}

-- The row that `store_chunk` inserts
abbrev pub new_row : Env → String → ℕ → String → World → Chunk
new_row env file_id index checksum w = record {
  id = env.uuid w.drawn;
  file_id = file_id;
  chunk_index = index;
  checksum = checksum;
  delivered = true;
}

-- Whether a row has its id, or its file and index.
abbrev pub row_taken : Env → String → ℕ → String → World → Bool
row_taken env file_id index checksum w =
    exists_row (λ c. same_chunk c (new_row env file_id index checksum w)) w.chunks

count_append :
    (p : Chunk → Bool) (rows : List Chunk) (row : Chunk)
    → length (where_rows p (rows ++ row ∷ []))
      ≡ (if p row then suc (length (where_rows p rows)) else length (where_rows p rows))
count_append p [] row = ground arith
count_append p (c ∷ cs) row = ground (arith, count_append p cs row)

module _ (env : Env) (file_id : String) (index : ℕ) (bytes : Bytes) (checksum : String)
    (w : World) where
  abbrev stored : World
  stored = (store_chunk env file_id index bytes checksum w).1

  dir_same :
      dir_of (write_chunk file_id index bytes w.disk) file_id
      ≡ insert index bytes (dir_of w.disk file_id)
  unfolding write_chunk
  dir_same = ground (
    arith,
    lookup-insert file_id file_id (insert index bytes (dir_of w.disk file_id)) w.disk,
    beq_refl file_id,
  )

  dir_other :
      (f : String)
      → (file_id == f) ≡ false
      → dir_of (write_chunk file_id index bytes w.disk) f ≡ dir_of w.disk f
  unfolding write_chunk
  dir_other f e =
      ground (arith, lookup-insert file_id f (insert index bytes (dir_of w.disk file_id)) w.disk, e)

  -- A stored chunk reads back as the bytes that were stored last under its file and index, and every other chunk
  -- of this and of other files reads back as before.
  pub get_chunk-store_chunk :
      (f : String) (i : ℕ)
      → get_chunk f i stored ≡ (if file_id == f && index == i then some bytes else get_chunk f i w)
  unfolding store_chunk get_chunk new_id
  get_chunk-store_chunk f i = elim (Bool-cases (file_id == f)) [
    | inl e ↦
        let dir : dir_of (write_chunk file_id index bytes w.disk) f
            ≡ insert index bytes (dir_of w.disk f) =
          subst
            (λ g.
              dir_of (write_chunk file_id index bytes w.disk) g
              ≡ insert index bytes (dir_of w.disk g))
            ((eq_iff file_id f).0 e) dir_same in
        rw (e, dir) (lookup-insert index i bytes (dir_of w.disk f))
    | inr e ↦ rw (e, dir_other f e) refl
  ]

  -- The count of the file's delivered chunks rises by one when the row is new; it stays when a row
  -- has its id or its file and index. The counts of other files stay in any case.
  pub count_delivered-store_chunk :
      (f : String)
      → count_delivered f stored ≡ (
          if row_taken env file_id index checksum w
          then count_delivered f w
          else if file_id == f
          then suc (count_delivered f w)
          else count_delivered f w)
  unfolding store_chunk add_chunk count_delivered new_id
  count_delivered-store_chunk f = elim (Bool-cases (row_taken env file_id index checksum w)) [
    | inl e ↦ rw e refl
    | inr e ↦ rw e (
        count_append (λ c. c.file_id == f && c.delivered) w.chunks
          (new_row env file_id index checksum w)
        ∙ ground (arith))
  ]

  -- When a row has the id, or the file and index, of the chunk that is stored, as with a chunk that is
  -- sent again, the new bytes replace the old ones, and the rows stay as they are, the old
  -- checksum with them, whatever the new one is.
  pub resent_chunk :
      row_taken env file_id index checksum w ≡ true
      → (get_chunk file_id index stored ≡ some bytes) × (stored.chunks ≡ w.chunks)
  unfolding store_chunk add_chunk
  resent_chunk taken = (
    rw (get_chunk-store_chunk file_id index, beq_refl file_id, beq_refl index) refl,
    rw taken refl,
  )
