-- ===== src/Server/Files.antt =====
-- server/files.py and server/db/files.py: file metadata, chunk records and the chunks on disk.
-- `disk` holds a directory for each file id, with the bytes of `chunk_<index>` by index; that two
-- ids name two directories is assumed of the file system's paths.
pub mod Tests
pub mod Chunks
pub mod Expiry
use chat_terminal.Common.{
  ℕ, suc, ◌+◌, ◌*◌, String, Bool, true, false, not, ◌&&◌, ◌||◌, Option, none, some, List, [], ◌∷◌,
  string_eq, nat_eq, ◌==◌, ltb, leb, length, where_rows, if◌then◌else◌,
}
use chat_terminal.Common.Dict.{Dict, lookup, insert, erase}
use chat_terminal.Shared.Protocol.{Json, null, bool, num, text, arr, obj}
use chat_terminal.Server.World.{World, Env, File, Chunk, insert_or_ignore, find_row, update_rows}
use chat_terminal.Server.Exec.{Exec, ◌>>=◌, ◌>>◌, pure, raise, gets, modify, skip, new_id}

abbrev pub file_ttl : ℕ
file_ttl = 86400 * 7

abbrev pub Bytes : Type 0
Bytes = List ℕ

unfoldable pub get_file : String → World → Option File
get_file id w = find_row (λ f. f.id == id) w.files

-- `os.makedirs(path, exist_ok=True)`
unfoldable pub make_dir : String → Dict String (Dict ℕ Bytes) → Dict String (Dict ℕ Bytes)
make_dir id disk = elim (lookup id disk) [ none ↦ insert id [] disk | some _ ↦ disk ]

-- `INSERT OR IGNORE INTO files`: a row whose id is there, or whose name is NULL, is dropped; a name
-- that is an array or an object cannot be bound.
unfoldable pub create_file : File → Exec (Unit {0})
create_file file = elim file.name [
  | null ↦ skip
  | arr _ ↦ raise
  | obj _ ↦ raise
  | _ ↦ modify (λ w. record w { files = insert_or_ignore (λ f. f.id == file.id) file w.files })
]

-- The row, then the directory
unfoldable pub register_file : File → Exec (Unit {0})
unfolding make_dir create_file
register_file file = do create_file file; modify (λ w. record w { disk = make_dir file.id w.disk })

abbrev pub dir_of : Dict String (Dict ℕ Bytes) → String → Dict ℕ Bytes
dir_of disk id = elim (lookup id disk) [ none ↦ [] | some files ↦ files ]

-- `open(path, "wb")` and `write`, after `makedirs`
unfoldable pub write_chunk :
    String → ℕ → Bytes → Dict String (Dict ℕ Bytes) → Dict String (Dict ℕ Bytes)
write_chunk id index bytes disk = insert id (insert index bytes (dir_of disk id)) disk

-- The key of a chunk: its id, or its file and index.
abbrev pub same_chunk : Chunk → Chunk → Bool
same_chunk c d = c.id == d.id || (c.file_id == d.file_id && c.chunk_index == d.chunk_index)

unfoldable pub add_chunk : Chunk → List Chunk → List Chunk
add_chunk chunk chunks = insert_or_ignore (λ c. same_chunk c chunk) chunk chunks

unfoldable pub store_chunk : Env → String → ℕ → Bytes → String → Exec (Unit {0})
unfolding new_id write_chunk add_chunk
store_chunk env file_id chunk_index bytes checksum = do
  modify (λ w. record w { disk = write_chunk file_id chunk_index bytes w.disk })
  chunk_id ← new_id env
  modify (λ w. record w {
    chunks =
        add_chunk
          (record {
            id = chunk_id;
            file_id = file_id;
            chunk_index = chunk_index;
            checksum = checksum;
            delivered = true;
          })
          w.chunks;
  })

abbrev mark_chunk_delivered : String → ℕ → Exec (Unit {0})
mark_chunk_delivered file_id chunk_index = modify λ w. record w {
  chunks =
      update_rows (λ c. c.file_id == file_id && c.chunk_index == chunk_index)
        (λ c. record c { delivered = true }) w.chunks;
}

unfoldable pub get_chunk : String → ℕ → World → Option Bytes
get_chunk file_id chunk_index w = lookup chunk_index (dir_of w.disk file_id)

unfoldable pub insert_by_index : Chunk → List Chunk → List Chunk
insert_by_index c [] = c ∷ []
insert_by_index c (d ∷ ds) =
    if leb c.chunk_index d.chunk_index then c ∷ d ∷ ds else d ∷ insert_by_index c ds

unfoldable pub sort_by_index : List Chunk → List Chunk
unfolding insert_by_index
sort_by_index [] = []
sort_by_index (c ∷ cs) = insert_by_index c (sort_by_index cs)

-- `SELECT … ORDER BY chunk_index ASC`
unfoldable pub get_chunks : String → World → List Chunk
unfolding sort_by_index
get_chunks file_id w = sort_by_index (where_rows (λ c. c.file_id == file_id) w.chunks)

unfoldable pub count_delivered : String → World → ℕ
count_delivered file_id w = length (where_rows (λ c. c.file_id == file_id && c.delivered) w.chunks)

unfoldable is_complete : String → World → Bool
unfolding get_file count_delivered
is_complete file_id w = elim (get_file file_id w) [
  | none ↦ false
  | some meta ↦ leb meta.total_chunks (count_delivered file_id w)
]

unfoldable pub delete_file_data : String → World → World
delete_file_data file_id w = record w {
  disk = erase file_id w.disk;
  chunks = where_rows (λ c. not (c.file_id == file_id)) w.chunks;
  files = where_rows (λ f. not (f.id == file_id)) w.files;
}

abbrev pub is_expired : ℕ → File → Bool
is_expired now file = elim file.expires_at [ none ↦ false | some t ↦ ltb t now ]

unfoldable pub get_expired_files : ℕ → World → List File
get_expired_files now w = where_rows (is_expired now) w.files

-- The loop of `cleanup_expired`, with its count
unfoldable pub delete_all : List File → ℕ → World → ℕ × World
delete_all [] count w = (count, w)
delete_all (file ∷ rest) count w = delete_all rest (suc count) (delete_file_data file.id w)

unfoldable pub cleanup_expired : Env → World → ℕ × World
unfolding delete_all get_expired_files delete_file_data
cleanup_expired env w = delete_all (get_expired_files env.now w) 0 w
