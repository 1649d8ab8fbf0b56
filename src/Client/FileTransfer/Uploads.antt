-- ===== src/Client/FileTransfer/Uploads.antt =====
-- client/handlers/file.py: `_upload_chunks`. A connection is the list of the lines that will be read from it
-- before its end; writes do not fail, and the waits between two attempts are left out.
use Prim.Native.Char.{code}
use Prim.Native.Char.{Char}
use chat_terminal.Common.{
  ℕ, zero, suc, ◌+◌, String, Bool, true, false, not, ◌&&◌, ◌||◌, Option, none, some, List, [], ◌∷◌,
  ◌++◌, nat_eq, bytes_eq, bytes_beq, nat_beq, ltb, leb, length, take, exists_row, if◌then◌else◌,
}
use chat_terminal.Shared.Text.{strip, is_empty}
use chat_terminal.Client.FileCrypto.{Bytes}
use chat_terminal.Client.FileTable.{FileRow, update_file}
use chat_terminal.Server.Tcp.{codes}
use chat_terminal.Client.FileTransfer.{Suite, upload_frame}

-- `bytes.strip()`
unfoldable pub is_blank : ℕ → Bool
is_blank c = nat_beq c 32 || (leb 9 c && leb c 13)

unfoldable pub lstrip : Bytes → Bytes
unfolding is_blank
lstrip [] = []
lstrip (c ∷ cs) = let rest = lstrip cs in if is_blank c then rest else c ∷ cs

-- A blank is dropped if all that follows it was dropped.
unfoldable pub rstrip : Bytes → Bytes
unfolding is_blank
rstrip [] = []
rstrip (c ∷ cs) = elim (rstrip cs) [ [] ↦ if is_blank c then [] else c ∷ [] | d ∷ ds ↦ c ∷ d ∷ ds ]

unfoldable pub strip_bytes : Bytes → Bytes
unfolding lstrip rstrip
strip_bytes line = rstrip (lstrip line)

-- `reader.readline()`: the next line, or nothing at the end
abbrev pub read_line : List Bytes → Bytes × List Bytes
read_line [] = ([], [])
read_line (line ∷ lines) = (line, lines)

abbrev pub is_line : String → Bytes → Bool
is_line word line = bytes_beq (strip_bytes line) (codes word)

-- `s.split(",")`
abbrev pub put_char : Char → List String → List String
put_char c [] = String.◌∷◌ c "" ∷ []
put_char c (s ∷ rest) = String.◌∷◌ c s ∷ rest

unfoldable pub split_commas : String → List String
split_commas String.[] = "" ∷ []
split_commas (String.◌∷◌ c s) =
    let rest = split_commas s in if nat_beq (code c) 44 then "" ∷ rest else put_char c rest

-- `{int(idx) for idx in texts if idx}`
unfoldable pub add_new : ℕ → List ℕ → List ℕ
add_new n ns = if exists_row (nat_beq n) ns then ns else n ∷ ns

abbrev pub and_index : Option ℕ → Option (List ℕ) → Option (List ℕ)
and_index (some n) (some ns) = some (add_new n ns)
and_index _ _ = none

unfoldable pub indices : Suite → List String → Option (List ℕ)
indices suite [] = some []
indices suite (s ∷ rest) =
    let others = indices suite rest in
    if is_empty s then others else and_index (suite.int_of s) others

-- `line.startswith(word)`, and what follows it
unfoldable pub after_prefix : String → String → Option String
after_prefix String.[] s = some s
after_prefix (String.◌∷◌ c p) String.[] = none
after_prefix (String.◌∷◌ c p) (String.◌∷◌ d s) =
    let rest = after_prefix p s in if nat_beq (code c) (code d) then rest else none

-- The indices of a HAVE line; `none` stands for a decoding or number error.
unfoldable pub parse_have : Suite → Bytes → Option (List ℕ)
unfolding indices split_commas after_prefix add_new
parse_have suite line =
    if not (bytes_beq (take 5 line) (codes "HAVE ")) then some [] else elim (suite.decode line) [
      | none ↦ none
      | some told ↦ elim (after_prefix "HAVE " told) [
        | none ↦ some []
        | some rest ↦ indices suite (split_commas (strip rest))
      ]
    ]

-- How an attempt ends: the upload returns, the loop over the chunks ends without a DONE, or there
-- is an OSError, or another exception.
pub data AttemptEnd : Type 0 where
  returned unfinished os_error failed : AttemptEnd

pub record Upload : Type 0 where
  pub sent : ℕ
  -- how many nonces have been drawn
  pub drawn : ℕ
  pub files : List FileRow
  -- what `_on_progress` has been told, oldest first
  pub progress : List ℕ
  -- what has been written on this connection behind the file's id
  pub written : Bytes

abbrev pub told_progress : Upload → Upload
told_progress u = record u { progress = u.progress ++ u.sent ∷ [] }

-- A chunk has been acknowledged.
abbrev pub acknowledged : String → Upload → Upload
acknowledged file_id u =
    let sent = u.sent + 1 in
    record u {
      sent = sent;
      files = update_file file_id (λ r. record r { received_chunks = sent }) u.files;
      progress = u.progress ++ sent ∷ [];
    }

abbrev pub wrote : Bytes → Upload → Upload
wrote bytes u = record u { written = u.written ++ bytes; drawn = u.drawn + 1 }

-- The loop over the chunks, from `index` on, with the lines that the server will send
unfoldable pub upload_from :
    Suite → String → Bytes → List ℕ → ℕ → List Bytes → List Bytes → Upload → AttemptEnd × Upload
unfolding upload_frame strip_bytes
upload_from suite file_id key have index [] replies u =
    let (line, _) = read_line replies in
    if is_line "" line || is_line "DONE" line then (returned, u) else (unfinished, u)
upload_from suite file_id key have index (chunk ∷ chunks) replies u =
    let (ack, later) = read_line replies in
    let skipped = upload_from suite file_id key have (suc index) chunks replies (told_progress u) in
    if exists_row (nat_beq index) have
    then skipped
    else elim (upload_frame suite u.drawn index chunk key) [
      | none ↦ (failed, u)
      | some bytes ↦
          let u' = wrote bytes u in
          let next =
            upload_from suite file_id key have (suc index) chunks later (acknowledged file_id u') in
          if not (is_line "ACK" ack || is_line "DONE" ack)
          then (os_error, u')
          else if is_line "DONE" ack
          then (returned, acknowledged file_id u')
          else next
    ]

-- One attempt, on a connection that will give the lines; the first is the HAVE line.
unfoldable pub attempt :
    Suite → String → Bytes → List Bytes → List Bytes → Upload → AttemptEnd × Upload
unfolding parse_have upload_from
attempt suite file_id key chunks lines u =
    let (have_line, replies) = read_line lines in
    elim (parse_have suite have_line) [
      | none ↦ (failed, record u { written = [] })
      | some have ↦
          upload_from suite file_id key have 0 chunks replies
            (record u { written = []; sent = length have })
    ]

-- `_upload_chunks`, with the attempts that are left, the lines of each connection, and true when it
-- returns. A connection that cannot be opened raises before the `try`.
unfoldable pub upload_chunks :
    Suite
    → String
    → Bytes
    → List Bytes
    → ℕ
    → ℕ
    → List (Option (List Bytes))
    → Upload
    → Bool × Upload
unfolding attempt
upload_chunks suite file_id key chunks total zero connections u = (true, u)
upload_chunks suite file_id key chunks total (suc left) [] u = (not (ltb u.sent total), u)
upload_chunks suite file_id key chunks total (suc left) (none ∷ connections) u =
    (not (ltb u.sent total), u)
upload_chunks suite file_id key chunks total (suc left) (some lines ∷ connections) u =
    let (end, u') = attempt suite file_id key chunks lines u in
    let again = upload_chunks suite file_id key chunks total left connections u' in
    if not (ltb u.sent total) then (true, u) else elim end [
      | returned ↦ (true, u')
      | unfinished ↦ again
      | os_error ↦ if nat_beq left 0 then (false, u') else again
      | failed ↦ (false, u')
    ]
