-- ===== src/Shared/Text.antt =====
-- The methods of Python's str that the server uses.
use Prim.Native.Char.{code}
use chat_terminal.Common.{◌≡◌, refl}
use Prim.Native.Nat.{Ordering}
use Prim.Native.String.{compare}
pub use Prim.Native.String.{◌++◌ as str_append}
use chat_terminal.Common.{
  ℕ, String, Bool, true, false, ◌&&◌, ◌||◌, leb, nat_beq, if◌then◌else◌, ◌==◌, string_eq,
}

-- `c.isspace()`, for a code point
unfoldable pub is_space : ℕ → Bool
is_space c =
    (leb 9 c && leb c 13)
    || (leb 28 c && leb c 32)
    || nat_beq c 133
    || nat_beq c 160
    || nat_beq c 5760
    || (leb 8192 c && leb c 8202)
    || (leb 8232 c && leb c 8233)
    || nat_beq c 8239
    || nat_beq c 8287
    || nat_beq c 12288

-- `s.lstrip()`
unfoldable pub lstrip : String → String
lstrip String.[] = String.[]
lstrip (String.◌∷◌ c s) = let rest = lstrip s in if is_space (code c) then rest else String.◌∷◌ c s

-- A blank character is dropped if all that follows it was dropped.
keep_char : String → Bool → String → String
keep_char String.[] blank c = if blank then String.[] else c
keep_char (String.◌∷◌ d s) blank c = str_append c (String.◌∷◌ d s)

rstrip : String → String
unfolding keep_char
rstrip String.[] = String.[]
rstrip (String.◌∷◌ c s) = keep_char (rstrip s) (is_space (code c)) (String.◌∷◌ c String.[])

-- `s.strip()`
unfoldable pub strip : String → String
unfolding lstrip rstrip is_space
strip s = rstrip (lstrip s)

-- `not s`
abbrev pub is_empty : String → Bool
is_empty s = s == ""

-- The order of texts in SQLite, by their code points
abbrev pub precedes : String → String → Bool
precedes s t = elim (compare s t) [ Ordering.lt ↦ true | _ ↦ false ]

strip_both_ends : strip "  al ice\n " ≡ "al ice"
unfolding strip
strip_both_ends = refl
