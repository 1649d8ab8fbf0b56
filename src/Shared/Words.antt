-- ===== src/Shared/Words.antt =====
-- The methods of Python's str that the client uses on what is typed: slices, prefixes and words.
use Prim.Native.Char.{Char, char, code, nul}
use Prim.Native.Nat.{compare, Ordering}
use Prim.Native.String.{count}
use chat_terminal.Common.{
  ℕ, zero, suc, String, Bool, true, false, ◌&&◌, List, [], ◌∷◌, ◌≡◌, refl, nat_beq, leb,
  if◌then◌else◌, string_eq, arith,
}
use chat_terminal.Shared.Text.{is_space, is_empty, str_append, lstrip}

from_code : (n : ℕ) (o : Ordering) → compare n 55296 ≡ o → Char
from_code n Ordering.lt below = char n (rw below tt)
from_code n _ _ = nul

-- `chr(n)`, below the surrogates
unfoldable pub chr : ℕ → Char
unfolding from_code
chr n = from_code n (compare n 55296) refl

code-from_code :
    (n : ℕ) (o : Ordering) (e : compare n 55296 ≡ o) → o ≡ Ordering.lt → code (from_code n o e) ≡ n
unfolding from_code
code-from_code n Ordering.lt e below = refl
code-from_code n Ordering.eq e below = cc
code-from_code n Ordering.gt e below = cc

pub code-chr : (n : ℕ) → leb n 126 ≡ true → code (chr n) ≡ n
unfolding chr
code-chr n small =
    let below : compare n 55296 ≡ Ordering.lt = ground (arith, small) in
    code-from_code n (compare n 55296) refl below

-- `s[:n]`
unfoldable pub str_take : ℕ → String → String
str_take zero s = String.[]
str_take (suc n) String.[] = String.[]
str_take (suc n) (String.◌∷◌ c s) = String.◌∷◌ c (str_take n s)

-- `s[n:]`
unfoldable pub str_drop : ℕ → String → String
str_drop zero s = s
str_drop (suc n) String.[] = String.[]
str_drop (suc n) (String.◌∷◌ c s) = str_drop n s

-- `s.startswith(prefix)`
unfoldable pub starts_with : String → String → Bool
starts_with String.[] s = true
starts_with (String.◌∷◌ p ps) String.[] = false
starts_with (String.◌∷◌ p ps) (String.◌∷◌ c s) = nat_beq (code p) (code c) && starts_with ps s

-- `s.removeprefix(prefix)`
unfoldable pub remove_prefix : String → String → String
unfolding starts_with str_drop
remove_prefix prefix s = if starts_with prefix s then str_drop (count prefix) s else s

-- `s.lstrip("@")`
unfoldable pub lstrip_at : String → String
lstrip_at String.[] = String.[]
lstrip_at (String.◌∷◌ c s) =
    let rest = lstrip_at s in if nat_beq (code c) 64 then rest else String.◌∷◌ c s

abbrev with_word : String → List String → List String
with_word word rest = if is_empty word then rest else word ∷ rest

-- The word that a text begins with, and the words after it
words : String → String × List String
unfolding is_space
words String.[] = (String.[], [])
words (String.◌∷◌ c s) =
    let (word, rest) = words s in
    if is_space (code c) then (String.[], with_word word rest) else (String.◌∷◌ c word, rest)

-- `s.split()`
unfoldable pub split : String → List String
unfolding words
split s = let (word, rest) = words s in with_word word rest

drop_word : String → String
unfolding is_space
drop_word String.[] = String.[]
drop_word (String.◌∷◌ c s) =
    let rest = drop_word s in if is_space (code c) then String.◌∷◌ c s else rest

-- `s.split(None, n)[n]`: what follows the first n words
unfoldable pub after_words : ℕ → String → String
unfolding lstrip drop_word
after_words zero s = lstrip s
after_words (suc n) s = after_words n (drop_word (lstrip s))

-- `separator.join(parts)`
unfoldable pub join : String → List String → String
join separator [] = String.[]
join separator (s ∷ []) = s
join separator (s ∷ t ∷ rest) = str_append s (str_append separator (join separator (t ∷ rest)))

-- `c * n`
unfoldable pub repeated : Char → ℕ → String
repeated c zero = String.[]
repeated c (suc n) = String.◌∷◌ c (repeated c n)

-- An f-string of texts
unfoldable pub concat : List String → String
concat [] = String.[]
concat (s ∷ rest) = str_append s (concat rest)

-- `parts[n]`, where it is there
unfoldable pub part : ℕ → List String → String
part n [] = String.[]
part zero (s ∷ rest) = s
part (suc n) (s ∷ rest) = part n rest

split_words : split " /dm  @bob\thi " ≡ "/dm" ∷ "@bob" ∷ "hi" ∷ []
unfolding split words is_space
split_words = refl

rest_of_line : after_words 2 "/edit  m1  new  text" ≡ "new  text"
unfolding after_words lstrip drop_word is_space
rest_of_line = refl
