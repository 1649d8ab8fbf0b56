-- ===== src/Client/Fingerprint.antt =====
-- client/crypto/fingerprint.py: fingerprints and safety numbers. A text is the list of its code
-- points; the hash is a parameter.
pub mod Symmetry
pub mod Tests
use chat_terminal.Common.{
  ℕ, zero, suc, ◌+◌, ◌-◌, ◌*◌, ◌/◌, ◌%◌, ◌^◌, ◌≡◌, Bool, true, false, ◌&&◌, ◌||◌, List, [], ◌∷◌,
  ◌++◌, nat_beq, ltb, length, take, if◌then◌else◌,
}

abbrev pub Bytes : Type 0
Bytes = List ℕ

abbrev pub Chars : Type 0
Chars = List ℕ

-- `hashlib.sha256(public_key).hexdigest()`
abbrev pubkey_fingerprint : (Bytes → Chars) → Bytes → Chars
pubkey_fingerprint sha256_hex public_key = sha256_hex public_key

-- `[s[i : i + 4] for i in range(0, len(s), 4)]`
unfoldable pub groups : Chars → List Chars
groups [] = []
groups (a ∷ []) = (a ∷ []) ∷ []
groups (a ∷ b ∷ []) = (a ∷ b ∷ []) ∷ []
groups (a ∷ b ∷ c ∷ []) = (a ∷ b ∷ c ∷ []) ∷ []
groups (a ∷ b ∷ c ∷ d ∷ rest) = (a ∷ b ∷ c ∷ d ∷ []) ∷ groups rest

-- `" ".join(parts)`
unfoldable pub spaced : List Chars → Chars
spaced [] = []
spaced (p ∷ []) = p
spaced (p ∷ q ∷ ps) = p ++ b' ' ∷ spaced (q ∷ ps)

abbrev format_fingerprint : Chars → Chars
format_fingerprint hex = spaced (groups hex)

-- `x < y` of two bytes objects
unfoldable pub bytes_lt : Bytes → Bytes → Bool
bytes_lt [] [] = false
bytes_lt [] (y ∷ ys) = true
bytes_lt (x ∷ xs) [] = false
bytes_lt (x ∷ xs) (y ∷ ys) = ltb x y || (nat_beq x y && bytes_lt xs ys)

-- `first, second = sorted([x, y])`
unfoldable pub sorted : Bytes → Bytes → Bytes × Bytes
sorted x y = if bytes_lt y x then (y, x) else (x, y)

-- `int(s, 16)`, of lower-case digits, after the digits that have been read
unfoldable pub hex_value : ℕ → Chars → ℕ
hex_value n [] = n
hex_value n (c ∷ cs) = hex_value (n * 16 + (if ltb c 58 then c - 48 else c - 87)) cs

-- `str(value).zfill(k)`, for a value below 10 ** k
unfoldable pub decimal : ℕ → ℕ → Chars
decimal zero value = []
decimal (suc k) value = (48 + value / 10 ^ k % 10) ∷ decimal k value

-- Sixteen hexadecimal digits are below 10 ** 20.
unfoldable pub safety_number : (Bytes → Chars) → Bytes → Bytes → Chars
unfolding sorted groups spaced decimal hex_value
safety_number sha256_hex my_pub their_pub =
    let (first, second) = sorted my_pub their_pub in
    let value = hex_value 0 (take 16 (sha256_hex (first ++ second))) in
    spaced (groups (decimal 20 value))
