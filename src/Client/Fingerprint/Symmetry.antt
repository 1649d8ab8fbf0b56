-- ===== src/Client/Fingerprint/Symmetry.antt =====
-- Both sides derive one safety number in client/crypto/fingerprint.py.
use chat_terminal.Common.{
  ◌≡◌, refl, true, false, [], ◌∷◌, arith, Bool-cases, inl, inr, ℕ, ◌+◌, ◌/◌, ◌%◌, ◌^◌, ◌++◌, take,
  if◌then◌else◌,
}
use chat_terminal.Client.Fingerprint.{Bytes, Chars, bytes_lt, sorted, hex_value, safety_number}

bytes_lt-asym : (x y : Bytes) → bytes_lt x y ≡ true → bytes_lt y x ≡ false
unfolding bytes_lt
bytes_lt-asym [] [] h = refl
bytes_lt-asym [] (y ∷ ys) h = refl
bytes_lt-asym (x ∷ xs) [] h = cc
bytes_lt-asym (x ∷ xs) (y ∷ ys) h = ground (arith, h, bytes_lt-asym xs ys)

bytes_lt-total : (x y : Bytes) → bytes_lt x y ≡ false → bytes_lt y x ≡ false → x ≡ y
unfolding bytes_lt
bytes_lt-total [] [] h k = refl
bytes_lt-total [] (y ∷ ys) h k = cc
bytes_lt-total (x ∷ xs) [] h k = cc
bytes_lt-total (x ∷ xs) (y ∷ ys) h k = ground (arith, h, k, bytes_lt-total xs ys)

sorted_comm : (x y : Bytes) → sorted x y ≡ sorted y x
unfolding sorted
sorted_comm x y = elim (Bool-cases (bytes_lt y x)) [
  | inl e ↦ rw (e, bytes_lt-asym y x e) refl
  | inr e ↦ elim (Bool-cases (bytes_lt x y)) [
    | inl k ↦ rw (e, k) refl
    | inr k ↦ rw (e, k, bytes_lt-total x y k e) refl
  ]
]

sorted_lem : (x y : Bytes) → sorted x y ≡ (if bytes_lt y x then (y, x) else (x, y))
unfolding sorted
sorted_lem x y = refl

-- The digit of a number that counts the k-th power of ten, as a character
abbrev pub digit : ℕ → ℕ → ℕ
digit v k = 48 + v / 10 ^ k % 10

-- Four digits of a number, the last of which counts the k-th power of ten
abbrev pub four : ℕ → ℕ → Chars
four v k = digit v (k + 3) ∷ digit v (k + 2) ∷ digit v (k + 1) ∷ digit v k ∷ []

-- The two users derive the same safety number, whichever of the keys is one's own. It is the last
-- twenty decimal digits, the highest first, in five groups of four with one space between groups, of
-- the number that the first sixteen hexadecimal digits of a hash write: that of the two keys behind
-- each other, the lesser one first.
pub safety_number_comm :
    (sha256_hex : Bytes → Chars) (my_pub their_pub : Bytes)
    → let joined = if bytes_lt their_pub my_pub then their_pub ++ my_pub else my_pub ++ their_pub in
      let v = hex_value 0 (take 16 (sha256_hex joined)) in
      (safety_number sha256_hex my_pub their_pub ≡ safety_number sha256_hex their_pub my_pub)
      × (safety_number sha256_hex my_pub their_pub
          ≡ four v 16 ++ b' ' ∷ four v 12 ++ b' ' ∷ four v 8 ++ b' ' ∷ four v 4 ++ b' ' ∷ four v 0)
unfolding safety_number
safety_number_comm sha256_hex my_pub their_pub = (
  rw (sorted_comm my_pub their_pub) refl,
  elim (Bool-cases (bytes_lt their_pub my_pub)) [
    | inl e ↦ rw (sorted_lem my_pub their_pub, e) refl
    | inr e ↦ rw (sorted_lem my_pub their_pub, e) refl
  ],
)
