-- ===== src/Client/Samples.antt =====
-- A cipher and an encoding that behave as the client relies on, for witnesses.
use Prim.Native.Char.{code}
use chat_terminal.Common.{
  nat_beq, if◌then◌else◌, ℕ, zero, suc, ◌+◌, ◌-◌, String, ◌≡◌, refl, ◌∙◌, Option, none, some, ap,
  [], ◌∷◌, ◌++◌, arith, length, take, length-append, take-append,
}
use chat_terminal.Client.FileCrypto.{Bytes, Aead}
use chat_terminal.Client.FileCrypto.Chunks.{GoodAead}

abbrev pub zeros : ℕ → Bytes
zeros zero = []
zeros (suc k) = 0 ∷ zeros k

-- A cipher that appends a tag of zeros
abbrev pub plain_aead : Aead
plain_aead = record {
  encrypt = λ key nonce plain. plain ++ zeros 16;
  decrypt = λ key nonce sealed. some (take (length sealed - 16) sealed);
}

cut-zeros : (plain : Bytes) → take (length (plain ++ zeros 16) - 16) (plain ++ zeros 16) ≡ plain
cut-zeros plain =
    let n : length (plain ++ zeros 16) - 16 ≡ length plain =
      omega (arith, length-append plain (zeros 16)) in
    ap (λ k. take k (plain ++ zeros 16)) n ∙ take-append plain (zeros 16)

pub plain-GoodAead : GoodAead plain_aead
plain-GoodAead = record {
  length-encrypt = λ key nonce plain. length-append plain (zeros 16);
  decrypt-encrypt = λ key nonce plain. ap some (cut-zeros plain);
}

-- Each byte as so many strokes and a bar
abbrev strokes : ℕ → String → String
strokes zero s = String.◌∷◌ "|" s
strokes (suc n) s = String.◌∷◌ "/" (strokes n s)

abbrev pub tally : Bytes → String
tally [] = ""
tally (n ∷ ns) = strokes n (tally ns)

abbrev cons_byte : ℕ → Option Bytes → Option Bytes
cons_byte n none = none
cons_byte n (some ns) = some (n ∷ ns)

abbrev counted : ℕ → String → Option Bytes
counted n String.[] = some []
counted n (String.◌∷◌ c s) =
    let more = counted (suc n) s in
    let rest = counted 0 s in if nat_beq (code c) 47 then more else cons_byte n rest

abbrev pub from_tally : String → Option Bytes
from_tally s = counted 0 s

counted-strokes : (n m : ℕ) (s : String) → counted n (strokes m s) ≡ cons_byte (n + m) (counted 0 s)
counted-strokes n zero s = ap (λ k. cons_byte k (counted 0 s)) (omega arith)
counted-strokes n (suc m) s =
    counted-strokes (suc n) m s ∙ ap (λ k. cons_byte k (counted 0 s)) (omega arith)

pub from_tally-tally : (b : Bytes) → from_tally (tally b) ≡ some b
from_tally-tally [] = refl
from_tally-tally (n ∷ ns) =
    counted-strokes 0 n (tally ns)
    ∙ ap (cons_byte (0 + n)) (from_tally-tally ns)
    ∙ ap (λ k. some (k ∷ ns)) (omega arith)
