-- ===== src/Client/Stun/Search.antt =====
-- The search through the attributes of a response, in client/audio/nat.py.
use chat_terminal.Common.{
  ℕ, zero, suc, ◌+◌, ◌-◌, ◌%◌, ◌≤◌, ◌<◌, ◌≡◌, refl, sym, ap, ◌∙◌, append_assoc, append-nil, true,
  false, ◌&&◌, Option, none, some, List, [], ◌∷◌, ◌++◌, arith, bytes_eq, nat_beq, leb, length, take,
  drop, length-drop, length-append, take-append, drop-append, Bool-cases, inl, inr,
}
use chat_terminal.Client.FileCrypto.{Bytes}
use chat_terminal.Client.Stun.{
  Printer, Address, padded, pack16, unpack16, decode_xor_mapped, decode_mapped, find_address,
}

-- The loop ends: each attribute takes four bytes at least.
pub find_address_enough :
    (p : Printer) (input tid : Bytes) (end fuel offset : ℕ)
    → length input < fuel + offset
    → 0 < fuel
    → (r : Option Address) × (find_address p input tid end fuel offset ≡ some r)
unfolding find_address
find_address_enough p input tid end zero offset h pos = absurd (omega (arith, pos))
find_address_enough p input tid end (suc fuel) offset h pos =
    elim (Bool-cases (leb (offset + 4) end && leb (offset + 4) (length input))) [
      | inr e ↦ rw e (none, refl)
      | inl e ↦
          let attr_type = unpack16 (drop offset input) in
          let attr_len = unpack16 (drop (offset + 2) input) in
          let attr = take attr_len (drop (offset + 4) input) in
          let inside : offset + 4 ≤ length input = ground (arith, e) in
          let (r, found) =
            find_address_enough p input tid end fuel (offset + 4 + padded attr_len)
              (omega (arith, h)) (omega (arith, h, inside)) in
          elim (Bool-cases (nat_beq attr_type 32)) [
            | inl x ↦ rw (e, x) (decode_xor_mapped p attr tid, refl)
            | inr x ↦ elim (Bool-cases (nat_beq attr_type 1)) [
              | inl m ↦ rw (e, x, m) (decode_mapped p attr, refl)
              | inr m ↦ rw (e, x, m) (r, found)
            ]
          ]
    ]

abbrev zeros : ℕ → Bytes
zeros zero = []
zeros (suc k) = 0 ∷ zeros k

length-zeros : (k : ℕ) → length (zeros k) ≡ k
length-zeros zero = omega arith
length-zeros (suc k) = omega (arith, length-zeros k)

abbrev no_bytes : Bytes
no_bytes = []

pub drop-nil : (n : ℕ) → drop n no_bytes ≡ no_bytes
drop-nil zero = refl
drop-nil (suc n) = refl

pub drop-drop : (a b : ℕ) (xs : Bytes) → drop (a + b) xs ≡ drop b (drop a xs)
drop-drop zero b xs = ap (λ k. drop k xs) (omega arith)
drop-drop (suc a) b [] = drop-nil (suc a + b) ∙ sym (drop-nil b)
drop-drop (suc a) b (x ∷ xs) =
    let e : suc a + b ≡ suc (a + b) = omega arith in ap (λ k. drop k (x ∷ xs)) e ∙ drop-drop a b xs

-- An attribute: its type, its length, its value, and zeros up to a multiple of four
abbrev pub attribute : ℕ × Bytes → Bytes
attribute (t, v) = pack16 t ++ (pack16 (length v) ++ (v ++ zeros ((4 - length v % 4) % 4)))

abbrev pub attributes : List (ℕ × Bytes) → Bytes
attributes [] = []
attributes (a ∷ rest) = attribute a ++ attributes rest

-- Attributes that are passed over
pub data Skipped : List (ℕ × Bytes) → Type 0 where
  nothing : Skipped []
  other :
      {t : ℕ} {v : Bytes} {rest : List (ℕ × Bytes)}
      → t < 65536
      → length v < 65536
      → nat_beq t 32 ≡ false
      → nat_beq t 1 ≡ false
      → Skipped rest
      → Skipped ((t, v) ∷ rest)

pub unpack16-pack16 : (n : ℕ) (rest : Bytes) → n < 65536 → unpack16 (pack16 n ++ rest) ≡ n
unfolding unpack16 pack16
unpack16-pack16 n rest h = omega (arith, h)

drop-pack16 : (n : ℕ) (rest : Bytes) → drop 2 (pack16 n ++ rest) ≡ rest
unfolding pack16
drop-pack16 n rest = refl

abbrev pub body : List (ℕ × Bytes) → Bytes → Bytes
body attrs value = attributes attrs ++ (pack16 32 ++ (pack16 (length value) ++ value))

module _ (p : Printer) (input tid : Bytes) (end : ℕ) (all : length input ≤ end) where
  -- What stands at an offset
  at_type :
      (offset t : ℕ) (rest : Bytes)
      → t < 65536
      → drop offset input ≡ pack16 t ++ rest
      → unpack16 (drop offset input) ≡ t
  at_type offset t rest h e = ap unpack16 e ∙ unpack16-pack16 t rest h

  behind :
      (offset t : ℕ) (rest : Bytes)
      → drop offset input ≡ pack16 t ++ rest
      → drop (offset + 2) input ≡ rest
  behind offset t rest e = drop-drop offset 2 input ∙ ap (drop 2) e ∙ drop-pack16 t rest

  behind_both :
      (offset t n : ℕ) (rest : Bytes)
      → drop offset input ≡ pack16 t ++ (pack16 n ++ rest)
      → drop (offset + 4) input ≡ rest
  behind_both offset t n rest e =
      ap (λ k. drop k input) (omega arith)
      ∙ behind (offset + 2) n rest (behind offset t (pack16 n ++ rest) e)

  fits :
      (offset t n : ℕ) (rest : Bytes)
      → drop offset input ≡ pack16 t ++ (pack16 n ++ rest)
      → (leb (offset + 4) end && leb (offset + 4) (length input)) ≡ true
  unfolding pack16
  fits offset t n rest e =
      let long : length input - offset ≡ 4 + length rest =
        sym (length-drop offset input) ∙ ap length e ∙ omega arith in
      let inside : offset + 4 ≤ length input = omega (arith, long) in ground (arith, all, inside)

  skip_step :
      (fuel offset t : ℕ) (v rest : Bytes)
      → t < 65536
      → length v < 65536
      → nat_beq t 32 ≡ false
      → nat_beq t 1 ≡ false
      → drop offset input ≡ attribute (t, v) ++ rest
      → find_address p input tid end (suc fuel) offset
        ≡ find_address p input tid end fuel (offset + 4 + padded (length v))
  unfolding find_address pack16
  skip_step fuel offset t v rest ht hv x m e =
      let tail = (v ++ zeros ((4 - length v % 4) % 4)) ++ rest in
      let size =
        at_type (offset + 2) (length v) tail hv (behind offset t (pack16 (length v) ++ tail) e) in
      rw
        (
          fits offset t (length v) tail e,
          at_type offset t (pack16 (length v) ++ tail) ht e,
          size,
          x,
          m,
        )
        refl

  found_step :
      (fuel offset : ℕ) (v rest : Bytes)
      → length v < 65536
      → drop offset input ≡ pack16 32 ++ (pack16 (length v) ++ (v ++ rest))
      → find_address p input tid end (suc fuel) offset ≡ some (decode_xor_mapped p v tid)
  unfolding find_address
  found_step fuel offset v rest hv e =
      let size =
        at_type (offset + 2) (length v) (v ++ rest) hv
          (behind offset 32 (pack16 (length v) ++ (v ++ rest)) e) in
      rw
        (
          fits offset 32 (length v) (v ++ rest) e,
          at_type offset 32 (pack16 (length v) ++ (v ++ rest)) (omega arith) e,
          size,
          behind_both offset 32 (length v) (v ++ rest) e,
          take-append v rest,
        )
        refl

  next :
      (offset t : ℕ) (v rest : Bytes)
      → drop offset input ≡ attribute (t, v) ++ rest
      → drop (offset + 4 + padded (length v)) input ≡ rest
  unfolding pack16
  next offset t v rest e =
      let whole = v ++ zeros ((4 - length v % 4) % 4) in
      let size : padded (length v) ≡ length whole = omega (
        arith,
        length-append v (zeros ((4 - length v % 4) % 4)),
        length-zeros ((4 - length v % 4) % 4),
      ) in
      drop-drop (offset + 4) (padded (length v)) input
      ∙ ap (drop (padded (length v))) (behind_both offset t (length v) (whole ++ rest) e)
      ∙ ap (λ k. drop k (whole ++ rest)) size
      ∙ drop-append whole rest

  pub find_behind :
      (attrs : List (ℕ × Bytes)) (fuel offset : ℕ) (value : Bytes)
      → Skipped attrs
      → length value < 65536
      → drop offset input ≡ body attrs value
      → length attrs < fuel
      → find_address p input tid end fuel offset ≡ some (decode_xor_mapped p value tid)
  find_behind attrs zero offset value skipped hv e h = absurd (omega (arith, h))
  find_behind [] (suc fuel) offset value skipped hv e h =
      found_step fuel offset value [] hv
        (e ∙ ap (λ r. pack16 32 ++ (pack16 (length value) ++ r)) (sym (append-nil value)))
  find_behind ((t, v) ∷ attrs) (suc fuel) offset value (other ht hl x m skipped) hv e h =
      let e' : drop offset input ≡ attribute (t, v) ++ body attrs value =
        e
        ∙ append_assoc (attribute (t, v)) (attributes attrs)
            (pack16 32 ++ (pack16 (length value) ++ value)) in
      skip_step fuel offset t v (body attrs value) ht hl x m e'
      ∙ find_behind attrs fuel (offset + 4 + padded (length v)) value skipped hv
          (next offset t v (body attrs value) e') (omega (arith, h))
