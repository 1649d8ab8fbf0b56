-- ===== src/Client/Stun/Attributes.antt =====
-- Responses of a STUN server, as client/audio/nat.py reads them.
use Prim.Native.Nat.{bit_xor}
use chat_terminal.Common.{
  ℕ, ◌+◌, ◌*◌, ◌/◌, ◌%◌, ◌≤◌, ◌<◌, ◌≡◌, refl, sym, ap, ◌∙◌, true, false, Option, none, some, List,
  [], ◌∷◌, ◌++◌, arith, bytes_eq, ◌==◌, beq_refl, nat_beq, ltb, le→ltb, length, take, drop,
  length-append, take-append, drop-append, Bool-cases, inl, inr,
}
use chat_terminal.Common.Xor.{bit_xor_twice, bit_xor_word}
use chat_terminal.Client.FileCrypto.{Bytes}
use chat_terminal.Server.Tcp.{pack32, unpack32}
use chat_terminal.Client.Stun.{
  Printer, Address, magic_cookie, cookie_high, pack16, unpack16, zip_xor, decode_xor_mapped,
  find_address, parse_xor_mapped_address,
}
use chat_terminal.Client.Stun.Search.{
  find_address_enough, attribute, attributes, Skipped, unpack16-pack16, body, find_behind,
}

-- The value of an XOR-MAPPED-ADDRESS attribute for an address of four bytes
abbrev pub xor_value : ℕ → ℕ → ℕ → ℕ → ℕ → Bytes
xor_value a b c d port =
    0
    ∷ 1
    ∷ (pack16 (bit_xor port cookie_high) ++ zip_xor (a ∷ b ∷ c ∷ d ∷ []) (pack32 magic_cookie))

decode-xor_value :
    (p : Printer) (a b c d port : ℕ) (tid : Bytes)
    → port < 65536
    → decode_xor_mapped p (xor_value a b c d port) tid ≡ some (p.ntoa (a ∷ b ∷ c ∷ d ∷ []), port)
unfolding decode_xor_mapped zip_xor pack16 pack32 unpack16
decode-xor_value p a b c d port tid h =
    let word : bit_xor port cookie_high < 65536 = bit_xor_word port cookie_high h (omega arith) in
    let value : bit_xor port cookie_high / 256 % 256 * 256 + bit_xor port cookie_high % 256
        ≡ bit_xor port cookie_high =
      omega (arith, word) in
    rw
      (
        value,
        bit_xor_twice port cookie_high,
        bit_xor_twice a 33,
        bit_xor_twice b 18,
        bit_xor_twice c 164,
        bit_xor_twice d 66,
      )
      refl

-- A response: its header, and the attributes
abbrev pub response : ℕ → Bytes → Bytes → Bytes
response kind tid body =
    pack16 kind ++ (pack16 (length body) ++ (pack32 magic_cookie ++ (tid ++ body)))

length-attributes : (attrs : List (ℕ × Bytes)) → length attrs ≤ length (attributes attrs)
unfolding pack16
length-attributes [] = omega arith
length-attributes ((t, v) ∷ attrs) =
    omega (arith, length-append (attribute (t, v)) (attributes attrs), length-attributes attrs)

parse_header :
    (p : Printer) (input tid : Bytes)
    → ltb (length input) 20 ≡ false
    → nat_beq (unpack32 (drop 4 input)) 554869826 ≡ true
    → (take 12 (drop 8 input) == tid) ≡ true
    → parse_xor_mapped_address p input tid
      ≡ find_address p input tid (20 + unpack16 (drop 2 input)) (length input) 20
unfolding parse_xor_mapped_address
parse_header p input tid long cookie mine = rw (long, cookie, mine) refl

-- The address of four bytes and the port, below 2 ** 16, that a server writes into the
-- XOR-MAPPED-ADDRESS attribute of a response are read back from it, with any message type, for the
-- transaction identity of 12 bytes that the response carries, behind any attributes of other types
-- than MAPPED-ADDRESS and this one, if the attributes take fewer than 2 ** 16 bytes.
pub parse_xor_mapped_address-response :
    (p : Printer) (kind : ℕ) (tid : Bytes) (attrs : List (ℕ × Bytes)) (a b c d port : ℕ)
    → length tid ≡ 12
    → port < 65536
    → Skipped attrs
    → length (body attrs (xor_value a b c d port)) < 65536
    → parse_xor_mapped_address p (response kind tid (body attrs (xor_value a b c d port))) tid
      ≡ some (some (p.ntoa (a ∷ b ∷ c ∷ d ∷ []), port))
unfolding parse_xor_mapped_address pack16 pack32 unpack32 zip_xor
parse_xor_mapped_address-response p kind tid attrs a b c d port lt hp skipped small =
    let value = xor_value a b c d port in
    let inner = body attrs value in
    let input = response kind tid inner in
    let size : length input ≡ 20 + length inner = omega (arith, length-append tid inner, lt) in
    let long : ltb (length input) 20 ≡ false = le→ltb (length input) 20 (omega (arith, size)) in
    let told : unpack16 (drop 2 input) ≡ length inner =
      unpack16-pack16 (length inner) (pack32 magic_cookie ++ (tid ++ inner)) small in
    let cookie : nat_beq (unpack32 (drop 4 input)) 554869826 ≡ true = refl in
    let mine : take 12 (tid ++ inner) ≡ tid =
      ap (λ n. take n (tid ++ inner)) (sym lt) ∙ take-append tid inner in
    let rest : drop 20 input ≡ inner =
      ap (λ n. drop n (tid ++ inner)) (sym lt) ∙ drop-append tid inner in
    let enough : length attrs < length input = omega (
      arith,
      size,
      length-append (attributes attrs) (pack16 32 ++ (pack16 (length value) ++ value)),
      length-attributes attrs,
    ) in
    parse_header p input tid long cookie (ap (λ t. t == tid) mine ∙ beq_refl tid)
    ∙ find_behind p input tid (20 + unpack16 (drop 2 input)) (omega (arith, size, told)) attrs
        (length input) 20 value skipped (omega arith) rest enough
    ∙ ap some (decode-xor_value p a b c d port tid hp)

-- The search through the attributes comes to an end, whatever the bytes and the transaction identity.
pub parse_xor_mapped_address_total :
    (p : Printer) (input tid : Bytes)
    → (r : Option Address) × (parse_xor_mapped_address p input tid ≡ some r)
unfolding parse_xor_mapped_address
parse_xor_mapped_address_total p input tid = elim (Bool-cases (ltb (length input) 20)) [
  | inl short ↦ rw short (none, refl)
  | inr long ↦ elim (Bool-cases (nat_beq (unpack32 (drop 4 input)) 554869826)) [
    | inr wrong ↦ rw (long, wrong) (none, refl)
    | inl cookie ↦ elim (Bool-cases (take 12 (drop 8 input) == tid)) [
      | inr foreign ↦ rw (long, cookie, foreign) (none, refl)
      | inl mine ↦
          let size : 20 ≤ length input = ground (arith, long) in
          let (r, found) =
            find_address_enough p input tid (20 + unpack16 (drop 2 input)) (length input) 20
              (omega (arith, size)) (omega (arith, size)) in
          (r, parse_header p input tid long cookie mine ∙ found)
    ]
  ]
]
