-- ===== src/Client/Stun.antt =====
-- client/audio/nat.py: STUN requests and responses. `inet_ntoa` and `inet_ntop` are parameters, and
-- so are the sockets: what is modelled is the bytes.
pub mod Probe
pub mod Search
pub mod Attributes
pub mod Tests
use Prim.Native.Nat.{bit_xor}
use chat_terminal.Common.{
  ℕ, zero, suc, ◌+◌, ◌-◌, ◌*◌, ◌/◌, ◌%◌, ◌^◌, String, Bool, true, false, not, ◌&&◌, Option, none,
  some, List, [], ◌∷◌, ◌++◌, bytes_eq, ◌==◌, nat_beq, ltb, leb, length, take, drop, if◌then◌else◌,
}
use chat_terminal.Client.FileCrypto.{Bytes}
use chat_terminal.Server.Tcp.{pack32, unpack32}

abbrev pub binding_request : ℕ
binding_request = 1

-- 0x2112A442
abbrev pub magic_cookie : ℕ
magic_cookie = 554869826

abbrev pub header_len : ℕ
header_len = 20

abbrev pub attr_xor_mapped : ℕ
attr_xor_mapped = 32

abbrev pub attr_mapped : ℕ
attr_mapped = 1

-- An address family's printer: 4 bytes, and 16 bytes
pub record Printer : Type 0 where
  pub ntoa : Bytes → String
  pub ntop : Bytes → String

abbrev pub Address : Type 0
Address = String × ℕ

-- "!H" of `struct`, for n below 2 ** 16
unfoldable pub pack16 : ℕ → Bytes
pack16 n = n / 256 % 256 ∷ n % 256 ∷ []

-- of two bytes at least
unfoldable pub unpack16 : Bytes → ℕ
unpack16 (a ∷ b ∷ _) = a * 256 + b
unpack16 _ = 0

-- `_build_binding_request`; `none` stands for the ValueError.
unfoldable pub build_binding_request : Bytes → Option Bytes
unfolding pack16 pack32
build_binding_request transaction_id =
    if not (nat_beq (length transaction_id) 12)
    then none
    else some (pack16 binding_request ++ (pack16 0 ++ (pack32 magic_cookie ++ transaction_id)))

-- `bytes(a ^ b for a, b in zip(xs, ys))`
unfoldable pub zip_xor : Bytes → Bytes → Bytes
zip_xor [] ys = []
zip_xor (x ∷ xs) [] = []
zip_xor (x ∷ xs) (y ∷ ys) = bit_xor x y ∷ zip_xor xs ys

-- `_STUN_MAGIC_COOKIE >> 16`
abbrev pub cookie_high : ℕ
cookie_high = magic_cookie / 2 ^ 16

-- `_decode_xor_mapped_address`, with the magic cookie that has been checked. The family is the
-- second byte, and the port stands in the two bytes behind it.
unfoldable pub decode_xor_mapped : Printer → Bytes → Bytes → Option Address
unfolding zip_xor unpack16 pack32
decode_xor_mapped p attr transaction_id =
    if ltb (length attr) 8
    then none
    else (let family = unpack16 (0 ∷ drop 1 attr) in
        let port = bit_xor (unpack16 (drop 2 attr)) cookie_high in
        if nat_beq family 1
        then some (p.ntoa (zip_xor (take 4 (drop 4 attr)) (pack32 magic_cookie)), port)
        else if nat_beq family 2
        then (if ltb (length attr) 20
            then none
            else some (
              p.ntop (zip_xor (take 16 (drop 4 attr)) (pack32 magic_cookie ++ transaction_id)),
              port,
            ))
        else none)

unfoldable pub decode_mapped : Printer → Bytes → Option Address
unfolding unpack16
decode_mapped p attr =
    if ltb (length attr) 8
    then none
    else (let family = unpack16 (0 ∷ drop 1 attr) in
        let port = unpack16 (drop 2 attr) in
        if nat_beq family 1
        then some (p.ntoa (take 4 (drop 4 attr)), port)
        else if nat_beq family 2 && leb 20 (length attr)
        then some (p.ntop (take 16 (drop 4 attr)), port)
        else none)

-- `attr_len + (4 - attr_len % 4) % 4`
abbrev pub padded : ℕ → ℕ
padded n = n + (4 - n % 4) % 4

-- The loop over the attributes, from `offset` to `end`. The outer `none` means that the fuel ran out.
unfoldable pub find_address : Printer → Bytes → Bytes → ℕ → ℕ → ℕ → Option (Option Address)
unfolding unpack16
find_address p input transaction_id end zero offset = none
find_address p input transaction_id end (suc fuel) offset =
    let attr_type = unpack16 (drop offset input) in
    let attr_len = unpack16 (drop (offset + 2) input) in
    let attr = take attr_len (drop (offset + 4) input) in
    let rest = find_address p input transaction_id end fuel (offset + 4 + padded attr_len) in
    if leb (offset + 4) end && leb (offset + 4) (length input)
    then (if nat_beq attr_type attr_xor_mapped
        then some (decode_xor_mapped p attr transaction_id)
        else if nat_beq attr_type attr_mapped
        then some (decode_mapped p attr)
        else rest)
    else some none

-- `_parse_xor_mapped_address`
unfoldable pub parse_xor_mapped_address : Printer → Bytes → Bytes → Option (Option Address)
unfolding find_address unpack32
parse_xor_mapped_address p input transaction_id =
    if ltb (length input) header_len
    then some none
    else if not (nat_beq (unpack32 (drop 4 input)) magic_cookie)
    then some none
    else if not (take 12 (drop 8 input) == transaction_id)
    then some none
    else find_address p input transaction_id (header_len + unpack16 (drop 2 input)) (length input)
        header_len

-- `_StunProtocol.datagram_received`: the first response is kept.
abbrev pub datagram_received : Option Bytes → Bytes → Option Bytes
datagram_received response datagram = elim response [
  | none ↦ some datagram
  | some first ↦ some first
]
