-- ===== src/Stun.antt =====
-- The STUN client that asks for the public address (src/internal/nattype/stun.go). A byte is a number
-- below 256; an address is four bytes and a port, where the source prints it.
pub mod Replies
use pipedpeer.Base.{
  ℕ, zero, suc, ◌+◌, ◌-◌, ◌*◌, ◌/◌, ◌%◌, Bool, true, false, if◌then◌else◌, Option, none, some, List,
  [], ◌∷◌, ◌++◌, length, get_or, take, drop, ltb, nat_beq, not, ◌&&◌, ◌||◌,
}
use Prim.Native.Nat.{bit_xor}
use pipedpeer.Wire.Frames.{Bytes, get_uint32}

abbrev pub stun_binding_request : ℕ
stun_binding_request = 1

abbrev pub stun_binding_response : ℕ
stun_binding_response = 257

-- 0x2112A442
abbrev pub stun_magic_cookie : ℕ
stun_magic_cookie = 554_869_826

abbrev pub attr_mapped_address : ℕ
attr_mapped_address = 1

abbrev pub attr_xor_mapped_addr : ℕ
attr_xor_mapped_addr = 32

-- binary.BigEndian.Uint16 and PutUint16
abbrev pub get_uint16 : Bytes → ℕ
get_uint16 b = get_or b 0 0 * 256 + get_or b 1 0

abbrev pub put_uint16 : ℕ → Bytes
put_uint16 n = n / 256 % 256 ∷ n % 256 ∷ []

abbrev pub cookie_bytes : Bytes
cookie_bytes = 33 ∷ 18 ∷ 164 ∷ 66 ∷ []

-- The request, for the random transaction id `tid`.
unfoldable pub stun_request : Bytes → Bytes
stun_request tid = put_uint16 stun_binding_request ++ put_uint16 0 ++ cookie_bytes ++ tid

pub record Address : Type 0 where
  pub ip : ℕ
  pub port : ℕ

pub data StunError : Type 0 where
  too_short not_a_response wrong_cookie other_transaction no_address : StunError

pub data Parsed : Type 0 where
  address : Address → Parsed
  failed : StunError → Parsed

unfoldable pub parse_xor_mapped : Bytes → Option Address
parse_xor_mapped v =
    if ltb (length v) 8
    then none
    else if nat_beq (get_or v 1 0) 1
    then some (record {
      ip = bit_xor (get_uint32 (drop 4 v)) stun_magic_cookie;
      port = bit_xor (get_uint16 (drop 2 v)) (stun_magic_cookie / 65_536);
    })
    else none

unfoldable pub parse_mapped : Bytes → Option Address
parse_mapped v =
    if ltb (length v) 8 || not (nat_beq (get_or v 1 0) 1)
    then none
    else some (record { ip = get_uint32 (drop 4 v); port = get_uint16 (drop 2 v) })

-- The address of one attribute, if it carries one.
unfoldable pub attribute : ℕ → Bytes → Option Address
attribute typ val =
    if nat_beq typ attr_xor_mapped_addr
    then parse_xor_mapped val
    else if nat_beq typ attr_mapped_address
    then parse_mapped val
    else none

-- The bytes of an attribute with its padding.
abbrev pub advance : ℕ → ℕ
advance alen = 4 + alen + (if nat_beq (alen % 4) 0 then 0 else 4 - alen % 4)

-- The loop over the attributes, on fuel: each pass drops at least four bytes.
unfoldable pub parse_attributes : ℕ → Bytes → Parsed
parse_attributes zero body = failed no_address
parse_attributes (suc fuel) body =
    let alen = get_uint16 (drop 2 body) in
    let rest = parse_attributes fuel (drop (advance alen) body) in
    if ltb (length body) 4 || ltb (length body) (4 + alen)
    then failed no_address
    else elim (attribute (get_uint16 body) (take alen (drop 4 body))) [
      | some a ↦ address a
      | none ↦ if ltb (length body) (advance alen) then failed no_address else rest
    ]

-- The comparison of the twelve bytes of the transaction id.
unfoldable pub same_bytes : ℕ → Bytes → Bytes → Bool
same_bytes zero a b = true
same_bytes (suc n) a b =
    let rest = same_bytes n (drop 1 a) (drop 1 b) in nat_beq (get_or a 0 0) (get_or b 0 0) && rest

-- The attributes: as many bytes as the header says, or as there are.
abbrev pub body_of : Bytes → Bytes
body_of msg = take (get_uint16 (drop 2 msg)) (drop 20 msg)

unfoldable pub stun_parse : Bytes → Bytes → Parsed
stun_parse msg tid =
    if ltb (length msg) 20
    then failed too_short
    else if not (nat_beq (get_uint16 msg) stun_binding_response)
    then failed not_a_response
    else if not (nat_beq (get_uint32 (drop 4 msg)) stun_magic_cookie)
    then failed wrong_cookie
    else if not (same_bytes 12 (drop 8 msg) tid)
    then failed other_transaction
    else parse_attributes (suc (length msg)) (body_of msg)
