-- ===== src/Stun/Replies.antt =====
-- What is read of a STUN reply (src/internal/nattype/stun.go).
use pipedpeer.Base.{
  ℕ, zero, suc, ◌+◌, ◌^◌, ◌<◌, ◌≤◌, ◌≡◌, refl, subst, true, false, List, [], ◌∷◌, ◌++◌, length,
  take, drop, ltb, ◌||◌, arith, Bool-cases, Option-cases, inl, inr, drop-append_length,
  length-append,
}
use pipedpeer.Wire.Frames.{Bytes, get_uint32, put_uint32}
use pipedpeer.Stun.{
  Address, address, advance, attribute, parse_mapped, parse_attributes, same_bytes, stun_parse,
  stun_binding_response, attr_mapped_address, cookie_bytes, get_uint16, put_uint16,
}

length-drop :
    {A : Type 0} (n : ℕ) (xs : List A) → n ≤ length xs → length (drop n xs) + n ≡ length xs
length-drop zero xs h = omega arith
length-drop (suc n) [] h = absurd (omega arith)
length-drop (suc n) (x ∷ xs) h = omega (arith, length-drop n xs)

shorter :
    (alen : ℕ) (body : Bytes) (fuel : ℕ)
    → ltb (length body) (advance alen) ≡ false
    → length body < suc fuel
    → length (drop (advance alen) body) < fuel
shorter alen body fuel on h =
    let fits : advance alen ≤ length body = ground (arith, on) in
    let four : 4 ≤ advance alen = ground arith in
    omega (arith, length-drop (advance alen) body fits, four)

-- Any fuel above the number of bytes gives the same answer: the loop over the attributes ends.
pub parse_attributes-fuel :
    (fuel more : ℕ) (body : Bytes)
    → length body < fuel
    → length body < more
    → parse_attributes fuel body ≡ parse_attributes more body
unfolding parse_attributes
parse_attributes-fuel zero more body h k = absurd (omega arith)
parse_attributes-fuel (suc fuel) zero body h k = absurd (omega arith)
parse_attributes-fuel (suc fuel) (suc more) body h k =
    let alen = get_uint16 (drop 2 body) in
    elim (Bool-cases (ltb (length body) 4 || ltb (length body) (4 + alen))) [
      | inl short ↦ rw short refl
      | inr enough ↦ elim (Option-cases (attribute (get_uint16 body) (take alen (drop 4 body)))) [
        | inr (a, e) ↦ rw (enough, e) refl
        | inl e ↦ elim (Bool-cases (ltb (length body) (advance alen))) [
          | inl last ↦ rw (enough, e, last) refl
          | inr on ↦
              rw (enough, e, on)
                (parse_attributes-fuel fuel more (drop (advance alen) body)
                  (shorter alen body fuel on h) (shorter alen body more on k))
        ]
      ]
    ]

same_bytes-take :
    (n : ℕ) (a b : Bytes)
    → n ≤ length a
    → n ≤ length b
    → same_bytes n a b ≡ true
    → take n a ≡ take n b
unfolding same_bytes
same_bytes-take zero a b h k e = refl
same_bytes-take (suc n) [] b h k e = absurd (omega arith)
same_bytes-take (suc n) (x ∷ a) [] h k e = absurd (omega arith)
same_bytes-take (suc n) (x ∷ a) (y ∷ b) h k e =
    let (same, rest) : (x ≡ y) × (same_bytes n a b ≡ true) =
      (ground (arith, e), ground (arith, e)) in
    rw (same, same_bytes-take n a b (omega arith) (omega arith) rest) refl

-- An address is read only of a reply that carries the transaction id of the request, which has
-- twelve bytes.
pub stun_parse-transaction :
    (msg tid : Bytes) (a : Address)
    → length tid ≡ 12
    → stun_parse msg tid ≡ address a
    → take 12 (drop 8 msg) ≡ take 12 tid
unfolding stun_parse
stun_parse-transaction msg tid a twelve e =
    let (long, same) : (20 ≤ length msg) × (same_bytes 12 (drop 8 msg) tid ≡ true) =
      (ground (arith, e), ground (arith, e)) in
    same_bytes-take 12 (drop 8 msg) tid (omega (arith, length-drop 8 msg (omega arith)))
      (omega arith) same

-- A reply with one mapped address, as RFC 5389 lays it out.
unfoldable pub mapped_attribute : Address → Bytes
mapped_attribute a =
    put_uint16 attr_mapped_address ++ put_uint16 8 ++ 0 ∷ 1 ∷ (put_uint16 a.port ++ put_uint32 a.ip)

unfoldable pub mapped_reply : Bytes → Address → Bytes → Bytes
mapped_reply tid a more =
    put_uint16 stun_binding_response
    ++ put_uint16 12
    ++ cookie_bytes
    ++ (tid ++ (mapped_attribute a ++ more))

same_bytes-append : (a b : Bytes) → same_bytes (length a) (a ++ b) a ≡ true
unfolding same_bytes
same_bytes-append [] b = refl
same_bytes-append (x ∷ a) b = ground (arith, same_bytes-append a b)

parse_attributes-mapped :
    (fuel : ℕ) (a : Address)
    → a.port < 65_536
    → a.ip < 2 ^ 32
    → parse_attributes (suc fuel) (mapped_attribute a) ≡ address a
unfolding parse_attributes mapped_attribute attribute parse_mapped
parse_attributes-mapped fuel a p i =
    let ip_read : get_uint32 (put_uint32 a.ip) ≡ a.ip = omega arith in
    let port_read : get_uint16 (put_uint16 a.port) ≡ a.port = omega arith in
    ground (arith, ip_read, port_read)

-- From a reply that carries one mapped address, whatever follows it, that address is read, if it has
-- a port of 16 bits and an IP of 32, and the reply answers the request.
pub stun_parse-mapped_reply :
    (tid more : Bytes) (a : Address)
    → length tid ≡ 12
    → a.port < 65_536
    → a.ip < 2 ^ 32
    → stun_parse (mapped_reply tid a more) tid ≡ address a
unfolding stun_parse mapped_reply mapped_attribute
stun_parse-mapped_reply tid more a twelve p i =
    let rest = mapped_attribute a ++ more in
    let msg = mapped_reply tid a more in
    let long : ltb (length msg) 20 ≡ false = ground (arith, length-append tid rest, twelve) in
    let same =
      subst (λ n. same_bytes n (tid ++ rest) tid ≡ true) twelve (same_bytes-append tid rest) in
    let body : drop 12 (tid ++ rest) ≡ rest =
      subst (λ n. drop n (tid ++ rest) ≡ rest) twelve (drop-append_length tid rest) in
    rw (long, same, body) (parse_attributes-mapped (length msg) a p i)
