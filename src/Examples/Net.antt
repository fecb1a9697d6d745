-- ===== src/Examples/Net.antt =====
-- Runs of the frames, globals by hash and STUN replies (src/internal/daemonapi/poolwire.go,
-- src/internal/nattype/stun.go).
use pipedpeer.Base.{
  String, Bool, true, false, not, if◌then◌else◌, Option, none, some, [], ◌∷◌, ◌<◌, ◌≡◌, refl, arith,
  All, length, drop,
}
use pipedpeer.Base.Eq.{◌==◌, nat_eq, string_eq}
use pipedpeer.Base.Int.{pos}
use pipedpeer.Base.Map.{get, has}
use pipedpeer.Wire.Frames.{Bytes, ok, parse_frames, build_frames}
use pipedpeer.Wire.Trips.{parse_frames-build_frames}
use pipedpeer.Wire.Held.{Json, Links, held_of, send_globals, join_frames}
use pipedpeer.Wire.Sent.{JsonLaws}
use pipedpeer.Wire.Decode.{Blob, body, valid_sha256, decode_pool_body}
use pipedpeer.Wire.Restored.{IsSound, decode_pool_body-IsSound, decode_pool_body-send_globals}
use pipedpeer.Stun.{Address, address, stun_parse}
use pipedpeer.Stun.Replies.{mapped_reply, stun_parse-mapped_reply}

parse_frames-build_frames_example :
    parse_frames
      (drop 3 (build_frames (123 ∷ 125 ∷ []) (some (7 ∷ [])) ((1 ∷ 2 ∷ []) ∷ [] ∷ [])))
      true
      2
    ≡ ok (some (7 ∷ []), (1 ∷ 2 ∷ []) ∷ [] ∷ [])
parse_frames-build_frames_example =
    parse_frames-build_frames (123 ∷ 125 ∷ []) (some (7 ∷ [])) ((1 ∷ 2 ∷ []) ∷ [] ∷ [])
      (omega arith) (omega arith, (omega arith, tt))

-- A header of two fields, whether there are globals and their hash; what is read back of a line is
-- its first byte, `t` or `f`, and whether a second byte stands for the hash.
abbrev Header : Type 0
Header = Bool × Bool

abbrev the_sha : String
the_sha = "0123456789abcdef0123456789abcdef0123456789abcdef0123456789abcdef"

abbrev header_line : Header → Bytes
header_line (true, true) = 116 ∷ 35 ∷ []
header_line (true, false) = 116 ∷ []
header_line (false, true) = 102 ∷ 35 ∷ []
header_line (false, false) = 102 ∷ []

abbrev has_more : Bytes → Bool
has_more [] = false
has_more (b ∷ bs) = true

abbrev read_line : Bytes → Option Header
read_line [] = none
read_line (b ∷ bs) = some (b == 116, has_more bs)

abbrev flag_json : Json Header
flag_json = record {
  unmarshal = read_line;
  marshal = header_line;
  items_frames = λ h. some (pos 1);
  globals = λ h. h.0;
  globals_sha256 = λ h. if h.1 then the_sha else "";
  set_globals = λ b h. (b, h.1);
  set_sha = λ sha h. (h.0, not (sha == ""));
}

header_line-one : (h : Header) → All (λ b. (b == 10) ≡ false) (header_line h)
header_line-one (true, true) = (refl, (refl, tt))
header_line-one (true, false) = (refl, tt)
header_line-one (false, true) = (refl, (refl, tt))
header_line-one (false, false) = (refl, tt)

length-header_line : (h : Header) → 0 < length (header_line h)
length-header_line (true, true) = omega arith
length-header_line (true, false) = omega arith
length-header_line (false, true) = omega arith
length-header_line (false, false) = omega arith

read_line-header_line : (h : Header) → read_line (header_line h) ≡ some h
read_line-header_line (true, true) = refl
read_line-header_line (true, false) = refl
read_line-header_line (false, true) = refl
read_line-header_line (false, false) = refl

flag_json-JsonLaws : JsonLaws flag_json
flag_json-JsonLaws = record {
  one_line = header_line-one;
  not_empty = length-header_line;
  reads_back = read_line-header_line;
  items_frames-set_globals = λ h b. refl;
  items_frames-set_sha = λ h sha. refl;
  globals-set_globals = λ h b. refl;
  globals-set_sha = λ h sha. refl;
  globals_sha256-set_globals = λ h b. refl;
  set_globals_again = set_again;
}
  where
    set_again : (h : Header) (b : Bool) → h.0 ≡ true → (true, h.1) ≡ h
    set_again (a, c) b e = rw e refl

abbrev cached : Blob
cached = record { bytes = 7 ∷ []; used = 3 }

decode_pool_body-IsSound_example :
    IsSound
      (λ b. the_sha)
      (decode_pool_body flag_json
        (λ b. the_sha)
        (λ b. none)
        (λ k. true)
        true
        5
        ""
        (116 ∷ 35 ∷ 10 ∷ 0 ∷ [])
        []).1
unfolding get
decode_pool_body-IsSound_example =
    decode_pool_body-IsSound flag_json (λ b. the_sha) (λ b. none) (λ k. true) true 5 ""
      (116 ∷ 35 ∷ 10 ∷ 0 ∷ []) [] (λ sha b e. absurd (ground (arith, e)))

abbrev one_held : Links
one_held = ("peer", (the_sha, 1) ∷ []) ∷ []

decode_pool_body-send_globals_example :
    (decode_pool_body flag_json
      (λ b. the_sha)
      (λ b. none)
      (λ k. true)
      true
      5
      ""
      (send_globals flag_json (λ b. the_sha) "peer" 4 one_held (true, false) (7 ∷ []) (8 ∷ [])).0
      ((the_sha, cached) ∷ [])).0
    ≡ body (join_frames flag_json (true, true) (some (7 ∷ [])) (8 ∷ []))
unfolding get has held_of valid_sha256
decode_pool_body-send_globals_example =
    decode_pool_body-send_globals flag_json (λ b. the_sha) (λ b. none) (λ k. true) true 5
      flag_json-JsonLaws "peer" 4 one_held (true, false) (7 ∷ []) (8 ∷ []) (pos 1)
      ((the_sha, cached) ∷ []) cached refl refl refl refl refl refl refl refl

abbrev tid : Bytes
tid = 1 ∷ 2 ∷ 3 ∷ 4 ∷ 5 ∷ 6 ∷ 7 ∷ 8 ∷ 9 ∷ 10 ∷ 11 ∷ 12 ∷ []

abbrev home : Address
home = record { ip = 3_232_235_777; port = 8080 }

stun_parse-mapped_reply_example : stun_parse (mapped_reply tid home (9 ∷ [])) tid ≡ address home
stun_parse-mapped_reply_example =
    stun_parse-mapped_reply tid (9 ∷ []) home refl (omega arith) (omega arith)
