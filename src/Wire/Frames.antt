-- ===== src/Wire/Frames.antt =====
-- Length-prefixed frames and the bodies built of them (src/internal/daemonapi/poolwire.go). A byte is
-- a number below 256; a nil slice is `none`.
use pipedpeer.Base.{
  ℕ, zero, suc, ◌+◌, ◌*◌, ◌/◌, ◌%◌, ◌^◌, Bool, true, false, if◌then◌else◌, Option, none, some, List,
  [], ◌∷◌, ◌++◌, length, get_or, take, drop, ltb,
}

abbrev pub Bytes : Type 0
Bytes = List ℕ

pub data FrameError : Type 0 where
  truncated_header : FrameError
  truncated_payload : ℕ → ℕ → FrameError

-- A result and an error: what the Go functions return as a pair.
pub data Result (A : Type 0) : Type 0 where
  ok : A → Result A
  err : FrameError → Result A

-- binary.BigEndian.AppendUint32 of uint32(n)
abbrev pub put_uint32 : ℕ → Bytes
put_uint32 n =
    let w = n % 2 ^ 32 in w / 16_777_216 ∷ w / 65_536 % 256 ∷ w / 256 % 256 ∷ w % 256 ∷ []

-- binary.BigEndian.Uint32
abbrev pub get_uint32 : Bytes → ℕ
get_uint32 b = ((get_or b 0 0 * 256 + get_or b 1 0) * 256 + get_or b 2 0) * 256 + get_or b 3 0

unfoldable pub put_frame : Bytes → Bytes → Bytes
put_frame buf payload = (buf ++ put_uint32 (length payload)) ++ payload

unfoldable pub read_frame : Bytes → Result (Bytes × Bytes)
read_frame src =
    if ltb (length src) 4
    then err truncated_header
    else (let n = get_uint32 src in
        let rest = drop 4 src in
        if ltb (length rest) n
        then err (truncated_payload n (length rest))
        else ok (take n rest, drop n rest))

-- The loop over the item frames; what follows the last one is ignored.
unfoldable pub parse_items : ℕ → Bytes → Result (List Bytes)
unfolding read_frame
parse_items zero rest = ok []
parse_items (suc n) rest = elim (read_frame rest) [
  | err e ↦ err e
  | ok (f, after) ↦ elim (parse_items n after) [ err e ↦ err e | ok fs ↦ ok (f ∷ fs) ]
]

abbrev pub with_globals : Option Bytes → Result (List Bytes) → Result (Option Bytes × List Bytes)
with_globals g (err e) = err e
with_globals g (ok items) = ok (g, items)

unfoldable pub parse_frames : Bytes → Bool → ℕ → Result (Option Bytes × List Bytes)
unfolding read_frame parse_items
parse_frames body false item_count = with_globals none (parse_items item_count body)
parse_frames body true item_count = elim (read_frame body) [
  | err e ↦ err e
  | ok (globals, rest) ↦ with_globals (some globals) (parse_items item_count rest)
]

unfoldable pub put_items : Bytes → List Bytes → Bytes
unfolding put_frame
put_items buf [] = buf
put_items buf (it ∷ items) = put_items (put_frame buf it) items

unfoldable pub put_globals : Bytes → Option Bytes → Bytes
unfolding put_frame
put_globals buf none = buf
put_globals buf (some globals) = put_frame buf globals

unfoldable pub build_frames : Bytes → Option Bytes → List Bytes → Bytes
unfolding put_items put_globals
build_frames header globals items = put_items (put_globals (header ++ 10 ∷ []) globals) items
