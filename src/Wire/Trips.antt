-- ===== src/Wire/Trips.antt =====
-- What is read back from a body of frames (src/internal/daemonapi/poolwire.go).
use pipedpeer.Base.{
  ℕ, suc, ◌^◌, ◌<◌, ◌≡◌, refl, sym, ap, ◌∙◌, subst, Bool, true, false, Option, none, some, List, [],
  ◌∷◌, ◌++◌, length, drop, All, arith, length-append, take-append_length, drop-append_length,
}
use mathlib.Core.List.{append_assoc, append-nil}
use pipedpeer.Wire.Frames.{
  Bytes, Result, ok, err, put_uint32, get_uint32, put_frame, read_frame, parse_items, parse_frames,
  put_items, put_globals, build_frames,
}

-- A payload whose length a frame can carry.
abbrev pub Fits : Bytes → Type 0
Fits payload = length payload < 2 ^ 32

abbrev pub FitsGlobals : Option Bytes → Type 0
FitsGlobals none = Unit {0}
FitsGlobals (some g) = Fits g

uint32_lem : (n : ℕ) (rest : Bytes) → n < 2 ^ 32 → get_uint32 (put_uint32 n ++ rest) ≡ n
uint32_lem n rest h = omega arith

read_frame_lem :
    (payload rest : Bytes)
    → Fits payload
    → read_frame (put_uint32 (length payload) ++ (payload ++ rest)) ≡ ok (payload, rest)
unfolding read_frame
read_frame_lem payload rest h =
    rw
      (
        uint32_lem (length payload) (payload ++ rest) h,
        length-append payload rest,
        take-append_length payload rest,
        drop-append_length payload rest,
      )
      (ground arith)

unfoldable pub frame : Bytes → Bytes
frame payload = put_uint32 (length payload) ++ payload

pub read_frame-frame :
    (payload rest : Bytes) → Fits payload → read_frame (frame payload ++ rest) ≡ ok (payload, rest)
unfolding frame
read_frame-frame payload rest h =
    subst (λ b. read_frame b ≡ ok (payload, rest))
      (sym (append_assoc (put_uint32 (length payload)) payload rest))
      (read_frame_lem payload rest h)

unfoldable pub frames : List Bytes → Bytes
frames [] = []
frames (it ∷ items) = frame it ++ frames items

unfoldable pub globals_frame : Option Bytes → Bytes
globals_frame none = []
globals_frame (some g) = frame g

put_frame_lem : (buf payload : Bytes) → put_frame buf payload ≡ buf ++ frame payload
unfolding put_frame frame
put_frame_lem buf payload = append_assoc buf (put_uint32 (length payload)) payload

put_items_lem : (buf : Bytes) (items : List Bytes) → put_items buf items ≡ buf ++ frames items
unfolding put_items frames
put_items_lem buf [] = sym (append-nil buf)
put_items_lem buf (it ∷ items) =
    put_items_lem (put_frame buf it) items
    ∙ ap (λ b. b ++ frames items) (put_frame_lem buf it)
    ∙ append_assoc buf (frame it) (frames items)

pub put_globals_lem : (buf : Bytes) (g : Option Bytes) → put_globals buf g ≡ buf ++ globals_frame g
unfolding put_globals globals_frame
put_globals_lem buf none = sym (append-nil buf)
put_globals_lem buf (some g) = put_frame_lem buf g

-- The body is its header line and then the frames.
build_frames_lem :
    (header : Bytes) (g : Option Bytes) (items : List Bytes)
    → build_frames header g items ≡ header ++ 10 ∷ (globals_frame g ++ frames items)
unfolding build_frames
build_frames_lem header g items =
    rw
      (
        put_items_lem (put_globals (header ++ 10 ∷ []) g) items,
        put_globals_lem (header ++ 10 ∷ []) g,
        append_assoc (header ++ 10 ∷ []) (globals_frame g) (frames items),
        append_assoc header (10 ∷ []) (globals_frame g ++ frames items),
      )
      refl

parse_items-frames :
    (items : List Bytes) (rest : Bytes)
    → All Fits items
    → parse_items (length items) (frames items ++ rest) ≡ ok items
unfolding parse_items frames
parse_items-frames [] rest h = refl
parse_items-frames (it ∷ items) rest h =
    subst (λ b. parse_items (suc (length items)) b ≡ ok (it ∷ items))
      (sym (append_assoc (frame it) (frames items) rest))
      (rw
        (
          parse_items,
          read_frame-frame it (frames items ++ rest) h.0,
          parse_items-frames items rest h.1,
        )
        refl)

abbrev pub is_some : Option Bytes → Bool
is_some none = false
is_some (some g) = true

parse_frames-frames :
    (g : Option Bytes) (items : List Bytes) (rest : Bytes)
    → FitsGlobals g
    → All Fits items
    → parse_frames ((globals_frame g ++ frames items) ++ rest) (is_some g) (length items)
      ≡ ok (g, items)
unfolding parse_frames globals_frame
parse_frames-frames none items rest hg h = rw (parse_items-frames items rest h) refl
parse_frames-frames (some g) items rest hg h =
    subst (λ b. parse_frames b true (length items) ≡ ok (some g, items))
      (sym (append_assoc (frame g) (frames items) rest))
      (rw
        (
          parse_frames,
          read_frame-frame g (frames items ++ rest) hg,
          parse_items-frames items rest h,
        )
        refl)

drop-append :
    {A : Type 0} (xs : List A) (y : A) (ys : List A) → drop (suc (length xs)) (xs ++ y ∷ ys) ≡ ys
drop-append [] y ys = refl
drop-append (x ∷ xs) y ys = drop-append xs y ys

-- What `build_frames` assembles, `parse_frames` reads back after the header line, if each payload is
-- shorter than 2^32 bytes.
pub parse_frames-build_frames :
    (header : Bytes) (g : Option Bytes) (items : List Bytes)
    → FitsGlobals g
    → All Fits items
    → parse_frames
        (drop (suc (length header)) (build_frames header g items))
        (is_some g)
        (length items)
      ≡ ok (g, items)
parse_frames-build_frames header g items hg h =
    rw
      (
        build_frames_lem header g items,
        drop-append header 10 (globals_frame g ++ frames items),
        sym (append-nil (globals_frame g ++ frames items)),
      )
      (parse_frames-frames g items [] hg h)

-- A body that is cut anywhere in its frames is refused.
IsErr : {A : Type 0} → Result A → Type 0
IsErr (ok a) = ⊥
IsErr (err e) = Unit {0}
