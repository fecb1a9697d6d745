-- ===== src/Nat.antt =====
-- What a router does with addresses and with strangers (src/internal/nattype/nattype.go), over the
-- answers that the network gives. JSON and the printing of addresses are parameters of what is read;
-- an answer that does not come before the deadline is none.
pub mod Verdict
use pipedpeer.Base.{
  ℕ, zero, suc, Bool, true, false, if◌then◌else◌, ltb, ◌&&◌, ◌||◌, not, Option, none, some, List,
  [], ◌∷◌, ◌++◌, length, String,
}
use pipedpeer.Base.Eq.{◌==◌, nat_eq, string_eq}
use pipedpeer.Wire.Frames.{Bytes}
use pipedpeer.Stun.{Address, Parsed, address, failed, stun_parse}

pub data Mapping : Type 0 where
  endpoint_independent address_dependent unknown : Mapping

pub data Filtering : Type 0 where
  open_filter restricted filter_unknown : Filtering

-- A reflector's answer.
pub record Reflection : Type 0 where
  pub you : String
  pub from : String
  pub ack : Bool

-- A packet that arrives: its source's port, and what its JSON says, if it is read.
pub record Packet : Type 0 where
  pub port : ℕ
  pub reflection : Option Reflection

pub record Result : Type 0 where
  pub mapping : Mapping
  pub external : String
  pub seen : List String
  pub blocked : Bool
  pub filter : Filtering

-- The reads of one attempt, `n` at most: whether an acknowledgement came, and whether a packet came
-- from an address that this socket never wrote to. A read that fails ends them.
unfoldable pub filter_reads : ℕ → ℕ → Bool → List (Option Packet) → Bool × Bool
filter_reads zero port acked reads = (acked, false)
filter_reads (suc n) port acked [] = (acked, false)
filter_reads (suc n) port acked (none ∷ reads) = (acked, false)
filter_reads (suc n) port acked (some p ∷ reads) =
    let skip = filter_reads n port acked reads in
    let ack = filter_reads n port true reads in
    elim p.reflection [
      | none ↦ skip
      | some r ↦
          if r.from == ""
          then skip
          else if r.ack && p.port == port
          then ack
          else if not (p.port == port)
          then (acked, true)
          else skip
    ]

-- One attempt: whether the request could be written, and what is read then.
abbrev pub Attempt : Type 0 → Type 0
Attempt A = Bool × A

-- filterTest, three attempts at most; none where the test could not be run.
unfoldable pub filter_test : ℕ → ℕ → Bool → List (Attempt (List (Option Packet))) → Option Filtering
filter_test zero port acked attempts = none
filter_test (suc n) port acked [] = none
filter_test (suc n) port acked ((written, reads) ∷ attempts) =
    let (acked', stranger) = filter_reads 4 port acked reads in
    let failed_write = filter_test n port acked attempts in
    let again = filter_test n port acked' attempts in
    if not written
    then failed_write
    else if stranger
    then some open_filter
    else if acked'
    then some restricted
    else again

-- Over `text`, the printing of an address.
module _ (text : Address → String) where
  -- stunOnce: each attempt has a transaction of its own and one read.
  unfoldable pub stun_once : ℕ → List (Attempt (Bytes × Option Bytes)) → Option String
  stun_once zero attempts = none
  stun_once (suc n) [] = none
  stun_once (suc n) ((written, (tid, read)) ∷ attempts) =
      let again = stun_once n attempts in
      if not written then again else elim read [
        | none ↦ again
        | some msg ↦ elim (stun_parse msg tid) [ address a ↦ some (text a) | failed e ↦ again ]
      ]

  -- reflectOnce
  unfoldable pub reflect_once : ℕ → List (Attempt (Option Reflection)) → Option String
  reflect_once zero attempts = none
  reflect_once (suc n) [] = none
  reflect_once (suc n) ((written, read) ∷ attempts) =
      let again = reflect_once n attempts in
      if not written
      then again
      else elim read [ none ↦ again | some r ↦ if not (r.you == "") then some r.you else again ]

  -- What a server that has an address answers, to either protocol.
  pub record Asked : Type 0 where
    pub stun : List (Attempt (Bytes × Option Bytes))
    pub reflector : List (Attempt (Option Reflection))

  -- The external address that a server saw, none where it did not answer.
  unfoldable pub asked : Asked → Option String
  asked s =
      let reflected = reflect_once 3 s.reflector in
      elim (stun_once 3 s.stun) [
        | none ↦ reflected
        | some ext ↦ if ext == "" then reflected else some ext
      ]

contains : String → List String → Bool
contains x [] = false
contains x (y ∷ ys) = y == x || contains x ys

-- The distinct addresses seen, in the order of the first answer with each.
unfoldable pub note_seen : List String → List (Option String) → List String
unfolding contains
note_seen order [] = order
note_seen order (none ∷ answers) = note_seen order answers
note_seen order (some ext ∷ answers) =
    note_seen (if ext == "" || contains ext order then order else order ++ ext ∷ []) answers

unfoldable pub verdict : Filtering → List String → Result
verdict filter [] = record {
  mapping = unknown;
  external = "";
  seen = [];
  blocked = true;
  filter = filter;
}
verdict filter (ext ∷ []) = record {
  mapping = endpoint_independent;
  external = ext;
  seen = ext ∷ [];
  blocked = false;
  filter = filter;
}
verdict filter (ext ∷ other ∷ more) = record {
  mapping = address_dependent;
  external = ext;
  seen = ext ∷ other ∷ more;
  blocked = false;
  filter = filter;
}

-- Probe, over the test of the first server and the answers of all; none is fewer than two servers. A
-- server whose name has no address answers none.
unfoldable pub probe : Option Filtering → List (Option String) → Option Result
probe tested answers =
    let filter : Filtering = elim tested [ none ↦ filter_unknown | some f ↦ f ] in
    if ltb (length answers) 2 then none else some (verdict filter (note_seen [] answers))

-- What a reflector sends, and from which of its sockets: the one asked or the other.
pub data Socket : Type 0 where
  asked_socket other_socket : Socket

-- ReflectPair, for one request from `from`; `here` and `there` name the two sockets.
unfoldable pub reflect_pair : Bool → String → String → Option String → List (Socket × Reflection)
reflect_pair from_other from here there =
    let plain : List (Socket × Reflection) =
      (asked_socket, record { you = from; from = here; ack = false }) ∷ [] in
    elim there [
      | none ↦ plain
      | some other ↦
          if from_other
          then (asked_socket, record { you = from; from = here; ack = true })
            ∷ (other_socket, record { you = from; from = other; ack = false })
            ∷ []
          else plain
    ]
