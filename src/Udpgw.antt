-- ===== src/Udpgw.antt =====
-- internal/udpgw/udpgw.go: the flows of the UDP gateway and its frames. An address's IP is its
-- bytes; times are in nanoseconds.
pub mod Frames
pub mod Allocation
pub mod Dispatch
pub mod Janitor
pub mod Tracked
pub mod Returning
pub mod Serve
mod Examples
mod LoopExamples
use ssc.Base.{
  ℕ, ◌+◌, ◌*◌, ◌%◌, Bool, true, false, List, [], ◌∷◌, ◌++◌, Option, none, some, if◌then◌else◌,
  Bytes, ◌==◌, ◌&&◌, ◌||◌, not, ltb, leb, text_eq, take, drop, length, replicate,
}

pub record UdpAddr : Type 0 where
  pub ip : Bytes
  pub port : ℕ

abbrev pub mapped_prefix : Bytes
mapped_prefix = 0 ∷ 0 ∷ 0 ∷ 0 ∷ 0 ∷ 0 ∷ 0 ∷ 0 ∷ 0 ∷ 0 ∷ 255 ∷ 255 ∷ []

-- `ip.To4()`
unfoldable pub to4 : Bytes → Option Bytes
to4 ip =
    if length ip == 4
    then some ip
    else if length ip == 16 && text_eq (take 12 ip) mapped_prefix
    then some (drop 12 ip)
    else none

abbrev pub same_ip : Option Bytes → Option Bytes → Bytes → Bytes → Bool
same_ip (some a) (some b) x y = text_eq a b
same_ip _ _ x y = text_eq x y

-- `ip.Equal`
unfoldable pub ip_equal : Bytes → Bytes → Bool
unfolding to4
ip_equal x y = same_ip (to4 x) (to4 y) x y

unfoldable pub same_source : UdpAddr → UdpAddr → Bool
unfolding ip_equal
same_source a b = ip_equal a.ip b.ip && a.port == b.port

-- a map from identifiers
module _ {A : Type 0} where
  unfoldable pub lookup : ℕ → List (ℕ × A) → Option A
  lookup id [] = none
  lookup id ((n, a) ∷ m) = if n == id then some a else lookup id m

  unfoldable pub delete : ℕ → List (ℕ × A) → List (ℕ × A)
  delete id [] = []
  delete id ((n, a) ∷ m) = let rest = delete id m in if n == id then rest else (n, a) ∷ rest

  unfoldable pub set : ℕ → A → List (ℕ × A) → List (ℕ × A)
  unfolding delete
  set id a m = (id, a) ∷ delete id m

-- `Server`: the counter and the two maps
pub record Flows : Type 0 where
  pub conid_seq : ℕ
  pub src_by_id : List (ℕ × UdpAddr)
  pub idle_by_id : List (ℕ × ℕ)

-- the identifier of a flow from the same source
unfoldable pub owner : UdpAddr → List (ℕ × UdpAddr) → Option ℕ
unfolding same_source
owner src [] = none
owner src ((id, a) ∷ m) = if same_source a src then some id else owner src m

-- `conidSeq++` on 16 bits, without 0
unfoldable pub next_conid : ℕ → ℕ
next_conid seq = let n = (seq + 1) % 65536 in if n == 0 then 1 else n

abbrev pub touch : ℕ → ℕ → Flows → Flows
touch id now s = record s { idle_by_id = set id now s.idle_by_id }

abbrev pub add_flow : ℕ → UdpAddr → ℕ → Flows → Flows
add_flow id src now s = record {
  conid_seq = id;
  src_by_id = set id src s.src_by_id;
  idle_by_id = set id now s.idle_by_id;
}

abbrev pub allocate_for : Option ℕ → UdpAddr → ℕ → Flows → Flows × ℕ
allocate_for (some id) src now s = (touch id now s, id)
allocate_for none src now s = (add_flow (next_conid s.conid_seq) src now s, next_conid s.conid_seq)

-- `allocateConid`
unfoldable pub allocate_conid : UdpAddr → ℕ → Flows → Flows × ℕ
unfolding owner next_conid set
allocate_conid src now s = allocate_for (owner src s.src_by_id) src now s

abbrev pub idle_timeout : ℕ
idle_timeout = 120 * 1000000000

-- the loop of the janitor over the times
unfoldable pub sweep : ℕ → List (ℕ × ℕ) → Flows → Flows
unfolding delete
sweep now [] s = s
sweep now ((id, last_seen) ∷ m) s =
    let gone = record s {
      src_by_id = delete id s.src_by_id;
      idle_by_id = delete id s.idle_by_id;
    } in
    let rest = sweep now m (if ltb (last_seen + idle_timeout) now then gone else s) in rest

-- a round of `janitor`
unfoldable pub janitor : ℕ → Flows → Flows
unfolding sweep
janitor now s = sweep now s.idle_by_id s
