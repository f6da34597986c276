-- ===== src/Udpgw/Frames.antt =====
-- internal/udpgw/udpgw.go: `encodeFrame`, the frames from the server, and the loop that reads them.
use ssc.Base.{
  ℕ, zero, suc, ◌+◌, ◌*◌, ◌/◌, ◌%◌, Bool, true, false, List, [], ◌∷◌, ◌++◌, Option, none, some,
  if◌then◌else◌, Bytes, ◌==◌, ◌||◌, ◌&&◌, not, leb, ltb, length, take, drop,
}
use ssc.Udpgw.{UdpAddr, to4, Flows, touch, set, lookup, allocate_conid}

-- `binary.BigEndian.PutUint16` of a number cut to 16 bits
unfoldable pub put_uint16 : ℕ → Bytes
put_uint16 n = (n / 256) % 256 ∷ n % 256 ∷ []

abbrev pub address_bytes : Option Bytes → Bytes
address_bytes none = 0 ∷ 0 ∷ 0 ∷ 0 ∷ []
address_bytes (some ip4) = ip4

-- `encodeFrame`; the address is there, its IP may be one without IPv4 bytes
unfoldable pub encode_frame : ℕ → UdpAddr → Bytes → Bytes
unfolding put_uint16 to4
encode_frame conid addr payload =
    1 ∷ put_uint16 conid
    ++ put_uint16 (length payload)
    ++ address_bytes (to4 addr.ip)
    ++ put_uint16 addr.port
    ++ payload

-- the frame of `keepalive`
unfoldable pub keepalive_frame : Bytes
unfolding put_uint16
keepalive_frame = 1 ∷ put_uint16 65535 ++ put_uint16 1 ++ 1 ∷ 1 ∷ 1 ∷ 1 ∷ 0 ∷ 53 ∷ 0 ∷ []

pub data ReadError : Type 0 where
  read_header_failed : ReadError
  invalid_frame : ℕ → ℕ → ReadError
  read_payload_failed : ℕ → ReadError

-- A frame from the server and the bytes after it, or why the loop ends.
pub data Frame : Type 0 where
  frame : ℕ → Bytes → Bytes → Frame
  bad : ReadError → Frame

abbrev pub payload_of : ℕ → ℕ → Bytes → Frame
payload_of conid datalen rest =
    if datalen == 0 || ltb 8192 datalen
    then bad (invalid_frame conid datalen)
    else if ltb (length rest) datalen
    then bad (read_payload_failed conid)
    else frame conid (take datalen rest) (drop datalen rest)

-- the reads of a round of `readLoop`, on the bytes that the connection gives until it ends
unfoldable pub read_frame : Bytes → Frame
read_frame (c ∷ d ∷ l ∷ m ∷ rest) = payload_of (c * 256 + d) (l * 256 + m) rest
read_frame _ = bad read_header_failed

-- the packets for the local sources
abbrev pub Packets : Type 0
Packets = List (UdpAddr × Bytes)

abbrev pub deliver : Option UdpAddr → Bytes → Packets
deliver none payload = []
deliver (some src) payload = (src, payload) ∷ []

abbrev pub touch_known : Option UdpAddr → ℕ → ℕ → Flows → Flows
touch_known none conid now s = s
touch_known (some src) conid now s = touch conid now s

-- What the loop did until it ended.
pub record Read : Type 0 where
  pub packets : Packets
  pub flows : Flows
  pub error : Option ReadError

abbrev pub after_packets : Packets → Read → Read
after_packets ps r = record r { packets = ps ++ r.packets }

abbrev pub read_round : (Bytes → Flows → Read) → ℕ → Frame → Flows → Read
read_round loop now (bad e) s = record { packets = []; flows = s; error = some e }
read_round loop now (frame conid payload rest) s =
    let src = lookup conid s.src_by_id in
    after_packets (deliver src payload) (loop rest (touch_known src conid now s))

-- `readLoop` for at most `rounds` frames; no error is left when the rounds are used up
unfoldable pub read_loop : ℕ → ℕ → Bytes → Flows → Read
unfolding read_frame lookup set
read_loop zero now input s = record { packets = []; flows = s; error = none }
read_loop (suc rounds) now input s = read_round (read_loop rounds now) now (read_frame input) s

-- A control message of a packet, as `syscall.ParseSocketControlMessage` gives it.
pub record ControlMessage : Type 0 where
  pub level : ℕ
  pub kind : ℕ
  pub content : Bytes

abbrev pub at : ℕ → Bytes → ℕ
at n b = elim (drop n b) [ [] ↦ 0 | c ∷ _ ↦ c ]

abbrev pub orig_dst_of : Bytes → UdpAddr
orig_dst_of b = record { ip = take 4 (drop 4 b); port = at 2 b * 256 + at 3 b }

abbrev pub pkt_info_of : Bytes → UdpAddr → UdpAddr
pkt_info_of b src = record { ip = take 4 (drop 8 b); port = src.port }

-- the loop of `extractDstFromPktInfo`; level 0 is `SOL_IP`
unfoldable pub first_dst : List ControlMessage → UdpAddr → Option UdpAddr
first_dst [] src = none
first_dst (msg ∷ msgs) src =
    let rest = first_dst msgs src in
    if not (msg.level == 0)
    then rest
    else if msg.kind == 20 && leb 8 (length msg.content)
    then some (orig_dst_of msg.content)
    else if msg.kind == 8 && leb 12 (length msg.content)
    then some (pkt_info_of msg.content src)
    else rest

-- `extractDstFromPktInfo`; no messages if they do not parse
unfoldable pub extract_dst : Option (List ControlMessage) → UdpAddr → Option UdpAddr
unfolding first_dst
extract_dst none src = none
extract_dst (some msgs) src = first_dst msgs src

-- The connection to the server when a packet is forwarded.
pub data Leg : Type 0 where
  no_conn write_fails write_works : Leg

abbrev pub or_source : Option UdpAddr → UdpAddr → UdpAddr
or_source none src = src
or_source (some dst) src = dst

-- What a round of `forwardLoop` did: the frame that was written, and whether the loop goes on.
pub record Forwarded : Type 0 where
  pub flows : Flows
  pub conid : ℕ
  pub written : Option Bytes
  pub goes_on : Bool

abbrev pub write_frame : Leg → ℕ → Bytes → ℕ → Flows → Forwarded
write_frame no_conn now wire conid s = record {
  flows = s;
  conid = conid;
  written = none;
  goes_on = true;
}
write_frame write_fails now wire conid s = record {
  flows = s;
  conid = conid;
  written = none;
  goes_on = false;
}
write_frame write_works now wire conid s = record {
  flows = touch conid now s;
  conid = conid;
  written = some wire;
  goes_on = true;
}

-- a round of `forwardLoop` for a packet that is not empty
unfoldable pub forward :
    Leg → Option (List ControlMessage) → UdpAddr → Bytes → ℕ → Flows → Forwarded
unfolding extract_dst encode_frame
forward leg oob src payload now s =
    let dst = or_source (extract_dst oob src) src in
    let r = allocate_conid src now s in write_frame leg now (encode_frame r.1 dst payload) r.1 r.0
