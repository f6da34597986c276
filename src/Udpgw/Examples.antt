-- ===== src/Udpgw/Examples.antt =====
-- The theorems on the UDP gateway at concrete inputs, and tests.
use ssc.Base.{
  ◌≡◌, ◌≢◌, refl, true, ℕ, suc, List, [], ◌∷◌, Option, none, some, Bytes, arith, length, All,
}
use ssc.Udpgw.{
  UdpAddr, Flows, to4, touch, janitor, lookup, allocate_conid, owner, next_conid, same_source,
  ip_equal, set,
}
use ssc.Udpgw.Returning.{Meanwhile, nothing, more, allocates, touches, sweeps, forward-read_loop}
use ssc.Udpgw.Frames.{
  keepalive_frame, put_uint16, encode_frame, forward, write_works, read_loop, read_header_failed,
}
use ssc.Udpgw.Allocation.{IsValid}
use ssc.Udpgw.Dispatch.{decode, decode-encode_frame, stream, delivered, read_loop-stream}

abbrev app : UdpAddr
app = record { ip = 10 ∷ 0 ∷ 0 ∷ 2 ∷ []; port = 4000 }

abbrev other : UdpAddr
other = record { ip = 10 ∷ 0 ∷ 0 ∷ 3 ∷ []; port = 4000 }

-- the counter is about to wrap around
abbrev full : Flows
full = record { conid_seq = 65535; src_by_id = (1, other) ∷ []; idle_by_id = (1, 5) ∷ [] }

full-IsValid : IsValid full
full-IsValid = record {
  seq = omega arith;
  ranges = ((omega arith, omega arith), tt);
  distinct = (tt, tt);
}

-- The wrapped counter takes the identifier of a flow that is still in use.
flow_is_replaced : lookup 1 (allocate_conid app 9 full).0.src_by_id ≡ some app
unfolding lookup allocate_conid owner same_source ip_equal to4 next_conid set ssc.Base.text_eq
flow_is_replaced = refl

two_is_free : 2 ≢ (allocate_conid app 9 full).1
unfolding allocate_conid owner same_source ip_equal to4 next_conid set ssc.Base.text_eq
two_is_free = omega arith

decode-encode_frame_example :
    decode (encode_frame 7 app (1 ∷ 2 ∷ []))
    ≡ some (record { conid = 7; ip4 = 10 ∷ 0 ∷ 0 ∷ 2 ∷ []; port = 4000; payload = 1 ∷ 2 ∷ [] })
unfolding to4
decode-encode_frame_example =
    decode-encode_frame 7 app (1 ∷ 2 ∷ []) 10 0 0 2 (omega arith) (omega arith) (omega arith) refl

read_loop-stream_example :
    ((read_loop 3 20 (stream ((1, 8 ∷ []) ∷ (9, 8 ∷ 9 ∷ []) ∷ [])) full).packets
      ≡ delivered ((1, 8 ∷ []) ∷ (9, 8 ∷ 9 ∷ []) ∷ []) full.src_by_id)
    × ((read_loop 3 20 (stream ((1, 8 ∷ []) ∷ (9, 8 ∷ 9 ∷ []) ∷ [])) full).error
        ≡ some read_header_failed)
read_loop-stream_example =
    read_loop-stream ((1, 8 ∷ []) ∷ (9, 8 ∷ 9 ∷ []) ∷ []) 20 full
      ((omega arith, omega arith, omega arith), ((omega arith, omega arith, omega arith), tt))

-- what the packet of `app` leaves, and then a packet of another source, the reading of a reply, and a
-- round of the janitor
abbrev sent_flows : Flows
sent_flows = (forward write_works none app (1 ∷ []) 9 full).flows

abbrev later_flows : Flows
later_flows = janitor 12 (touch 1 11 (allocate_conid other 10 sent_flows).0)

in_between : Meanwhile (forward write_works none app (1 ∷ []) 9 full).conid sent_flows later_flows
unfolding forward allocate_conid ssc.Udpgw.owner ssc.Udpgw.next_conid ssc.Udpgw.set ssc.Udpgw.delete
    ssc.Udpgw.lookup ssc.Udpgw.same_source ssc.Udpgw.ip_equal ssc.Udpgw.to4 ssc.Base.text_eq
in_between =
    more (touch 1 11 (allocate_conid other 10 sent_flows).0) later_flows
      (more (allocate_conid other 10 sent_flows).0
        (touch 1 11 (allocate_conid other 10 sent_flows).0)
        (more sent_flows (allocate_conid other 10 sent_flows).0 nothing
          (allocates other 10 sent_flows (λ e f. absurd (omega (arith, f)))))
        (touches 1 11 (allocate_conid other 10 sent_flows).0))
      (sweeps 12 (touch 1 11 (allocate_conid other 10 sent_flows).0) refl)

forward-read_loop_example :
    (a : UdpAddr) × (same_source a app ≡ true)
    × ((read_loop 2 15
          (stream (((forward write_works none app (1 ∷ []) 9 full).conid, 5 ∷ 6 ∷ []) ∷ []))
          later_flows).packets
        ≡ (a, 5 ∷ 6 ∷ []) ∷ [])
forward-read_loop_example =
    forward-read_loop write_works none app (1 ∷ []) 9 15 full later_flows (5 ∷ 6 ∷ []) full-IsValid
      (tt, tt) in_between (omega arith) (omega arith)

-- The frame of the keepalive is one that the server reads.
keepalive_is_read :
    decode keepalive_frame
    ≡ some (record { conid = 65535; ip4 = 1 ∷ 1 ∷ 1 ∷ 1 ∷ []; port = 53; payload = 0 ∷ [] })
unfolding decode keepalive_frame put_uint16
keepalive_is_read = refl
