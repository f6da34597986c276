-- ===== src/Udpgw/LoopExamples.antt =====
-- The theorems on the loops of the UDP gateway at concrete inputs.
use ssc.Base.{◌≡◌, refl, true, false, List, [], ◌∷◌, none}
use ssc.Udpgw.{UdpAddr, Flows, lookup, allocate_conid, touch, janitor}
use ssc.Udpgw.Tracked.{
  Uses, here, next, allocates, touches, sweeps, no_flows, IsTracked, Reach-IsTracked,
}
use ssc.Udpgw.Serve.{Round, serve, state_of, IsQuiet, serve-IsQuiet}

abbrev client : UdpAddr
client = record { ip = 10 ∷ 0 ∷ 0 ∷ 2 ∷ []; port = 4000 }

abbrev one_flow : Flows
one_flow = (allocate_conid client 5 no_flows).0

abbrev uses : Uses
uses = (1, 6) ∷ (1, 5) ∷ []

-- a packet, its write, and a round of the janitor
Reach-IsTracked_example : IsTracked (janitor 9 (touch 1 6 one_flow)) uses
unfolding allocate_conid
Reach-IsTracked_example = Reach-IsTracked (
    next (touch 1 6 one_flow, uses) (janitor 9 (touch 1 6 one_flow), uses)
      (next (one_flow, (1, 5) ∷ []) (touch 1 6 one_flow, uses)
        (next (no_flows, []) (one_flow, (1, 5) ∷ []) here (allocates client 5 no_flows []))
        (touches 1 6 one_flow ((1, 5) ∷ [])))
      (sweeps 9 (touch 1 6 one_flow) uses))

abbrev two_flows : Flows
two_flows = record {
  conid_seq = 2;
  src_by_id = (1, client) ∷ (2, client) ∷ [];
  idle_by_id = (1, 0) ∷ (2, 120000000000) ∷ [];
}

the_old_flow_is_forgotten : lookup 1 (janitor 130000000000 two_flows).src_by_id ≡ none
unfolding lookup janitor ssc.Udpgw.delete ssc.Udpgw.sweep
the_old_flow_is_forgotten = refl

abbrev failed_dial : Round
failed_dial = record { done_before = false; dialled = false; done_after = false }

abbrev closed_by_server : Round
closed_by_server = record { done_before = false; dialled = true; done_after = false }

abbrev rounds : List Round
rounds = failed_dial ∷ closed_by_server ∷ failed_dial ∷ closed_by_server ∷ []

serve-IsQuiet_example : IsQuiet (state_of (serve rounds))
serve-IsQuiet_example = serve-IsQuiet rounds
