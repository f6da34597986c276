-- ===== src/Daemon/ServiceExamples.antt =====
-- The theorems on the DNS forwarder and the transparent proxy at concrete inputs.
use ssc.Base.{
  ◌++◌, ◌||◌, ◌&&◌, ◌==◌, ◌/◌, List, ◌≡◌, refl, Bool, true, false, [], ◌∷◌, none, some, Bytes,
  codes, arith,
}
use ssc.Config.{default_config}
use ssc.Socks5.Conn.{conn_of}
use ssc.Socks5.Conn
use ssc.Daemon.DnsForward.{frame, Turn, read_response, forward_one_dns_query}
use ssc.Daemon.Answers.{IsMessage, forward_one_dns_query_answers, forward_one_dns_query_sound}
use ssc.Tunnel.{connected}
use ssc.Daemon.Transparent.{Asked, handle_transparent_conn}
use ssc.Daemon.Released.{run, accepted, released, handle_transparent_conn-released}
use ssc.Daemon.Address.{is_local_target, original_dst, is_own_port}
use ssc.Daemon.Target.{sockaddr, is_local_target-original_dst}

-- a header without questions, and a longer message
abbrev query : Bytes
query = 1 ∷ 2 ∷ 1 ∷ 0 ∷ 0 ∷ 0 ∷ 0 ∷ 0 ∷ 0 ∷ 0 ∷ 0 ∷ 0 ∷ []

abbrev response : Bytes
response = query ++ 7 ∷ []

forward_one_dns_query_answers_example :
    (forward_one_dns_query true [] (some (conn_of (frame response ++ []) [] 1)) query
      ≡ (some response, some (conn_of [] (frame query) 0)))
    × (read_response (conn_of (frame query ++ []) [] 0) ≡ (Conn.Result.ok query, conn_of [] [] 0))
forward_one_dns_query_answers_example =
    forward_one_dns_query_answers query response [] 0 [] (omega arith, omega arith)
      (omega arith, omega arith)

-- a client after the second turn
abbrev turns : List Turn
turns = record { done = false; client = false } ∷ record { done = false; client = true } ∷ []

dns_run :
    forward_one_dns_query false turns (some (conn_of (0 ∷ 12 ∷ query) [] 1)) query
    ≡ (some query, some (conn_of [] (frame query) 0))
unfolding forward_one_dns_query ssc.Daemon.DnsForward.exchange frame read_response
    ssc.Daemon.DnsForward.await_client ssc.Socks5.Conn.read_full ssc.Socks5.Conn.write
dns_run = refl

forward_one_dns_query_sound_example :
    (rest : Bytes) × ((conn_of (0 ∷ 12 ∷ query) [] 1).input ≡ frame query ++ rest)
    × IsMessage query
    × (◌≡◌ {A = Bool} true true)
unfolding ssc.Daemon.DnsForward.await_client
forward_one_dns_query_sound_example =
    forward_one_dns_query_sound false turns (conn_of (0 ∷ 12 ∷ query) [] 1) query query
      (some (conn_of [] (frame query) 0)) (omega arith) dns_run

abbrev asked : Asked
asked = record {
  slot = true;
  is_tcp = true;
  target = some (codes "1.2.3.4:443");
  is_local = λ t. false;
  client = true;
  net = λ n. connected 1;
  client_after = true;
}

handle_transparent_conn-released_example :
    run (λ t. false) (handle_transparent_conn asked) accepted ≡ some released
handle_transparent_conn-released_example = handle_transparent_conn-released asked

is_local_target-original_dst_example :
    (target : Bytes) × (original_dst (some (sockaddr 127 0 0 1 53)) ≡ some target)
    × (is_local_target (λ s. none) target default_config ≡ (
        is_own_port 53 default_config
        || 127 == 127
        || ((127 == 0) && (0 == 0) && (0 == 0) && (1 == 0))
        || 127 / 16 == 14))
is_local_target-original_dst_example =
    is_local_target-original_dst (λ s. none) default_config 127 0 0 1 53 (omega arith) (omega arith)
      (omega arith) (omega arith) (omega arith)
