-- ===== src/Api/ProbeExamples.antt =====
-- The theorem on the tests of the connection at a concrete input, and a test.
use ssc.Base.{◌≡◌, refl, true, false, [], ◌∷◌, ◌++◌, Bytes, codes, text_eq}
use ssc.Api.Probes.{Snapshot, Net, read_bytes, handle_latency, latency}

abbrev up : Snapshot
up = record { running = true; connected = true; socks_addr = [] }

-- the first host of the latency is out of reach: its connection fails after eight seconds
abbrev slow : Net
slow = record {
  connects = λ proxy host. text_eq host (codes "1.1.1.1");
  writes = true;
  reads = read_bytes (codes "HTTP/1.1 200 OK");
  start = 1000;
  clock = 9020;
}

-- the latency of the second host includes the failed attempt, under the first host's name
failed_attempt_is_counted : (handle_latency slow up).0 ≡ latency 8020 (codes "google.com:80")
unfolding handle_latency ssc.Base.text_eq
failed_attempt_is_counted = refl
