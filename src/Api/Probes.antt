-- ===== src/Api/Probes.antt =====
-- internal/api/api.go: the handlers that test the connection through the tunnel. What the network
-- does is a parameter; what the handler does with it is a list of actions.
use ssc.Base.{
  ℕ, ◌-◌, ◌≡◌, Bool, true, false, List, [], ◌∷◌, ◌++◌, Bytes, codes, is_empty, not, ◌||◌, ◌&&◌,
  if◌then◌else◌,
}
use ssc.Api.Logs.{extract_ip_from_http}

-- what the handlers read of a snapshot of the state
pub record Snapshot : Type 0 where
  pub running : Bool
  pub connected : Bool
  pub socks_addr : Bytes

-- How one `Read` ends: with bytes, with the end of the connection, or with an error.
pub data ReadEnd : Type 0 where
  read_bytes : Bytes → ReadEnd
  read_eof : ReadEnd
  read_error : ReadEnd

-- `connects` tells whether `socks5Connect` succeeds for a proxy and a host, on port 80. The clock,
-- in milliseconds, is read at the start and after the connections.
pub record Net : Type 0 where
  pub connects : Bytes → Bytes → Bool
  pub writes : Bool
  pub reads : ReadEnd
  pub start : ℕ
  pub clock : ℕ

pub data Action : Type 0 where
  dialled : Bytes → Bytes → Action
  opened sent_request closed : Action

pub data Latency : Type 0 where
  not_connected unreachable : Latency
  latency : ℕ → Bytes → Latency

pub data PublicIp : Type 0 where
  ip_not_connected ip_dial_failed ip_write_failed ip_read_failed : PublicIp
  public_ip : Bytes → ℕ → PublicIp

abbrev pub proxy_of : Snapshot → Bytes
proxy_of snap = if is_empty snap.socks_addr then codes "127.0.0.1:1080" else snap.socks_addr

abbrev pub is_up : Snapshot → Bool
is_up snap = not (not snap.running || not snap.connected)

abbrev pub measured : Net → List Action → Latency × List Action
measured net log =
    (latency (net.clock - net.start) (codes "google.com:80"), log ++ opened ∷ closed ∷ [])

abbrev pub second_try : Net → Bytes → List Action → Latency × List Action
second_try net proxy log =
    if net.connects proxy (codes "1.1.1.1")
    then measured net (log ++ dialled proxy (codes "1.1.1.1") ∷ [])
    else (unreachable, log ++ dialled proxy (codes "1.1.1.1") ∷ [])

-- `handleLatency`
unfoldable pub handle_latency : Net → Snapshot → Latency × List Action
handle_latency net snap =
    if not snap.running || not snap.connected
    then (not_connected, [])
    else if net.connects (proxy_of snap) (codes "google.com")
    then measured net (dialled (proxy_of snap) (codes "google.com") ∷ [])
    else second_try net (proxy_of snap) (dialled (proxy_of snap) (codes "google.com") ∷ [])

-- A read that ends with the end of the connection gives an empty answer.
abbrev pub ip_of : Net → ReadEnd → PublicIp
ip_of net (read_bytes b) = public_ip (extract_ip_from_http b) (net.clock - net.start)
ip_of net read_eof = public_ip (extract_ip_from_http []) (net.clock - net.start)
ip_of net read_error = ip_read_failed

-- `handlePublicIP`; the connection is closed when it returns
unfoldable pub handle_public_ip : Net → Snapshot → PublicIp × List Action
handle_public_ip net snap =
    let proxy = proxy_of snap in
    let dial = dialled proxy (codes "api.ipify.org") in
    if not snap.running || not snap.connected
    then (ip_not_connected, [])
    else if net.connects proxy (codes "api.ipify.org")
    then (if net.writes
        then (ip_of net net.reads, dial ∷ opened ∷ sent_request ∷ closed ∷ [])
        else (ip_write_failed, dial ∷ opened ∷ closed ∷ []))
    else (ip_dial_failed, dial ∷ [])

-- Each connection that the log opens is closed right after, or after one request, and all is dialled
-- through the proxy of the snapshot, which is running and connected.
abbrev pub IsCareful : Snapshot → List Action → Type 0
IsCareful snap [] = Unit
IsCareful snap (dialled proxy host ∷ log) =
    (proxy ≡ proxy_of snap) × (snap.running ≡ true) × (snap.connected ≡ true) × IsCareful snap log
IsCareful snap (opened ∷ closed ∷ log) = IsCareful snap log
IsCareful snap (opened ∷ sent_request ∷ closed ∷ log) = IsCareful snap log
IsCareful snap (_ ∷ log) = ⊥

-- A latency and an address are reported only when a connection through the proxy was made.
abbrev pub LatencyOf : Net → Snapshot → Latency → Type 0
LatencyOf net snap (latency t target) =
    (net.connects (proxy_of snap) (codes "google.com")
      || net.connects (proxy_of snap) (codes "1.1.1.1"))
    ≡ true
LatencyOf net snap unreachable =
    (net.connects (proxy_of snap) (codes "google.com")
      || net.connects (proxy_of snap) (codes "1.1.1.1"))
    ≡ false
LatencyOf net snap not_connected = (snap.running && snap.connected) ≡ false

abbrev pub sent_by : ReadEnd → Bytes
sent_by (read_bytes b) = b
sent_by _ = []

abbrev pub PublicIpOf : Net → Snapshot → PublicIp → Type 0
PublicIpOf net snap (public_ip ip t) =
    (net.connects (proxy_of snap) (codes "api.ipify.org") ≡ true)
    × (net.writes ≡ true)
    × (ip ≡ extract_ip_from_http (sent_by net.reads))
PublicIpOf net snap ip_not_connected = (snap.running && snap.connected) ≡ false
PublicIpOf net snap ip_dial_failed = net.connects (proxy_of snap) (codes "api.ipify.org") ≡ false
PublicIpOf net snap ip_write_failed = net.writes ≡ false
PublicIpOf net snap ip_read_failed = net.reads ≡ read_error

abbrev pub LatencyIs : Net → Snapshot → Latency × List Action → Type 0
LatencyIs net snap r = IsCareful snap r.1 × LatencyOf net snap r.0

abbrev pub IpIs : Net → Snapshot → PublicIp × List Action → Type 0
IpIs net snap r = IsCareful snap r.1 × PublicIpOf net snap r.0
