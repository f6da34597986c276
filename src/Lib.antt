-- ===== src/Lib.antt =====
-- A model of SSHCustom for Magisk, a daemon that carries a phone's traffic through an SSH
-- tunnel, with the theorems that make its parts correct.
--
-- The parts, and how they work together. The dashboard (internal/api) saves profiles and the
-- configuration (internal/config) in files. The daemon redirects traffic to itself
-- (internal/iptables), takes the selected profile, resolves its host (internal/dnsx), prepares a
-- connection to the SSH server as its transport says (internal/transport), and runs the SSH
-- client over it (internal/tunnel). Local programs reach the tunnel by SOCKS5 (internal/socks5),
-- and UDP traffic by a gateway that carries many flows in one connection (internal/udpgw).
--
-- Base: shared types and helpers. Texts are lists of byte codes; Go's `int` is `ℤ` where its
--   sign is tested and ℕ where it is a length or a byte; decimal numerals are in
--   Base/Decimal.antt.
-- Config, Config/Types: internal/config/config.go, the records and `Normalize`,
--   `SelectedProfile`, `SelectByID` and `DeleteProfile`. Config/Slug is `Slugify` and
--   `UniqueProfileID`; Config/Files is loading and saving over a disk that is a function from
--   paths to contents. Config/Normal, Config/Profiles, Config/Slug/... and Config/Files/Atomic
--   hold the proofs.
-- Transport, Transport/Parsing, Transport/Render, Transport/Prepare:
--   internal/transport/transport.go, the modes, the endpoint, the parsing of answers, and
--   `openPreparedConn` as a list of actions on the connection. Transport/Dialing is
--   `dialTCPResolved`. Transport/Probe is `readProbe` and `prefixConn` on a connection that is an
--   interface with laws, which Transport/Prefix shows `prefixConn` to keep; Transport/Client is
--   `DialContext`. Proofs: Transport/Modes, Transport/Closing, Transport/Order, Transport/Stream.
-- Tunnel: internal/tunnel/tunnel.go, keepalive, retries, error classes, buffer sizes, `writeAll`
--   and the delays, with one file of proofs for each. Tunnel/Pipe is `PipeBoth`, its pumps as
--   functions of what is read and its loop as a function of the signals with their times; the
--   proofs are in Tunnel/Piping, and Socks5/Pipe has the copy of it in internal/socks5/socks5.go.
-- Socks5: internal/socks5/socks5.go in Socks5/Server and internal/api/socksclient.go in
--   Socks5/Client, over the connection of Socks5/Conn; the proofs are in the other files.
-- Api: internal/api/api.go. Api/Build is `buildTransport`, Api/Upsert is `upsertProfile`,
--   Api/Server and Api/Handlers are the served copies and the handlers that change them,
--   Api/Notify is `Subscribe` and `broadcast`, Api/Events the steps of `handleEvents` beside the
--   changes of the state; Api/Probes is `handleLatency` and `handlePublicIP`; Api/Logs
--   is the log files and the automatic start.
--   Proofs: Api/Complete, Api/Stored, Api/Coherence, Api/Current, Api/LogFiles.
-- Udpgw, Udpgw/Frames: internal/udpgw/udpgw.go, the flows and the frames; Udpgw/Tracked has the
--   changes of the flows as a step relation, and Udpgw/Serve is the reconnection loop. Proofs:
--   Udpgw/Allocation, Udpgw/Dispatch, Udpgw/Janitor, Udpgw/Returning.
-- Dnsx: internal/dnsx/dnsx.go, the cache of hosts and the lists of servers and addresses;
--   Dnsx/Sources is where addresses come from, and Dnsx/Resolving puts them together. Proofs:
--   Dnsx/Cache, Dnsx/Lists, Dnsx/Extracting, Dnsx/Finding, Dnsx/Racing.
-- Iptables: internal/iptables/iptables.go as the log of the commands that it runs;
--   Iptables/Rules holds `cleanupRules`, Iptables/Leaks what blocks QUIC and IPv6, and
--   Iptables/Setup `Apply` and `Cleanup`. Iptables/Jumps, Iptables/Inserted and
--   Iptables/Stages follow what `Apply` inserts, and Iptables/Removals what the clean-up removes.
--   Proofs: Iptables/Rollback.
-- Net: what Go's net package reads of an address, `net.SplitHostPort` and `net.ParseIP`, with the
--   lemmas in Net/Octets and Net/Numeric.
-- Daemon: cmd/sshcustomd/main.go. Daemon/Loop is `tunnelLoop`: a round is what the environment
--   answers to one pass, and the state holds the delay, whether there is a client, listeners and
--   rules, the log of the firewall and the DNS cache. Daemon/Lifecycle is `startTunnel`,
--   `stopTunnel` and the goroutine of a run as a step relation on the variables that they share.
--   Proofs: Daemon/Reconnect, Daemon/Rules, Daemon/Returns, Daemon/OneLoop.
--   Daemon/ModuleProp is the description of the module, with its proofs in Daemon/Described and
--   Daemon/Shown; Daemon/Route is the cache of cmd/sshcustomd/route.go, with its proof.
--   Daemon/DnsForward is cmd/sshcustomd/dns.go, with its proofs in Daemon/Answers;
--   Daemon/Transparent is the handling of a connection in cmd/sshcustomd/transparent.go as the
--   list of its actions, with its proof in Daemon/Released; Daemon/Address is `isLocalTarget` and
--   the `originalDst` of cmd/sshcustomd/platform_linux.go, with the proofs in
--   Daemon/Target.
-- Metrics: internal/metrics/metrics.go, the texts of /proc and the sampler. Proofs:
--   Metrics/Reading.
-- The files whose names end in Examples apply the theorems to concrete inputs.
--
-- Bounds and fuel. The loop of `readProbe` has 65537 rounds, enough since each round that goes on
-- reads a byte and it ends at 65536. `writeAll` has a round for each byte and one more, enough
-- since a round without progress ends it. Numerals take one round per unit of the number.
-- `UniqueProfileID` has the 9998 rounds of its loop. The loop that reads frames
-- takes the number of rounds as an argument, and its theorem gives one more than there are
-- frames. Identifiers of flows are kept
-- modulo 2 ^ 16, and the doubling of delays is that of an int64. The loop of the tunnel
-- takes the answers of the environment as a list of rounds, of any length; ticks and sizes of
-- memory are kept modulo 2 ^ 64.
--
-- Parameters. The JSON encoder, with the hypothesis that its text reads back as the value where
-- a theorem needs it; how each system call on a file ends; the outcomes of the network calls;
-- the order in which Go ranges over a map; the text of an IPv6 address; the clock. Case mapping
-- and white space are those of ASCII. What the resolvers answer and which addresses can be
-- dialled. The result of a firewall command, given those before it. What the system reports of
-- its routes, and the order in which the threads of the daemon run, which the step relation
-- leaves open. The parsing of an IPv6 address.
--
-- Not modelled: HTTP routing, sockets, listeners and timers as such, the
-- commands of the daemon's main function, the DNS queries themselves, floating-point numbers, and
-- the vendored golang.org/x/crypto, which is another project's library. The daemon does not start
-- the UDP gateway of internal/udpgw.
pub mod Base
pub mod Config
pub mod Net
pub mod Tunnel
pub mod Transport
pub mod Socks5
pub mod Api
pub mod Udpgw
pub mod Dnsx
pub mod Iptables
pub mod Daemon
pub mod Metrics
