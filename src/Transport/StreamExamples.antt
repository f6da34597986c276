-- ===== src/Transport/StreamExamples.antt =====
-- The theorems on the probe, on `prefixConn` and on `DialContext` at concrete inputs, and tests.
use ssc.Base.{
  pos, ℕ, zero, suc, ◌+◌, ◌≤◌, ◌≡◌, ◌≢◌, refl, sym, List, [], ◌∷◌, ◌++◌, true, false, none, some,
  Bytes, codes, arith, length, take, drop, take-append-drop, length-take,
}
use ssc.Config.{default_config}
use ssc.Transport.Client.{
  DialOutcome, refused, open_at_end, dial_context, in_use, dial_context-closes,
}
use ssc.Transport.Closing.{dials}
use ssc.Transport.Examples.{in_order, answering, payload_profile}
use ssc.Transport.Parsing.{extract_ssh_banner}
use ssc.Transport.Prefix.{StartsAtMark, expose_banner-StartsAtMark}
use ssc.Transport.Prepare.{Action, expose_banner, ok}
use ssc.Transport.Probe.{
  Chunk, timed_out, Connection, Reply, read_probe, prefix_read, PrefixConn, max_bytes,
}
use ssc.Transport.Stream.{Ends, read_probe-Ends}

-- A connection that gives the bytes of a text, as many at once as fit, and then times out.
abbrev next_of : ℕ → Bytes → Chunk × Bytes
next_of n [] = (record { bytes = []; error = some timed_out }, [])
next_of n (b ∷ text) = (record { bytes = take n (b ∷ text); error = none }, drop n (b ∷ text))

next_of-append : (n : ℕ) (s : Bytes) → s ≡ (next_of n s).0.bytes ++ (next_of n s).1
next_of-append n [] = refl
next_of-append n (b ∷ text) = sym (take-append-drop n (b ∷ text))

next_of-fits : (n : ℕ) (s : Bytes) → length (next_of n s).0.bytes ≤ n
next_of-fits n [] = omega arith
next_of-fits n (b ∷ text) = omega (arith, length-take n (b ∷ text))

next_of-grows :
    (n : ℕ) (s : Bytes) → 1 ≤ n → (next_of n s).0.error ≡ none → 1 ≤ length (next_of n s).0.bytes
next_of-grows n [] h e = absurd (cc)
next_of-grows n (b ∷ text) h e = omega (arith, length-take n (b ∷ text), h)

abbrev text_conn : Connection
text_conn = record {
  Socket = Bytes;
  read = next_of;
  pending = λ s. s;
  read-pending = next_of-append;
  read-Fits = next_of-fits;
  read-progress = next_of-grows;
}

-- an answer, the banner, and what follows it
abbrev server_text : Bytes
server_text =
    codes "HTTP/1.1 200 OK" ++ b'\r' ∷ b'\n' ∷ codes "SSH-2.0-x" ++ b'\r' ∷ b'\n' ∷ codes "kex"

read_probe-Ends_example : Ends text_conn server_text (read_probe text_conn server_text)
read_probe-Ends_example = read_probe-Ends text_conn server_text

abbrev server_reply : Reply Bytes
server_reply = record { bytes = server_text; error = none; socket = [] }

probe_finds_banner : read_probe text_conn server_text ≡ some server_reply
unfolding read_probe ssc.Transport.Probe.probe_loop ssc.Base.contains ssc.Base.index
    ssc.Base.has_prefix
probe_finds_banner = refl

banner_is_there : extract_ssh_banner server_text ≢ []
unfolding extract_ssh_banner ssc.Transport.Parsing.banner_of ssc.Base.index ssc.Base.has_prefix
    ssc.Base.trim_by ssc.Base.is_space
banner_is_there h = absurd (cc)

expose_banner-StartsAtMark_example :
    StartsAtMark text_conn server_text [] (expose_banner payload_profile server_text [] []).0
expose_banner-StartsAtMark_example =
    expose_banner-StartsAtMark text_conn server_text server_reply payload_profile [] [] refl refl
      probe_finds_banner banner_is_there

-- the handshake fails, and the library has closed the connection
abbrev failed_dial : DialOutcome × List Action
failed_dial =
    dial_context (λ c addr cfg. refused true) in_order (answering (codes "SSH-2.0-x"))
      default_config payload_profile

dial_context-closes_example :
    (dials failed_dial.1 ≤ 1) × (open_at_end failed_dial.1 ≡ in_use failed_dial.0)
dial_context-closes_example =
    dial_context-closes (λ c addr cfg. refused true) in_order (answering (codes "SSH-2.0-x"))
      default_config payload_profile

-- The time runs out in the middle of the mark: its first bytes are read, and the handshake does
-- not get them.
abbrev cut_text : Bytes
cut_text = codes "HTTP/1.1 200 OK" ++ b'\r' ∷ b'\n' ∷ codes "SS"

cut_text_is_read :
    read_probe text_conn cut_text ≡ some (record { bytes = cut_text; error = none; socket = [] })
unfolding read_probe ssc.Transport.Probe.probe_loop ssc.Transport.Probe.after_read
    ssc.Transport.Probe.after_loop ssc.Base.contains ssc.Base.index ssc.Base.has_prefix
cut_text_is_read = refl

cut_mark_is_dropped : expose_banner payload_profile cut_text (pos 200 ∷ []) [] ≡ (ok [], [])
unfolding expose_banner extract_ssh_banner ssc.Base.index ssc.Base.has_prefix
    ssc.Transport.Prepare.is_rate_limit
cut_mark_is_dropped = refl
