-- ===== src/Transport/Examples.antt =====
-- The theorems on the transport at concrete inputs, and tests.
use ssc.Base.{
  ◌≡◌, ◌+◌, refl, Bool, true, false, List, [], ◌∷◌, Bytes, codes, ℤ, pos, some, none, ℕ, one_of,
  length,
}
use ssc.Base.{text_eq, false}
use ssc.Base.Decimal.{int_text}
use ssc.Socks5.Server.{join_host_port}
use ssc.Transport.Dialing.{Dialer, Reached, dial_tcp_resolved, dial_tcp_resolved-Reached}
use ssc.Config.Types.{Profile}
use ssc.Config.Samples.{profile_of, sample_transport, sample_payload}
use ssc.Transport.{normalize_mode, normalize_dns_mode, dial_endpoint}
use ssc.Transport.Parsing.{extract_http_statuses, extract_ssh_banner}
use ssc.Transport.Prepare.{Network, connect_response, probed, open_prepared_conn}
use ssc.Transport.Render.{MapOrder, render_payload}
use ssc.Transport.Order.{InOrder, open_prepared_conn-InOrder}

abbrev pub in_order : MapOrder
in_order l = l

abbrev pub answering : Bytes → Network
answering text = record {
  dial = record { connected = true; address = codes "1.2.3.4:22"; method = codes "ip"; ips = [] };
  connect = connect_response (codes "HTTP/1.1 200 OK");
  tls_handshake = true;
  payload_written = true;
  probe = probed text;
}

-- a profile with a payload whose answer is read
abbrev pub payload_profile : Profile
payload_profile = record (profile_of (codes "p")) {
  transport = record sample_transport {
    payload = record sample_payload {
      enabled = true;
      template = codes "GET [host]:[port]";
      read_response = true;
    };
  };
}

payload_is_rendered :
    render_payload in_order (codes "GET [host]:[port]") payload_profile ≡ codes "GET a.example:22"
unfolding render_payload ssc.Transport.Render.substitute ssc.Transport.Render.placeholders
    ssc.Transport.Render.replace_all ssc.Transport.Render.replace_from ssc.Base.has_prefix
    ssc.Base.Decimal.int_text
payload_is_rendered = refl

statuses_are_read : extract_http_statuses (codes "HTTP/1.1 404 Not Found") ≡ pos 404 ∷ []
unfolding extract_http_statuses ssc.Transport.Parsing.statuses_of ssc.Transport.Parsing.lines_from
    ssc.Transport.Parsing.line_status ssc.Base.has_prefix ssc.Base.trim_by ssc.Base.is_space
    ssc.Transport.Parsing.status_of ssc.Transport.Parsing.fields_from
    ssc.Transport.Parsing.parse_int ssc.Base.Decimal.atoi
statuses_are_read = refl

-- one of two addresses of the host answers
abbrev half_dialer : Dialer
half_dialer = record {
  parse_ip = λ host. none;
  dials = λ addr. text_eq addr (codes "2.2.2.2:22");
  dials_again = λ addr. false;
  resolve = (codes "1.1.1.1" ∷ codes "2.2.2.2" ∷ [], codes "google_dns");
  resolve_again = ([], []);
  clock = 4;
  clock_again = 5;
}

dial_tcp_resolved-Reached_example :
    Reached half_dialer
      (join_host_port (codes "a.example") (int_text (pos 22)))
      (dial_tcp_resolved half_dialer (codes "google") (codes "a.example") (pos 22) [])
dial_tcp_resolved-Reached_example =
    dial_tcp_resolved-Reached half_dialer (codes "google") (codes "a.example") (pos 22) []

open_prepared_conn-InOrder_example :
    InOrder 0
      (open_prepared_conn in_order (answering (codes "HTTP/1.1 302 Found")) payload_profile).1
      6
open_prepared_conn-InOrder_example =
    open_prepared_conn-InOrder in_order (answering (codes "HTTP/1.1 302 Found")) payload_profile
