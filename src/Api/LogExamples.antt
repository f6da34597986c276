-- ===== src/Api/LogExamples.antt =====
-- The theorem on the log files at a concrete input, and tests.
use ssc.Base.{
  ◌≡◌, refl, Bool, true, [], ◌∷◌, ◌++◌, Option, none, some, Bytes, codes, text_eq, if◌then◌else◌,
}
use ssc.Config.Files.{Disk}
use ssc.Api.Logs.{Reply, cleared, log_parts, handle_logs, extract_ip_from_http}

abbrev one_log : Disk
one_log path = if text_eq path (codes "/run/daemon.log") then some (codes "ready") else none

abbrev clear_path : Bytes
clear_path = codes "/api/v1/logs/daemon/clear"

log_is_cleared :
    (handle_logs (codes "/run") one_log true true (codes "POST") clear_path).1
    ≡ cleared (codes "daemon")
unfolding handle_logs log_parts ssc.Api.Logs.split_slash text_eq ssc.Base.has_prefix
log_is_cleared = refl

ip_is_found :
    extract_ip_from_http (
      codes "HTTP/1.1 200 OK"
      ++ (13 ∷ 10 ∷ 13 ∷ 10 ∷ codes "{"
          ++ (b'"' ∷ codes "ip" ++ (b'"' ∷ b':' ∷ b'"' ∷ codes "1.2.3.4" ++ (b'"' ∷ codes "}")))))
    ≡ codes "1.2.3.4"
unfolding extract_ip_from_http ssc.Base.index ssc.Base.has_prefix
ip_is_found = refl
