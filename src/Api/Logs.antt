-- ===== src/Api/Logs.antt =====
-- internal/api/api.go: the handlers of the log files, the marker of the automatic start and what is
-- read of an answer about the public address. The directory `run_dir` is a clean path.
use ssc.Base.{
  ℕ, ◌+◌, ◌-◌, Bool, true, false, List, [], ◌∷◌, ◌++◌, Option, none, some, Bytes, codes, text_eq,
  has_prefix, index, ltb, ◌==◌, if◌then◌else◌, length, take, drop, is_empty,
}
use ssc.Config.Files.{Disk, put, WriteOutcome, written, failed}

pub data Reply : Type 0 where
  log_text : Bytes → Reply
  cleared : Bytes → Reply
  enabled : Bool → Reply
  bad_request not_found not_allowed internal_error : Reply

-- `strings.Split(s, "/")`; `part` is the part so far
unfoldable pub split_slash : Bytes → Bytes → List Bytes
split_slash part [] = part ∷ []
split_slash part (c ∷ s) =
    let next = split_slash [] s in
    let longer = split_slash (part ++ c ∷ []) s in if c == b'/' then part ∷ next else longer

abbrev pub trim_prefix : Bytes → Bytes → Bytes
trim_prefix s p = if has_prefix s p then drop (length p) s else s

-- the parts of the path behind that of the logs
unfoldable pub log_parts : Bytes → List Bytes
unfolding split_slash
log_parts path = split_slash [] (trim_prefix path (codes "/api/v1/logs/"))

abbrev pub log_path : Bytes → Bytes → Bytes
log_path run_dir name = run_dir ++ (b'/' ∷ name ++ codes ".log")

abbrev pub max_read : ℕ
max_read = 65536

-- the end of a content
abbrev pub tail_of : Bytes → Bytes
tail_of b = if ltb max_read (length b) then drop (length b - max_read) b else b

abbrev pub read_tail : Bool → Option Bytes → Reply
read_tail readable none = not_found
read_tail true (some b) = log_text (tail_of b)
read_tail false (some b) = internal_error

-- `serveLogFile`; `readable` tells whether opening and reading the file succeed.
unfoldable pub serve_log_file : Disk → Bool → Bytes → Reply
serve_log_file disk readable path = read_tail readable (disk path)

abbrev pub clear_log : Bytes → Disk → Bytes → Bool → Bytes → Disk × Reply
clear_log run_dir disk method opens name =
    if text_eq method (codes "POST")
    then (if opens
        then (put disk (log_path run_dir name) (some []), cleared name)
        else (disk, internal_error))
    else (disk, not_allowed)

abbrev pub read_log : Bytes → Disk → Bool → Bytes → Disk × Reply
read_log run_dir disk readable name = (disk, serve_log_file disk readable (log_path run_dir name))

-- the name is not empty
abbrev pub named_log : Bytes → Disk → Bytes → Bool → Bool → Bytes → List Bytes → Disk × Reply
named_log run_dir disk method opens readable name (what ∷ []) =
    if text_eq what (codes "clear")
    then clear_log run_dir disk method opens name
    else read_log run_dir disk readable name
named_log run_dir disk method opens readable name [] = read_log run_dir disk readable name
named_log run_dir disk method opens readable name (what ∷ more ∷ parts) =
    read_log run_dir disk readable name

abbrev pub by_log_parts : Bytes → Disk → Bytes → Bool → Bool → List Bytes → Disk × Reply
by_log_parts run_dir disk method opens readable [] = (disk, bad_request)
by_log_parts run_dir disk method opens readable (name ∷ parts) =
    if is_empty name
    then (disk, bad_request)
    else named_log run_dir disk method opens readable name parts

-- `handleLogs`; `opens` tells whether the file can be opened for writing.
unfoldable pub handle_logs : Bytes → Disk → Bool → Bool → Bytes → Bytes → Disk × Reply
unfolding log_parts
handle_logs run_dir disk opens readable method path =
    by_log_parts run_dir disk method opens readable (log_parts path)

abbrev pub marker_path : Bytes → Bytes
marker_path run_dir = run_dir ++ codes "/autostart"

abbrev write_marker : Disk → Bytes → WriteOutcome → Disk
write_marker disk path written = put disk path (some (codes "1\n"))
write_marker disk path (failed partial) = put disk path partial

abbrev set_marker : Bytes → Disk → Option Bool → WriteOutcome → Bool → Disk × Reply
set_marker run_dir disk none write removes = (disk, bad_request)
set_marker run_dir disk (some true) write removes =
    (write_marker disk (marker_path run_dir) write, enabled true)
set_marker run_dir disk (some false) write removes =
    (if removes then put disk (marker_path run_dir) none else disk, enabled false)

abbrev pub is_there : Option Bytes → Bool
is_there none = false
is_there (some b) = true

-- `handleAutostart`, with the decoded request and how the system calls end
unfoldable pub handle_autostart :
    Bytes → Disk → Bytes → Option Bool → WriteOutcome → Bool → Disk × Reply
handle_autostart run_dir disk method req write removes =
    if text_eq method (codes "GET")
    then (disk, enabled (is_there (disk (marker_path run_dir))))
    else if text_eq method (codes "POST")
    then set_marker run_dir disk req write removes
    else if text_eq method (codes "PUT")
    then set_marker run_dir disk req write removes
    else (disk, not_allowed)

abbrev after_headers : Bytes → Option ℕ → Bytes
after_headers body none = body
after_headers body (some i) = drop (i + 4) body

abbrev up_to_quote : Bytes → Option ℕ → Bytes
up_to_quote s none = []
up_to_quote s (some n) = take n s

abbrev quoted_ip : Bytes → Option ℕ → Bytes
quoted_ip body none = []
quoted_ip body (some i) = let rest = drop (i + 6) body in up_to_quote rest (index rest (b'"' ∷ []))

-- `extractIPFromHTTP`
unfoldable pub extract_ip_from_http : Bytes → Bytes
extract_ip_from_http response =
    let body = after_headers response (index response (13 ∷ 10 ∷ 13 ∷ 10 ∷ [])) in
    quoted_ip body (index body (b'"' ∷ codes "ip" ++ b'"' ∷ b':' ∷ b'"' ∷ []))
