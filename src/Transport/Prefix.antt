-- ===== src/Transport/Prefix.antt =====
-- internal/transport/transport.go: `prefixConn` is a connection again, and where the SSH handshake
-- starts to read.
use mathlib.Core.Path.{subst}
use ssc.Base.{
  ℕ, ◌≤◌, ◌≡◌, ◌≢◌, refl, ap, ◌∙◌, sym, true, List, [], ◌∷◌, ◌++◌, Option, none, some, Bytes, arith,
  length, take, drop, take-append-drop, length-take, append_assoc, ◌&&◌, ℤ, if◌then◌else◌, index,
  index-append, index-room, drop-append,
}
use ssc.Config.Types.{Profile}
use ssc.Transport.Parsing.{extract_ssh_banner, banner_of}
use ssc.Transport.Prepare.{Action, Outcome, ok, err, expose_banner, banner_prefix, pure}
use ssc.Transport.Probe.{Connection, ssh_mark, Reply, read_probe, PrefixConn, prefix_read}
use ssc.Transport.Stream.{Ends, read_probe-Ends}

-- what is still to be read from a `prefixConn`
abbrev pub unread : (c : Connection) → PrefixConn c.Socket → Bytes
unread c pc = pc.prefix ++ c.pending pc.conn

-- A `Read` takes what it gives from the front of what is to be read.
abbrev pub IsNext : (c : Connection) → ℕ → PrefixConn c.Socket → Type 0
IsNext c n pc =
    (unread c pc ≡ (prefix_read c n pc).0.bytes ++ unread c (prefix_read c n pc).1)
    × (length (prefix_read c n pc).0.bytes ≤ n)
    × (1 ≤ n → (prefix_read c n pc).0.error ≡ none → 1 ≤ length (prefix_read c n pc).0.bytes)

-- Each `Read` of a `prefixConn` takes its bytes from the front of the prefix
-- followed by what the connection still gives, no more than fit, and at least one if there is room
-- and it does not fail.
pub prefix_read-IsNext : (c : Connection) (n : ℕ) (pc : PrefixConn c.Socket) → IsNext c n pc
unfolding prefix_read
prefix_read-IsNext c n pc = next pc.prefix pc.conn
  where
    next : (prefix : Bytes) (s : c.Socket) → IsNext c n (record { prefix = prefix; conn = s })
    next [] s = (c.read-pending n s, c.read-Fits n s, c.read-progress n s)
    next (b ∷ prefix) s = (
      ap (λ r. r ++ c.pending s) (sym (take-append-drop n (b ∷ prefix)))
          ∙ append_assoc (take n (b ∷ prefix)) (drop n (b ∷ prefix)) (c.pending s),
      omega (arith, length-take n (b ∷ prefix)),
      λ h e. omega (arith, length-take n (b ∷ prefix), h),
    )

-- A `prefixConn` keeps the contract of the connection that it wraps.
abbrev pub prefixed : Connection → Connection
prefixed c = record {
  Socket = PrefixConn c.Socket;
  read = prefix_read c;
  pending = unread c;
  read-pending = λ n pc. (prefix_read-IsNext c n pc).0;
  read-Fits = λ n pc. (prefix_read-IsNext c n pc).1;
  read-progress = λ n pc. (prefix_read-IsNext c n pc).2;
}

-- the bytes from the first `SSH-` on
unfoldable pub from_mark : Bytes → Bytes
from_mark sent = elim (index sent ssh_mark) [ none ↦ [] | some i ↦ drop i sent ]

from_mark-append :
    (all t : Bytes) (i : ℕ) → index all ssh_mark ≡ some i → drop i all ++ t ≡ from_mark (all ++ t)
unfolding from_mark
from_mark-append all t i h =
    sym (drop-append i all t (omega (arith, index-room all ssh_mark i h)))
    ∙ ap (λ o. elim o as (λ x. Bytes) [ none ↦ [] | some j ↦ drop j (all ++ t) ])
        (sym (index-append all ssh_mark t i h))

-- The handshake has its connection, and reads there what was sent, from the first `SSH-` on.
abbrev pub StartsAtMark : (c : Connection) → Bytes → c.Socket → Outcome Bytes → Type 0
StartsAtMark c sent s (err e) = ⊥
StartsAtMark c sent s (ok first) =
    (prefixed c).pending (record { prefix = first; conn = s }) ≡ from_mark sent

banner_prefix-StartsAtMark :
    (c : Connection) (p : Profile) (all : Bytes) (s : c.Socket) (statuses : List ℤ)
    (log : List Action) (o : Option ℕ) (banner : Bytes)
    → index all ssh_mark ≡ o
    → elim o as (λ x. Bytes) [ none ↦ [] | some i ↦ banner_of (drop i all) ] ≡ banner
    → banner ≢ []
    → StartsAtMark c (all ++ c.pending s) s (banner_prefix banner o all p statuses log).0
banner_prefix-StartsAtMark c p all s statuses log none banner h e k = absurd (k (sym e))
banner_prefix-StartsAtMark c p all s statuses log (some i) [] h e k = absurd (k refl)
banner_prefix-StartsAtMark c p all s statuses log (some i) (b ∷ banner) h e k =
    from_mark-append all (c.pending s) i h

-- If a payload is sent and its answer read, and `readProbe` has returned an answer with an SSH
-- banner, then `openPreparedConn` gives the handshake a connection, and what can be read there is
-- what the server sent from the first `SSH-` on, with nothing lost and nothing twice.
pub expose_banner-StartsAtMark :
    (c : Connection) (s : c.Socket) (r : Reply c.Socket) (p : Profile) (statuses : List ℤ)
    (log : List Action)
    → p.transport.payload.enabled ≡ true
    → p.transport.payload.read_response ≡ true
    → read_probe c s ≡ some r
    → extract_ssh_banner r.bytes ≢ []
    → StartsAtMark c (c.pending s) r.socket (expose_banner p r.bytes statuses log).0
unfolding expose_banner extract_ssh_banner
expose_banner-StartsAtMark c s r p statuses log h k e l =
    subst
      (λ b.
        StartsAtMark c (c.pending s) r.socket
          ((if b
              then banner_prefix (extract_ssh_banner r.bytes) (index r.bytes ssh_mark) r.bytes p
                  statuses
              else pure [])
            log).0)
      (sym both)
      (subst
        (λ sent.
          StartsAtMark c sent r.socket
            (banner_prefix (extract_ssh_banner r.bytes) (index r.bytes ssh_mark) r.bytes p statuses
              log).0)
        (kept.0)
        (banner_prefix-StartsAtMark c p r.bytes r.socket statuses log (index r.bytes ssh_mark) _
          refl refl l))
  where
    both : (p.transport.payload.enabled && p.transport.payload.read_response) ≡ true
    both = cc

    kept : Ends c (c.pending s) (some r)
    kept = subst (λ o. Ends c (c.pending s) o) e (read_probe-Ends c s)
