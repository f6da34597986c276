-- ===== src/Transport/Render.antt =====
-- internal/transport/transport.go: `RenderPayload` and `preview`.
use ssc.Base.{
  ℕ, zero, suc, ◌-◌, List, [], ◌∷◌, ◌++◌, Option, none, some, if◌then◌else◌, Bytes, codes, ltb,
  has_prefix, take, length,
}
use ssc.Base.Decimal.{int_text}
use ssc.Config.Types.{Profile, HttpProxyCfg, TlsCfg}

-- `strings.ReplaceAll` of a text that is not empty; `skip` bytes belong to the last occurrence.
unfoldable pub replace_from : Bytes → Bytes → Bytes → ℕ → Bytes
replace_from old new [] skip = []
replace_from old new (c ∷ s) (suc skip) = replace_from old new s skip
replace_from old new (c ∷ s) zero =
    let found = new ++ replace_from old new s (length old - 1) in
    let other = c ∷ replace_from old new s 0 in if has_prefix (c ∷ s) old then found else other

unfoldable pub replace_all : Bytes → Bytes → Bytes → Bytes
replace_all s old new = replace_from old new s 0

abbrev sni_of : Option TlsCfg → Bytes
sni_of none = []
sni_of (some t) = t.server_name

abbrev proxy_host_of : Option HttpProxyCfg → Bytes
proxy_host_of none = []
proxy_host_of (some h) = h.host

abbrev proxy_port_of : Option HttpProxyCfg → Bytes
proxy_port_of none = []
proxy_port_of (some h) = int_text h.port

-- the map `repl`
unfoldable pub placeholders : Profile → List (Bytes × Bytes)
placeholders p =
    (codes "[crlf]", b'\r' ∷ b'\n' ∷ [])
    ∷ (codes "[lf]", b'\n' ∷ [])
    ∷ (codes "[host]", p.ssh.host)
    ∷ (codes "[port]", int_text p.ssh.port)
    ∷ (codes "[ssh_host]", p.ssh.host)
    ∷ (codes "[ssh_port]", int_text p.ssh.port)
    ∷ (codes "[sni]", sni_of p.transport.tls)
    ∷ (codes "[proxy_host]", proxy_host_of p.transport.http_proxy)
    ∷ (codes "[proxy_port]", proxy_port_of p.transport.http_proxy)
    ∷ []

unfoldable pub substitute : List (Bytes × Bytes) → Bytes → Bytes
substitute [] out = out
substitute ((k, v) ∷ more) out = substitute more (replace_all out k v)

-- Go ranges over a map in no fixed order.
abbrev pub MapOrder : Type 0
MapOrder = List (Bytes × Bytes) → List (Bytes × Bytes)

-- `RenderPayload`
unfoldable pub render_payload : MapOrder → Bytes → Profile → Bytes
render_payload order t p = substitute (order (placeholders p)) t

-- `preview`
unfoldable pub preview : Bytes → Bytes
preview b =
    let s = replace_all (replace_all b (b'\r' ∷ []) (codes "\\r")) (b'\n' ∷ []) (codes "\\n") in
    if ltb 500 (length s) then take 500 s ++ codes "..." else s
