-- ===== src/Dnsx/Examples.antt =====
-- The theorems on DNS resolution at concrete inputs, and tests.
use ssc.Base.{
  ◌≡◌, ◌≤◌, refl, true, false, ℕ, List, [], ◌∷◌, ◌++◌, Option, none, some, Bytes, codes, pos, arith,
  length, is_empty, text_eq, if◌then◌else◌, ◌==◌,
}
use ssc.Dnsx.{Entry, Entries, Splits, Lookups, ResolverConfig, normalize_servers}

-- a text with a colon is taken as a host with a port
abbrev splits : Splits
splits [] = false
splits (c ∷ s) = if c == b':' then true else splits s

abbrev settings : ResolverConfig
settings = record { mode = codes "custom"; servers = codes "9.9.9.9" ∷ []; timeout_sec = pos 4 }

abbrev net : Lookups
net = record { carrier = []; direct = λ servers t. []; shell = λ t. [] }

abbrev entry : Entry
entry = record { ips = codes "1.2.3.4" ∷ []; method = codes "custom_dns"; expires = 60 }

abbrev two_entries : Entries
two_entries = (codes "device||a.b", entry) ∷ (codes "device||c.d", entry) ∷ []

servers_are_merged :
    normalize_servers splits (codes "9.9.9.9" ∷ codes " 9.9.9.9:53" ∷ []) ≡ codes "9.9.9.9:53" ∷ []
unfolding normalize_servers ssc.Base.trim_by ssc.Base.is_space ssc.Base.one_of
    ssc.Socks5.Server.join_host_port
servers_are_merged = refl
