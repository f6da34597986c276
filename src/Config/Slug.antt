-- ===== src/Config/Slug.antt =====
-- internal/config/config.go: `Slugify` and `UniqueProfileID`. The proofs are in the modules below.
pub mod Shape
pub mod Fixed
pub mod Unique
use Prim.Native.String.{String}
use ssc.Base.{
  ℕ, zero, suc, ◌+◌, Bool, true, false, List, [], ◌∷◌, ◌++◌, if◌then◌else◌, Bytes, codes, leb, ◌==◌,
  ◌&&◌, ◌||◌, trim_space, to_lower, trim_by, text_eq, is_empty, is_space, lower,
}
use ssc.Base.Decimal.{itoa}
use ssc.Config.Types.{Profile, ProfilesFile}

unfoldable pub slug_char : ℕ → Bool
slug_char c = (leb b'a' c && leb c b'z') || (leb b'0' c && leb c b'9')

abbrev pub is_dash : ℕ → Bool
is_dash c = c == b'-'

-- What the loop appends to the builder; the Boolean is `lastDash`.
unfoldable pub slug_from : Bytes → Bool → Bytes
slug_from [] last_dash = []
slug_from (c ∷ s) last_dash =
    let plain = c ∷ slug_from s false in
    let dash = b'-' ∷ slug_from s true in
    let skip = slug_from s true in if slug_char c then plain else if last_dash then skip else dash

-- `Slugify`
unfoldable pub slugify : Bytes → Bytes
unfolding slug_from slug_char
slugify s = trim_by is_dash (slug_from (to_lower (trim_space s)) false)

-- `used[id]`
unfoldable pub used : Bytes → List Profile → Bool
used id [] = false
used id (p ∷ ps) = text_eq p.id id || used id ps

-- `fmt.Sprintf("%s-%d", base, i)`
unfoldable pub candidate : Bytes → ℕ → Bytes
candidate base i = base ++ b'-' ∷ itoa i

-- The loop over the numbered candidates, from `i` on for `rounds` rounds; `last` is what follows it.
unfoldable pub first_unused : Bytes → List Profile → ℕ → ℕ → Bytes → Bytes
unfolding candidate
first_unused base ps zero i last = last
first_unused base ps (suc rounds) i last =
    let rest = first_unused base ps rounds (i + 1) last in
    if used (candidate base i) ps then rest else candidate base i

-- the identifier that a name gives, before it is made unique
unfoldable pub base_id : Bytes → Bytes
unfolding slugify
base_id base =
    let slug = trim_by is_dash (slugify base) in if is_empty slug then codes "profile" else slug

-- `UniqueProfileID`; `now` is the clock, in seconds. The loop runs over 2 ≤ i < 10000.
unfoldable pub unique_profile_id : ProfilesFile → Bytes → ℕ → Bytes
unfolding base_id
unique_profile_id pf base now =
    let id = base_id base in
    if used id pf.profiles then first_unused id pf.profiles 9998 2 (candidate id now) else id
