-- ===== src/Metrics/Examples.antt =====
-- The theorems on the metrics at concrete inputs, and tests.
use ssc.Base.{ℕ, ◌≡◌, refl, ◌+◌, ◌%◌, ◌^◌, [], ◌∷◌, ◌++◌, List, none, some, Bytes, codes, arith}
use ssc.Base.Decimal.{itoa}
use ssc.Metrics.{fields, process_ticks, system_ticks, mem_info, MemInfo}

abbrev eleven : List Bytes
eleven =
    codes "S"
    ∷ codes "1"
    ∷ codes "2"
    ∷ codes "3"
    ∷ codes "4"
    ∷ codes "5"
    ∷ codes "6"
    ∷ codes "7"
    ∷ codes "8"
    ∷ codes "9"
    ∷ codes "0"
    ∷ []

abbrev behind : Bytes
behind = codes "S 1 2 3 4 5 6 7 8 9 0 120 30 0"

fields-behind : fields behind ≡ eleven ++ itoa 120 ∷ itoa 30 ∷ codes "0" ∷ []
unfolding ssc.Metrics.gather_fields ssc.Base.is_space itoa ssc.Base.Decimal.digits_from
fields-behind = refl

stat_is_read : system_ticks (some (codes "cpu  10 20 x 5")) ≡ some 35
unfolding system_ticks ssc.Metrics.lines_from ssc.Metrics.gather_fields ssc.Metrics.sum_fields
    ssc.Metrics.parse_uint ssc.Base.Decimal.atoi ssc.Base.Decimal.value_from
    ssc.Base.Decimal.is_digit ssc.Base.is_space ssc.Base.has_prefix
stat_is_read = refl
