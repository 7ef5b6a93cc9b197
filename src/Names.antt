-- ===== src/Names.antt =====
-- The names of aggregations (src/compaction.c) and of duplicate policies (src/generic_chunk.c).
pub mod Parsing
mod Tests
use redis_time_series.Common.{ℕ, ◌≡◌, List, length, ◌==◌, if◌then◌else◌}
use redis_time_series.Texts.{codes, to_lower_all, bytes_eq}
use redis_time_series.Generic.{
  DuplicatePolicy, dp_invalid, dp_none, dp_block, dp_last, dp_first, dp_min, dp_max, dp_sum,
}

pub data AggType : Type 0 where
  agg_invalid agg_none agg_min agg_max agg_sum agg_avg agg_count agg_first agg_last agg_range
        agg_std_p agg_std_s agg_var_p agg_var_s agg_twa agg_types_max :
      AggType

-- The comparisons with `agg_type_lower`, by the length of the text.
unfoldable pub agg_of_three : List ℕ → AggType
agg_of_three low =
    if bytes_eq low (codes "min")
    then agg_min
    else if bytes_eq low (codes "max")
    then agg_max
    else if bytes_eq low (codes "sum")
    then agg_sum
    else if bytes_eq low (codes "avg")
    then agg_avg
    else if bytes_eq low (codes "twa")
    then agg_twa
    else agg_invalid

unfoldable pub agg_of_five : List ℕ → AggType
agg_of_five low =
    if bytes_eq low (codes "count")
    then agg_count
    else if bytes_eq low (codes "range")
    then agg_range
    else if bytes_eq low (codes "first")
    then agg_first
    else if bytes_eq low (codes "std.p")
    then agg_std_p
    else if bytes_eq low (codes "std.s")
    then agg_std_s
    else if bytes_eq low (codes "var.p")
    then agg_var_p
    else if bytes_eq low (codes "var.s")
    then agg_var_s
    else agg_invalid

unfoldable pub string_len_agg_type_to_enum : List ℕ → AggType
string_len_agg_type_to_enum agg_type =
    let len = length agg_type in
    let low = to_lower_all agg_type in
    if len == 3
    then agg_of_three low
    else if len == 4
    then if bytes_eq low (codes "last") then agg_last else agg_invalid
    else if len == 5
    then agg_of_five low
    else agg_invalid

unfoldable pub agg_type_enum_to_string : AggType → List ℕ
agg_type_enum_to_string agg_min = codes "MIN"
agg_type_enum_to_string agg_max = codes "MAX"
agg_type_enum_to_string agg_sum = codes "SUM"
agg_type_enum_to_string agg_avg = codes "AVG"
agg_type_enum_to_string agg_twa = codes "TWA"
agg_type_enum_to_string agg_std_p = codes "STD.P"
agg_type_enum_to_string agg_std_s = codes "STD.S"
agg_type_enum_to_string agg_var_p = codes "VAR.P"
agg_type_enum_to_string agg_var_s = codes "VAR.S"
agg_type_enum_to_string agg_count = codes "COUNT"
agg_type_enum_to_string agg_first = codes "FIRST"
agg_type_enum_to_string agg_last = codes "LAST"
agg_type_enum_to_string agg_range = codes "RANGE"
agg_type_enum_to_string agg_none = codes "Unknown"
agg_type_enum_to_string agg_invalid = codes "Unknown"
agg_type_enum_to_string agg_types_max = codes "Unknown"

unfoldable pub agg_type_enum_to_string_lower_case : AggType → List ℕ
agg_type_enum_to_string_lower_case agg_min = codes "min"
agg_type_enum_to_string_lower_case agg_max = codes "max"
agg_type_enum_to_string_lower_case agg_sum = codes "sum"
agg_type_enum_to_string_lower_case agg_avg = codes "avg"
agg_type_enum_to_string_lower_case agg_twa = codes "twa"
agg_type_enum_to_string_lower_case agg_std_p = codes "std.p"
agg_type_enum_to_string_lower_case agg_std_s = codes "std.s"
agg_type_enum_to_string_lower_case agg_var_p = codes "var.p"
agg_type_enum_to_string_lower_case agg_var_s = codes "var.s"
agg_type_enum_to_string_lower_case agg_count = codes "count"
agg_type_enum_to_string_lower_case agg_first = codes "first"
agg_type_enum_to_string_lower_case agg_last = codes "last"
agg_type_enum_to_string_lower_case agg_range = codes "range"
agg_type_enum_to_string_lower_case agg_none = codes "unknown"
agg_type_enum_to_string_lower_case agg_invalid = codes "unknown"
agg_type_enum_to_string_lower_case agg_types_max = codes "unknown"

unfoldable pub duplicate_policy_to_string : DuplicatePolicy → List ℕ
duplicate_policy_to_string dp_none = codes "none"
duplicate_policy_to_string dp_block = codes "block"
duplicate_policy_to_string dp_last = codes "last"
duplicate_policy_to_string dp_first = codes "first"
duplicate_policy_to_string dp_max = codes "max"
duplicate_policy_to_string dp_min = codes "min"
duplicate_policy_to_string dp_sum = codes "sum"
duplicate_policy_to_string dp_invalid = codes "invalid"

unfoldable pub duplicate_policy_from_string : List ℕ → DuplicatePolicy
duplicate_policy_from_string input =
    let len = length input in
    let low = to_lower_all input in
    if len == 3
    then if bytes_eq low (codes "min")
      then dp_min
      else if bytes_eq low (codes "max")
      then dp_max
      else if bytes_eq low (codes "sum")
      then dp_sum
      else dp_invalid
    else if len == 4
    then if bytes_eq low (codes "last") then dp_last else dp_invalid
    else if len == 5
    then if bytes_eq low (codes "block")
      then dp_block
      else if bytes_eq low (codes "first")
      then dp_first
      else dp_invalid
    else dp_invalid
