-- ===== src/Names/Tests.antt =====
-- Runs of the parsers and the printers of names.
use redis_time_series.Common.{◌≡◌, refl}
use redis_time_series.Texts.{codes, to_lower_all, to_lower, bytes_eq}
use redis_time_series.Generic.{dp_invalid, dp_none, dp_block}
use redis_time_series.Names.{
  agg_invalid, agg_std_p, string_len_agg_type_to_enum, agg_type_enum_to_string_lower_case,
  duplicate_policy_to_string, duplicate_policy_from_string,
}
use redis_time_series.Names.Parsing.{agg_type_iff, duplicate_policy_iff}

-- `Std.P` is in lower case the printed name.
std_p_lower : to_lower_all (codes "Std.P") ≡ agg_type_enum_to_string_lower_case agg_std_p
unfolding to_lower_all to_lower agg_type_enum_to_string_lower_case
std_p_lower = refl

agg_type_iff_example : string_len_agg_type_to_enum (codes "Std.P") ≡ agg_std_p
agg_type_iff_example = (agg_type_iff (codes "Std.P") agg_std_p tt).1 std_p_lower

block_lower : to_lower_all (codes "bLOCK") ≡ duplicate_policy_to_string dp_block
unfolding to_lower_all to_lower duplicate_policy_to_string
block_lower = refl

duplicate_policy_iff_example : duplicate_policy_from_string (codes "bLOCK") ≡ dp_block
duplicate_policy_iff_example = (duplicate_policy_iff (codes "bLOCK") dp_block tt).1 block_lower

-- The printed name of DP_NONE is not read back.
none_unread : duplicate_policy_from_string (duplicate_policy_to_string dp_none) ≡ dp_invalid
unfolding duplicate_policy_from_string duplicate_policy_to_string to_lower_all to_lower bytes_eq
none_unread = refl

unknown_unread : string_len_agg_type_to_enum (codes "median") ≡ agg_invalid
unfolding string_len_agg_type_to_enum to_lower_all to_lower bytes_eq
unknown_unread = refl
