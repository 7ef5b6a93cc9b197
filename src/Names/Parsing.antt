-- ===== src/Names/Parsing.antt =====
-- Which texts are the names of an aggregation or of a policy.
use mathlib.Core.Path.{subst}
use redis_time_series.Common.{
  ℕ, ◌≡◌, ◌↔◌, refl, sym, ap, ◌∙◌, List, length, ◌==◌, if◌then◌else◌, if_both,
}
use redis_time_series.Texts.{codes, to_lower_all, bytes_eq, bytes_eq_sound, length-to_lower_all}
use redis_time_series.Generic.{
  DuplicatePolicy, dp_invalid, dp_none, dp_block, dp_last, dp_first, dp_min, dp_max, dp_sum,
}
use redis_time_series.Names.{
  AggType, agg_invalid, agg_none, agg_min, agg_max, agg_sum, agg_avg, agg_count, agg_first,
  agg_last, agg_range, agg_std_p, agg_std_s, agg_var_p, agg_var_s, agg_twa, agg_types_max,
  agg_of_three, agg_of_five, string_len_agg_type_to_enum, agg_type_enum_to_string_lower_case,
  duplicate_policy_to_string, duplicate_policy_from_string,
}

-- A kind of aggregation that a user can name.
abbrev pub IsAggregation : AggType → Type 0
IsAggregation agg_invalid = ⊥
IsAggregation agg_none = ⊥
IsAggregation agg_types_max = ⊥
IsAggregation _ = Unit {0}

-- The text is the name of the result, if there is one.
Named : List ℕ → AggType → Type 0
Named low t = IsAggregation t → low ≡ agg_type_enum_to_string_lower_case t

of_three : (low : List ℕ) → Named low (agg_of_three low)
unfolding Named agg_of_three agg_type_enum_to_string_lower_case
of_three low =
    if_both (Named low) (bytes_eq low (codes "min")) (λ e _. bytes_eq_sound low (codes "min") e)
      λ _.
        if_both (Named low) (bytes_eq low (codes "max")) (λ e _. bytes_eq_sound low (codes "max") e)
          λ _.
            if_both (Named low) (bytes_eq low (codes "sum"))
              (λ e _. bytes_eq_sound low (codes "sum") e)
              λ _.
                if_both (Named low) (bytes_eq low (codes "avg"))
                  (λ e _. bytes_eq_sound low (codes "avg") e)
                  λ _.
                    if_both (Named low) (bytes_eq low (codes "twa"))
                      (λ e _. bytes_eq_sound low (codes "twa") e) (λ _ no. absurd no)

of_five : (low : List ℕ) → Named low (agg_of_five low)
unfolding Named agg_of_five agg_type_enum_to_string_lower_case
of_five low =
    if_both (Named low) (bytes_eq low (codes "count")) (λ e _. bytes_eq_sound low (codes "count") e)
      λ _.
        if_both (Named low) (bytes_eq low (codes "range"))
          (λ e _. bytes_eq_sound low (codes "range") e)
          λ _.
            if_both (Named low) (bytes_eq low (codes "first"))
              (λ e _. bytes_eq_sound low (codes "first") e)
              λ _.
                if_both (Named low) (bytes_eq low (codes "std.p"))
                  (λ e _. bytes_eq_sound low (codes "std.p") e)
                  λ _.
                    if_both (Named low) (bytes_eq low (codes "std.s"))
                      (λ e _. bytes_eq_sound low (codes "std.s") e)
                      λ _.
                        if_both (Named low) (bytes_eq low (codes "var.p"))
                          (λ e _. bytes_eq_sound low (codes "var.p") e)
                          λ _.
                            if_both (Named low) (bytes_eq low (codes "var.s"))
                              (λ e _. bytes_eq_sound low (codes "var.s") e) (λ _ no. absurd no)

named : (s : List ℕ) → Named (to_lower_all s) (string_len_agg_type_to_enum s)
unfolding Named string_len_agg_type_to_enum agg_type_enum_to_string_lower_case
named s =
    let low = to_lower_all s in
    if_both (Named low) (length s == 3) (λ _. of_three low)
      λ _.
        if_both (Named low) (length s == 4)
          (λ _.
            if_both (Named low) (bytes_eq low (codes "last"))
              (λ e _. bytes_eq_sound low (codes "last") e) (λ _ no. absurd no))
          λ _. if_both (Named low) (length s == 5) (λ _. of_five low) (λ _ no. absurd no)

module _ (s : List ℕ) where
  -- The parser's result for a text that is a name in lower or upper case.
  parsed :
      (t : AggType)
      → IsAggregation t
      → to_lower_all s ≡ agg_type_enum_to_string_lower_case t
      → string_len_agg_type_to_enum s ≡ t
  unfolding string_len_agg_type_to_enum agg_of_three agg_of_five agg_type_enum_to_string_lower_case
      bytes_eq
  parsed t ok e = rw (sym (length-to_lower_all s) ∙ ap length e, e) (own_name t ok)
    where
      own_name :
          (t : AggType)
          → IsAggregation t
          → let low = agg_type_enum_to_string_lower_case t in
            (if length low == 3
              then agg_of_three low
              else if length low == 4
              then if bytes_eq low (codes "last") then agg_last else agg_invalid
              else if length low == 5
              then agg_of_five low
              else agg_invalid)
            ≡ t
      own_name agg_min ok = refl
      own_name agg_max ok = refl
      own_name agg_sum ok = refl
      own_name agg_avg ok = refl
      own_name agg_count ok = refl
      own_name agg_first ok = refl
      own_name agg_last ok = refl
      own_name agg_range ok = refl
      own_name agg_std_p ok = refl
      own_name agg_std_s ok = refl
      own_name agg_var_p ok = refl
      own_name agg_var_s ok = refl
      own_name agg_twa ok = refl
      own_name agg_invalid ok = absurd ok
      own_name agg_none ok = absurd ok
      own_name agg_types_max ok = absurd ok

  -- A text is parsed as an aggregation exactly when, in lower case, it is the name that is printed
  -- for it in lower case.
  pub agg_type_iff :
      (t : AggType)
      → IsAggregation t
      → (string_len_agg_type_to_enum s ≡ t)
        ↔ (to_lower_all s ≡ agg_type_enum_to_string_lower_case t)
  unfolding Named
  agg_type_iff t ok = (λ e. subst (Named (to_lower_all s)) e (named s) ok, parsed t ok)

-- A policy that a user can name: DP_NONE has a name, which is printed alone.
abbrev pub IsPolicy : DuplicatePolicy → Type 0
IsPolicy dp_invalid = ⊥
IsPolicy dp_none = ⊥
IsPolicy _ = Unit {0}

NamedPolicy : List ℕ → DuplicatePolicy → Type 0
NamedPolicy low t = IsPolicy t → low ≡ duplicate_policy_to_string t

named_policy : (s : List ℕ) → NamedPolicy (to_lower_all s) (duplicate_policy_from_string s)
unfolding NamedPolicy duplicate_policy_from_string duplicate_policy_to_string
named_policy s =
    let low = to_lower_all s in
    let P = NamedPolicy low in
    if_both P (length s == 3)
      (λ _.
        if_both P (bytes_eq low (codes "min")) (λ e _. bytes_eq_sound low (codes "min") e)
          λ _.
            if_both P (bytes_eq low (codes "max")) (λ e _. bytes_eq_sound low (codes "max") e)
              λ _.
                if_both P (bytes_eq low (codes "sum")) (λ e _. bytes_eq_sound low (codes "sum") e)
                  (λ _ no. absurd no))
      λ _.
        if_both P (length s == 4)
          (λ _.
            if_both P (bytes_eq low (codes "last")) (λ e _. bytes_eq_sound low (codes "last") e)
              (λ _ no. absurd no))
          λ _.
            if_both P (length s == 5)
              (λ _.
                if_both P (bytes_eq low (codes "block"))
                  (λ e _. bytes_eq_sound low (codes "block") e)
                  λ _.
                    if_both P (bytes_eq low (codes "first"))
                      (λ e _. bytes_eq_sound low (codes "first") e) (λ _ no. absurd no))
              (λ _ no. absurd no)

parsed_policy :
    (s : List ℕ) (t : DuplicatePolicy)
    → IsPolicy t
    → to_lower_all s ≡ duplicate_policy_to_string t
    → duplicate_policy_from_string s ≡ t
unfolding duplicate_policy_from_string duplicate_policy_to_string bytes_eq
parsed_policy s dp_block ok e = rw (sym (length-to_lower_all s) ∙ ap length e, e) refl
parsed_policy s dp_last ok e = rw (sym (length-to_lower_all s) ∙ ap length e, e) refl
parsed_policy s dp_first ok e = rw (sym (length-to_lower_all s) ∙ ap length e, e) refl
parsed_policy s dp_min ok e = rw (sym (length-to_lower_all s) ∙ ap length e, e) refl
parsed_policy s dp_max ok e = rw (sym (length-to_lower_all s) ∙ ap length e, e) refl
parsed_policy s dp_sum ok e = rw (sym (length-to_lower_all s) ∙ ap length e, e) refl
parsed_policy s dp_invalid ok e = absurd ok
parsed_policy s dp_none ok e = absurd ok

-- A text is parsed as a duplicate policy exactly when, in lower case, it is the name that is printed
-- for it. This holds for the six policies that a user can name, not for DP_NONE.
pub duplicate_policy_iff :
    (s : List ℕ) (t : DuplicatePolicy)
    → IsPolicy t
    → (duplicate_policy_from_string s ≡ t) ↔ (to_lower_all s ≡ duplicate_policy_to_string t)
unfolding NamedPolicy
duplicate_policy_iff s t ok =
    (λ e. subst (NamedPolicy (to_lower_all s)) e (named_policy s) ok, parsed_policy s t ok)
