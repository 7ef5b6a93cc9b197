-- ===== src/Generic.antt =====
-- The types that every chunk shares (src/generic_chunk.h, src/consts.h).
use redis_time_series.Common.{ℕ, ◌^◌, ◌<◌, Bool, true, false, not, ◌&&◌, ◌||◌, if◌then◌else◌}
use redis_time_series.Common.{leb, ◌==◌, Option, none, some, List, [], ◌∷◌}

-- `timestamp` is a word; `value` is the 64-bit pattern of a double.
pub record Sample : Type 0 where
  pub timestamp : ℕ
  pub value : ℕ

pub data ChunkResult : Type 0 where
  cr_ok cr_err cr_end : ChunkResult

-- Both fields of a sample are 64-bit words.
pub record IsSample (s : Sample) : Type 0 where
  pub timestamp_word : s.timestamp < 2 ^ 64
  pub value_word : s.value < 2 ^ 64

pub data DuplicatePolicy : Type 0 where
  dp_invalid dp_none dp_block dp_last dp_first dp_min dp_max dp_sum : DuplicatePolicy

-- The arithmetic of doubles, on their bit patterns, is the processor's: `isnan`, `a < b`, `a + b`.
pub record Doubles : Type 0 where
  pub isnan : ℕ → Bool
  pub less : ℕ → ℕ → Bool
  pub plus : ℕ → ℕ → ℕ
  pub plus_word : (a b : ℕ) → plus a b < 2 ^ 64

abbrev pub is_block : DuplicatePolicy → Bool
is_block dp_block = true
is_block _ = false

-- The list that starts with the kept sample, unless the policy is against it.
abbrev pub merged : List Sample → ChunkResult × Sample → Option (ℕ × List Sample)
merged xs (cr_ok, new) = some (0, new ∷ xs)
merged xs (cr_err, new) = none
merged xs (cr_end, new) = none

-- The list behind `x` is changed.
abbrev pub behind : Sample → Option (ℕ × List Sample) → Option (ℕ × List Sample)
behind x none = none
behind x (some (k, ys)) = some (k, x ∷ ys)

module _ (d : Doubles) where
  -- The switch, for samples that are no NaN or under DP_BLOCK.
  unfoldable pub apply_policy : DuplicatePolicy → Sample → Sample → ChunkResult × Sample
  apply_policy dp_block old new = (cr_err, new)
  apply_policy dp_first old new = (cr_ok, old)
  apply_policy dp_last old new = (cr_ok, new)
  apply_policy dp_min old new =
      (cr_ok, if d.less old.value new.value then record new { value = old.value } else new)
  apply_policy dp_max old new =
      (cr_ok, if d.less new.value old.value then record new { value = old.value } else new)
  apply_policy dp_sum old new = (cr_ok, record new { value = d.plus new.value old.value })
  apply_policy dp_invalid old new = (cr_err, new)
  apply_policy dp_none old new = (cr_err, new)

  -- `handleDuplicateSample`, with what it leaves in `*newSample`.
  unfoldable pub handle_duplicate_sample : DuplicatePolicy → Sample → Sample → ChunkResult × Sample
  unfolding apply_policy
  handle_duplicate_sample policy old new =
      if (d.isnan old.value || d.isnan new.value) && not (is_block policy)
      then (cr_ok, if d.isnan new.value then record new { value = old.value } else new)
      else apply_policy policy old new

  -- What every chunk promises of an upsert: `none` for CR_ERR, which changes nothing, or the number
  -- of samples that are new, and the list with the sample before the first that is not older, or
  -- merged with it.
  abbrev pub upsert_list : DuplicatePolicy → Sample → List Sample → Option (ℕ × List Sample)
  upsert_list policy s [] = some (1, s ∷ [])
  upsert_list policy s (x ∷ xs) =
      if leb s.timestamp x.timestamp
      then if s.timestamp == x.timestamp
        then merged xs (handle_duplicate_sample policy x s)
        else some (1, s ∷ x ∷ xs)
      else behind x (upsert_list policy s xs)
