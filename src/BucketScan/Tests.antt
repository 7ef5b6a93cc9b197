-- ===== src/BucketScan/Tests.antt =====
-- Runs of the search.
use redis_time_series.Common.{ℕ, zero, suc, ◌≡◌, refl, some, List, [], ◌∷◌, arith}
use redis_time_series.BucketScan.{
  halve, index, find_last_index_before_ts, IsAscending, LastBefore,
  find_last_index_before_ts-LastBefore,
}

abbrev stamps : List ℕ
stamps = 10 ∷ 20 ∷ 30 ∷ 40 ∷ []

stamps-IsAscending : IsAscending stamps
unfolding IsAscending
stamps-IsAscending zero zero le lt = omega arith
stamps-IsAscending zero (suc zero) le lt = omega arith
stamps-IsAscending zero (suc (suc zero)) le lt = omega arith
stamps-IsAscending zero (suc (suc (suc zero))) le lt = omega arith
stamps-IsAscending (suc zero) (suc zero) le lt = omega arith
stamps-IsAscending (suc zero) (suc (suc zero)) le lt = omega arith
stamps-IsAscending (suc zero) (suc (suc (suc zero))) le lt = omega arith
stamps-IsAscending (suc (suc zero)) (suc (suc zero)) le lt = omega arith
stamps-IsAscending (suc (suc zero)) (suc (suc (suc zero))) le lt = omega arith
stamps-IsAscending (suc (suc (suc zero))) (suc (suc (suc zero))) le lt = omega arith
stamps-IsAscending (suc i) zero le lt = absurd (omega arith)
stamps-IsAscending (suc (suc i)) (suc zero) le lt = absurd (omega arith)
stamps-IsAscending (suc (suc (suc i))) (suc (suc zero)) le lt = absurd (omega arith)
stamps-IsAscending (suc (suc (suc (suc i)))) (suc (suc (suc zero))) le lt = absurd (omega arith)
stamps-IsAscending i (suc (suc (suc (suc j)))) le lt = absurd (omega arith)

find_last_index_before_ts-LastBefore_example :
    LastBefore stamps 35 0 (find_last_index_before_ts stamps 35 0)
find_last_index_before_ts-LastBefore_example =
    find_last_index_before_ts-LastBefore stamps 35 0 stamps-IsAscending (omega arith)

search_run : find_last_index_before_ts stamps 35 0 ≡ some (index 2)
unfolding find_last_index_before_ts halve
search_run = refl
