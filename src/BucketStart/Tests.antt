-- ===== src/BucketStart/Tests.antt =====
-- The theorem on the start of a bucket at concrete inputs.
use redis_time_series.Common.{arith}
use redis_time_series.BucketStart.{
  calc_bucket_start, bucket_start_normalize, BucketStart, calc_bucket_start-BucketStart,
}

-- The alignment is behind the timestamp: the start would be at -6.
calc_bucket_start-BucketStart_example :
    BucketStart 3 10 14 (bucket_start_normalize (calc_bucket_start 3 10 14))
calc_bucket_start-BucketStart_example =
    calc_bucket_start-BucketStart 3 10 14 (omega arith) (omega arith) (omega arith) (omega arith)
