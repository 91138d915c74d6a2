-- ===== src/Metrics.antt =====
-- pkg/metrics/prometheus.go: the metrics, and the calls that update them. A call is one
-- `WithLabelValues` with the update of what it returns; the counters themselves are the Prometheus
-- library's. The help texts are left out.
pub mod Metered
use remote_runtime_engine.Base.{ℕ, List, [], ◌∷◌, ◌++◌, Text, codes, pos, Float, map}

-- The variables of the package.
pub data Metric : Type 0 where
  submissions_total queue_depth execution_duration cpu_time_duration : Metric
  peak_memory_bytes security_violations_total active_workers : Metric

-- `NewCounterVec`, `NewGauge` and `NewHistogramVec`.
pub data Kind : Type 0 where
  counter gauge histogram : Kind

unfoldable pub kind_of : Metric → Kind
kind_of submissions_total = counter
kind_of security_violations_total = counter
kind_of queue_depth = gauge
kind_of active_workers = gauge
kind_of execution_duration = histogram
kind_of cpu_time_duration = histogram
kind_of peak_memory_bytes = histogram

-- `Name`.
unfoldable pub name_of : Metric → Text
name_of submissions_total = codes "submissions_total"
name_of queue_depth = codes "queue_depth"
name_of execution_duration = codes "execution_duration_seconds"
name_of cpu_time_duration = codes "cpu_time_seconds"
name_of peak_memory_bytes = codes "peak_memory_bytes"
name_of security_violations_total = codes "security_violations_total"
name_of active_workers = codes "active_workers"

-- The names of the labels.
unfoldable pub labels_of : Metric → List Text
labels_of submissions_total = codes "language" ∷ codes "verdict" ∷ codes "sandbox_backend" ∷ []
labels_of queue_depth = []
labels_of execution_duration = codes "language" ∷ codes "verdict" ∷ []
labels_of cpu_time_duration = codes "language" ∷ codes "verdict" ∷ []
labels_of peak_memory_bytes = codes "language" ∷ []
labels_of security_violations_total = codes "violation_type" ∷ []
labels_of active_workers = []

-- Decimal fractions are the quotients of whole numbers that they are nearest to.
unfoldable pub seconds_buckets : {F : Type 0} → Float F → List F
seconds_buckets fl =
    map (λ ms. fl.div (fl.of_int (pos ms)) (fl.of_int (pos 1000)))
      (10 ∷ 25 ∷ 50 ∷ 100 ∷ 250 ∷ 500 ∷ 1000 ∷ 2000 ∷ 5000 ∷ 10000 ∷ [])

unfoldable pub bytes_buckets : {F : Type 0} → Float F → List F
bytes_buckets fl =
    map (λ b. fl.of_int (pos b))
      (1048576 ∷ 4194304 ∷ 16777216 ∷ 67108864 ∷ 134217728 ∷ 268435456 ∷ 536870912 ∷ [])

-- `Buckets`, of the histograms.
unfoldable pub buckets_of : {F : Type 0} → Float F → Metric → List F
unfolding seconds_buckets bytes_buckets
buckets_of fl execution_duration = seconds_buckets fl
buckets_of fl cpu_time_duration = seconds_buckets fl
buckets_of fl peak_memory_bytes = bytes_buckets fl
buckets_of fl _ = []

-- What `init` registers.
unfoldable pub registered : List Metric
registered =
    submissions_total ∷ queue_depth ∷ execution_duration ∷ cpu_time_duration ∷ peak_memory_bytes
    ∷ security_violations_total ∷ active_workers ∷ []

-- `WithLabelValues(...).Inc()` and `WithLabelValues(...).Observe(x)`.
pub data Call (F : Type 0) : Type 0 where
  increments : Metric → List Text → Call F
  observes : Metric → List Text → F → Call F

unfoldable pub record_submission_metrics :
    {F : Type 0} → Float F → Text → Text → Text → F → F → F → List (Call F)
record_submission_metrics fl language verdict sandbox wall_time_ms cpu_time_ms peak_memory_mb =
    increments submissions_total (language ∷ verdict ∷ sandbox ∷ [])
    ∷ observes execution_duration (language ∷ verdict ∷ [])
        (fl.div wall_time_ms (fl.of_int (pos 1000)))
    ∷ observes cpu_time_duration (language ∷ verdict ∷ [])
        (fl.div cpu_time_ms (fl.of_int (pos 1000)))
    ∷ observes peak_memory_bytes (language ∷ [])
        (fl.mul (fl.mul peak_memory_mb (fl.of_int (pos 1024))) (fl.of_int (pos 1024)))
    ∷ []

unfoldable pub record_violation : {F : Type 0} → Text → List (Call F)
record_violation violation_type = increments security_violations_total (violation_type ∷ []) ∷ []
