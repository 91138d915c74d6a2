-- ===== src/Tests/Metrics.antt =====
-- The metrics of a job that panics and of one that does not.
use remote_runtime_engine.Base.{◌≡◌, some, All}
use remote_runtime_engine.Worker.Process.{process_job}
use remote_runtime_engine.Worker.Recorded.{succeeded}
use remote_runtime_engine.Metrics.Metered.{metered, submissions_counted, Fits, process_job-metered}
use remote_runtime_engine.Tests.{whole, sample_job}
use remote_runtime_engine.Tests.Worker.{calm, start}

process_job-metered_example :
    (submissions_counted (metered whole (process_job whole calm (some sample_job) start).1.log)
      ≡ succeeded (process_job whole calm (some sample_job) start).0)
    × All Fits (metered whole (process_job whole calm (some sample_job) start).1.log)
process_job-metered_example = process_job-metered whole calm sample_job 1
