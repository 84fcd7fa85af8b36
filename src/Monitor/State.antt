-- ===== src/Monitor/State.antt =====
-- monitor/monitor.go, Monitor: what the monitor holds of all logs. Locks, clients and loggers are
-- left out.
use ctsubmit.Prelude.{String, List}
use ctsubmit.Monitor.Backoff.{BackoffMaps}
use ctsubmit.Monitor.Samples.{OutcomeSample, ResponseTimeSample}
use ctsubmit.Monitor.Uptime.{UptimeMap}
use ctsubmit.Monitor.Sth.{SthData}

pub record Monitor (P : Type 0) : Type 0 where
  pub sth_data : List (String × SthData)
  pub uptime_24h : UptimeMap P
  pub uptime_90d : UptimeMap P
  pub backoffs : BackoffMaps
  pub outcome_samples : List (String × List OutcomeSample)
  pub response_time_samples : List (String × List ResponseTimeSample)
