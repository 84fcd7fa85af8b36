-- ===== src/Submitter/LogList.antt =====
-- The log lists of certificate-transparency-go's loglist3, as far as the submitter reads them.
-- Times are nanoseconds since Go's zero time.
use ctsubmit.Prelude.{ℕ, String, Bool, List, Option}

-- The time since which a log is usable, if it is, and whether it has left that state.
pub record LogState : Type 0 where
  pub usable : Option ℕ
  pub read_only : Bool
  pub retired : Bool
  pub rejected : Bool

pub record TemporalInterval : Type 0 where
  pub start_inclusive : ℕ
  pub end_exclusive : ℕ

pub record Log : Type 0 where
  pub description : String
  pub log_id : List ℕ
  pub key : List ℕ
  pub log_type : String
  pub url : String
  pub mmd : ℕ
  pub state : Option LogState
  pub temporal_interval : Option TemporalInterval

pub record TiledLog : Type 0 where
  pub description : String
  pub log_id : List ℕ
  pub key : List ℕ
  pub log_type : String
  pub submission_url : String
  pub monitoring_url : String
  pub mmd : ℕ
  pub state : Option LogState
  pub temporal_interval : Option TemporalInterval

pub record Operator : Type 0 where
  pub name : String
  pub logs : List Log
  pub tiled_logs : List TiledLog
