-- ===== src/Submitter/Types.antt =====
-- What the submitter's parts share: log types (submitter/logType.go), buckets
-- (submitter/bucket.go), strategy members (submitter/strategy.go) and the request
-- (submitter/request.go).
use ctsubmit.Prelude.{ℕ, String, Bool, true, false, List, get_or}
use ctsubmit.Prelude.Int.{ℤ, pos_part}

pub data LogType : Type 0 where
  rfc6962 static : LogType

abbrev pub is_type : LogType → LogType → Bool
is_type rfc6962 rfc6962 = true
is_type static static = true
is_type _ _ = false

-- The text of LogType.MarshalJSON; its default case has no constant that reaches it.
unfoldable pub log_type_name : LogType → String
log_type_name rfc6962 = "RFC6962"
log_type_name static = "STATIC"

pub data Bucket : Type 0 where
  excluded dispreferred_mmdblown dispreferred_lowuptime dispreferred_recentbadresponse : Bucket
  dispreferred_recenttimeout dispreferred_recent5xx dispreferred_recent4xx : Bucket
  dispreferred_slowresponses neutral preferred_byconfig : Bucket

-- The constants' values, by iota.
unfoldable pub bucket_rank : Bucket → ℕ
bucket_rank excluded = 0
bucket_rank dispreferred_mmdblown = 1
bucket_rank dispreferred_lowuptime = 2
bucket_rank dispreferred_recentbadresponse = 3
bucket_rank dispreferred_recenttimeout = 4
bucket_rank dispreferred_recent5xx = 5
bucket_rank dispreferred_recent4xx = 6
bucket_rank dispreferred_slowresponses = 7
bucket_rank neutral = 8
bucket_rank preferred_byconfig = 9

abbrev pub is_excluded : Bucket → Bool
is_excluded excluded = true
is_excluded _ = false

abbrev pub is_neutral : Bucket → Bool
is_neutral neutral = true
is_neutral _ = false

-- The text of Bucket.MarshalJSON.
unfoldable pub bucket_name : Bucket → String
bucket_name excluded = "EXCLUDED"
bucket_name dispreferred_mmdblown = "DISPREFERRED_MMDBLOWN"
bucket_name dispreferred_lowuptime = "DISPREFERRED_LOWUPTIME"
bucket_name dispreferred_recentbadresponse = "DISPREFERRED_RECENTBADRESPONSE"
bucket_name dispreferred_recenttimeout = "DISPREFERRED_RECENTTIMEOUT"
bucket_name dispreferred_recent5xx = "DISPREFERRED_RECENT5XX"
bucket_name dispreferred_recent4xx = "DISPREFERRED_RECENT4XX"
bucket_name dispreferred_slowresponses = "DISPREFERRED_SLOWRESPONSES"
bucket_name neutral = "NEUTRAL"
bucket_name preferred_byconfig = "PREFERRED_BYCONFIG"

-- Durations are in nanoseconds and are not negative.
pub record StrategyMember : Type 0 where
  pub submission_url : String
  pub monitoring_url : String
  pub operator : String
  pub log_name : String
  pub log_type : LogType
  pub mmd : ℕ
  pub bucket : Bucket
  pub dispreferred_detail : String
  pub random_weight : ℕ
  pub outcome : String
  pub began_after : ℕ
  pub time_taken : ℕ

-- Go's zero value of the struct.
abbrev pub zero_member : StrategyMember
zero_member = record {
  submission_url = "";
  monitoring_url = "";
  operator = "";
  log_name = "";
  log_type = rfc6962;
  mmd = 0;
  bucket = excluded;
  dispreferred_detail = "";
  random_weight = 0;
  outcome = "";
  began_after = 0;
  time_taken = 0;
}

-- `strategy[i]`. Out of range the program panics; the callers' indices are in range.
abbrev pub member_at : List StrategyMember → ℕ → StrategyMember
member_at strategy i = get_or strategy i zero_member

-- The request as it is unmarshalled: the two numbers are Go ints of any sign.
pub record SubmissionRequest : Type 0 where
  pub chain : List (List ℕ)
  pub discover_chain : Bool
  pub policy_compliant : Bool
  pub mimics : Bool
  pub test_logs : Bool
  pub operators : ℤ
  pub scts : ℤ
  pub require_rfc6962 : Bool
  pub prefer_static : Bool
  pub verbose : Bool

-- What the quorum reads of a request whose numbers have been raised to at least 1.
pub record Needs : Type 0 where
  pub operators : ℕ
  pub scts : ℕ
  pub require_rfc6962 : Bool
  pub prefer_static : Bool

unfoldable pub needs : SubmissionRequest → Needs
needs sr = record {
  operators = pos_part sr.operators;
  scts = pos_part sr.scts;
  require_rfc6962 = sr.require_rfc6962;
  prefer_static = sr.prefer_static;
}
