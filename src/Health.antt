-- ===== src/Health.antt =====
-- health/health.go: the latest timestamps and what livez and readyz make of them. Times are
-- nanoseconds since Go's zero time; a pointer that may be nil is an Option.
pub mod Busy
use ctsubmit.Prelude.{
  ℕ, ◌+◌, Bool, true, false, not, ◌&&◌, List, [], ◌∷◌, Option, none, some, ltb, if◌then◌else◌,
}
use ctsubmit.Prelude.Int.{ℤ, pos, negsuc}

pub record Health : Type 0 where
  pub latest_non_error_timestamp : ℕ
  pub latest_error_timestamp : ℕ
  pub latest_busy_timestamp : ℕ
  pub initial_data_ready : Bool

-- New
unfoldable pub new_health : Health
new_health = record {
  latest_non_error_timestamp = 0;
  latest_error_timestamp = 0;
  latest_busy_timestamp = 0;
  initial_data_ready = false;
}

unfoldable pub set_initial_data_ready : Health → Health
set_initial_data_ready h = record h { initial_data_ready = true }

-- `if t != nil && t.After(latest) { latest = *t }`
unfoldable pub latest : Option ℕ → ℕ → ℕ
latest none t₀ = t₀
latest (some t) t₀ = if ltb t₀ t then t else t₀

-- The arguments of a call of UpdateLatestTimestamps.
pub record Report : Type 0 where
  pub non_error : Option ℕ
  pub error : Option ℕ
  pub busy : Option ℕ

unfoldable pub update_latest_timestamps : Report → Health → Health
unfolding latest
update_latest_timestamps r h = record h {
  latest_non_error_timestamp = latest r.non_error h.latest_non_error_timestamp;
  latest_error_timestamp = latest r.error h.latest_error_timestamp;
  latest_busy_timestamp = latest r.busy h.latest_busy_timestamp;
}

-- What the select receives first: the status of the request, or that its deadline has passed.
unfoldable pub complete_request : Option ℤ → ℕ → Health → ℤ × Health
unfolding update_latest_timestamps
complete_request (some status) now h = (status, h)
complete_request none now h = (
  negsuc 0,
  update_latest_timestamps (record { non_error = none; error = none; busy = some now }) h,
)

unfoldable pub is_alive : Health → Bool
is_alive h = not (ltb h.latest_non_error_timestamp h.latest_error_timestamp)

-- `remember` is server.rememberBusyTimeout.
unfoldable pub is_ready : ℕ → ℕ → Health → Bool
is_ready remember now h = h.initial_data_ready && ltb (h.latest_busy_timestamp + remember) now
