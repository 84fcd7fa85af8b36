-- ===== src/Examples/Post.antt =====
-- POST requests for a precertificate: request/post.go.
use ctsubmit.Prelude.{
  Bool, true, arith, ℕ, ◌≡◌, ap, String, true, false, List, [], ◌∷◌, Option, none, some,
}
use ctsubmit.Prelude.Int.{pos, negsuc}
use ctsubmit.Health.{Health, new_health, set_initial_data_ready, update_latest_timestamps, is_ready}
use ctsubmit.Submitter.Types.{SubmissionRequest}
use ctsubmit.Submitter.Handler.{SubmissionResponse, Endpoint, Handled}
use ctsubmit.Submitter.Handler.Finish.{handle}
use ctsubmit.Post.{
  format_param, param, Written, ResponseFormat, html, check_post_endpoint, parse_response_format,
  get_response_format, nothing, html_response, returned, answer_handled, HttpRequest, post_body,
  post, return_status, send_response, send_html_response,
}
use ctsubmit.Post.Status.{Shown, post-Shown, post_late}
use ctsubmit.Examples.Handler.{services, response_config, request, answers, response, handled}

abbrev encodes : SubmissionResponse ℕ → Bool
encodes r = true

abbrev lower : String → String
lower s = s

abbrev unmarshal : List ℕ → Option SubmissionRequest
unmarshal body = some request

abbrev handle_with : Endpoint → SubmissionRequest → Handled ℕ ℕ
handle_with endpoint r = handle services response_config endpoint r false answers

abbrev in_time : HttpRequest
in_time = record {
  path = "add-pre-chain";
  form_format = "";
  query_format = "html";
  multipart_format = none;
  accept = "";
  body = 1 ∷ [];
  expired = false;
  ended = false;
  deadline = 100;
}

abbrev too_late : HttpRequest
too_late = record in_time { expired = true; ended = true }

abbrev idle : Health
idle = set_initial_data_ready new_health

posted :
    post encodes lower unmarshal handle_with in_time idle
    ≡ returned (pos 200) (some 200) (html_response response) idle
unfolding post check_post_endpoint format_param param get_response_format parse_response_format
    post_body return_status send_response send_html_response
posted = ap (answer_handled encodes html false false 100 idle) handled

post-Shown_example :
    (endpoint : Endpoint) × (format : ResponseFormat) × (check_post_endpoint "add-pre-chain"
      ≡ some endpoint)
    × (get_response_format lower (format_param in_time) "" ≡ some format)
    × Shown encodes lower unmarshal handle_with endpoint format in_time
        (some 200)
        (html_response response)
post-Shown_example =
    post-Shown encodes lower unmarshal handle_with in_time idle idle (some 200)
      (html_response response) posted

abbrev busy : Health
busy = record idle { latest_busy_timestamp = 100 }

posted_late :
    post encodes lower unmarshal handle_with too_late idle ≡ returned (negsuc 0) none nothing busy
unfolding post check_post_endpoint format_param param get_response_format parse_response_format
    post_body return_status send_response send_html_response update_latest_timestamps
    set_initial_data_ready new_health
posted_late = ap (answer_handled encodes html true true 100 idle) handled

abbrev unset : Option ℕ
unset = none

abbrev blank : Written ℕ ℕ
blank = nothing

post_late_example : (unset ≡ none) × (blank ≡ nothing) × (is_ready 5 104 busy ≡ false)
post_late_example =
    post_late encodes lower unmarshal handle_with too_late 5 104 idle busy unset blank posted_late
      (omega arith)
