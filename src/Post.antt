-- ===== src/Post.antt =====
-- request/post.go, endpoint/endpoint.go and config.ParseResponseFormat: a POST request from its path
-- to the status and the body. fasthttp's request is what the code reads of it; strings.ToLower and
-- json.Unmarshal into a new request are parameters. `handled` is what Handle returns for the
-- unmarshalled request; `encodes` says whether the JSON encoder takes a response. Counters, log lines and the CORS header are left out.
pub mod Status
use ctsubmit.Prelude.{
  ℕ, ◌+◌, String, Bool, true, false, not, ◌&&◌, List, [], ◌∷◌, Option, none, some, ◌==◌, string_eq,
  if◌then◌else◌,
}
use ctsubmit.Prelude.Int.{ℤ, pos, negsuc}
use ctsubmit.Health.{Health, update_latest_timestamps}
use ctsubmit.Submitter.Types.{SubmissionRequest, StrategyMember}
use ctsubmit.Submitter.CompatibleLogs.{is_empty}
use ctsubmit.Submitter.Handler.{
  Endpoint, add_chain, add_pre_chain, SubmissionResponse, HandleError, Handled, rejected, failed,
  responded, waiting, crash,
}

pub data ResponseFormat : Type 0 where
  html json : ResponseFormat

abbrev pub default_response_format : ResponseFormat
default_response_format = json

-- `none` is -1.
unfoldable pub parse_response_format : (String → String) → String → Option ResponseFormat
parse_response_format to_lower format =
    if to_lower format == "html"
    then some html
    else if to_lower format == "json"
    then some json
    else none

unfoldable pub get_response_format : (String → String) → String → String → Option ResponseFormat
unfolding parse_response_format
get_response_format to_lower format accept =
    if not (format == "")
    then parse_response_format to_lower format
    else if accept == "text/html"
    then some html
    else if accept == "application/json"
    then some json
    else some default_response_format

unfoldable pub check_post_endpoint : String → Option Endpoint
check_post_endpoint path =
    if path == "add-chain"
    then some add_chain
    else if path == "add-pre-chain"
    then some add_pre_chain
    else none

-- The value of a parameter: of the form, then of the query, then of the multipart form.
unfoldable pub param : String → String → Option String → String
param post_arg query_arg multipart =
    if not (post_arg == "")
    then post_arg
    else if not (query_arg == "")
    then query_arg
    else elim multipart [ none ↦ "" | some value ↦ value ]

-- The errors of POST itself, and Handle's.
pub data PostError (R S : Type 0) : Type 0 where
  invalid_format empty_body invalid_json : PostError R S
  handle_error : HandleError R S → PostError R S

-- The body that is written. A problem carries the strategy of a response that has one.
pub data Written (R S : Type 0) : Type 0 where
  nothing : Written R S
  html_error : PostError R S → Option (SubmissionResponse R) → Written R S
  html_response json_response : SubmissionResponse R → Written R S
  json_problem : ℕ → PostError R S → List StrategyMember → Written R S

-- `returned` has the result of POST, the status code that is set, if one is, and the body.
pub data Posted (R S : Type 0) : Type 0 where
  returned : ℤ → Option ℕ → Written R S → Health → Posted R S
  blocked panicked : Posted R S

unfoldable pub has_strategy : {R : Type 0} → Option (SubmissionResponse R) → Bool
has_strategy none = false
has_strategy (some r) = not (is_empty r.strategy)

module _ {R S : Type 0} (encodes : SubmissionResponse R → Bool) where
  -- There always is a response where there is no error.
  unfoldable pub send_html_response :
      Option (SubmissionResponse R) → Option (PostError R S) → ℕ × Written R S
  unfolding has_strategy
  send_html_response response (some e) =
      (400, html_error e (if has_strategy response then response else none))
  send_html_response none none = (200, nothing)
  send_html_response (some r) none = (200, html_response r)

  unfoldable pub send_json_problem :
      ℕ → Option (SubmissionResponse R) → PostError R S → ℕ × Written R S
  send_json_problem status none e = (status, json_problem status e [])
  send_json_problem status (some r) e = (status, json_problem status e r.strategy)

  unfoldable pub send_response :
      ResponseFormat → Option (SubmissionResponse R) → Option (PostError R S) → ℕ × Written R S
  unfolding send_html_response send_json_problem
  send_response html response error = send_html_response response error
  send_response json response (some e) = send_json_problem 400 response e
  send_response json none none = (200, nothing)
  -- Nothing is written if the response does not encode.
  send_response json (some r) none = (200, if encodes r then json_response r else nothing)

  -- A return with a status. No code is set if the deadline has passed by then.
  unfoldable pub return_status : Bool → Health → ℕ × Written R S → Posted R S
  return_status ended h (status, written) =
      returned (pos status) (if ended then none else some status) written h

  -- The request is there and its deadline has passed, or there is an outcome to send.
  unfoldable pub answer :
      ResponseFormat
      → Bool
      → Bool
      → ℕ
      → Health
      → Option (SubmissionResponse R)
      → Option (PostError R S)
      → Posted R S
  unfolding send_response return_status update_latest_timestamps
  answer format expired ended deadline h response error =
      if expired
      then returned (negsuc 0) none nothing (
          update_latest_timestamps (record { non_error = none; error = none; busy = some deadline })
            h)
      else return_status ended h (send_response format response error)

  unfoldable pub answer_handled :
      ResponseFormat → Bool → Bool → ℕ → Health → Handled R S → Posted R S
  unfolding answer
  answer_handled format expired ended deadline h (rejected e) =
      answer format expired ended deadline h none (some (handle_error e))
  answer_handled format expired ended deadline h (failed r e) =
      answer format expired ended deadline h (some r) (some (handle_error e))
  answer_handled format expired ended deadline h (responded r) =
      answer format expired ended deadline h (some r) none
  answer_handled format expired ended deadline h waiting = blocked
  answer_handled format expired ended deadline h crash = panicked

-- What POST reads of its request, with whether the deadline has passed when it looks, and whether it
-- has when POST returns.
pub record HttpRequest : Type 0 where
  pub path : String
  pub form_format : String
  pub query_format : String
  pub multipart_format : Option String
  pub accept : String
  pub body : List ℕ
  pub expired : Bool
  pub ended : Bool
  pub deadline : ℕ

-- The parameter "format".
unfoldable pub format_param : HttpRequest → String
unfolding param
format_param r = param r.form_format r.query_format r.multipart_format

module _ {R S : Type 0} (encodes : SubmissionResponse R → Bool) (to_lower : String → String)
    (unmarshal : List ℕ → Option SubmissionRequest)
    (handle : Endpoint → SubmissionRequest → Handled R S) where
  unfoldable pub post_body : Endpoint → ResponseFormat → HttpRequest → Health → Posted R S
  unfolding answer answer_handled return_status send_response
  post_body endpoint format r h =
      if is_empty r.body
      then return_status encodes r.ended h (send_response encodes format none (some empty_body))
      else elim (unmarshal r.body) [
        | none ↦ answer encodes format r.expired r.ended r.deadline h none (some invalid_json)
        | some sr ↦
            answer_handled encodes format r.expired r.ended r.deadline h (handle endpoint sr)
      ]

  unfoldable pub post : HttpRequest → Health → Posted R S
  unfolding check_post_endpoint format_param get_response_format post_body send_json_problem
      return_status
  post r h = elim (check_post_endpoint r.path) [
    | none ↦ returned (pos 404) (some 404) nothing h
    | some endpoint ↦ elim (get_response_format to_lower (format_param r) r.accept) [
      | none ↦ return_status encodes r.ended h (send_json_problem encodes 400 none invalid_format)
      | some format ↦ post_body endpoint format r h
    ]
  ]
