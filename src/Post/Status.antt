-- ===== src/Post/Status.antt =====
-- What the status of a POST request stands for.
use ctsubmit.Prelude.{
  if◌then◌else◌, ℕ, ◌+◌, ◌≡◌, ◌≤◌, refl, String, Bool, false, List, Option, none, some, string_eq,
  arith, Option-cases, Bool-cases, inl, inr,
}
use ctsubmit.Prelude.Int.{pos, negsuc}
use ctsubmit.Health.{Health, update_latest_timestamps, latest, is_ready}
use ctsubmit.Submitter.Types.{SubmissionRequest}
use ctsubmit.Submitter.CompatibleLogs.{is_empty}
use ctsubmit.Submitter.Handler.{
  Endpoint, SubmissionResponse, Handled, rejected, failed, responded, waiting, crash,
}
use ctsubmit.Post.{
  format_param, ResponseFormat, html, json, get_response_format, check_post_endpoint, Written,
  nothing, html_response, json_response, returned, send_html_response, send_json_problem,
  send_response, return_status, answer, answer_handled, HttpRequest, post_body, post,
}

module _ {R S : Type 0} (encodes : SubmissionResponse R → Bool) where
  -- The answer that shows a response.
  abbrev pub page : ResponseFormat → SubmissionResponse R → Written R S
  page html r = html_response r
  page json r = if encodes r then json_response r else nothing

  -- A status of 200 is only returned for a response, before the deadline.
  answered_ok :
      (format : ResponseFormat) (expired ended : Bool) (deadline : ℕ) (h h' : Health)
      (o : Handled R S) (code : Option ℕ) (w : Written R S)
      → answer_handled encodes format expired ended deadline h o ≡ returned (pos 200) code w h'
      → (resp : SubmissionResponse R) × (o ≡ responded resp)
        × (expired ≡ false)
        × (code ≡ (if ended then none else some 200))
        × (w ≡ page format resp)
  unfolding answer_handled answer return_status send_response send_html_response send_json_problem
  answered_ok format expired ended deadline h h' (rejected e) code w p = absurd (ground arith)
  answered_ok format expired ended deadline h h' (failed r e) code w p = absurd (ground arith)
  answered_ok format expired ended deadline h h' (responded r) code w p =
      (r, refl, ground arith, ground arith, ground arith)
  answered_ok format expired ended deadline h h' waiting code w p = cc
  answered_ok format expired ended deadline h h' crash code w p = cc

  -- Past the deadline nothing is written, and the service is not ready while that is remembered.
  answered_late :
      (format : ResponseFormat) (expired ended : Bool) (deadline remember now : ℕ) (h h' : Health)
      (o : Handled R S) (code : Option ℕ) (w : Written R S)
      → answer_handled encodes format expired ended deadline h o ≡ returned (negsuc 0) code w h'
      → now ≤ deadline + remember
      → (code ≡ none) × (w ≡ nothing) × (is_ready remember now h' ≡ false)
  unfolding answer_handled answer return_status send_response update_latest_timestamps latest
      is_ready
  answered_late format expired ended deadline remember now h h' (rejected e) code w p le =
      ground arith
  answered_late format expired ended deadline remember now h h' (failed r e) code w p le =
      ground arith
  answered_late format expired ended deadline remember now h h' (responded r) code w p le =
      ground arith
  answered_late format expired ended deadline remember now h h' waiting code w p le = cc
  answered_late format expired ended deadline remember now h h' crash code w p le = cc

module _ {R S : Type 0} (encodes : SubmissionResponse R → Bool) (to_lower : String → String)
    (unmarshal : List ℕ → Option SubmissionRequest)
    (handle : Endpoint → SubmissionRequest → Handled R S) where
  -- What a request with a known endpoint and format stands for, by its body.
  abbrev pub Shown : Endpoint → ResponseFormat → HttpRequest → Option ℕ → Written R S → Type 0
  Shown endpoint format r code w =
      (sr : SubmissionRequest) × (resp : SubmissionResponse R) × (unmarshal r.body ≡ some sr)
      × (handle endpoint sr ≡ responded resp)
      × (r.expired ≡ false)
      × (code ≡ (if r.ended then none else some 200))
      × (w ≡ page encodes format resp)

  read_ok :
      (endpoint : Endpoint) (format : ResponseFormat) (r : HttpRequest) (h h' : Health)
      (code : Option ℕ) (w : Written R S)
      → post_body encodes to_lower unmarshal handle endpoint format r h
        ≡ returned (pos 200) code w h'
      → Shown endpoint format r code w
  unfolding post_body answer return_status send_response send_html_response send_json_problem
  read_ok endpoint format r h h' code w p = elim (Bool-cases (is_empty r.body)) [
    | inl empty ↦ absurd (ground arith)
    | inr full ↦ elim (Option-cases (unmarshal r.body)) [
      | inl bad ↦ absurd (ground arith)
      | inr (sr, good) ↦
          let (resp, handled, early, set, shown) =
            answered_ok encodes format r.expired r.ended r.deadline h h' (handle endpoint sr) code w
              (ground arith) in
          (sr, resp, good, handled, early, set, shown)
    ]
  ]

  read_late :
      (endpoint : Endpoint) (format : ResponseFormat) (r : HttpRequest) (remember now : ℕ)
      (h h' : Health) (code : Option ℕ) (w : Written R S)
      → post_body encodes to_lower unmarshal handle endpoint format r h
        ≡ returned (negsuc 0) code w h'
      → now ≤ r.deadline + remember
      → (code ≡ none) × (w ≡ nothing) × (is_ready remember now h' ≡ false)
  unfolding post_body answer return_status update_latest_timestamps latest is_ready
  read_late endpoint format r remember now h h' code w p le = elim (Bool-cases (is_empty r.body)) [
    | inl empty ↦ absurd (ground arith)
    | inr full ↦ elim (Option-cases (unmarshal r.body)) [
      | inl bad ↦ ground arith
      | inr (sr, good) ↦
          answered_late encodes format r.expired r.ended r.deadline remember now h h'
            (handle endpoint sr) code w (ground arith) le
    ]
  ]

  -- POST returns the status 200 only for a known endpoint and a known format, when the body is a request
  -- that Handle answers with a response and the deadline has not passed then. The page shows this response
  -- (it stays empty if the response does not encode as JSON), and the code 200 is set unless the deadline
  -- has passed by the time POST returns.
  pub post-Shown :
      (r : HttpRequest) (h h' : Health) (code : Option ℕ) (w : Written R S)
      → post encodes to_lower unmarshal handle r h ≡ returned (pos 200) code w h'
      → (endpoint : Endpoint) × (format : ResponseFormat) × (check_post_endpoint r.path
          ≡ some endpoint)
        × (get_response_format to_lower (format_param r) r.accept ≡ some format)
        × Shown endpoint format r code w
  unfolding post return_status send_json_problem
  post-Shown r h h' code w p = elim (Option-cases (check_post_endpoint r.path)) [
    | inl unknown ↦ absurd (ground arith)
    | inr (endpoint, known) ↦
        elim (Option-cases (get_response_format to_lower (format_param r) r.accept)) [
          | inl unread ↦ absurd (ground arith)
          | inr (format, read) ↦
              (endpoint, format, known, read, read_ok endpoint format r h h' code w (ground arith))
        ]
  ]

  -- When POST returns -1, no status code is set and nothing is written, and the service is not ready at
  -- any time until the deadline of the request and the time for which a busy state is remembered have passed.
  pub post_late :
      (r : HttpRequest) (remember now : ℕ) (h h' : Health) (code : Option ℕ) (w : Written R S)
      → post encodes to_lower unmarshal handle r h ≡ returned (negsuc 0) code w h'
      → now ≤ r.deadline + remember
      → (code ≡ none) × (w ≡ nothing) × (is_ready remember now h' ≡ false)
  unfolding post return_status send_json_problem
  post_late r remember now h h' code w p le = elim (Option-cases (check_post_endpoint r.path)) [
    | inl unknown ↦ absurd (ground arith)
    | inr (endpoint, known) ↦
        elim (Option-cases (get_response_format to_lower (format_param r) r.accept)) [
          | inl unread ↦ absurd (ground arith)
          | inr (format, read) ↦
              read_late endpoint format r remember now h h' code w (ground arith) le
        ]
  ]
