-- ===== src/Webhook.antt =====
-- internal/webhook/notifier.go: the callback that is posted when a job ends. The HTTP client is a
-- parameter, with `http.NewRequestWithContext`: what they make of a post is a status code or an
-- error, which also a URL that makes no request is. `json.Marshal` of an event does not fail.
use chroma_flow.Base.{
  ℕ, String, ◌≡◌, ◌↔◌, ◌≤◌, ◌<◌, ◌⊎◌, Option, [], ltb, leb, ◌||◌, ◌==◌, if◌then◌else◌, arith, refl,
  inl, inr, Bool-cases, eq_iff, none, some,
}
use chroma_flow.Base.Dict
use chroma_flow.Base.Dict.{Dict, String-eq}
use chroma_flow.Queue.Types.{Error, text, Result, ok, err, JobStatus}

pub record Event : Type 0 where
  pub job_id : String
  pub url : String
  pub status : JobStatus
  pub error : String
  pub pdf_key : String
  pub pdf_size : ℕ
  pub request_id : String

-- The request that is sent.
pub record Post : Type 0 where
  pub target : String
  pub header : Dict String String
  pub event : Event

-- `NewNotifier`: the timeout in nanoseconds, at least 0 here, with its default of ten seconds.
unfoldable pub notifier_timeout : ℕ → ℕ
notifier_timeout timeout = if leb timeout 0 then 10000000000 else timeout

unfoldable pub post_of : String → Event → Post
post_of callback_url event =
    let header = Dict.put "Content-Type" "application/json" [] in
    record {
      target = callback_url;
      header =
          if event.request_id == ""
          then header
          else Dict.put "X-Request-ID" event.request_id header;
      event = event;
    }

unfoldable pub answer_error : Result ℕ → Option Error
answer_error (err e) = some e
answer_error (ok status) =
    if ltb status 200 || leb 300 status then some (text "webhook returned status") else none

-- `Notify` on a notifier that is not nil: what is posted, and the error.
unfoldable pub notify : (Post → Result ℕ) → String → Event → Option Post × Option Error
unfolding post_of answer_error
notify exchange callback_url event =
    if callback_url == ""
    then (none, none)
    else (let post = post_of callback_url event in (some post, answer_error (exchange post)))

-- What a client of the callback sees as delivered: a status of the 200s.
abbrev pub IsDelivered : Result ℕ → Type 0
IsDelivered answer = (status : ℕ) × (answer ≡ ok status) × (200 ≤ status) × (status < 300)

answer_error-none_iff : (answer : Result ℕ) → (answer_error answer ≡ none) ↔ IsDelivered answer
unfolding answer_error
answer_error-none_iff (err e) = ((λ h. absurd (cc)), λ d. absurd (cc (d.1)))
answer_error-none_iff (ok status) = (
  (λ h. (status, refl, ground arith, ground arith)),
  λ d.
      let same : status ≡ d.0 = cc (d.1) in
      let low : 200 ≤ status = omega (arith, same, d.2) in
      let high : status < 300 = omega (arith, same, d.3) in ground (arith, low, high),
)

-- `Notify` hands a post to the HTTP client exactly where there is a callback URL, and returns no
-- error exactly where there is none or the client's answer is a status of the 200s.
pub notify_iff :
    (exchange : Post → Result ℕ) (callback_url : String) (event : Event)
    → let (post, error) = notify exchange callback_url event in
      (post ≡ (if callback_url == "" then none else some (post_of callback_url event)))
      × ((error ≡ none)
          ↔ ((callback_url ≡ "") ⊎ IsDelivered (exchange (post_of callback_url event))))
unfolding notify
notify_iff exchange callback_url event =
    let delivered = answer_error-none_iff (exchange (post_of callback_url event)) in
    (
      ground arith,
      (
        λ h. elim (Bool-cases (callback_url == "")) [
          | inl e ↦ inl ((eq_iff callback_url "").0 e)
          | inr e ↦ inr (delivered.0 (rw e at h))
        ],
        λ h. elim h [
          | inl e ↦ rw ((eq_iff callback_url "").1 e) refl
          | inr d ↦ elim (Bool-cases (callback_url == "")) [
            | inl e ↦ rw e
            | inr e ↦ rw e (delivered.1 d)
          ]
        ],
      ),
    )
