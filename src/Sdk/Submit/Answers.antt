-- ===== src/Sdk/Submit/Answers.antt =====
-- tako_vm/sdk/client.py: what one attempt of submit_code leaves of its answer.
use tako_vm.Prelude.{
  ℕ, zero, suc, String, Option, none, some, List, [], ◌∷◌, ◌≡◌, refl, str_eq, append-nil,
  Bool-cases, inl, inr,
}
use tako_vm.Sdk.{SdkError, status_error}
use tako_vm.Sdk.Submit.{
  Delivery, lost, unanswered, answered, turned_away, Answer, job_id, raises, is_retried,
  error_or_malformed, answer_of, Submission, received, after_answer,
}
use tako_vm.Storage.Columns.{Value}
use tako_vm.Server.Submission.Endpoint.{accepted, error}

-- A returned job id is `i`.
abbrev pub Answers : String → Answer → Type 0
Answers i (job_id j) = i ≡ j
Answers i (raises e) = Unit

-- One job at most was queued, and a job id that is returned then is its id.
abbrev pub IsOnce : List String → Answer → Type 0
IsOnce [] answer = Unit
IsOnce (i ∷ []) answer = Answers i answer
IsOnce (i ∷ j ∷ ids) answer = ⊥

pub own_id-Answers :
    (i : String) (status : Option Value)
    → Answers i (answer_of (accepted (some (Value.text i)) status))
own_id-Answers i status = elim (Bool-cases (str_eq i "")) [
  | inl empty ↦ rw empty tt
  | inr filled ↦ rw filled refl
]

pub error-Answers : (i : String) (code : ℕ) → Answers i (answer_of (error code))
error-Answers i code = by_error (status_error code)
  where
    by_error : (o : Option SdkError) → Answers i (error_or_malformed o)
    by_error none = tt
    by_error (some e) = tt

pub received-Answers :
    (i : String) (d : Delivery) (status : Option Value)
    → Answers i (received d (accepted (some (Value.text i)) status))
received-Answers i lost status = tt
received-Answers i unanswered status = tt
received-Answers i answered status = own_id-Answers i status
received-Answers i (turned_away code) status = own_id-Answers i status

pub refusal-Answers : (i : String) (d : Delivery) (code : ℕ) → Answers i (received d (error code))
refusal-Answers i lost code = tt
refusal-Answers i unanswered code = tt
refusal-Answers i answered code = error-Answers i code
refusal-Answers i (turned_away code') code = error-Answers i code

-- The loop after an answer: nothing more is queued, and an id is that of the job.
pub after-Answers :
    (i : String) (x : Answer) (queued : List String) (left n : ℕ) (next : Submission)
    → Answers i x
    → next.queued ≡ []
    → Answers i next.answer
    → ((after_answer x queued left n next).queued ≡ queued)
      × Answers i (after_answer x queued left n next).answer
after-Answers i (job_id j) queued left n next x none_more rest = (refl, x)
after-Answers i (raises e) queued zero n next x none_more rest = (refl, tt)
after-Answers i (raises e) queued (suc left) n next x none_more rest =
    elim (Bool-cases (is_retried e)) [
      | inl again ↦ rw again (rw none_more (append-nil queued), rest)
      | inr over ↦ rw over (refl, tt)
    ]

-- The loop after an answer to a request for which nothing was queued.
pub after-IsOnce :
    (x : Answer) (left n : ℕ) (next : Submission)
    → IsOnce next.queued next.answer
    → IsOnce (after_answer x [] left n next).queued (after_answer x [] left n next).answer
after-IsOnce (job_id j) left n next rest = tt
after-IsOnce (raises e) zero n next rest = tt
after-IsOnce (raises e) (suc left) n next rest = elim (Bool-cases (is_retried e)) [
  | inl again ↦ rw again rest
  | inr over ↦ rw over tt
]
