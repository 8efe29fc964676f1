-- ===== src/Operator/Tests.antt =====
-- A report that is moved by a page: tests of the tokens, and the theorem at them.
use webmcp_security_lab.Prelude.{ℕ, zero, suc, ◌≡◌, refl, String, List, [], ◌∷◌}
use webmcp_security_lab.Prelude.Result.{ok, err}
use webmcp_security_lab.Prelude.Dict.{get, set, delete, discard, evict}
use webmcp_security_lab.Prelude.Text.{units, trim, is_uuid, is_sha256}
use webmcp_security_lab.Issues.Model.{
  ModerationState, under_review, needs_evidence, accepted_private, duplicate, rejected,
}
use webmcp_security_lab.Issues.Moderation.{allowed_transitions}
use webmcp_security_lab.Operator.Actions.{
  ActionManager, transitioning, viewing, transition, Reading, TransitionSource, IssuedTransition,
  invalid_action, is_bounded_token, is_reviewer_target, sweep, match_reviewed, store_action, issue,
  join_issued, issue_each, issue_transitions, consume_reviewed,
}
use webmcp_security_lab.Operator.Actions.Issued.{Call, moved, consumed, step, run, Offered}
use webmcp_security_lab.Operator.Actions.Authority.{consume-Offered}

abbrev scope : String
scope = "0123456789abcdef0123456789abcdef0123456789abcdef0123456789abcdef"

abbrev report_id : String
report_id = "00000000-0000-4000-8000-000000000001"

abbrev plain : String → String
plain s = s

abbrev secret_of : ℕ → String
secret_of zero = "secret-of-the-first-target"
secret_of (suc zero) = "secret-of-the-second-target"
secret_of (suc (suc zero)) = "secret-of-the-third-target"
secret_of n = "secret-of-the-fourth-target"

abbrev readings : ℕ → Reading
readings n = record { now = 5; later = 6; secret = secret_of n }

abbrev source : TransitionSource
source = record {
  scope = scope;
  report_id = report_id;
  expected_revision = 3;
  state = under_review;
}

abbrev empty : ActionManager
empty = record { ttl_ms = 300000; actions = [] }

abbrev past : List Call
past = moved readings source ∷ []

accepted :
    (consume_reviewed plain 7 8 "secret-of-the-second-target" scope transitioning
      (run plain plain past empty)).1
    ≡ ok (transition report_id 3 accepted_private)
unfolding consume_reviewed run step issue_transitions issue_each join_issued issue store_action
    sweep match_reviewed is_bounded_token is_reviewer_target allowed_transitions is_uuid is_sha256
    get set delete discard evict units trim
accepted = refl

consume-Offered_example : Offered plain past scope (transition report_id 3 accepted_private)
consume-Offered_example =
    consume-Offered plain plain past empty 7 8 "secret-of-the-second-target" scope transitioning
      (transition report_id 3 accepted_private) refl accepted

-- A token is good for its own kind of action only, and it is gone after any use.
other_kind :
    (consume_reviewed plain 7 8 "secret-of-the-second-target" scope viewing
      (run plain plain past empty)).1
    ≡ err invalid_action
unfolding consume_reviewed run step issue_transitions issue_each join_issued issue store_action
    sweep match_reviewed is_bounded_token is_reviewer_target allowed_transitions is_uuid is_sha256
    get set delete discard evict units trim
other_kind = refl

used_up :
    (consume_reviewed plain 9 9 "secret-of-the-second-target" scope transitioning
      (run plain plain (consumed 7 8 "secret-of-the-second-target" scope viewing ∷ past) empty)).1
    ≡ err invalid_action
unfolding consume_reviewed run step issue_transitions issue_each join_issued issue store_action
    sweep match_reviewed is_bounded_token is_reviewer_target allowed_transitions is_uuid is_sha256
    get set delete discard evict units trim
used_up = refl

abbrev issued : ModerationState → String → IssuedTransition
issued to token = record { to = to; token = token }

-- The tokens of a report under review: it can be moved to four states.
four_tokens :
    (issue_transitions plain readings source empty).1
    ≡ ok (
        issued needs_evidence "secret-of-the-first-target"
        ∷ issued accepted_private "secret-of-the-second-target"
        ∷ issued duplicate "secret-of-the-third-target"
        ∷ issued rejected "secret-of-the-fourth-target"
        ∷ [])
unfolding issue_transitions issue_each join_issued issue store_action sweep is_bounded_token
    is_reviewer_target allowed_transitions is_uuid is_sha256 set discard evict units trim
four_tokens = refl
