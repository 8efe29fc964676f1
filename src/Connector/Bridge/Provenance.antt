-- ===== src/Connector/Bridge/Provenance.antt =====
-- The result of every resolved promise was sent by a page that was bound to it.
use webmcp_security_lab.Prelude.{
  ℕ, ◌≡◌, refl, ap, Bool, true, false, not, ◌||◌, Option, none, some, String, Bool-cases,
  Option-cases, inl, inr, nat_beq, if◌then◌else◌, string_eq,
}
use webmcp_security_lab.Prelude.Result.{Result, ok, err}
use webmcp_security_lab.Prelude.Dict.{get, set, Each-set, Each-delete, Each-get}
use webmcp_security_lab.Connector.Bridge.{
  BridgeError, BridgeCommand, BridgeCommandResult, CommittingCommand, resolved, Coordinator,
}
use webmcp_security_lab.Connector.Bridge.Commit.{
  CommitOutcome, committed, threw_terminal, threw_other, outcome_of, finalize_completion,
  wait_for_commit, ensure_attempt, reject_completion, fail_attempt, conclude_attempt, end_attempt,
  running_attempt, attempt_of, settle_attempt, is_pending, is_in_flight,
}
use webmcp_security_lab.Connector.Bridge.Vouching.{Holds, IsVouched, same-IsVouched}

module _ (P : BridgeCommandResult → Type 0) where
  pub finalize_completion-IsVouched :
      (now : ℕ) (session_id : String) (serial : ℕ) (command : BridgeCommand)
      (result : BridgeCommandResult) (text : String) (receipt : Option String) (c : Coordinator)
      → P result
      → IsVouched P c
      → IsVouched P (finalize_completion now session_id serial command result text receipt c).0
  unfolding finalize_completion
  finalize_completion-IsVouched now session_id serial command result text receipt c vouched v =
      elim (Bool-cases (
        not (is_pending serial (get result.command_id c.pending))
        || not (is_in_flight command.id (get session_id c.sessions)))) [
          | inl stale ↦ rw (stale, finalize_completion) v
          | inr live ↦
              rw (live, finalize_completion)
                (record {
                  commits = v.commits;
                  outcomes = (outcome_holds result.succeeded, v.outcomes);
                })
        ]
    where
      outcome_holds :
          (b : Bool)
          → Holds P (
              if b
              then resolved result receipt
              else outcome_of (record result { succeeded = false }) receipt)
      outcome_holds true = vouched
      outcome_holds false = tt

  reject_completion-IsVouched :
      (serial : ℕ) (m : CommittingCommand) (c : Coordinator)
      → IsVouched P c
      → IsVouched P (reject_completion serial m c)
  unfolding reject_completion
  reject_completion-IsVouched serial m c v =
      elim (Bool-cases (is_pending serial (get m.command.id c.pending))) [
        | inl mine ↦
            rw (mine, reject_completion)
              (record {
                commits = Each-delete (λ x. P x.result) m.command.id c.committing v.commits;
                outcomes = (tt, v.outcomes);
              })
        | inr other ↦ rw (other, reject_completion) v
      ]

  fail_attempt-IsVouched :
      (serial : ℕ) (m : CommittingCommand) (terminal : Bool) (c : Coordinator)
      → P m.result
      → IsVouched P c
      → IsVouched P (fail_attempt serial m terminal c)
  unfolding fail_attempt
  fail_attempt-IsVouched serial m terminal c vouched v = go terminal
    where
      idle :
          IsVouched P
            (record c { committing = set m.command.id (record m { attempt = none }) c.committing })
      idle = record {
        commits =
            Each-set (λ x. P x.result) m.command.id (record m { attempt = none }) c.committing
              vouched v.commits;
        outcomes = v.outcomes;
      }

      go : (b : Bool) → IsVouched P (fail_attempt serial m b c)
      go true = reject_completion-IsVouched serial m _ idle
      go false = same-IsVouched P _ _ refl refl idle

  conclude_attempt-IsVouched :
      (serial : ℕ) (m : CommittingCommand) (r : Coordinator × Result BridgeError (Unit {0}))
      → P m.result
      → IsVouched P r.0
      → IsVouched P (conclude_attempt serial m r)
  unfolding conclude_attempt
  conclude_attempt-IsVouched serial m (c, ok done) vouched v = record {
    commits = Each-delete (λ x. P x.result) m.command.id c.committing v.commits;
    outcomes = v.outcomes;
  }
  conclude_attempt-IsVouched serial m (c, err e) vouched v =
      fail_attempt-IsVouched serial m false c vouched v

  end_attempt-IsVouched :
      (now serial : ℕ) (m : CommittingCommand) (outcome : CommitOutcome) (c : Coordinator)
      → P m.result
      → IsVouched P c
      → IsVouched P (end_attempt now serial m outcome c)
  unfolding end_attempt
  end_attempt-IsVouched now serial m (committed receipt) c vouched v =
      conclude_attempt-IsVouched serial m _ vouched (
        finalize_completion-IsVouched now m.session_id serial m.command m.result m.canonical_result
          receipt c vouched v)
  end_attempt-IsVouched now serial m threw_terminal c vouched v =
      fail_attempt-IsVouched serial m true c vouched v
  end_attempt-IsVouched now serial m threw_other c vouched v =
      fail_attempt-IsVouched serial m false c vouched v

  running_attempt_lem :
      (o : Option ℕ) (x m : CommittingCommand) (serial : ℕ)
      → running_attempt o x ≡ some (serial, m)
      → x ≡ m
  unfolding running_attempt
  running_attempt_lem none x m serial h = absurd (cc)
  running_attempt_lem (some n) x m serial h = cc

  attempt_of_lem :
      (commit_serial : ℕ) (o : Option CommittingCommand) (serial : ℕ) (m : CommittingCommand)
      → attempt_of commit_serial o ≡ some (serial, m)
      → o ≡ some m
  unfolding attempt_of
  attempt_of_lem commit_serial none serial m h = absurd (cc)
  attempt_of_lem commit_serial (some x) serial m h =
      elim (Bool-cases (nat_beq x.serial commit_serial)) [
        | inl mine ↦ ap some (running_attempt_lem x.attempt x m serial (rw (mine, attempt_of) at h))
        | inr other ↦ absurd (cc (rw (other, attempt_of) at h))
      ]

  pub settle_attempt-IsVouched :
      (now : ℕ) (id : String) (commit_serial : ℕ) (outcome : CommitOutcome) (c : Coordinator)
      → IsVouched P c
      → IsVouched P (settle_attempt now id commit_serial outcome c)
  unfolding settle_attempt
  settle_attempt-IsVouched now id commit_serial outcome c v =
      elim (Option-cases (attempt_of commit_serial (get id c.committing))) [
        | inl stale ↦ rw (stale, settle_attempt) v
        | inr ((serial, m), found) ↦
            let there = attempt_of_lem commit_serial (get id c.committing) serial m found in
            let vouched = Each-get (λ x. P x.result) id c.committing m v.commits there in
            rw (found, settle_attempt) (end_attempt-IsVouched now serial m outcome c vouched v)
      ]

  pub wait_for_commit-IsVouched :
      (serial : ℕ) (m : CommittingCommand) (c : Coordinator)
      → P m.result
      → IsVouched P c
      → IsVouched P (wait_for_commit serial m c)
  unfolding wait_for_commit ensure_attempt
  wait_for_commit-IsVouched serial m c vouched v = go m.waiter m.attempt
    where
      go : (b : Bool) (o : Option ℕ) → IsVouched P (if b then c else ensure_attempt o serial m c)
      go true o = v
      go false none = record {
        commits = Each-set (λ x. P x.result) m.result.command_id _ c.committing vouched v.commits;
        outcomes = v.outcomes;
      }
      go false (some n) = record {
        commits = Each-set (λ x. P x.result) m.result.command_id _ c.committing vouched v.commits;
        outcomes = v.outcomes;
      }
