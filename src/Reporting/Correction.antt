-- ===== src/Reporting/Correction.antt =====
-- products/reporting-service/correction-core.ts: the correction that withdraws a public report. The
-- values are typed: the tests of a stored value's own keys, its schema version, action and reason are
-- left out. `hash` is SHA-256 of the correction's JSON.
pub mod Reading
use webmcp_security_lab.Prelude.{Bool, true, false, String, if◌then◌else◌, ◌==◌, string_eq}
use webmcp_security_lab.Prelude.Result.{Result, ok, err, ◌>>=◌, ◌>>◌, guard}
use webmcp_security_lab.Prelude.Dates.{DateText, is_exact}
use webmcp_security_lab.Prelude.Text.{is_uuid, is_sha256}

pub data CorrectionAction : Type 0 where
  withdraw : CorrectionAction

pub data CorrectionReason : Type 0 where
  consent_withdrawn duplicate erroneous_publication evidence_invalidated : CorrectionReason

-- A correction without its hash.
pub record CorrectionBody : Type 0 where
  pub correction_id : String
  pub public_id : String
  pub corrected_at : DateText
  pub action : CorrectionAction
  pub reason : CorrectionReason
  pub publication_record_sha256 : String

pub record PublicCorrection : Type 0 where
  pub body : CorrectionBody
  pub correction_sha256 : String

pub data CorrectionError : Type 0 where
  bad_id bad_time bad_digest bad_correction bad_hash : CorrectionError

module _ (hash : CorrectionBody → String) where
  unfoldable pub make_correction : CorrectionBody → Result CorrectionError PublicCorrection
  make_correction input = do
    guard (is_uuid input.correction_id) bad_id
    guard (is_uuid input.public_id) bad_id
    guard (is_exact input.corrected_at) bad_time
    guard (is_sha256 input.publication_record_sha256) bad_digest
    ok (record { body = input; correction_sha256 = hash input })

  -- `correction_id` is the identity that the generator returns.
  unfoldable pub create_correction :
      (correction_id public_id : String)
      → DateText
      → CorrectionAction
      → CorrectionReason
      → String
      → Result CorrectionError PublicCorrection
  unfolding make_correction
  create_correction correction_id public_id corrected_at action reason publication_record_sha256 =
      make_correction (record {
        correction_id = correction_id;
        public_id = public_id;
        corrected_at = corrected_at;
        action = action;
        reason = reason;
        publication_record_sha256 = publication_record_sha256;
      })

  unfoldable pub parse_correction : PublicCorrection → Result CorrectionError PublicCorrection
  unfolding make_correction
  parse_correction candidate = do
    guard (is_sha256 candidate.correction_sha256) bad_correction
    parsed ← make_correction candidate.body
    guard (parsed.correction_sha256 == candidate.correction_sha256) bad_hash
    ok parsed
