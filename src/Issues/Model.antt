-- ===== src/Issues/Model.antt =====
-- The words of products/connector/issue-draft.ts and issue-publication.ts, the errors that they and
-- issue-moderation.ts throw, and the functions of the runtime that they call.
use Prim.Native.Char.{code}
use Prim.Native.String.{[], ◌∷◌}
use webmcp_security_lab.Prelude.{
  ℕ, ◌≡◌, ◌↔◌, arith, Bool, true, false, List, [], ◌∷◌, String, nat_beq, any, StrictEquality,
  if◌then◌else◌, ◌==◌, string_eq, ◌||◌, ◌&&◌,
}
use webmcp_security_lab.Prelude.Url.{UrlParser}

pub data IssueContext : Type 0 where
  public_web synthetic_lab local_exercise : IssueContext

pub data IssueCategory : Type 0 where
  annotation_mismatch excess_authority untrusted_output misleading_approval : IssueCategory
  support_overclaim unexpected_tool_change unexpected_side_effect : IssueCategory

pub data IssueStage : Type 0 where
  api_support registration policy discovery approval invocation result retirement : IssueStage

pub data IssueSeverity : Type 0 where
  informational low medium high critical : IssueSeverity

pub data ModerationState : Type 0 where
  received quarantined under_review needs_evidence : ModerationState
  accepted_private duplicate rejected published : ModerationState

pub data HostnameVisibility : Type 0 where
  withheld named : HostnameVisibility

pub data HostnameConsent : Type 0 where
  not_granted explicit : HostnameConsent

pub data EvidenceBasis : Type 0 where
  not_established human_reproduced equivalent_evidence : EvidenceBasis

-- `ISSUE_DRAFT_ASSURANCE_LIMITATION` and the text of older records.
pub data AssuranceLimitation : Type 0 where
  current_limitation legacy_limitation : AssuranceLimitation

pub data IssueError : Type 0 where
  unbounded_origin spaced_origin invalid_origin impure_origin nonpublic_origin : IssueError
  origin_not_allowed gate_required withheld_with_hostname withheld_with_consent : IssueError
  consent_required evidence_required unnormalized_hostname invalid_hostname : IssueError
  nonpublic_hostname not_publishable not_public_web bad_id bad_time : IssueError
  transition_not_allowed moves_backward premature_publication hostname_mismatch : IssueError
  bad_site_url bad_submission no_history history_too_long broken_intake : IssueError
  broken_chain snapshot_mismatch : IssueError

-- `isIP(text) !== 0` of node:net, `new URL` and `toLowerCase`.
pub record Runtime : Type 0 where
  pub parse_url : UrlParser
  pub is_ip : String → Bool
  pub to_lower : String → String

unfoldable pub rank : ModerationState → ℕ
rank received = 0
rank quarantined = 1
rank under_review = 2
rank needs_evidence = 3
rank accepted_private = 4
rank duplicate = 5
rank rejected = 6
rank published = 7

unfoldable pub same_state : ModerationState → ModerationState → Bool
unfolding rank
same_state x y = nat_beq (rank x) (rank y)

pub same_state_iff : (x y : ModerationState) → (same_state x y ≡ true) ↔ (x ≡ y)
unfolding same_state rank
same_state_iff x y = ground arith

instance abbrev pub state_eq : StrictEquality ModerationState
state_eq = record { same = same_state; same_iff = same_state_iff }

-- `text.endsWith(suffix)`.
unfoldable pub ends_with : String → String → Bool
ends_with suffix [] = suffix == []
ends_with suffix (c ∷ s) = if c ∷ s == suffix then true else ends_with suffix s

-- `text.includes` of one character.
unfoldable pub has_char : ℕ → String → Bool
has_char k [] = false
has_char k (c ∷ s) = nat_beq (code c) k || has_char k s

-- `text.slice(1)`.
unfoldable pub without_first : String → String
without_first [] = []
without_first (c ∷ s) = s

without_last : String → String
without_last [] = []
without_last (c ∷ []) = []
without_last (c ∷ d ∷ s) = c ∷ without_last (d ∷ s)

starts_bracket : String → Bool
starts_bracket [] = false
starts_bracket (c ∷ s) = nat_beq (code c) b'['

-- The `address` of a hostname: without the brackets around an IPv6 literal.
unfoldable pub address : String → String
unfolding without_first without_last starts_bracket ends_with
address hostname =
    if starts_bracket hostname && ends_with "]" hostname
    then without_last (without_first hostname)
    else hostname

-- `NON_PUBLIC_HOST_SUFFIXES`.
abbrev pub non_public_suffixes : List String
non_public_suffixes =
    ".home" ∷ ".home.arpa" ∷ ".internal" ∷ ".invalid" ∷ ".lan" ∷ ".local" ∷ ".localhost" ∷ ".test"
    ∷ []

-- A hostname under one of the suffixes, or the suffix itself without its dot.
unfoldable pub is_non_public : String → Bool
unfolding without_first ends_with
is_non_public hostname =
    any (λ suffix. hostname == without_first suffix || ends_with suffix hostname)
      non_public_suffixes
