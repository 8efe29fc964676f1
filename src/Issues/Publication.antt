-- ===== src/Issues/Publication.antt =====
-- products/connector/issue-publication.ts: the gate that a publication has to pass, and the public
-- record that is made of an issue. The values are typed: the tests of their own keys and words are
-- left out. `parsePublicIssueFeedRecord` is not modelled.
pub mod Gate
use Prim.Native.Char.{code}
use Prim.Native.String.{[], ◌∷◌, ◌++◌}
use webmcp_security_lab.Prelude.{
  Bool, true, false, not, Option, none, some, List, [], ◌∷◌, String, ltb, leb, nat_beq, all, length,
  ◌==◌, string_eq, ◌||◌, ◌&&◌,
}
use webmcp_security_lab.Prelude.Result.{Result, ok, err, ◌>>=◌, ◌>>◌, refuse, guard}
use webmcp_security_lab.Prelude.Text.{units, trim, is_lower_alnum, ends_in}
use webmcp_security_lab.Prelude.Url.{Url}
use webmcp_security_lab.Issues.Model.{
  IssueContext, public_web, IssueCategory, IssueStage, IssueSeverity, ModerationState, published,
  HostnameVisibility, withheld, named, HostnameConsent, not_granted, explicit, EvidenceBasis,
  not_established, human_reproduced, equivalent_evidence, AssuranceLimitation, current_limitation,
  IssueError, gate_required, withheld_with_hostname, withheld_with_consent, consent_required,
  evidence_required, unnormalized_hostname, invalid_hostname, nonpublic_hostname, not_publishable,
  Runtime, address, has_char, is_non_public,
}

pub record PublicationGate : Type 0 where
  pub evidence_basis : EvidenceBasis
  pub hostname : Option String
  pub hostname_consent : HostnameConsent
  pub hostname_visibility : HostnameVisibility

pub record ModeratedCandidate : Type 0 where
  pub category : IssueCategory
  pub context : IssueContext
  pub moderation_state : ModerationState
  pub publication : Option PublicationGate
  pub severity : IssueSeverity
  pub stage : IssueStage

-- A record of the public feed; its state is always `published`.
pub record PublicRecord : Type 0 where
  pub category : IssueCategory
  pub severity : IssueSeverity
  pub stage : IssueStage
  pub hostname_visibility : HostnameVisibility
  pub evidence_basis : EvidenceBasis
  pub hostname : Option String
  pub assurance_limitation : AssuranceLimitation

abbrev pub is_granted : HostnameConsent → Bool
is_granted not_granted = false
is_granted explicit = true

abbrev pub has_evidence : EvidenceBasis → Bool
has_evidence not_established = false
has_evidence human_reproduced = true
has_evidence equivalent_evidence = true

abbrev pub is_present {ℓ} : {A : Type ℓ} → Option A → Bool
is_present none = false
is_present (some a) = true

-- `[a-z0-9](?:[a-z0-9-]{0,61}[a-z0-9])?`.
unfoldable pub is_label : String → Bool
is_label [] = false
is_label (c ∷ []) = is_lower_alnum (code c)
is_label (c ∷ d ∷ s) =
    is_lower_alnum (code c)
    && leb (units (d ∷ s)) 62
    && ends_in is_lower_alnum (λ k. is_lower_alnum k || nat_beq k b'-') (d ∷ s)

-- The parts of a text between its dots.
unfoldable pub labels : String → List String
labels [] = [] ∷ []
labels (c ∷ s) = push_char (nat_beq (code c) b'.') (labels s)
  where
    push_char : Bool → List String → List String
    push_char true rest = [] ∷ rest
    push_char false [] = (c ∷ []) ∷ []
    push_char false (label ∷ rest) = (c ∷ label) ∷ rest

-- `^(?:label\.)+label$`.
unfoldable pub is_dns_name : String → Bool
unfolding is_label labels
is_dns_name hostname = leb 2 (length (labels hostname)) && all is_label (labels hostname)

unfoldable pub projection : ModeratedCandidate → PublicationGate → PublicRecord
projection moderated publication = record {
  category = moderated.category;
  severity = moderated.severity;
  stage = moderated.stage;
  hostname_visibility = publication.hostname_visibility;
  evidence_basis = publication.evidence_basis;
  hostname = publication.hostname;
  assurance_limitation = current_limitation;
}

abbrev pub is_public_web : IssueContext → Bool
is_public_web public_web = true
is_public_web _ = false

-- `if (projection) records.push(projection)`.
abbrev pub keep_present {ℓ} : {A : Type ℓ} → Option A → List A → List A
keep_present none rest = rest
keep_present (some a) rest = a ∷ rest

module _ (runtime : Runtime) where
  unfoldable pub read_host : String → Result IssueError Url
  read_host value = elim (runtime.parse_url ("https://" ++ value)) [
    | none ↦ err invalid_hostname
    | some url ↦ ok url
  ]

  -- The tests of the parsed URL.
  unfoldable pub check_hostname : String → Url → Result IssueError String
  check_hostname value parsed = do
    let hostname = runtime.to_lower parsed.hostname
    refuse
        (not (hostname == value)
          || not (parsed.origin == "https://" ++ value)
          || runtime.is_ip (address hostname)
          || not (has_char b'.' hostname)
          || not (is_dns_name hostname)
          || is_non_public hostname)
        nonpublic_hostname
    ok hostname

  unfoldable pub public_hostname : Option String → Result IssueError String
  public_hostname none = err unnormalized_hostname
  public_hostname (some value) = do
    refuse
        (ltb (units value) 3
          || ltb 253 (units value)
          || not (value == trim value)
          || not (value == runtime.to_lower value))
        unnormalized_hostname
    parsed ← read_host value
    check_hostname value parsed

  -- The gate by the visibility that it asks for.
  unfoldable pub gate_for : HostnameVisibility → PublicationGate → Result IssueError PublicationGate
  gate_for withheld gate = do
    refuse (is_present gate.hostname) withheld_with_hostname
    refuse (is_granted gate.hostname_consent) withheld_with_consent
    ok (record gate { hostname = none })
  gate_for named gate = do
    guard (is_granted gate.hostname_consent) consent_required
    guard (has_evidence gate.evidence_basis) evidence_required
    hostname ← public_hostname gate.hostname
    ok (record gate { hostname = some hostname })

  -- `publicationGate`, and `parseIssuePublicationGate`, which freezes its value.
  unfoldable pub publication_gate : Option PublicationGate → Result IssueError PublicationGate
  publication_gate none = err gate_required
  publication_gate (some gate) = gate_for gate.hostname_visibility gate

  -- The gate of a candidate that has one.
  unfoldable pub optional_gate : Option PublicationGate → Result IssueError (Option PublicationGate)
  optional_gate none = ok none
  optional_gate (some given) = do gate ← publication_gate (some given); ok (some gate)

  unfoldable pub candidate : ModeratedCandidate → Result IssueError ModeratedCandidate
  candidate value = do
    gate ← optional_gate value.publication
    ok (record value { publication = gate })

  -- What a candidate comes to whose state is published.
  unfoldable pub project_published : ModeratedCandidate → Result IssueError PublicRecord
  project_published moderated = do
    guard (is_public_web moderated.context) not_publishable
    publication ← publication_gate moderated.publication
    ok (projection moderated publication)

  -- What a candidate comes to, by its state; `none` is `undefined`.
  unfoldable pub project_state :
      ModerationState → ModeratedCandidate → Result IssueError (Option PublicRecord)
  project_state published moderated = do
    projected ← project_published moderated
    ok (some projected)
  project_state _ moderated = ok none

  unfoldable pub project_public_record :
      ModeratedCandidate → Result IssueError (Option PublicRecord)
  project_public_record given = do
    moderated ← candidate given
    project_state moderated.moderation_state moderated

  unfoldable pub project_public_feed :
      List ModeratedCandidate → Result IssueError (List PublicRecord)
  project_public_feed [] = ok []
  project_public_feed (given ∷ inputs) = do
    projected ← project_public_record given
    rest ← project_public_feed inputs
    ok (keep_present projected rest)
