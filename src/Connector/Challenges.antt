-- ===== src/Connector/Challenges.antt =====
-- products/connector/pairing-challenge.ts. Each call takes the readings of the clock that it makes,
-- in order, and the token that the generator returns. The URL parser and SHA-256 are parameters.
pub mod Outcomes
pub mod OneUse
pub mod RoundTrip
use webmcp_security_lab.Prelude.{
  ℕ, ◌+◌, Bool, true, false, not, ◌&&◌, ◌||◌, Option, none, some, String, [], ltb, leb,
  if◌then◌else◌, ◌==◌, string_eq,
}
use webmcp_security_lab.Prelude.Result.{Result, ok, err, ◌>>=◌, ◌>>◌, refuse, guard}
use webmcp_security_lab.Prelude.Dict.{Dict, get, set, delete, discard}
use webmcp_security_lab.Prelude.Dates.{DateText, to_iso}
use webmcp_security_lab.Prelude.Text.{
  trim, units, is_base64url, is_a_to_p, matches_class, after_prefix,
}
use webmcp_security_lab.Prelude.Url.{Url, UrlParser}

pub data ChallengeError : Type 0 where
  extension_origin_required invalid_origin invalid_page page_credentials bad_label : ChallengeError
  unreadable_url bad_ttl bad_token invalid_or_expired different_tab : ChallengeError

pub record ChallengeBinding : Type 0 where
  pub extension_origin : String
  pub origin : String
  pub page_url : String
  pub client_label : String

pub record StoredChallenge : Type 0 where
  pub binding : ChallengeBinding
  pub expires_at_ms : ℕ

pub record Manager : Type 0 where
  pub ttl_ms : ℕ
  pub challenges : Dict StoredChallenge

pub record IssuedChallenge : Type 0 where
  pub token : String
  pub expires_at : DateText

unfoldable pub new_manager : ℕ → Result ChallengeError Manager
new_manager ttl_ms = do
  refuse (ltb ttl_ms 1000 || ltb 60000 ttl_ms) bad_ttl
  ok (record { ttl_ms = ttl_ms; challenges = [] })

normalized_extension_origin : String → Result ChallengeError String
normalized_extension_origin value =
    let origin = trim value in
    if after_prefix "chrome-extension://" (matches_class is_a_to_p 32 32) origin
    then ok origin
    else err extension_origin_required

-- `['http:', 'https:'].includes(protocol)`.
abbrev pub is_http : String → Bool
is_http protocol = protocol == "http:" || protocol == "https:"

abbrev or_throw {ℓ} : {A : Type ℓ} → Option A → ChallengeError → Result ChallengeError A
or_throw none e = err e
or_throw (some a) e = ok a

-- The fields' own form, as `pruning` compares it with the clock.
abbrev pub is_expired : ℕ → StoredChallenge → Bool
is_expired now challenge = leb challenge.expires_at_ms now

module _ (parse_url : UrlParser) where
  unfoldable pub normalized_binding : ChallengeBinding → Result ChallengeError ChallengeBinding
  unfolding normalized_extension_origin
  normalized_binding input = do
    url ← or_throw (parse_url input.origin) unreadable_url
    refuse
        (not (is_http url.protocol)
          || not (url.username == "")
          || not (url.password == "")
          || not (trim input.origin == url.origin))
        invalid_origin
    page ← or_throw (parse_url input.page_url) unreadable_url
    refuse (not (is_http page.protocol) || not (page.origin == url.origin)) invalid_page
    refuse (not (page.username == "") || not (page.password == "")) page_credentials
    let label = trim input.client_label
    refuse (ltb (units label) 1 || ltb 80 (units label)) bad_label
    extension ← normalized_extension_origin input.extension_origin
    ok (record {
      extension_origin = extension;
      origin = url.origin;
      page_url = page.bare;
      client_label = label;
    })

unfoldable pub prune : ℕ → Manager → Manager
prune now m = record m { challenges = discard (is_expired now) m.challenges }

-- `/^[A-Za-z0-9_-]{32,128}$/u.test(token)`.
unfoldable pub is_token : String → Bool
is_token token = matches_class is_base64url 32 128 token

unfoldable pub same_binding : ChallengeBinding → ChallengeBinding → Bool
same_binding stored candidate =
    stored.extension_origin == candidate.extension_origin
    && stored.origin == candidate.origin
    && stored.page_url == candidate.page_url
    && stored.client_label == candidate.client_label

module _ (parse_url : UrlParser) (digest : String → String) where
  -- `now` is read by `prune`, `later` for the expiry.
  unfoldable pub issue :
      (now later : ℕ) (generated : String) (input : ChallengeBinding) (m : Manager)
      → Manager × Result ChallengeError IssuedChallenge
  unfolding prune
  issue now later generated input m =
      let m' = prune now m in
      elim (normalized_binding parse_url input) [
        | err e ↦ (m', err e)
        | ok binding ↦ if not (is_token generated) then (m', err bad_token) else (
          record m' {
            challenges =
                set (digest generated)
                  (record { binding = binding; expires_at_ms = later + m.ttl_ms }) m'.challenges;
          },
          ok (record { token = generated; expires_at = to_iso (later + m.ttl_ms) }),
        )
      ]

  -- What `consume` does once the stored challenge is taken out.
  unfoldable pub match_stored :
      ℕ → Option StoredChallenge → ChallengeBinding → Result ChallengeError ChallengeBinding
  match_stored later none input = err invalid_or_expired
  match_stored later (some stored) input = do
    refuse (is_expired later stored) invalid_or_expired
    candidate ← normalized_binding parse_url input
    guard (same_binding stored.binding candidate) different_tab
    ok candidate

  unfoldable pub consume :
      (now later : ℕ) (token : String) (input : ChallengeBinding) (m : Manager)
      → Manager × Result ChallengeError ChallengeBinding
  unfolding prune match_stored
  consume now later token input m =
      let m' = prune now m in
      if not (is_token token) then (m', err invalid_or_expired) else (
        record m' { challenges = delete (digest token) m'.challenges },
        match_stored later (get (digest token) m'.challenges) input,
      )
