-- ===== src/Reporting/Auth/Tests.antt =====
-- A service with two actors: tests of the tokens, and the theorem at one of them.
use webmcp_security_lab.Prelude.{
  ℕ, ◌≡◌, ◌↔◌, refl, true, false, Option, none, some, String, List, [], ◌∷◌, ◌==◌, string_eq,
  if◌then◌else◌,
}
use webmcp_security_lab.Prelude.Text.{units, trim, every, rest_after}
use webmcp_security_lab.Reporting.Auth.{
  reviewer, publisher, custodian, Gates, ServiceActor, ServiceConfiguration, TokenHash, invited,
  same_bytes, is_clean, is_bearer, bounded_bearer, bearer_token, is_open, token_matches,
  matches_expected, authenticate_invitation, authenticate_feed, last_holder, holder_of,
  authenticate_actor,
}
use webmcp_security_lab.Reporting.Auth.Actors.{MayAct, authenticate_actor_iff}

abbrev bytes : ℕ → List ℕ
bytes n =
    n ∷ 1 ∷ 2 ∷ 3 ∷ 4 ∷ 5 ∷ 6 ∷ 7 ∷ 8 ∷ 9 ∷ 10 ∷ 11 ∷ 12 ∷ 13 ∷ 14 ∷ 15 ∷ 16 ∷ 17 ∷ 18 ∷ 19 ∷ 20
    ∷ 21 ∷ 22 ∷ 23 ∷ 24 ∷ 25 ∷ 26 ∷ 27 ∷ 28 ∷ 29 ∷ 30 ∷ 31 ∷ []

abbrev ann_token : String
ann_token = "token-of-ann-0123456789-0123456789"

abbrev hash : TokenHash
hash = record {
  digest = λ token. bytes (if token == ann_token then 1 else 2);
  from_hex = λ text. if text == "short" then [] else bytes (if text == "ann" then 1 else 3);
}

abbrev ann : ServiceActor
ann = record { id = "reviewer.ann"; role = reviewer; token_sha256 = "ann" }

abbrev bob : ServiceActor
bob = record { id = "publisher.bob"; role = publisher; token_sha256 = "bob" }

abbrev gates : Gates
gates = record {
  intake = true;
  moderation = true;
  publication = false;
  feed = true;
  lifecycle = false;
  correction = false;
}

abbrev service : ServiceConfiguration
service = record {
  mode = invited;
  gates = gates;
  intake_token_sha256 = some "short";
  feed_token_sha256 = some "ann";
  actors = ann ∷ bob ∷ [];
}

abbrev from_ann : Option String
from_ann = some "Bearer token-of-ann-0123456789-0123456789"

is_ann : authenticate_actor hash from_ann service reviewer ≡ some ann
unfolding authenticate_actor holder_of last_holder token_matches same_bytes bearer_token
    bounded_bearer is_bearer is_clean is_open units trim every rest_after
is_ann = refl

authenticate_actor_iff_example :
    (authenticate_actor hash from_ann service reviewer ≡ some ann)
    ↔ MayAct hash from_ann service reviewer ann
authenticate_actor_iff_example = authenticate_actor_iff hash from_ann service reviewer ann

-- Her token does not make her a custodian, nor a publisher while publication is closed.
not_custodian : authenticate_actor hash from_ann service custodian ≡ none
unfolding authenticate_actor is_open
not_custodian = refl

not_publisher : authenticate_actor hash from_ann service publisher ≡ none
unfolding authenticate_actor is_open
not_publisher = refl

-- A digest that is not of 32 bytes matches nothing, and a token with a space is none.
not_invited : authenticate_invitation hash from_ann service ≡ false
unfolding authenticate_invitation matches_expected token_matches same_bytes bearer_token
    bounded_bearer is_bearer is_clean units trim every rest_after
not_invited = refl

fed : authenticate_feed hash from_ann service ≡ true
unfolding authenticate_feed matches_expected token_matches same_bytes bearer_token bounded_bearer
    is_bearer is_clean units trim every rest_after
fed = refl

spaced : bearer_token (some "Bearer token of ann 0123456789 0123456789") ≡ none
unfolding bearer_token bounded_bearer is_bearer is_clean units trim every rest_after
spaced = refl
