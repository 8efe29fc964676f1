-- ===== src/Reporting/Auth.antt =====
-- products/reporting-service/auth.ts: the bearer tokens of the service. A request is its
-- `authorization` header. `digest` is SHA-256, to bytes, and `from_hex` is Buffer.from of a hex text.
pub mod Actors
mod Tests
use webmcp_security_lab.Prelude.{
  ℕ, Bool, true, false, not, ◌&&◌, ◌||◌, Option, none, some, String, List, [], ◌∷◌, length, ltb,
  leb, nat_beq, if◌then◌else◌, ◌==◌, string_eq,
}
use webmcp_security_lab.Prelude.Text.{units, trim, every, rest_after}

pub data ServiceMode : Type 0 where
  disabled invited : ServiceMode

pub data ServiceRole : Type 0 where
  reviewer publisher custodian : ServiceRole

pub record Gates : Type 0 where
  pub intake : Bool
  pub moderation : Bool
  pub publication : Bool
  pub feed : Bool
  pub lifecycle : Bool
  pub correction : Bool

pub record ServiceActor : Type 0 where
  pub id : String
  pub role : ServiceRole
  pub token_sha256 : String

-- What authentication reads of a configuration.
pub record ServiceConfiguration : Type 0 where
  pub mode : ServiceMode
  pub gates : Gates
  pub intake_token_sha256 : Option String
  pub feed_token_sha256 : Option String
  pub actors : List ServiceActor

pub record TokenHash : Type 0 where
  pub digest : String → List ℕ
  pub from_hex : String → List ℕ

abbrev pub is_invited : ServiceMode → Bool
is_invited invited = true
is_invited disabled = false

abbrev pub same_actor_role : ServiceRole → ServiceRole → Bool
same_actor_role reviewer reviewer = true
same_actor_role publisher publisher = true
same_actor_role custodian custodian = true
same_actor_role _ _ = false

-- `timingSafeEqual` of bytes of one length.
unfoldable pub same_bytes : List ℕ → List ℕ → Bool
same_bytes [] [] = true
same_bytes (a ∷ xs) (b ∷ ys) = nat_beq a b && same_bytes xs ys
same_bytes _ _ = false

-- No character that `containsForbiddenTokenCharacter` finds.
unfoldable pub is_clean : String → Bool
is_clean token = every (λ c. ltb 0x20 c && not (nat_beq c 0x7f)) token

unfoldable pub is_bearer : String → Bool
is_bearer token =
    leb 32 (units token) && leb (units token) 512 && token == trim token && is_clean token

unfoldable pub bounded_bearer : Option String → Option String
bounded_bearer none = none
bounded_bearer (some token) = if is_bearer token then some token else none

unfoldable pub bearer_token : Option String → Option String
bearer_token none = none
bearer_token (some header) = bounded_bearer (rest_after "Bearer " header)

-- The gates that a role needs.
unfoldable pub is_open : Gates → ServiceRole → Bool
is_open gates reviewer = gates.moderation
is_open gates publisher = gates.publication
is_open gates custodian = gates.lifecycle || gates.correction

module _ (hash : TokenHash) where
  unfoldable pub token_matches : String → String → Bool
  token_matches token expected_sha256 =
      let expected = hash.from_hex expected_sha256 in
      nat_beq (length expected) 32 && same_bytes (hash.digest token) expected

  -- What the invitation and the feed test of their one token, which may be missing or empty.
  unfoldable pub matches_expected : Option String → Option String → Bool
  matches_expected none token = false
  matches_expected (some expected) none = false
  matches_expected (some expected) (some token) =
      not (expected == "") && token_matches token expected

  unfoldable pub authenticate_invitation : Option String → ServiceConfiguration → Bool
  authenticate_invitation header c =
      is_invited c.mode
      && c.gates.intake
      && matches_expected c.intake_token_sha256 (bearer_token header)

  unfoldable pub authenticate_feed : Option String → ServiceConfiguration → Bool
  authenticate_feed header c =
      is_invited c.mode
      && c.gates.feed
      && matches_expected c.feed_token_sha256 (bearer_token header)

  abbrev pub is_holder : String → ServiceRole → ServiceActor → Bool
  is_holder token role actor =
      token_matches token actor.token_sha256 && same_actor_role actor.role role

  -- The loop over the actors: the last one that matches.
  unfoldable pub last_holder :
      String → ServiceRole → Option ServiceActor → List ServiceActor → Option ServiceActor
  last_holder token role matched [] = matched
  last_holder token role matched (actor ∷ actors) =
      last_holder token role (if is_holder token role actor then some actor else matched) actors

  unfoldable pub holder_of : Option String → ServiceRole → List ServiceActor → Option ServiceActor
  holder_of none role actors = none
  holder_of (some token) role actors = last_holder token role none actors

  unfoldable pub authenticate_actor :
      Option String → ServiceConfiguration → ServiceRole → Option ServiceActor
  authenticate_actor header c role =
      if is_invited c.mode && is_open c.gates role
      then holder_of (bearer_token header) role c.actors
      else none
