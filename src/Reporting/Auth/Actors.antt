-- ===== src/Reporting/Auth/Actors.antt =====
-- auth.ts: who is authenticated as an actor.
use webmcp_security_lab.Prelude.{
  ◌≡◌, ◌↔◌, ◌⊎◌, refl, ap, subst, ◌∙◌, Bool, true, false, ◌&&◌, Option, none, some, String, List,
  [], ◌∷◌, ◌++◌, inl, inr, All, if◌then◌else◌,
}
use webmcp_security_lab.Reporting.Auth.{
  ServiceRole, ServiceActor, ServiceConfiguration, TokenHash, is_invited, bearer_token, is_open,
  is_holder, last_holder, holder_of, authenticate_actor,
}

module _ (hash : TokenHash) where
  -- The last of the actors that holds a token for a role.
  pub record IsLastHolder (token : String) (role : ServiceRole) (actors : List ServiceActor)
      (a : ServiceActor) : Type 0 where
    pub before : List ServiceActor
    pub after : List ServiceActor
    pub placed : actors ≡ before ++ a ∷ after
    pub holds : is_holder hash token role a ≡ true
    pub last : All (λ b. is_holder hash token role b ≡ false) after

  last_holder_cases :
      (token : String) (role : ServiceRole) (matched : Option ServiceActor)
      (actors : List ServiceActor) (a : ServiceActor)
      → last_holder hash token role matched actors ≡ some a
      → ((matched ≡ some a) × All (λ b. is_holder hash token role b ≡ false) actors)
        ⊎ IsLastHolder token role actors a
  unfolding last_holder
  last_holder_cases token role matched [] a h = inl (h, tt)
  last_holder_cases token role matched (b ∷ actors) a h =
      split (λ m. last_holder_cases token role m actors a) (is_holder hash token role b) refl h
    where
      later : IsLastHolder token role actors a → IsLastHolder token role (b ∷ actors) a
      later k = record {
        before = b ∷ k.before;
        after = k.after;
        placed = ap (λ xs. b ∷ xs) k.placed;
        holds = k.holds;
        last = k.last;
      }

      split :
          ((m : Option ServiceActor)
            → last_holder hash token role m actors ≡ some a
            → ((m ≡ some a) × All (λ b. is_holder hash token role b ≡ false) actors)
              ⊎ IsLastHolder token role actors a)
          → (test : Bool) → is_holder hash token role b ≡ test
          → last_holder hash token role (if test then some b else matched) actors ≡ some a
          → ((matched ≡ some a) × All (λ b. is_holder hash token role b ≡ false) (b ∷ actors))
            ⊎ IsLastHolder token role (b ∷ actors) a
      split cases false e k = elim (cases matched k) [
        | inl (same, none_later) ↦ inl (same, (e, none_later))
        | inr found ↦ inr (later found)
      ]
      split cases true e k = elim (cases (some b) k) [
        | inr found ↦ inr (later found)
        | inl (same, none_later) ↦
            let here : b ≡ a = cc in
            inr (record {
              before = [];
              after = actors;
              placed = ap (λ x. x ∷ actors) here;
              holds = subst (λ x. is_holder hash token role x ≡ true) here e;
              last = none_later;
            })
      ]

  last_holder-none :
      (token : String) (role : ServiceRole) (matched : Option ServiceActor)
      (actors : List ServiceActor)
      → All (λ b. is_holder hash token role b ≡ false) actors
      → last_holder hash token role matched actors ≡ matched
  unfolding last_holder
  last_holder-none token role matched [] h = refl
  last_holder-none token role matched (b ∷ actors) (e, h) =
      rw e (last_holder-none token role matched actors h)

  last_holder-last :
      (token : String) (role : ServiceRole) (matched : Option ServiceActor)
      (before after : List ServiceActor) (a : ServiceActor)
      → is_holder hash token role a ≡ true
      → All (λ b. is_holder hash token role b ≡ false) after
      → last_holder hash token role matched (before ++ a ∷ after) ≡ some a
  unfolding last_holder
  last_holder-last token role matched [] after a e h =
      ap (λ test. last_holder hash token role (if test then some a else matched) after) e
      ∙ last_holder-none token role (some a) after h
  last_holder-last token role matched (b ∷ before) after a e h =
      last_holder-last token role (if is_holder hash token role b then some b else matched) before
        after a e h

  -- Who may act in a role: the service is by invitation, the gate of the role is open, and the request
  -- has a token, of which it is the last holder in that role.
  pub record MayAct (header : Option String) (c : ServiceConfiguration) (role : ServiceRole)
      (a : ServiceActor) : Type 0 where
    pub by_invitation : is_invited c.mode ≡ true
    pub open_gate : is_open c.gates role ≡ true
    pub token : String
    pub sent : bearer_token header ≡ some token
    pub holder : IsLastHolder token role c.actors a

  holder_of_iff :
      (header : Option String) (role : ServiceRole) (c : ServiceConfiguration) (a : ServiceActor)
      (found : Option String)
      → bearer_token header ≡ found
      → is_invited c.mode ≡ true
      → is_open c.gates role ≡ true
      → holder_of hash found role c.actors ≡ some a
      → MayAct header c role a
  unfolding holder_of
  holder_of_iff header role c a none sent by_invitation open_gate h = absurd (cc)
  holder_of_iff header role c a (some token) sent by_invitation open_gate h =
      elim (last_holder_cases token role none c.actors a h) [
        | inl (nobody, rest) ↦ absurd (cc)
        | inr holder ↦ record {
          by_invitation = by_invitation;
          open_gate = open_gate;
          token = token;
          sent = sent;
          holder = holder;
        }
      ]

  -- A request is authenticated as an actor in a role exactly when the service is by invitation, the
  -- gate of the role is open, and the request has a token of which the actor is the last holder in
  -- that role, in the order of the configuration.
  pub authenticate_actor_iff :
      (header : Option String) (c : ServiceConfiguration) (role : ServiceRole) (a : ServiceActor)
      → (authenticate_actor hash header c role ≡ some a) ↔ MayAct header c role a
  unfolding authenticate_actor holder_of
  authenticate_actor_iff header c role a = (
    opened (is_invited c.mode) (is_open c.gates role) refl refl,
    (λ may.
        let k = may.holder in
        rw (may.by_invitation, may.open_gate, may.sent, k.placed)
          (last_holder-last may.token role none k.before k.after a k.holds k.last)),
  )
    where
      opened :
          (mode gate : Bool)
          → is_invited c.mode ≡ mode
          → is_open c.gates role ≡ gate
          → (if mode && gate then holder_of hash (bearer_token header) role c.actors else none)
            ≡ some a
          → MayAct header c role a
      opened true true m g h = holder_of_iff header role c a (bearer_token header) refl m g h
      opened true false m g h = absurd (cc)
      opened false gate m g h = absurd (cc)
