-- ===== src/Connector/Bridge/Revoked.antt =====
-- bridge-coordinator.ts: what a session that is revoked leaves behind.
use webmcp_security_lab.Prelude.{
  ℕ, ◌≡◌, ◌⊎◌, refl, ap, ◌∙◌, Bool, true, false, none, some, String, List, [], ◌∷◌, arith, eq_iff,
  Bool-cases, inl, inr, ◌==◌, string_eq, if◌then◌else◌,
}
use webmcp_security_lab.Prelude.Result.{ok, err}
use webmcp_security_lab.Prelude.Dict.{
  Dict, get, delete, get-delete, get-delete_self, count, count-discard_self,
}
use webmcp_security_lab.Prelude.Distinct.{swapped}
use webmcp_security_lab.Connector.Bridge.{
  authentication_failed, revoked, InternalSession, PendingCommand, CommittingCommand, rejected,
  Settlement, Coordinator,
}
use webmcp_security_lab.Connector.Bridge.Sessions.{
  authenticate, check_token, belongs_to, closed_for, reject_all, delete_commits, end_session,
  revoke,
}

-- The promise of a command was settled so.
abbrev pub WasSettled : Settlement → List Settlement → Type 0
WasSettled s [] = ⊥
WasSettled s (r ∷ log) = (r ≡ s) ⊎ WasSettled s log

abbrev pub revocation : String → PendingCommand → Settlement
revocation id p = record { command_id = id; serial = p.serial; outcome = rejected revoked }

module _ (test : PendingCommand → Bool) where
  reject_all-keeps :
      (s : Settlement) (m : Dict PendingCommand) (log : List Settlement)
      → WasSettled s log
      → WasSettled s (reject_all test revoked m log)
  unfolding reject_all
  reject_all-keeps s [] log h = h
  reject_all-keeps s ((id, p) ∷ m) log h =
      reject_all-keeps s m (if test p then revocation id p ∷ log else log)
        (elim (Bool-cases (test p)) [ inl chosen ↦ rw chosen (inr h) | inr left ↦ rw left h ])

  get-first :
      (id j : String) (q p : PendingCommand) (m : Dict PendingCommand)
      → get id ((j, q) ∷ m) ≡ some p
      → ((j ≡ id) × (q ≡ p)) ⊎ (get id m ≡ some p)
  unfolding get
  get-first id j q p m e = ground (arith, eq_iff j id)

  reject_all-WasSettled :
      (id : String) (p : PendingCommand) (m : Dict PendingCommand) (log : List Settlement)
      → get id m ≡ some p
      → test p ≡ true
      → WasSettled (revocation id p) (reject_all test revoked m log)
  unfolding reject_all
  reject_all-WasSettled id p [] log e h = absurd (unfold get in cc)
  reject_all-WasSettled id p ((j, q) ∷ m) log e h = elim (get-first id j q p m e) [
    | inl (same, found) ↦
        reject_all-keeps (revocation id p) m (if test q then revocation j q ∷ log else log)
          (rw (found, same, h) (inl refl))
    | inr later ↦
        reject_all-WasSettled id p m (if test q then revocation j q ∷ log else log) later h
  ]

  delete_commits-none :
      (id : String) (ps : Dict PendingCommand) (m : Dict CommittingCommand)
      → get id m ≡ none
      → get id (delete_commits test ps m) ≡ none
  unfolding delete_commits
  delete_commits-none id [] m h = h
  delete_commits-none id ((j, q) ∷ ps) m h =
      delete_commits-none id ps (if test q then delete j m else m)
        (ground (arith, get-delete j id m))

  delete_commits-found :
      (id : String) (p : PendingCommand) (ps : Dict PendingCommand) (m : Dict CommittingCommand)
      → get id ps ≡ some p
      → test p ≡ true
      → get id (delete_commits test ps m) ≡ none
  unfolding delete_commits
  delete_commits-found id p [] m e h = absurd (unfold get in cc)
  delete_commits-found id p ((j, q) ∷ ps) m e h = elim (get-first id j q p ps e) [
    | inl (same, found) ↦
        delete_commits-none id ps (if test q then delete j m else m)
          (rw (found, same, h) (get-delete_self id m))
    | inr later ↦ delete_commits-found id p ps (if test q then delete j m else m) later h
  ]

-- Nothing of the session is left in the Maps, and the other sessions are as they were.
pub record IsGone (session_id other : String) (c c' : Coordinator) : Type 0 where
  pub unknown : get session_id c'.sessions ≡ none
  pub none_pending : count (belongs_to session_id) c'.pending ≡ 0
  pub none_completed : count (closed_for session_id) c'.completed ≡ 0
  pub none_refused : count (closed_for session_id) c'.refused ≡ 0
  pub other_kept : get other c'.sessions ≡ get other c.sessions

-- After a session is revoked no token authenticates it. It has no pending, accepted or refused command
-- left, and any other session is as it was. Of each command that was pending for it there is no commit
-- any more, and its promise was rejected as revoked.
pub revoke_final :
    (digest : String → String) (now : ℕ) (session_id token token' other id : String)
    (s : InternalSession) (p : PendingCommand) (c : Coordinator)
    → authenticate digest session_id token c ≡ ok s
    → (other == session_id) ≡ false
    → get id c.pending ≡ some p
    → p.session_id ≡ session_id
    → let c' = (revoke digest now session_id token c).0 in
      (authenticate digest session_id token' c' ≡ err authentication_failed)
      × IsGone session_id other c c'
      × (get id c'.committing ≡ none)
      × WasSettled (revocation id p) c'.settled
unfolding revoke end_session authenticate check_token
revoke_final digest now session_id token token' other id s p c valid apart found mine =
    let belongs : belongs_to session_id p ≡ true = (eq_iff p.session_id session_id).1 mine in
    rw (valid, revoke)
      (
        ap (check_token digest token') (get-delete_self session_id c.sessions),
        record {
          unknown = get-delete_self session_id c.sessions;
          none_pending = count-discard_self (belongs_to session_id) c.pending;
          none_completed = count-discard_self (closed_for session_id) c.completed;
          none_refused = count-discard_self (closed_for session_id) c.refused;
          other_kept =
              get-delete session_id other c.sessions
              ∙ ap (λ b. if b then none else get other c.sessions) (swapped other session_id apart);
        },
        delete_commits-found (belongs_to session_id) id p c.pending c.committing found belongs,
        reject_all-WasSettled (belongs_to session_id) id p c.pending c.settled found belongs,
      )
