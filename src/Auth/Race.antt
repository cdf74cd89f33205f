-- ===== src/Auth/Race.antt =====
-- Two refreshes by one token at once: both have read before either has rotated
-- (`backend/src/modules/auth/session.service.ts`).
use mathlib.Core.Path.{subst}
use ling_dian.Prelude.{
  ℕ, String, Bool, true, false, ◌≡◌, ◌≢◌, refl, inl, inr, Option, none, some, List, [], ◌∷◌, All,
  All-member, Bool-cases, not_both, arith,
}
use ling_dian.Prelude.Equality.{◌==◌, string_eq, nat_eq}
use ling_dian.Prelude.Results.{ok, throw}
use ling_dian.Schema.AuthEnums.{SessionStatus, session_status_eq}
use ling_dian.Schema.AuthRows.{User, AuthSession}
use ling_dian.Schema.Database.{Database}
use ling_dian.Db.{Prisma, update_where, UniqueBy, All-of_member, count_where_none}
use ling_dian.Auth.Audit.{AuditContext, record_audit}
use ling_dian.Auth.Sessions.{SessionKeys, SessionSeed, SessionTokens, revoke}
use ling_dian.Auth.Refreshing.{
  has_current, has_previous, is_live, is_rotatable, rotated, replay_detected, revoke_replayed,
  begin_refresh, commit_refresh,
}
use ling_dian.Auth.Rotation.{IsSpent, IsDead, begin_refresh-eq-ok}
use ling_dian.Auth.Refusal.{revoke-IsDead, traced-IsDead}
use ling_dian.Auth.Replay.{commit_refresh-IsSpent}

-- No row to update: the table stays as it is.
update_where_none :
    {Row : Type 0} (p : Row → Bool) (f : Row → Row) (t : List Row)
    → All (λ r. p r ≡ false) t
    → update_where p f t ≡ t
update_where_none p f [] h = refl
update_where_none p f (r ∷ t) h = rw (h.0, update_where_none p f t h.1) refl

module _ (db : Prisma) (keys : SessionKeys) where
  revoke_replayed-IsDead :
      (now : ℕ) (context : AuditContext) (hash id : String) (s : Database)
      → IsSpent hash id s.auth_sessions
      → IsDead now id
          (revoke_replayed db keys now context
            (db.find_first AuthSession (has_previous hash) s.auth_sessions)
            s).auth_sessions
  revoke_replayed-IsDead now context hash id s spent =
      found (db.find_first AuthSession (has_previous hash) s.auth_sessions) refl
    where
      found :
          (o : Option AuthSession)
          → db.find_first AuthSession (has_previous hash) s.auth_sessions ≡ o
          → IsDead now id (revoke_replayed db keys now context o s).auth_sessions
      found none e = absurd (
          not_both (has_previous hash spent.session) spent.trace (
            All-member (λ r. has_previous hash r ≡ false) spent.session s.auth_sessions
              (db.find_first_missing AuthSession (has_previous hash) s.auth_sessions e)
              spent.stored))
      found (some r) e =
          let (h, m) = db.find_first_found AuthSession (has_previous hash) s.auth_sessions r e in
          let same_id =
            All-member (λ x. has_previous hash x ≡ true → x.id ≡ id) r s.auth_sessions spent.traces
              m h in
          elim (Bool-cases (r.status == SessionStatus.active)) [
            | inl q ↦ rw q (
                subst
                  (λ x.
                    IsDead now x
                      (revoke db keys now r.id context "refresh-token-replay" s).auth_sessions)
                  same_id (revoke-IsDead db keys now context "refresh-token-replay" r.id s))
            | inr q ↦ rw q (traced-IsDead now hash id s.auth_sessions r spent m h (rw q refl))
          ]

  -- The rotation of a spent token.
  commit_refresh-spent :
      (seed : SessionSeed) (raw_token id : String) (context : AuditContext)
      (read : AuthSession × User) (s : Database)
      → IsSpent (keys.hash raw_token) id s.auth_sessions
      → ((commit_refresh db keys seed raw_token context read s).0 ≡ throw replay_detected)
        × IsDead seed.now id (commit_refresh db keys seed raw_token context read s).1.auth_sessions
  unfolding commit_refresh record_audit
  commit_refresh-spent seed raw_token id context (r, u) s spent =
      let hash = keys.hash raw_token in
      let p = is_rotatable seed.now r.id hash in
      let f = rotated (keys.hash seed.refresh_token) hash r.refresh_token_history in
      let out =
        All-of_member (λ x. p x ≡ false) s.auth_sessions
          (λ x m. not_rotatable x (All-member _ x _ spent.not_current m)) in
      rw (db.update_many_rows AuthSession p f s.auth_sessions) (
        rw (update_where_none p f s.auth_sessions out) (
          rw (count_where_none p s.auth_sessions out)
            (refl, revoke_replayed-IsDead seed.now context hash id s spent)))
    where
      not_rotatable :
          (x : AuthSession)
          → has_current (keys.hash raw_token) x ≡ false
          → is_rotatable seed.now r.id (keys.hash raw_token) x ≡ false
      not_rotatable x h = ground arith

  -- Of two refreshes by one token at once, one rotates it at most: after a refresh read the token's
  -- session and rotated the token, the rotation of any other refresh by the token, whatever that had
  -- read before, throws, and leaves no live session with the id of the tokens that were given out.
  -- The hashes of tokens and the ids of sessions are unique, no session has the token among those it
  -- was rotated away from, and the new token has another hash.
  pub commit_refresh-rotates_once :
      (seed later : SessionSeed) (raw_token : String) (context context' : AuditContext)
      (read read' : AuthSession × User) (s t : Database) (tokens : SessionTokens)
      → begin_refresh db keys seed.now raw_token context s ≡ (ok read, s)
      → commit_refresh db keys seed raw_token context read s ≡ (ok tokens, t)
      → UniqueBy (λ r. r.refresh_token_hash) s.auth_sessions
      → UniqueBy (λ r. r.id) s.auth_sessions
      → All (λ r. has_previous (keys.hash raw_token) r ≡ false) s.auth_sessions
      → keys.hash seed.refresh_token ≢ keys.hash raw_token
      → ((commit_refresh db keys later raw_token context' read' t).0 ≡ throw replay_detected)
        × All
            (λ r. r.id ≡ tokens.user.session_id → is_live later.now r ≡ false)
            (commit_refresh db keys later raw_token context' read' t).1.auth_sessions
  commit_refresh-rotates_once seed later raw_token context context' read read' s t tokens begun h
        hashes ids clean differ =
      let (current, m, _, _) =
        begin_refresh-eq-ok db keys seed.now context raw_token s s read begun in
      commit_refresh-spent later raw_token tokens.user.session_id context' read' t (
        commit_refresh-IsSpent db keys seed raw_token context read s t tokens h current m hashes ids
          clean differ)
