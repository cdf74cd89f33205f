-- ===== src/Auth/Replay.antt =====
-- A refresh token works once (`backend/src/modules/auth/session.service.ts`).
use mathlib.Core.Path.{subst}
use ling_dian.Prelude.{
  String, true, false, ◌≡◌, ◌≢◌, refl, sym, ap, ◌∙◌, Option, none, some, All, All-member, Member,
  not_both,
}
use ling_dian.Prelude.Equality.{string_eq, nat_eq, eq_of_beq}
use ling_dian.Prelude.Results.{Exception, Result, ok, throw}
use ling_dian.Prelude.Actions.{continue, continue-eq-ok}
use ling_dian.Schema.AuthEnums.{session_status_eq}
use ling_dian.Schema.AuthRows.{User, AuthSession}
use ling_dian.Schema.Database.{Database}
use ling_dian.Db.{Prisma, UniqueBy, only_row, count_where-Member}
use ling_dian.Auth.Audit.{AuditContext}
use ling_dian.Auth.Sessions.{SessionKeys, SessionSeed, SessionTokens}
use ling_dian.Auth.Refreshing.{
  has_current, has_previous, is_live, refuse_old, begin_with, begin_refresh, is_rotatable,
  commit_refresh, refresh,
}
use ling_dian.Auth.Refusal.{commit_refresh-eq-ok, refuse_old-IsDead}
use ling_dian.Auth.Rotation.{
  IsSpent, IsDead, refuse_old-throws, begin_refresh-eq-ok, rotatable_facts, rotation-IsSpent,
}

module _ (db : Prisma) (keys : SessionKeys) where
  -- After a rotation the token is spent: by the session that the refresh read, if hashes and ids are
  -- unique and the token was not rotated before.
  pub commit_refresh-IsSpent :
      (seed : SessionSeed) (raw_token : String) (context : AuditContext) (read : AuthSession × User)
      (s t : Database) (tokens : SessionTokens)
      → commit_refresh db keys seed raw_token context read s ≡ (ok tokens, t)
      → has_current (keys.hash raw_token) read.0 ≡ true
      → Member read.0 s.auth_sessions
      → UniqueBy (λ r. r.refresh_token_hash) s.auth_sessions
      → UniqueBy (λ r. r.id) s.auth_sessions
      → All (λ r. has_previous (keys.hash raw_token) r ≡ false) s.auth_sessions
      → keys.hash seed.refresh_token ≢ keys.hash raw_token
      → IsSpent (keys.hash raw_token) tokens.user.session_id t.auth_sessions
  commit_refresh-IsSpent seed raw_token context read s t tokens h current m hashes ids clean
        differ =
      let hash = keys.hash raw_token in
      let r = read.0 in
      let (one_row, rows, same_id) =
        commit_refresh-eq-ok db keys seed raw_token context read s t tokens h in
      let (x, px, mx) =
        count_where-Member (is_rotatable seed.now r.id hash) s.auth_sessions 0 one_row in
      let (_, same_hash, _) = rotatable_facts seed.now r.id hash x px in
      let x_r =
        All-member (λ z. z.refresh_token_hash ≡ r.refresh_token_hash → z ≡ r) x s.auth_sessions
          (only_row (λ z. z.refresh_token_hash) s.auth_sessions r hashes m) mx
          (same_hash ∙ sym (eq_of_beq r.refresh_token_hash hash current)) in
      let spent =
        rotation-IsSpent seed.now hash (keys.hash seed.refresh_token) r.refresh_token_history r
          s.auth_sessions hashes ids clean m (ap (is_rotatable seed.now r.id hash) (sym x_r) ∙ px)
          differ in
      subst (λ i. IsSpent hash i t.auth_sessions) (sym same_id)
        (subst (IsSpent hash r.id) (sym rows) spent)

  -- A refresh by a spent token is refused, and no live session is left where it was rotated.
  refresh-spent :
      (seed : SessionSeed) (raw_token id : String) (context : AuditContext) (s : Database)
      → IsSpent (keys.hash raw_token) id s.auth_sessions
      → ((e : Exception) × ((refresh db keys seed raw_token context s).0 ≡ throw e))
        × IsDead seed.now id (refresh db keys seed raw_token context s).1.auth_sessions
  unfolding refresh begin_refresh
  refresh-spent seed raw_token id context s spent =
      begun (db.find_first AuthSession (has_current (keys.hash raw_token)) s.auth_sessions) refl
    where
      refused :
          (found : Result (AuthSession × User) × Database)
          → ((read : AuthSession × User) (t : Database) → found ≡ (ok read, t) → ⊥)
          → IsDead seed.now id found.1.auth_sessions
          → ((e : Exception) × ((continue found (commit_refresh db keys seed raw_token context)).0
                ≡ throw e))
            × IsDead seed.now id
                (continue found (commit_refresh db keys seed raw_token context)).1.auth_sessions
      refused (ok read, t) h dead = absurd (h read t refl)
      refused (throw e, t) h dead = ((e, refl), dead)

      begun :
          (o : Option AuthSession)
          → db.find_first AuthSession (has_current (keys.hash raw_token)) s.auth_sessions ≡ o
          → (let done =
                continue
                  (begin_with db keys seed.now (keys.hash raw_token) context o s)
                  (commit_refresh db keys seed raw_token context) in
              ((e : Exception) × (done.0 ≡ throw e)) × IsDead seed.now id done.1.auth_sessions)
      begun none e =
          let old =
            db.find_first AuthSession (has_previous (keys.hash raw_token)) s.auth_sessions in
          refused (refuse_old db keys seed.now context old s)
            (λ read t. refuse_old-throws db keys seed.now context old s t read)
            (refuse_old-IsDead db keys seed.now context (keys.hash raw_token) id s spent)
      begun (some r) e =
          let (h, m) =
            db.find_first_found AuthSession (has_current (keys.hash raw_token)) s.auth_sessions r
              e in
          absurd (
            not_both (has_current (keys.hash raw_token) r) h (
              All-member (λ x. has_current (keys.hash raw_token) x ≡ false) r s.auth_sessions
                spent.not_current m))

  -- A refresh token works once. Once a refresh by it went through, another refresh by it throws,
  -- whatever its clock and random values, and leaves no live session with the id of the tokens that
  -- the first one gave out. The hashes of tokens and the ids of sessions are unique, no session has
  -- the token among those it was rotated away from, and the new token has another hash.
  pub refresh-refuses_replay :
      (seed later : SessionSeed) (raw_token : String) (context context' : AuditContext)
      (s t : Database) (tokens : SessionTokens)
      → refresh db keys seed raw_token context s ≡ (ok tokens, t)
      → UniqueBy (λ r. r.refresh_token_hash) s.auth_sessions
      → UniqueBy (λ r. r.id) s.auth_sessions
      → All (λ r. has_previous (keys.hash raw_token) r ≡ false) s.auth_sessions
      → keys.hash seed.refresh_token ≢ keys.hash raw_token
      → ((e : Exception) × ((refresh db keys later raw_token context' t).0 ≡ throw e))
        × All
            (λ r. r.id ≡ tokens.user.session_id → is_live later.now r ≡ false)
            (refresh db keys later raw_token context' t).1.auth_sessions
  unfolding refresh
  refresh-refuses_replay seed later raw_token context context' s t tokens h hashes ids clean
        differ =
      let (read, s', begun, committed) =
        continue-eq-ok (begin_refresh db keys seed.now raw_token context s)
          (commit_refresh db keys seed raw_token context) h in
      let (current, m, live, same) =
        begin_refresh-eq-ok db keys seed.now context raw_token s s' read begun in
      refresh-spent later raw_token tokens.user.session_id context' t (
        commit_refresh-IsSpent seed raw_token context read s t tokens
          (subst (λ x. commit_refresh db keys seed raw_token context read x ≡ (ok tokens, t))
            (sym same) committed)
          current m hashes ids clean differ)
