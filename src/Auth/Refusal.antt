-- ===== src/Auth/Refusal.antt =====
-- What the rotation of a refresh token writes, and what is left of a session whose token is refused
-- (`backend/src/modules/auth/session.service.ts`).
use mathlib.Core.Path.{subst}
use ling_dian.Prelude.{
  ℕ, String, true, false, ◌≡◌, refl, sym, ap, ◌∙◌, inl, inr, Option, none, some, List, [], ◌∷◌,
  All-member, Member, if◌then◌else◌, Bool-cases, not_both, arith, count_where,
}
use ling_dian.Prelude.Equality.{◌==◌, string_eq, nat_eq, eq_of_beq, beq_refl}
use ling_dian.Prelude.Results.{ok, ok-injective}
use ling_dian.Schema.AuthEnums.{session_status_eq}
use ling_dian.Schema.AuthRows.{User, AuthSession}
use ling_dian.Schema.Database.{Database}
use ling_dian.Db.{Prisma, update_where, only_row, All-of_member}
use ling_dian.Auth.Audit.{AuditContext, record_audit}
use ling_dian.Auth.Users.{to_authenticated_user}
use ling_dian.Auth.Sessions.{
  SessionKeys, SessionSeed, SessionTokens, is_active_session, revoked_session, revoke,
}
use ling_dian.Auth.Refreshing.{
  has_previous, is_live, refuse_old, is_rotatable, rotated, lose_race, refreshed, commit_refresh,
}
use ling_dian.Auth.Rotation.{IsSpent, IsDead}

IsDead-rows :
    (now : ℕ) (id : String) (t : List AuthSession)
    → IsDead now id (update_where (is_active_session id) (revoked_session now) t)
IsDead-rows now id [] = tt
IsDead-rows now id (r ∷ t) = elim (Bool-cases (is_active_session id r)) [
  | inl e ↦ rw e (λ _. refl, IsDead-rows now id t)
  | inr e ↦ rw e (λ q. off (beq_of q) e, IsDead-rows now id t)
]
  where
    beq_of : r.id ≡ id → (r.id == id) ≡ true
    beq_of q = rw q (beq_refl id)

    off : (r.id == id) ≡ true → is_active_session id r ≡ false → is_live now r ≡ false
    off q k = ground (arith)

-- The session that a token was rotated away from, if it is dead, is dead.
pub traced-IsDead :
    (now : ℕ) (hash id : String) (t : List AuthSession) (r : AuthSession)
    → IsSpent hash id t
    → Member r t
    → has_previous hash r ≡ true
    → is_live now r ≡ false
    → IsDead now id t
traced-IsDead now hash id t r spent m h dead =
    let same_id = All-member (λ x. has_previous hash x ≡ true → x.id ≡ id) r t spent.traces m h in
    All-of_member (λ x. x.id ≡ id → is_live now x ≡ false) t
      (λ x mx q.
        let x_r =
          All-member (λ z. z.id ≡ r.id → z ≡ r) x t (only_row (λ z. z.id) t r spent.distinct_ids m)
            mx (q ∙ sym same_id) in
        ap (is_live now) x_r ∙ dead)

module _ (db : Prisma) (keys : SessionKeys) where
  -- What a refresh that goes through has done to the table of sessions.
  pub commit_refresh-eq-ok :
      (seed : SessionSeed) (raw_token : String) (context : AuditContext) (read : AuthSession × User)
      (s t : Database) (tokens : SessionTokens)
      → commit_refresh db keys seed raw_token context read s ≡ (ok tokens, t)
      → (count_where (is_rotatable seed.now read.0.id (keys.hash raw_token)) s.auth_sessions ≡ 1)
        × (t.auth_sessions
            ≡ update_where
                (is_rotatable seed.now read.0.id (keys.hash raw_token))
                (rotated
                  (keys.hash seed.refresh_token)
                  (keys.hash raw_token)
                  read.0.refresh_token_history)
                s.auth_sessions)
        × (tokens.user.session_id ≡ read.0.id)
  unfolding commit_refresh record_audit to_authenticated_user
  commit_refresh-eq-ok seed raw_token context (r, u) s t tokens h =
      let hash = keys.hash raw_token in
      let p = is_rotatable seed.now r.id hash in
      let f = rotated (keys.hash seed.refresh_token) hash r.refresh_token_history in
      went_through (db.update_many AuthSession p f s.auth_sessions)
        (db.update_many_rows AuthSession p f s.auth_sessions) h
    where
      went_through :
          (updated : List AuthSession × ℕ)
          → updated ≡ (
            update_where
                (is_rotatable seed.now r.id (keys.hash raw_token))
                (rotated
                  (keys.hash seed.refresh_token)
                  (keys.hash raw_token)
                  r.refresh_token_history)
                s.auth_sessions,
            count_where (is_rotatable seed.now r.id (keys.hash raw_token)) s.auth_sessions,
          )
          → (let t = record s { auth_sessions = updated.0 } in
              if updated.1 == 1
              then refreshed keys seed context r u t
              else lose_race db keys seed.now (keys.hash raw_token) context r t)
            ≡ (ok tokens, t)
          → (count_where (is_rotatable seed.now r.id (keys.hash raw_token)) s.auth_sessions ≡ 1)
            × (t.auth_sessions
                ≡ update_where
                    (is_rotatable seed.now r.id (keys.hash raw_token))
                    (rotated
                      (keys.hash seed.refresh_token)
                      (keys.hash raw_token)
                      r.refresh_token_history)
                    s.auth_sessions)
            × (tokens.user.session_id ≡ r.id)
      went_through (rows, n) e k = elim (Bool-cases (n == 1)) [
        | inl q ↦
            let k' : refreshed keys seed context r u (record s { auth_sessions = rows })
                ≡ (ok tokens, t) =
              (rw q at k) in
            (
              sym (ap (λ x. x.1) e) ∙ eq_of_beq n 1 q,
              sym (ap (λ x. x.1.auth_sessions) k') ∙ ap (λ x. x.0) e,
              ap (λ x. x.user.session_id) (sym (ok-injective (ap (λ x. x.0) k'))),
            )
        | inr q ↦
            let k' : lose_race db keys seed.now (keys.hash raw_token) context r
                  (record s { auth_sessions = rows })
                ≡ (ok tokens, t) =
              (rw q at k) in
            cc
      ]

  pub revoke-IsDead :
      (now : ℕ) (context : AuditContext) (reason id : String) (s : Database)
      → IsDead now id (revoke db keys now id context reason s).auth_sessions
  unfolding revoke record_audit
  revoke-IsDead now context reason id s =
      rw
        (db.update_many_rows AuthSession (is_active_session id) (revoked_session now)
          s.auth_sessions)
        (IsDead-rows now id s.auth_sessions)

  -- The refusal of a rotated token leaves its session dead.
  pub refuse_old-IsDead :
      (now : ℕ) (context : AuditContext) (hash id : String) (s : Database)
      → IsSpent hash id s.auth_sessions
      → IsDead now id
          (refuse_old db keys now context
            (db.find_first AuthSession (has_previous hash) s.auth_sessions)
            s).1.auth_sessions
  unfolding record_audit
  refuse_old-IsDead now context hash id s spent =
      found (db.find_first AuthSession (has_previous hash) s.auth_sessions) refl
    where
      found :
          (o : Option AuthSession)
          → db.find_first AuthSession (has_previous hash) s.auth_sessions ≡ o
          → IsDead now id (refuse_old db keys now context o s).1.auth_sessions
      found none e = absurd (
          not_both (has_previous hash spent.session) spent.trace (
            All-member (λ r. has_previous hash r ≡ false) spent.session s.auth_sessions
              (db.find_first_missing AuthSession (has_previous hash) s.auth_sessions e)
              spent.stored))
      found (some r) e =
          let (h, m) = db.find_first_found AuthSession (has_previous hash) s.auth_sessions r e in
          let same_id =
            All-member (λ x. has_previous hash x ≡ true → x.id ≡ id) r s.auth_sessions spent.traces
              m h in
          elim (Bool-cases (is_live now r)) [
            | inl q ↦ rw q (
                subst
                  (λ x.
                    IsDead now x
                      (revoke db keys now r.id context "refresh-token-replay" s).auth_sessions)
                  same_id (revoke-IsDead now context "refresh-token-replay" r.id s))
            | inr q ↦ rw q (traced-IsDead now hash id s.auth_sessions r spent m h q)
          ]
