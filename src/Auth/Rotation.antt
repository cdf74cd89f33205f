-- ===== src/Auth/Rotation.antt =====
-- The two parts of a refresh, where they go through: what was read, and what the rotation of the
-- token leaves in the table of sessions (`backend/src/modules/auth/session.service.ts`).
use mathlib.Core.Path.{subst}
use ling_dian.Prelude.{
  ℕ, String, true, false, ◌≡◌, ◌≢◌, refl, sym, ap, ◌∙◌, inl, inr, Option, none, some, List, All,
  All-member, Member, if◌then◌else◌, Bool-cases, not_both, arith,
}
use ling_dian.Prelude.Equality.{◌==◌, string_eq, option_eq, nat_eq, eq_of_beq, beq_refl, beq_of_ne}
use ling_dian.Prelude.Results.{Result, ok}
use ling_dian.Schema.AuthEnums.{session_status_eq, UserStatus, user_status_eq}
use ling_dian.Schema.AuthRows.{User, AuthSession}
use ling_dian.Schema.Database.{Database}
use ling_dian.Db.{
  Prisma, update_where, UniqueBy, update_where-UniqueBy, only_row, Member-update_where,
  update_where-Member, All-of_member,
}
use ling_dian.Auth.Audit.{AuditContext}
use ling_dian.Auth.Sessions.{SessionKeys}
use ling_dian.Auth.Refreshing.{
  has_current, has_previous, is_live, refuse_old, with_user, accept_current, begin_with,
  begin_refresh, is_rotatable, rotated,
}

-- A rotated token: it is current in no session, and it was current in one session only.
pub record IsSpent (hash id : String) (t : List AuthSession) : Type 0 where
  pub not_current : All (λ r. has_current hash r ≡ false) t
  pub traces : All (λ r. has_previous hash r ≡ true → r.id ≡ id) t
  pub session : AuthSession
  pub stored : Member session t
  pub trace : has_previous hash session ≡ true
  pub distinct_ids : UniqueBy (λ r. r.id) t

abbrev pub IsDead : ℕ → String → List AuthSession → Type 0
IsDead now id t = All (λ r. r.id ≡ id → is_live now r ≡ false) t

module _ (db : Prisma) (keys : SessionKeys) (now : ℕ) (context : AuditContext) where
  accept_current-eq-ok :
      (r : AuthSession) (s t : Database) (read : AuthSession × User)
      → accept_current db keys now context r s ≡ (ok read, t)
      → (read.0 ≡ r) × (is_live now r ≡ true) × (s ≡ t)
  accept_current-eq-ok r s t read h = elim (Bool-cases (is_live now r)) [
    | inl e ↦
        let (same, kept) =
          user_checked (db.find_first User (λ u. u.id == r.user_id) s.users) (rw e at h) in
        (same, e, kept)
    | inr e ↦ let k = (rw e at h) in cc
  ]
    where
      user_checked :
          (u : Option User)
          → with_user keys now context r u s ≡ (ok read, t)
          → (read.0 ≡ r) × (s ≡ t)
      user_checked none k = cc
      user_checked (some u) k = elim (Bool-cases (u.status == UserStatus.active)) [
        | inl e ↦
            let q : Path (Result (AuthSession × User) × Database) (ok (r, u), s) (ok read, t) =
              (rw e at k) in
            (cc, cc)
        | inr e ↦ let q = (rw e at k) in cc
      ]

  pub refuse_old-throws :
      (found : Option AuthSession) (s t : Database) (read : AuthSession × User)
      → refuse_old db keys now context found s ≡ (ok read, t)
      → ⊥
  refuse_old-throws none s t read h = cc
  refuse_old-throws (some r) s t read h = elim (Bool-cases (is_live now r)) [
    | inl e ↦ let q = (rw e at h) in cc
    | inr e ↦ let q = (rw e at h) in cc
  ]

  pub begin_refresh-eq-ok :
      (raw_token : String) (s t : Database) (read : AuthSession × User)
      → begin_refresh db keys now raw_token context s ≡ (ok read, t)
      → (has_current (keys.hash raw_token) read.0 ≡ true)
        × Member read.0 s.auth_sessions
        × (is_live now read.0 ≡ true)
        × (s ≡ t)
  unfolding begin_refresh
  begin_refresh-eq-ok raw_token s t read h =
      found (db.find_first AuthSession (has_current (keys.hash raw_token)) s.auth_sessions) refl h
    where
      found :
          (o : Option AuthSession)
          → db.find_first AuthSession (has_current (keys.hash raw_token)) s.auth_sessions ≡ o
          → begin_with db keys now (keys.hash raw_token) context o s ≡ (ok read, t)
          → (has_current (keys.hash raw_token) read.0 ≡ true)
            × Member read.0 s.auth_sessions
            × (is_live now read.0 ≡ true)
            × (s ≡ t)
      found none e k = absurd (
          refuse_old-throws
            (db.find_first AuthSession (has_previous (keys.hash raw_token)) s.auth_sessions) s t
            read k)
      found (some r) e k =
          let (same, live, kept) = accept_current-eq-ok r s t read k in
          let (current, m) =
            db.find_first_found AuthSession (has_current (keys.hash raw_token)) s.auth_sessions r
              e in
          subst
            (λ x.
              (has_current (keys.hash raw_token) x ≡ true)
              × Member x s.auth_sessions
              × (is_live now x ≡ true)
              × (s ≡ t))
            (sym same) (current, m, live, kept)

pub rotatable_facts :
    (now : ℕ) (id hash : String) (x : AuthSession)
    → is_rotatable now id hash x ≡ true
    → (x.id ≡ id) × (x.refresh_token_hash ≡ hash) × (is_live now x ≡ true)
rotatable_facts now id hash x h = (
  eq_of_beq x.id id (ground arith),
  eq_of_beq x.refresh_token_hash hash (ground arith),
  ground arith,
)

-- The rotation of a token that one live session has, as the rows see it.
pub rotation-IsSpent :
    (now : ℕ) (hash fresh : String) (history : List String) (r : AuthSession) (t : List AuthSession)
    → UniqueBy (λ x. x.refresh_token_hash) t
    → UniqueBy (λ x. x.id) t
    → All (λ x. has_previous hash x ≡ false) t
    → Member r t
    → is_rotatable now r.id hash r ≡ true
    → fresh ≢ hash
    → IsSpent hash r.id (update_where (is_rotatable now r.id hash) (rotated fresh hash history) t)
rotation-IsSpent now hash fresh history r t unique distinct_ids clean m rotates differ = record {
  not_current = All-of_member (λ x. has_current hash x ≡ false) after not_current;
  traces = All-of_member (λ x. has_previous hash x ≡ true → x.id ≡ r.id) after traces;
  session = turned r;
  stored = Member-update_where (is_rotatable now r.id hash) turned r t rotates m;
  trace = rw (beq_refl hash) refl;
  distinct_ids =
      update_where-UniqueBy (λ x. x.id) (is_rotatable now r.id hash) turned (λ _. refl) t
        distinct_ids;
}
  where
    turned : AuthSession → AuthSession
    turned = rotated fresh hash history

    picked :
        {y : AuthSession} (x : AuthSession)
        → is_rotatable now r.id hash x ≡ true
        → y ≡ (if is_rotatable now r.id hash x then turned x else x)
        → y ≡ turned x
    picked x q e = rw q at e

    left_out :
        {y : AuthSession} (x : AuthSession)
        → is_rotatable now r.id hash x ≡ false
        → y ≡ (if is_rotatable now r.id hash x then turned x else x)
        → y ≡ x
    left_out x q e = rw q at e

    after : List AuthSession
    after = update_where (is_rotatable now r.id hash) turned t

    other :
        (x : AuthSession)
        → Member x t
        → is_rotatable now r.id hash x ≡ false
        → x.refresh_token_hash ≢ hash
    other x mx q same =
        let (_, current, _) = rotatable_facts now r.id hash r rotates in
        let x_r =
          All-member (λ z. z.refresh_token_hash ≡ r.refresh_token_hash → z ≡ r) x t
            (only_row (λ z. z.refresh_token_hash) t r unique m) mx (same ∙ sym current) in
        not_both (is_rotatable now r.id hash r) rotates
          (ap (is_rotatable now r.id hash) (sym x_r) ∙ q)

    not_current : (y : AuthSession) → Member y after → has_current hash y ≡ false
    not_current y my =
        let (x, mx, e) = update_where-Member (is_rotatable now r.id hash) turned y t my in
        elim (Bool-cases (is_rotatable now r.id hash x)) [
          | inl q ↦ rw (picked x q e) (beq_of_ne fresh hash differ)
          | inr q ↦ rw (left_out x q e) (beq_of_ne x.refresh_token_hash hash (other x mx q))
        ]

    traces : (y : AuthSession) → Member y after → has_previous hash y ≡ true → y.id ≡ r.id
    traces y my h =
        let (x, mx, e) = update_where-Member (is_rotatable now r.id hash) turned y t my in
        elim (Bool-cases (is_rotatable now r.id hash x)) [
          | inl q ↦ ap (λ z. z.id) (picked x q e) ∙ (rotatable_facts now r.id hash x q).0
          | inr q ↦ absurd (
              not_both (has_previous hash y) h (
                ap (has_previous hash) (left_out x q e)
                ∙ All-member (λ z. has_previous hash z ≡ false) x t clean mx))
        ]
