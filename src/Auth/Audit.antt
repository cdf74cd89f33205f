-- ===== src/Auth/Audit.antt =====
-- The audit log of authentication (`AuditService` of `backend/src/modules/auth/audit.service.ts`).
-- `digest` is the first 16 hexadecimal digits of SHA-256. Of an entry's metadata its reason is kept.
use Prim.Native.Char.{Char, code}
use Prim.Native.String
use ling_dian.Prelude.{
  ℕ, zero, suc, String, Bool, true, false, ◌&&◌, ◌||◌, Option, none, some, [], ◌∷◌, ◌++◌, leb,
  non_empty, if◌then◌else◌,
}
use ling_dian.Prelude.Equality.{◌==◌, string_eq, nat_eq, option_eq}
use ling_dian.Prelude.Decimal.{size}
use ling_dian.Schema.AuthRows.{AuthAuditLog}
use ling_dian.Schema.Database.{Database}
use ling_dian.Db.{Prisma}

pub record AuthAuditInput : Type 0 where
  pub event : String
  pub user_id : Option String
  pub session_id : Option String
  pub ip : Option String
  pub device : Option String
  pub reason : Option String

pub record AuditContext : Type 0 where
  pub ip : Option String
  pub device : Option String

pub is_digit : Char → Bool
is_digit c = leb 48 (code c) && leb (code c) 57

unfoldable pub all_digits : String → Bool
unfolding is_digit
all_digits String.[] = true
all_digits (String.◌∷◌ c s) = is_digit c && all_digits s

has_dot : String → Bool
has_dot String.[] = false
has_dot (String.◌∷◌ c s) = code c == 46 || has_dot s

-- `ip.replace(/\.\d+$/, '.***')`.
mask_last_part : String → String
mask_last_part String.[] = String.[]
mask_last_part (String.◌∷◌ c s) =
    let rest = mask_last_part s in
    if code c == 46 && (non_empty s && all_digits s) then ".***" else String.◌∷◌ c rest

pub text_take : ℕ → String → String
text_take zero s = String.[]
text_take (suc n) String.[] = String.[]
text_take (suc n) (String.◌∷◌ c s) = String.◌∷◌ c (text_take n s)

pub mask_ip : String → String
mask_ip ip =
    if has_dot ip
    then mask_last_part ip
    else if leb (size ip) 8
    then "***"
    else String.◌++◌ (text_take 6 ip) "***"

abbrev pub Digest : Type 0
Digest = String → String

pub mask_device : Digest → String → String
mask_device digest device = String.◌++◌ "device:" (digest device)

-- `...(x ? { x: f(x) } : {})`: absent and empty values are left out.
abbrev pub masked : (String → String) → Option String → Option String
masked mask none = none
masked mask (some x) = if non_empty x then some (mask x) else none

abbrev pub audit_row : Digest → ℕ → AuthAuditInput → AuthAuditLog
audit_row digest now input = record {
  event = input.event;
  user_id = masked (λ x. x) input.user_id;
  session_id = masked (λ x. x) input.session_id;
  ip = masked mask_ip input.ip;
  device = masked (mask_device digest) input.device;
  reason = input.reason;
  created_at = now;
}

unfoldable pub record_audit : Digest → ℕ → AuthAuditInput → Database → Database
record_audit digest now input s = record s {
  auth_audit_logs = s.auth_audit_logs ++ audit_row digest now input ∷ [];
}

abbrev same_present : Option String → Option String → Bool
same_present none b = true
same_present (some a) b = some a == b

abbrev pub counted_log : Digest → String → AuditContext → ℕ → AuthAuditLog → Bool
counted_log digest event filter since l =
    l.event == event
    && (same_present (masked mask_ip filter.ip) l.ip
        && (same_present (masked (mask_device digest) filter.device) l.device
            && leb since l.created_at))

unfoldable pub count_audit : Prisma → Digest → String → AuditContext → ℕ → Database → ℕ
count_audit db digest event filter since s =
    db.count AuthAuditLog (counted_log digest event filter since) s.auth_audit_logs
