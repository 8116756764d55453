-- ===== src/Limiter.antt =====
-- apps/api/src/auth/attempt-limiter.ts: how many failed logins an account may have. Times are in
-- milliseconds. `hashKey` is SHA-256 by the platform, and a parameter; the rows of `auth_attempts`
-- are kept by scope and hash, as its primary key says. `updated_at` always equals
-- `last_attempt_at`, and has no field of its own.
pub mod Blocking
pub mod Examples
use mima.Prelude.{
  ℕ, ◌+◌, ◌-◌, ◌/◌, String, Bool, true, false, ◌&&◌, not, Option, none, some, List, [], ◌∷◌, ◌==◌,
  string_eq, if◌then◌else◌, leb, ltb, find, keep, max,
}

pub data Scope : Type 0 where
  minute hour : Scope

pub record AttemptPolicy : Type 0 where
  pub scope : Scope
  pub duration_ms : ℕ
  pub limit : ℕ

abbrev pub minute_policy : AttemptPolicy
minute_policy = record { scope = minute; duration_ms = 60000; limit = 5 }

abbrev pub hour_policy : AttemptPolicy
hour_policy = record { scope = hour; duration_ms = 3600000; limit = 20 }

abbrev pub policies : List AttemptPolicy
policies = minute_policy ∷ hour_policy ∷ []

pub record AuthAttempt : Type 0 where
  pub scope : Scope
  pub key_hash : String
  pub window_started_at : ℕ
  pub window_expires_at : ℕ
  pub failure_count : ℕ
  pub blocked_until : Option ℕ
  pub last_attempt_at : ℕ

abbrev pub same_scope : Scope → Scope → Bool
same_scope minute minute = true
same_scope hour hour = true
same_scope _ _ = false

abbrev pub is_row : Scope → String → AuthAttempt → Bool
is_row scope hash row = same_scope row.scope scope && row.key_hash == hash

-- `Math.ceil(ms / 1000)`
abbrev pub ceil_seconds : ℕ → ℕ
ceil_seconds ms = (ms + 999) / 1000

row_retry_after : ℕ → AuthAttempt → ℕ
row_retry_after now row = elim row.blocked_until [
  | none ↦ 0
  | some until ↦ if leb until now then 0 else ceil_seconds (until - now)
]

retry_loop : ℕ → ℕ → List AuthAttempt → ℕ
unfolding row_retry_after
retry_loop now retry_after [] = retry_after
retry_loop now retry_after (row ∷ rows) =
    retry_loop now (max retry_after (row_retry_after now row)) rows

-- What one policy makes of the row that is there.
pub next_row : AttemptPolicy → String → ℕ → Option AuthAttempt → AuthAttempt
next_row policy hash now none = record {
  scope = policy.scope;
  key_hash = hash;
  window_started_at = now;
  window_expires_at = now + policy.duration_ms;
  failure_count = 1;
  blocked_until = if leb policy.limit 1 then some (now + policy.duration_ms) else none;
  last_attempt_at = now;
}
next_row policy hash now (some current) =
    let expired = leb current.window_expires_at now in
    let failure_count = if expired then 1 else current.failure_count + 1 in
    let window_expires_at =
      if expired then now + policy.duration_ms else current.window_expires_at in
    record {
      scope = policy.scope;
      key_hash = hash;
      window_started_at = if expired then now else current.window_started_at;
      window_expires_at = window_expires_at;
      failure_count = failure_count;
      blocked_until = if leb policy.limit failure_count then some window_expires_at else none;
      last_attempt_at = now;
    }

-- `insert … onConflictDoUpdate` on (scope, key_hash).
pub upsert : AuthAttempt → List AuthAttempt → List AuthAttempt
upsert new [] = new ∷ []
upsert new (row ∷ rows) =
    let rest = upsert new rows in
    if is_row new.scope new.key_hash row then new ∷ rows else row ∷ rest

pub apply_policy : String → ℕ → AttemptPolicy → List AuthAttempt → List AuthAttempt
unfolding next_row upsert
apply_policy hash now policy rows =
    upsert (next_row policy hash now (find (is_row policy.scope hash) rows)) rows

apply_policies : String → ℕ → List AttemptPolicy → List AuthAttempt → List AuthAttempt
unfolding apply_policy
apply_policies hash now [] rows = rows
apply_policies hash now (p ∷ ps) rows = apply_policies hash now ps (apply_policy hash now p rows)

module _ (hash_key : String → String) where
  unfoldable pub retry_after_seconds : List AuthAttempt → String → ℕ → ℕ
  unfolding retry_loop
  retry_after_seconds rows key now =
      retry_loop now 0 (keep (λ row. row.key_hash == hash_key key) rows)

  unfoldable pub record_failure : List AuthAttempt → String → ℕ → List AuthAttempt
  unfolding apply_policies
  record_failure rows key now = apply_policies (hash_key key) now policies rows

  unfoldable pub clear : List AuthAttempt → String → List AuthAttempt
  clear rows key = keep (λ row. not (row.key_hash == hash_key key)) rows

  -- Failures of one key at the given times, in order.
  unfoldable pub record_failures : List AuthAttempt → String → List ℕ → List AuthAttempt
  record_failures rows key [] = rows
  record_failures rows key (now ∷ times) = record_failures (record_failure rows key now) key times
