-- ===== src/Limiter/Blocking.antt =====
-- apps/api/src/auth/attempt-limiter.ts: when failures block an account, and whose.
use mima.Prelude.{
  ℕ, suc, ◌+◌, ◌-◌, ◌≤◌, ◌<◌, String, ◌≡◌, ◌≢◌, refl, ap, subst, ◌∙◌, true, ◌&&◌, not, Option, none,
  some, List, [], ◌∷◌, arith, eq_iff, ◌==◌, string_eq, if◌then◌else◌, leb, length, max, Bool-cases,
  inl, inr, find, keep, In, here, there, In-keep, find-eq-some, and-eq-true, All,
}
use mima.Limiter.{
  Scope, minute, hour, AttemptPolicy, minute_policy, hour_policy, policies, AuthAttempt, is_row,
  same_scope, ceil_seconds, row_retry_after, retry_loop, next_row, upsert, apply_policy,
  apply_policies, retry_after_seconds, record_failure, record_failures, clear,
}

find-upsert :
    (new : AuthAttempt) (rows : List AuthAttempt) (scope : Scope) (hash : String)
    → find (is_row scope hash) (upsert new rows) ≡ (
        if same_scope new.scope scope && new.key_hash == hash
        then some new
        else find (is_row scope hash) rows)
unfolding upsert
find-upsert new [] scope hash = refl
find-upsert new (row ∷ rows) scope hash = ground (
  arith,
  find-upsert new rows scope hash,
  eq_iff row.key_hash new.key_hash,
  eq_iff row.key_hash hash,
  eq_iff new.key_hash hash,
)

key_hash-next_row :
    (policy : AttemptPolicy) (hash : String) (now : ℕ) (o : Option AuthAttempt)
    → ((next_row policy hash now o).key_hash ≡ hash)
      × ((next_row policy hash now o).scope ≡ policy.scope)
unfolding next_row
key_hash-next_row policy hash now none = (refl, refl)
key_hash-next_row policy hash now (some row) = (refl, refl)

same_scope-eq : (a b : Scope) → same_scope a b ≡ true → a ≡ b
same_scope-eq a b h = ground arith

-- A failure under a policy leaves the row that the policy computes, under its own scope alone.
find-apply_policy :
    (rows : List AuthAttempt) (hash : String) (now : ℕ) (policy : AttemptPolicy) (scope : Scope)
    → find (is_row scope hash) (apply_policy hash now policy rows) ≡ (
        if same_scope policy.scope scope
        then some (next_row policy hash now (find (is_row scope hash) rows))
        else find (is_row scope hash) rows)
unfolding apply_policy
find-apply_policy rows hash now policy scope =
    let row = next_row policy hash now (find (is_row policy.scope hash) rows) in
    let same = key_hash-next_row policy hash now (find (is_row policy.scope hash) rows) in
    find-upsert row rows scope hash ∙ elim (Bool-cases (same_scope policy.scope scope)) [
      | inl e ↦ rw (same.0, same.1, e, (eq_iff hash hash).1 refl, same_scope-eq _ _ e) refl
      | inr e ↦ rw (same.1, e) refl
    ]

-- A key's rows count from its own failures alone.
others-upsert :
    (new : AuthAttempt) (rows : List AuthAttempt) (hash : String)
    → new.key_hash ≢ hash
    → keep (λ row. row.key_hash == hash) (upsert new rows) ≡ keep (λ row. row.key_hash == hash) rows
unfolding upsert
others-upsert new [] hash h = ground (arith, eq_iff new.key_hash hash)
others-upsert new (row ∷ rows) hash h = ground (
  arith,
  others-upsert new rows hash h,
  eq_iff row.key_hash new.key_hash,
  eq_iff new.key_hash hash,
)

retry_loop-ge : (now n : ℕ) (rows : List AuthAttempt) → n ≤ retry_loop now n rows
unfolding retry_loop
retry_loop-ge now n [] = omega arith
retry_loop-ge now n (row ∷ rows) =
    omega (arith, retry_loop-ge now (max n (row_retry_after now row)) rows)

retry_loop-ge_In :
    {row : AuthAttempt} (now n : ℕ) {rows : List AuthAttempt}
    → In row rows
    → row_retry_after now row ≤ retry_loop now n rows
unfolding retry_loop
retry_loop-ge_In {row} now n (here {xs}) =
    omega (arith, retry_loop-ge now (max n (row_retry_after now row)) xs)
retry_loop-ge_In now n (there {x} i) = retry_loop-ge_In now (max n (row_retry_after now x)) i

-- The row of a window that ends at `e`, with `c` failures in it: it blocks from the limit on.
pub record Counted (p : AttemptPolicy) (c e : ℕ) (o : Option AuthAttempt) : Type 0 where
  pub row : AuthAttempt
  pub stored : o ≡ some row
  pub count : row.failure_count ≡ c
  pub window : row.window_expires_at ≡ e
  pub blocked : row.blocked_until ≡ (if leb p.limit c then some e else none)

-- No window is open: the key has no row, or its row has run out.
abbrev pub IsFresh : ℕ → Option AuthAttempt → Type 0
IsFresh now none = Unit
IsFresh now (some row) = row.window_expires_at ≤ now

Counted-first :
    (p : AttemptPolicy) (hash : String) (now : ℕ) (o : Option AuthAttempt)
    → IsFresh now o
    → Counted p 1 (now + p.duration_ms) (some (next_row p hash now o))
unfolding next_row
Counted-first p hash now none h = record {
  row = next_row p hash now none;
  stored = refl;
  count = refl;
  window = refl;
  blocked = refl;
}
Counted-first p hash now (some r) h = record {
  row = next_row p hash now (some r);
  stored = refl;
  count = ground arith;
  window = ground arith;
  blocked = ground arith;
}

Counted-next :
    (p : AttemptPolicy) (hash : String) (now c e : ℕ) (o : Option AuthAttempt)
    → now < e
    → Counted p c e o
    → Counted p (c + 1) e (some (next_row p hash now o))
unfolding next_row
Counted-next p hash now c e none h k = cc k.stored
Counted-next p hash now c e (some r) h k =
    let same : r ≡ k.row = some_eq k.stored in
    let ends : r.window_expires_at ≡ e = rw same k.window in
    let counts : r.failure_count ≡ c = rw same k.count in
    record {
      row = next_row p hash now (some r);
      stored = refl;
      count = ground arith;
      window = ground arith;
      blocked = ground arith;
    }
  where
    some_eq : {x y : AuthAttempt} → some x ≡ some y → x ≡ y
    some_eq q = cc

others-apply_policy :
    (rows : List AuthAttempt) (hash : String) (now : ℕ) (p : AttemptPolicy) (other : String)
    → hash ≢ other
    → keep (λ row. row.key_hash == other) (apply_policy hash now p rows)
      ≡ keep (λ row. row.key_hash == other) rows
unfolding apply_policy
others-apply_policy rows hash now p other n =
    let old = find (is_row p.scope hash) rows in
    others-upsert (next_row p hash now old) rows other (rw ((key_hash-next_row p hash now old).0) n)

keep-cleared :
    (rows : List AuthAttempt) (hash : String)
    → keep (λ row. row.key_hash == hash) (keep (λ row. not (row.key_hash == hash)) rows) ≡ []
keep-cleared [] hash = refl
keep-cleared (row ∷ rows) hash = ground (arith, keep-cleared rows hash)

keep-cleared_other :
    (rows : List AuthAttempt) (cleared hash : String)
    → cleared ≢ hash
    → keep (λ row. row.key_hash == hash) (keep (λ row. not (row.key_hash == cleared)) rows)
      ≡ keep (λ row. row.key_hash == hash) rows
keep-cleared_other [] cleared hash n = refl
keep-cleared_other (row ∷ rows) cleared hash n = ground (
  arith,
  keep-cleared_other rows cleared hash n,
  eq_iff row.key_hash hash,
  eq_iff row.key_hash cleared,
)

module _ (hash_key : String → String) where
  abbrev pub row_of : AttemptPolicy → String → List AuthAttempt → Option AuthAttempt
  row_of p key rows = find (is_row p.scope (hash_key key)) rows

  -- A failure updates the rows of both policies.
  row_of-record_failure :
      (p : AttemptPolicy) (rows : List AuthAttempt) (key : String) (now : ℕ)
      → In p policies
      → row_of p key (record_failure hash_key rows key now)
        ≡ some (next_row p (hash_key key) now (row_of p key rows))
  unfolding record_failure apply_policies
  row_of-record_failure p rows key now (here) =
      find-apply_policy (apply_policy (hash_key key) now minute_policy rows) (hash_key key) now
        hour_policy minute
      ∙ find-apply_policy rows (hash_key key) now minute_policy minute
  row_of-record_failure p rows key now (there here) =
      find-apply_policy (apply_policy (hash_key key) now minute_policy rows) (hash_key key) now
        hour_policy hour
      ∙ ap (λ o. some (next_row hour_policy (hash_key key) now o))
          (find-apply_policy rows (hash_key key) now minute_policy hour)
  row_of-record_failure p rows key now (there (there i)) = elim i [ ]

  Counted-record_failures :
      (p : AttemptPolicy) (rows : List AuthAttempt) (key : String) (c e : ℕ) (times : List ℕ)
      → In p policies
      → All (λ t. t < e) times
      → Counted p c e (row_of p key rows)
      → Counted p (c + length times) e (row_of p key (record_failures hash_key rows key times))
  unfolding record_failures
  Counted-record_failures p rows key c e [] i h k =
      let plus_zero : c ≡ c + 0 = omega arith in
      subst (λ n. Counted p n e (row_of p key rows)) plus_zero k
  Counted-record_failures p rows key c e (t ∷ ts) i h k =
      let next =
        Counted-record_failures p (record_failure hash_key rows key t) key (c + 1) e ts i h.1 (
          rw (row_of-record_failure p rows key t i)
            (Counted-next p (hash_key key) t c e _ h.0 k)) in
      let same : (c + 1) + length ts ≡ c + suc (length ts) = omega arith in
      subst (λ n. Counted p n e (row_of p key (record_failures hash_key rows key (t ∷ ts)))) same
        next

  -- Failures within one window, the first of which opens it, are all counted, for each of the two
  -- policies; the window ends a policy's duration after the first, and from the limit on the row
  -- blocks the key until then.
  pub record_failures-Counted :
      (p : AttemptPolicy) (rows : List AuthAttempt) (key : String) (now : ℕ) (times : List ℕ)
      → In p policies
      → IsFresh now (row_of p key rows)
      → All (λ t. t < now + p.duration_ms) times
      → Counted p
          (length (now ∷ times))
          (now + p.duration_ms)
          (row_of p key (record_failures hash_key rows key (now ∷ times)))
  unfolding record_failures
  record_failures-Counted p rows key now times i fresh h =
      let first : Counted p 1 (now + p.duration_ms)
          (row_of p key (record_failure hash_key rows key now)) =
        rw (row_of-record_failure p rows key now i)
          (Counted-first p (hash_key key) now (row_of p key rows) fresh) in
      let all =
        Counted-record_failures p (record_failure hash_key rows key now) key 1 (now + p.duration_ms)
          times i h first in
      let same : 1 + length times ≡ suc (length times) = omega arith in
      subst
        (λ n.
          Counted p n (now + p.duration_ms)
            (row_of p key (record_failures hash_key rows key (now ∷ times))))
        same all

  blocked-retry_after_seconds :
      (p : AttemptPolicy) (rows : List AuthAttempt) (key : String) (c e later : ℕ)
      → Counted p c e (row_of p key rows)
      → p.limit ≤ c
      → later < e
      → ceil_seconds (e - later) ≤ retry_after_seconds hash_key rows key later
  unfolding retry_after_seconds row_retry_after
  blocked-retry_after_seconds p rows key c e later k over h =
      let found = find-eq-some (is_row p.scope (hash_key key)) rows k.stored in
      let mine : (k.row.key_hash == hash_key key) ≡ true =
        (and-eq-true (same_scope k.row.scope p.scope) (k.row.key_hash == hash_key key) found.1).1 in
      let kept : In k.row (keep (λ r. r.key_hash == hash_key key) rows) =
        In-keep (λ (r : AuthAttempt). r.key_hash == hash_key key) found.0 mine in
      let until : k.row.blocked_until ≡ some e = ground arith in
      let wait : ceil_seconds (e - later) ≤ row_retry_after later k.row =
        rw (until, row_retry_after) (ground arith) in
      omega (arith, wait, retry_loop-ge_In later 0 kept)

  -- After as many failures in one window as a policy allows, a login is put off for at least the
  -- whole seconds, rounded up and more than none, that the window still lasts.
  pub record_failures-retry_after_seconds :
      (p : AttemptPolicy) (rows : List AuthAttempt) (key : String) (now later : ℕ) (times : List ℕ)
      → In p policies
      → IsFresh now (row_of p key rows)
      → All (λ t. t < now + p.duration_ms) times
      → p.limit ≤ length (now ∷ times)
      → later < now + p.duration_ms
      → (ceil_seconds (now + p.duration_ms - later)
          ≤ retry_after_seconds hash_key
              (record_failures hash_key rows key (now ∷ times))
              key
              later)
        × (0
            < retry_after_seconds hash_key
                (record_failures hash_key rows key (now ∷ times))
                key
                later)
  record_failures-retry_after_seconds p rows key now later times i fresh h over inside =
      let k = record_failures-Counted p rows key now times i fresh h in
      let wait = blocked-retry_after_seconds p _ key _ _ later k over inside in
      (wait, omega (arith, wait))

  others-record_failure :
      (rows : List AuthAttempt) (key : String) (now : ℕ) (hash : String)
      → hash_key key ≢ hash
      → keep (λ row. row.key_hash == hash) (record_failure hash_key rows key now)
        ≡ keep (λ row. row.key_hash == hash) rows
  unfolding record_failure apply_policies apply_policy
  others-record_failure rows key now hash n =
      others-apply_policy _ (hash_key key) now hour_policy hash n
      ∙ others-apply_policy rows (hash_key key) now minute_policy hash n

  -- Failures and the clearing of one key leave the wait of any key of another hash as it was, and a
  -- cleared key has no wait.
  pub retry_after_seconds_isolated :
      (rows : List AuthAttempt) (key other : String) (now later : ℕ)
      → hash_key key ≢ hash_key other
      → (retry_after_seconds hash_key (record_failure hash_key rows key now) other later
          ≡ retry_after_seconds hash_key rows other later)
        × (retry_after_seconds hash_key (clear hash_key rows key) other later
            ≡ retry_after_seconds hash_key rows other later)
        × (retry_after_seconds hash_key (clear hash_key rows key) key later ≡ 0)
  unfolding retry_after_seconds clear
  retry_after_seconds_isolated rows key other now later n = (
    ap (retry_loop later 0) (others-record_failure rows key now (hash_key other) n),
    ap (retry_loop later 0) (keep-cleared_other rows (hash_key key) (hash_key other) n),
    rw (keep-cleared rows (hash_key key)),
  )
