-- ===== src/Limiter/Examples.antt =====
-- The theorems on failed logins, at five failures in a minute from an empty table.
use mima.Prelude.{ℕ, ◌≤◌, ◌<◌, String, ◌≢◌, List, [], ◌∷◌, arith, eq_iff, here}
use mima.Limiter.{AuthAttempt, minute_policy, retry_after_seconds, record_failures}
use mima.Limiter.Blocking.{record_failures-retry_after_seconds}

-- The identity stands for the hash.
abbrev plain : String → String
plain key = key

abbrev no_rows : List AuthAttempt
no_rows = []

abbrev times : List ℕ
times = 1000 ∷ 2000 ∷ 3000 ∷ 4000 ∷ []

record_failures-retry_after_seconds_example :
    (55 ≤ retry_after_seconds plain (record_failures plain no_rows "a" (0 ∷ times)) "a" 5000)
    × (0 < retry_after_seconds plain (record_failures plain no_rows "a" (0 ∷ times)) "a" 5000)
record_failures-retry_after_seconds_example =
    record_failures-retry_after_seconds plain minute_policy no_rows "a" 0 5000 times here tt
      (omega arith) (omega arith) (omega arith)

a_not_b : ◌≢◌ {A = String} "a" "b"
a_not_b = ground (arith, eq_iff "a" "b")
