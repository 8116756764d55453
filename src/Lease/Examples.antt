-- ===== src/Lease/Examples.antt =====
-- The theorems on leases at a store with two leases of one item.
use mima.Prelude.{◌≡◌, false, List, [], ◌∷◌}
use mima.Lease.{
  SecretLease, SecretLeaseStore, LeaseOp, granting, revoking, empty_store, epoch, grant_if_current,
  lease_run,
}
use mima.Lease.Late.{grant_if_current-lease_run}

abbrev first_lease : SecretLease
first_lease = record { item_id = "a"; secret_version = 1; expires_at = 60 }

abbrev two_leases : SecretLeaseStore
two_leases = record empty_store {
  leases = first_lease ∷ record { item_id = "a"; secret_version = 2; expires_at = 70 } ∷ [];
}

abbrev between : List LeaseOp
between = granting "b" 1 60 5 ∷ revoking "a" ∷ []

grant_if_current-lease_run_example :
    grant_if_current (lease_run two_leases between) "a" 1 (epoch two_leases "a") 60 9
    ≡ (lease_run two_leases between, false)
grant_if_current-lease_run_example = grant_if_current-lease_run two_leases between "a" 1 60 9
