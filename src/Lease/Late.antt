-- ===== src/Lease/Late.antt =====
-- packages/client-core/src/secret-lease.ts: an answer that comes back after its item, or
-- everything, was revoked cannot bring a lease back.
use mima.Prelude.{
  ℕ, ◌+◌, ◌≤◌, ◌<◌, String, ◌≡◌, refl, ◌∙◌, Bool, true, false, List, [], ◌∷◌, arith, eq_iff, ◌==◌,
  nat_eq, string_eq, if◌then◌else◌, Bool-cases, inl, inr, any, or_else,
}
use mima.Prelude.Table
use mima.Lease.{
  SecretLease, SecretLeaseStore, Epoch, LeaseOp, granting, granting_if_current, getting, revoking,
  revoking_version, revoking_stale, revoking_all, epoch, is_epoch_current, revoke_version, grant,
  grant_if_current, get, revoke, stale_step, stale_loop, revoke_if_stale, revoke_all, lease_step,
  lease_run, same_epoch,
}

-- The operations that advance a generation which an epoch of the item holds.
abbrev pub destroys : String → LeaseOp → Bool
destroys item (revoking i) = i == item
destroys item revoking_all = true
destroys item _ = false

-- The generations of an item only grow.
abbrev Grown : SecretLeaseStore → SecretLeaseStore → String → Type 0
Grown s t item =
    ((epoch s item).global ≤ (epoch t item).global) × ((epoch s item).item ≤ (epoch t item).item)

abbrev SameGens : SecretLeaseStore → SecretLeaseStore → Type 0
SameGens s t = (t.global_gen ≡ s.global_gen) × (t.item_gens ≡ s.item_gens)

revoke_version-SameGens :
    (s : SecretLeaseStore) (i : String) (v : ℕ) → SameGens s (revoke_version s i v)
unfolding revoke_version
revoke_version-SameGens s i v = ground arith

grant-SameGens :
    (s : SecretLeaseStore) (i : String) (v ttl now : ℕ) → SameGens s (grant s i v ttl now)
unfolding grant
grant-SameGens s i v ttl now = revoke_version-SameGens s i v

grant_if_current-SameGens :
    (s : SecretLeaseStore) (i : String) (v : ℕ) (e : Epoch) (ttl now : ℕ)
    → SameGens s (grant_if_current s i v e ttl now).0
unfolding grant_if_current
grant_if_current-SameGens s i v e ttl now = ground (arith, grant-SameGens s i v ttl now)

get-SameGens : (s : SecretLeaseStore) (i : String) (v now : ℕ) → SameGens s (get s i v now).0
unfolding get
get-SameGens s i v now = ground (arith, revoke_version-SameGens s i v)

stale_step-SameGens :
    (s : SecretLeaseStore) (i : String) (v : ℕ) (l : SecretLease) → SameGens s (stale_step s i v l)
unfolding stale_step
stale_step-SameGens s i v l = ground (arith, revoke_version-SameGens s i l.secret_version)

stale_loop-SameGens :
    (s : SecretLeaseStore) (i : String) (v : ℕ) (ls : List SecretLease)
    → SameGens s (stale_loop s i v ls)
unfolding stale_loop
stale_loop-SameGens s i v [] = (refl, refl)
stale_loop-SameGens s i v (l ∷ ls) =
    let rest = stale_loop-SameGens (stale_step s i v l) i v ls in
    let first = stale_step-SameGens s i v l in (rest.0 ∙ first.0, rest.1 ∙ first.1)

SameGens-epoch :
    (s t : SecretLeaseStore) (item : String) → SameGens s t → epoch t item ≡ epoch s item
unfolding epoch
SameGens-epoch s t item h = rw (h.0, h.1)

-- An operation that does not destroy leaves the item's epoch alone.
epoch-lease_step :
    (s : SecretLeaseStore) (op : LeaseOp) (item : String)
    → destroys item op ≡ false
    → epoch (lease_step s op) item ≡ epoch s item
unfolding lease_step
epoch-lease_step s (granting i v ttl now) item h =
    SameGens-epoch _ _ item (grant-SameGens s i v ttl now)
epoch-lease_step s (granting_if_current i v e ttl now) item h =
    SameGens-epoch _ _ item (grant_if_current-SameGens s i v e ttl now)
epoch-lease_step s (getting i v now) item h = SameGens-epoch _ _ item (get-SameGens s i v now)
epoch-lease_step s (revoking i) item h =
    unfold revoke epoch in
    ground (arith, Table.get-set s.item_gens i item (or_else (Table.get s.item_gens i) 0 + 1))
epoch-lease_step s (revoking_version i v) item h =
    SameGens-epoch _ _ item (revoke_version-SameGens s i v)
epoch-lease_step s (revoking_stale i v) item h =
    SameGens-epoch _ _ item (unfold revoke_if_stale in stale_loop-SameGens s i v s.leases)
epoch-lease_step s revoking_all item h = cc

-- One that destroys advances it, and no operation sets it back.
abbrev NotBefore : Epoch → Epoch → Type 0
NotBefore e f = (e.global ≤ f.global) × (e.item ≤ f.item)

abbrev After : Epoch → Epoch → Type 0
After e f = NotBefore e f × (e.global + e.item < f.global + f.item)

epoch-lease_step-destroys :
    (s : SecretLeaseStore) (op : LeaseOp) (item : String)
    → destroys item op ≡ true
    → After (epoch s item) (epoch (lease_step s op) item)
unfolding lease_step
epoch-lease_step-destroys s (revoking i) item h =
    let law = Table.get-set s.item_gens i item (or_else (Table.get s.item_gens i) 0 + 1) in
    unfold revoke epoch in ground (arith, eq_iff i item, law)
epoch-lease_step-destroys s revoking_all item h = unfold revoke_all epoch in ground arith
epoch-lease_step-destroys s _ item h = cc

epoch-lease_step_grows :
    (s : SecretLeaseStore) (op : LeaseOp) (item : String)
    → NotBefore (epoch s item) (epoch (lease_step s op) item)
epoch-lease_step_grows s op item = elim (Bool-cases (destroys item op)) [
  | inl h ↦ (epoch-lease_step-destroys s op item h).0
  | inr h ↦ rw (epoch-lease_step s op item h) (omega arith)
]

epoch-lease_run_grows :
    (s : SecretLeaseStore) (ops : List LeaseOp) (item : String)
    → NotBefore (epoch s item) (epoch (lease_run s ops) item)
unfolding lease_run
epoch-lease_run_grows s [] item = omega arith
epoch-lease_run_grows s (op ∷ ops) item =
    omega
      (arith, epoch-lease_step_grows s op item, epoch-lease_run_grows (lease_step s op) ops item)

epoch-lease_run-destroys :
    (s : SecretLeaseStore) (ops : List LeaseOp) (item : String)
    → any (destroys item) ops ≡ true
    → After (epoch s item) (epoch (lease_run s ops) item)
unfolding lease_run
epoch-lease_run-destroys s [] item h = cc
epoch-lease_run-destroys s (op ∷ ops) item h = elim (Bool-cases (destroys item op)) [
  | inl e ↦ omega (
    arith,
    epoch-lease_step-destroys s op item e,
    epoch-lease_run_grows (lease_step s op) ops item,
  )
  | inr e ↦
      rw (← epoch-lease_step s op item e)
        (epoch-lease_run-destroys (lease_step s op) ops item (ground arith))
]

epoch-lease_run :
    (s : SecretLeaseStore) (ops : List LeaseOp) (item : String)
    → any (destroys item) ops ≡ false
    → epoch (lease_run s ops) item ≡ epoch s item
unfolding lease_run
epoch-lease_run s [] item h = refl
epoch-lease_run s (op ∷ ops) item h =
    epoch-lease_run (lease_step s op) ops item (ground arith)
    ∙ epoch-lease_step s op item (ground arith)

After-same_epoch : (e f : Epoch) → After e f → same_epoch f e ≡ false
After-same_epoch e f h = ground arith

same_epoch_refl : (e : Epoch) → same_epoch e e ≡ true
same_epoch_refl e = ground arith

-- The answer to a reveal, requested in the epoch of a store and come back after any operations on
-- it, is granted exactly if none of them revoked the item or everything; otherwise the store stays
-- as it is and the answer is refused.
pub grant_if_current-lease_run :
    (s : SecretLeaseStore) (ops : List LeaseOp) (item : String) (version ttl now : ℕ)
    → grant_if_current (lease_run s ops) item version (epoch s item) ttl now ≡ (
        if any (destroys item) ops
        then (lease_run s ops, false)
        else (grant (lease_run s ops) item version ttl now, true))
unfolding grant_if_current is_epoch_current
grant_if_current-lease_run s ops item version ttl now =
    elim (Bool-cases (any (destroys item) ops)) [
      | inl h ↦ rw (h, After-same_epoch _ _ (epoch-lease_run-destroys s ops item h))
      | inr h ↦ rw (h, epoch-lease_run s ops item h, same_epoch_refl (epoch s item))
    ]
