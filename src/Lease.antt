-- ===== src/Lease.antt =====
-- packages/client-core/src/secret-lease.ts: leases on revealed secrets, and the generations that
-- make late answers useless. The clock is an argument of each operation. A key `${itemId}#${version}`
-- and an epoch `${global}:${item}` are the pairs that the texts spell: no number holds `#` or `:`,
-- so equal texts come from equal pairs. A timer calls `revoke_version`; the
-- notices to listeners are the list of item ids in `notified`.
pub mod Late
pub mod Expiry
pub mod Examples
use mima.Prelude.{
  ℕ, ◌+◌, String, Bool, true, false, ◌&&◌, not, Option, none, some, List, [], ◌∷◌, ◌++◌, map, ◌==◌,
  nat_eq, string_eq, if◌then◌else◌, leb, find, keep, any, or_else, is_some,
}
use mima.Prelude.Table

pub record SecretLease : Type 0 where
  pub item_id : String
  pub secret_version : ℕ
  pub expires_at : ℕ

pub record SecretLeaseStore : Type 0 where
  pub leases : List SecretLease
  pub global_gen : ℕ
  pub item_gens : List (String × ℕ)
  pub notified : List String

pub record Epoch : Type 0 where
  pub global : ℕ
  pub item : ℕ

abbrev pub empty_store : SecretLeaseStore
empty_store = record { leases = []; global_gen = 0; item_gens = []; notified = [] }

-- `this.leases` is keyed by item and version.
abbrev pub has_key : String → ℕ → SecretLease → Bool
has_key item_id version l = l.item_id == item_id && l.secret_version == version

abbrev pub of_item : String → SecretLease → Bool
of_item item_id l = l.item_id == item_id

abbrev pub without : (SecretLease → Bool) → List SecretLease → List SecretLease
without p ls = keep (λ l. not (p l)) ls

unfoldable pub epoch : SecretLeaseStore → String → Epoch
epoch s item_id = record { global = s.global_gen; item = or_else (Table.get s.item_gens item_id) 0 }

abbrev pub same_epoch : Epoch → Epoch → Bool
same_epoch a b = a.global == b.global && a.item == b.item

unfoldable pub is_epoch_current : SecretLeaseStore → String → Epoch → Bool
is_epoch_current s item_id e = same_epoch (epoch s item_id) e

unfoldable pub revoke_version : SecretLeaseStore → String → ℕ → SecretLeaseStore
revoke_version s item_id version = elim (find (has_key item_id version) s.leases) [
  | none ↦ s
  | some lease ↦ record s {
    leases = without (has_key item_id version) s.leases;
    notified = s.notified ++ item_id ∷ [];
  }
]

unfoldable pub grant : SecretLeaseStore → String → ℕ → ℕ → ℕ → SecretLeaseStore
grant s item_id version ttl now =
    let cleared = revoke_version s item_id version in
    record cleared {
      leases =
          cleared.leases
          ++ record { item_id = item_id; secret_version = version; expires_at = now + ttl } ∷ [];
      notified = cleared.notified ++ item_id ∷ [];
    }

unfoldable pub grant_if_current :
    SecretLeaseStore → String → ℕ → Epoch → ℕ → ℕ → SecretLeaseStore × Bool
grant_if_current s item_id version e ttl now =
    if is_epoch_current s item_id e then (grant s item_id version ttl now, true) else (s, false)

unfoldable pub get : SecretLeaseStore → String → ℕ → ℕ → SecretLeaseStore × Option SecretLease
get s item_id version now = elim (find (has_key item_id version) s.leases) [
  | none ↦ (s, none)
  | some lease ↦
      if leb lease.expires_at now then (revoke_version s item_id version, none) else (s, some lease)
]

-- `this.get(…) !== null`, with the state that `get` leaves.
unfoldable pub has : SecretLeaseStore → String → ℕ → ℕ → SecretLeaseStore × Bool
unfolding get
has s item_id version now = let (s', found) = get s item_id version now in (s', is_some found)

unfoldable pub revoke : SecretLeaseStore → String → SecretLeaseStore
revoke s item_id = record s {
  item_gens = Table.set s.item_gens item_id (or_else (Table.get s.item_gens item_id) 0 + 1);
  leases = without (of_item item_id) s.leases;
  notified = if any (of_item item_id) s.leases then s.notified ++ item_id ∷ [] else s.notified;
}

abbrev pub is_stale : String → ℕ → SecretLease → Bool
is_stale item_id current l = of_item item_id l && not (l.secret_version == current)

stale_step : SecretLeaseStore → String → ℕ → SecretLease → SecretLeaseStore
stale_step s item_id current l =
    if is_stale item_id current l then revoke_version s item_id l.secret_version else s

-- The loop runs over a copy of the leases, and revokes the stale ones of the item.
stale_loop : SecretLeaseStore → String → ℕ → List SecretLease → SecretLeaseStore
stale_loop s item_id current [] = s
stale_loop s item_id current (l ∷ rest) =
    stale_loop (stale_step s item_id current l) item_id current rest

unfoldable pub revoke_if_stale : SecretLeaseStore → String → ℕ → SecretLeaseStore
unfolding stale_loop stale_step
revoke_if_stale s item_id current = stale_loop s item_id current s.leases

-- The members of a `Set`, in the order of their first occurrence.
distinct : List String → List String → List String
distinct seen [] = seen
distinct seen (x ∷ xs) = distinct (if any (λ y. y == x) seen then seen else seen ++ x ∷ []) xs

unfoldable pub revoke_all : SecretLeaseStore → SecretLeaseStore
unfolding distinct
revoke_all s = record s {
  global_gen = s.global_gen + 1;
  leases = [];
  notified = s.notified ++ distinct [] (map (λ l. l.item_id) s.leases);
}

-- What can happen to a store between a request and its answer.
pub data LeaseOp : Type 0 where
  granting : String → ℕ → ℕ → ℕ → LeaseOp
  granting_if_current : String → ℕ → Epoch → ℕ → ℕ → LeaseOp
  getting : String → ℕ → ℕ → LeaseOp
  revoking : String → LeaseOp
  revoking_version : String → ℕ → LeaseOp
  revoking_stale : String → ℕ → LeaseOp
  revoking_all : LeaseOp

unfoldable pub lease_step : SecretLeaseStore → LeaseOp → SecretLeaseStore
lease_step s (granting i v ttl now) = grant s i v ttl now
lease_step s (granting_if_current i v e ttl now) = (grant_if_current s i v e ttl now).0
lease_step s (getting i v now) = (get s i v now).0
lease_step s (revoking i) = revoke s i
lease_step s (revoking_version i v) = revoke_version s i v
lease_step s (revoking_stale i v) = revoke_if_stale s i v
lease_step s revoking_all = revoke_all s

unfoldable pub lease_run : SecretLeaseStore → List LeaseOp → SecretLeaseStore
lease_run s [] = s
lease_run s (op ∷ ops) = lease_run (lease_step s op) ops
