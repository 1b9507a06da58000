-- ===== src/Sentience/Lease.antt =====
-- `CanonicalLease` of src/hal9000/sentience/identity/lease.py, on the table instance_leases. Each
-- operation is one transaction; `now` is the reading of its clock, in microseconds. `expires_at` is
-- the millisecond that `utc_iso` writes.
pub mod Exclusion
use bollywood_hal.Prelude.{
  ℕ, ◌+◌, ◌*◌, ◌/◌, ◌==◌, String, Bool, true, false, not, ◌&&◌, ◌=s◌, Option, none, some, List, [],
  ◌∷◌, ltb, leb, if◌then◌else◌,
}
use bollywood_hal.Action.{Result, ok, raised, lease_conflict, value_error}
use bollywood_hal.Storage.Table.{select_one, row_count, update_where, upsert, delete_where}

pub record LeaseRow : Type 0 where
  pub instance_id : String
  pub owner_id : String
  pub acquired_at : ℕ
  pub renewed_at : ℕ
  pub expires_at : ℕ
  pub boot_id : String
  pub process_id : ℕ

pub record Lease : Type 0 where
  pub instance_id : String
  pub boot_id : String
  pub owner_id : String
  pub ttl_seconds : ℕ
  pub process_id : ℕ

-- the constructor
unfoldable pub new_lease : Lease → Result Lease
new_lease l =
    if ltb l.ttl_seconds 2
    then raised (value_error "canonical lease TTL must be at least two seconds")
    else ok l

abbrev pub ms : ℕ → ℕ
ms us = us / 1000

abbrev pub expiry : Lease → ℕ → ℕ
expiry l now = ms (now + l.ttl_seconds * 1000000)

abbrev pub of_instance : String → LeaseRow → Bool
of_instance k r = r.instance_id =s k

abbrev pub held_by : Lease → LeaseRow → Bool
held_by l r = r.instance_id =s l.instance_id && r.owner_id =s l.owner_id

-- `row["owner_id"] != self.owner_id and expiry > now`
unfoldable pub conflicts : Lease → ℕ → Option LeaseRow → Bool
conflicts l now none = false
conflicts l now (some r) = not (r.owner_id =s l.owner_id) && ltb now (r.expires_at * 1000)

unfoldable pub writer_row : Lease → ℕ → LeaseRow
writer_row l now = record {
  instance_id = l.instance_id;
  owner_id = l.owner_id;
  acquired_at = ms now;
  renewed_at = ms now;
  expires_at = expiry l now;
  boot_id = l.boot_id;
  process_id = l.process_id;
}

-- What a call answers, with the table after it. The answer is also the new value of `held`, except
-- that `release` sets `held` to false and a raise leaves it.
unfoldable pub acquire : Lease → ℕ → List LeaseRow → Result Bool × List LeaseRow
unfolding conflicts writer_row select_one upsert
acquire l now rows =
    if conflicts l now (select_one (of_instance l.instance_id) rows)
    then (raised (lease_conflict l.instance_id), rows)
    else (
      ok true,
      upsert (of_instance l.instance_id) (λ _. writer_row l now) (writer_row l now) rows,
    )

unfoldable pub renew : Lease → ℕ → List LeaseRow → Result Bool × List LeaseRow
unfolding row_count update_where
renew l now rows = (
  ok (row_count (held_by l) rows == 1),
  update_where (held_by l)
      (λ (r : LeaseRow). record r {
        renewed_at = ms now;
        expires_at = expiry l now;
        process_id = l.process_id;
      })
      rows,
)

unfoldable pub release : Lease → List LeaseRow → Result Bool × List LeaseRow
unfolding row_count delete_where
release l rows = (ok (row_count (held_by l) rows == 1), delete_where (held_by l) rows)

pub record LeaseObservation : Type 0 where
  pub instance_id : String
  pub writer_owner : Option String
  pub expires_at : Option ℕ
  pub stale : Bool

unfoldable pub observe : Lease → ℕ → List LeaseRow → LeaseObservation
unfolding select_one
observe l now rows = elim (select_one (of_instance l.instance_id) rows) [
  | none ↦ record {
    instance_id = l.instance_id;
    writer_owner = none;
    expires_at = none;
    stale = true;
  }
  | some r ↦ record {
    instance_id = l.instance_id;
    writer_owner = some r.owner_id;
    expires_at = some r.expires_at;
    stale = leb (r.expires_at * 1000) now;
  }
]
