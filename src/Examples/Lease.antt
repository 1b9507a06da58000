-- ===== src/Examples/Lease.antt =====
-- The exclusion of the lease at a concrete input.
use bollywood_hal.Prelude.{◌≡◌, refl, String, true, false, some, List, [], ◌∷◌, arith}
use bollywood_hal.Action.{ok, raised, lease_conflict}
use bollywood_hal.Storage.Table.{select_one}
use bollywood_hal.Sentience.Lease.{LeaseRow, Lease, acquire, observe, conflicts}
use bollywood_hal.Sentience.Lease.Exclusion.{
  LeaseCall, acquires, renews, releases, lease_calls, lease_exclusion,
}

abbrev lease_of : String → Lease
lease_of owner = record {
  instance_id = "hal";
  boot_id = "boot";
  owner_id = owner;
  ttl_seconds = 10;
  process_id = 1;
}

abbrev rivals : List LeaseCall
rivals =
    acquires (lease_of "second") 4000000
    ∷ releases (lease_of "third")
    ∷ renews (lease_of "second") 9000000
    ∷ []

abbrev held : List LeaseRow
held = (acquire (lease_of "first") 1000000 []).1

granted : acquire (lease_of "first") 1000000 [] ≡ (ok true, held)
unfolding acquire conflicts select_one
granted = refl

lease_exclusion_example :
    ((observe (lease_of "first") 10999999 (lease_calls rivals held)).writer_owner ≡ some "first")
    × ((observe (lease_of "first") 10999999 (lease_calls rivals held)).stale ≡ false)
    × (acquire (lease_of "second") 10999999 (lease_calls rivals held)
        ≡ (raised (lease_conflict "hal"), lease_calls rivals held))
lease_exclusion_example =
    lease_exclusion (lease_of "first") (lease_of "second") 1000000 10999999 [] held rivals granted
      ((refl, omega arith), (refl, (refl, tt))) refl refl (omega arith)
