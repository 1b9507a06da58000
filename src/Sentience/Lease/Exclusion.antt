-- ===== src/Sentience/Lease/Exclusion.antt =====
-- While a lease runs, no other owner gets it, whatever the others do.
use bollywood_hal.Prelude.{
  ℕ, ◌*◌, ◌≡◌, ◌<◌, refl, sym, ap, ◌∙◌, String, Bool, true, false, ◌=s◌, =s_iff, =s_refl, some,
  List, [], ◌∷◌, All, inl, inr, Bool-cases, arith,
}
use mathlib.Core.Path.{subst}
use bollywood_hal.Action.{Result, ok, raised, lease_conflict}
use bollywood_hal.Storage.Table.{select_one, upsert}
use bollywood_hal.Storage.Table.Reads.{
  select_one-upsert, select_one-upsert_other, select_one-update_kept, select_one-delete_kept,
}
use bollywood_hal.Sentience.Lease.{
  LeaseRow, Lease, of_instance, held_by, expiry, conflicts, writer_row, acquire, renew, release,
  observe,
}

-- A call of one of the processes.
pub data LeaseCall : Type 0 where
  acquires renews : Lease → ℕ → LeaseCall
  releases : Lease → LeaseCall

unfoldable pub lease_call : LeaseCall → List LeaseRow → Result Bool × List LeaseRow
lease_call (acquires l now) rows = acquire l now rows
lease_call (renews l now) rows = renew l now rows
lease_call (releases l) rows = release l rows

unfoldable pub lease_calls : List LeaseCall → List LeaseRow → List LeaseRow
lease_calls [] rows = rows
lease_calls (c ∷ cs) rows = lease_calls cs (lease_call c rows).1

-- The call is that of another owner, and the clock of an `acquire` of the instance is before the time.
abbrev pub Rival : Lease → ℕ → LeaseCall → Type 0
Rival l limit (acquires m now) = ((m.owner_id =s l.owner_id) ≡ false) × (now < limit)
Rival l limit (renews m now) = (m.owner_id =s l.owner_id) ≡ false
Rival l limit (releases m) = (m.owner_id =s l.owner_id) ≡ false

-- the first row of the instance is the owner's, with its expiry
abbrev Holds : Lease → ℕ → List LeaseRow → Type 0
Holds l expires rows =
    (r : LeaseRow) × (select_one (of_instance l.instance_id) rows ≡ some r)
    × (r.owner_id ≡ l.owner_id)
    × (r.expires_at ≡ expires)

-- an owner that a call is not of
differ : (a b : String) {c : String} → (a =s b) ≡ false → c ≡ b → (c =s a) ≡ false
differ a b {c} h e = elim (Bool-cases (c =s a)) [
  | inl hit ↦
      let same : (a =s b) ≡ true = (=s_iff a b).1 (sym ((=s_iff c a).0 hit) ∙ e) in
      absurd (ground (arith, same))
  | inr miss ↦ miss
]

conflict :
    (l m : Lease) (expires now : ℕ) (r : LeaseRow)
    → r.owner_id ≡ l.owner_id
    → r.expires_at ≡ expires
    → (m.owner_id =s l.owner_id) ≡ false
    → now < expires * 1000
    → conflicts m now (some r) ≡ true
unfolding conflicts
conflict l m expires now r owner until other early =
    let apart : (r.owner_id =s m.owner_id) ≡ false = differ m.owner_id l.owner_id other owner in
    let running : now < r.expires_at * 1000 = subst (λ (n : ℕ). now < n * 1000) (sym until) early in
    ground (arith, apart, running)

refused :
    (l m : Lease) (expires now : ℕ) (rows : List LeaseRow)
    → Holds l expires rows
    → m.instance_id ≡ l.instance_id
    → (m.owner_id =s l.owner_id) ≡ false
    → now < expires * 1000
    → acquire m now rows ≡ (raised (lease_conflict m.instance_id), rows)
unfolding acquire
refused l m expires now rows (r, found, owner, until) same other early =
    let reads : select_one (of_instance m.instance_id) rows ≡ some r =
      subst (λ (k : String). select_one (of_instance k) rows ≡ some r) (sym same) found in
    let e : conflicts m now (select_one (of_instance m.instance_id) rows) ≡ true =
      ap (conflicts m now) reads ∙ conflict l m expires now r owner until other early in
    rw e refl

-- a write to another instance
elsewhere :
    (l m : Lease) (expires now : ℕ) (rows : List LeaseRow)
    → Holds l expires rows
    → (m.instance_id =s l.instance_id) ≡ false
    → Holds l expires
        (upsert (of_instance m.instance_id) (λ _. writer_row m now) (writer_row m now) rows)
unfolding writer_row
elsewhere l m expires now rows (r, found, owner, until) apart = (
  r,
  select_one-upsert_other (of_instance m.instance_id) (of_instance l.instance_id) (writer_row m now)
        rows apart (λ x hit. rw ((=s_iff x.instance_id m.instance_id).0 hit) apart)
      ∙ found,
  owner,
  until,
)

acquire-Holds :
    (l m : Lease) (expires now : ℕ) (rows : List LeaseRow)
    → Holds l expires rows
    → Rival l (expires * 1000) (acquires m now)
    → Holds l expires (acquire m now rows).1
unfolding acquire
acquire-Holds l m expires now rows h rival = elim (Bool-cases (m.instance_id =s l.instance_id)) [
  | inl same ↦
      subst (Holds l expires)
        (sym (
          ap (λ (o : Result Bool × List LeaseRow). o.1)
            (refused l m expires now rows h ((=s_iff m.instance_id l.instance_id).0 same) rival.0
              rival.1)))
        h
  | inr apart ↦ elim (Bool-cases (conflicts m now (select_one (of_instance m.instance_id) rows))) [
    | inl e ↦ rw e h
    | inr e ↦ rw e (elsewhere l m expires now rows h apart)
  ]
]

lease_call-Holds :
    (l : Lease) (expires : ℕ) (c : LeaseCall) (rows : List LeaseRow)
    → Holds l expires rows
    → Rival l (expires * 1000) c
    → Holds l expires (lease_call c rows).1
unfolding lease_call renew release
lease_call-Holds l expires (acquires m now) rows h rival =
    acquire-Holds l m expires now rows h rival
lease_call-Holds l expires (renews m now) rows (r, found, owner, until) rival = (
  r,
  select_one-update_kept (held_by m) (of_instance l.instance_id) _ rows r (λ x. refl) found
      (ground (arith, differ m.owner_id l.owner_id rival owner)),
  owner,
  until,
)
lease_call-Holds l expires (releases m) rows (r, found, owner, until) rival = (
  r,
  select_one-delete_kept (held_by m) (of_instance l.instance_id) rows r found
      (ground (arith, differ m.owner_id l.owner_id rival owner)),
  owner,
  until,
)

lease_calls-Holds :
    (l : Lease) (expires : ℕ) (cs : List LeaseCall) (rows : List LeaseRow)
    → Holds l expires rows
    → All (Rival l (expires * 1000)) cs
    → Holds l expires (lease_calls cs rows)
unfolding lease_calls
lease_calls-Holds l expires [] rows h rivals = h
lease_calls-Holds l expires (c ∷ cs) rows h rivals =
    lease_calls-Holds l expires cs (lease_call c rows).1
      (lease_call-Holds l expires c rows h rivals.0) rivals.1

acquired :
    (l : Lease) (now : ℕ) (rows after : List LeaseRow)
    → acquire l now rows ≡ (ok true, after)
    → Holds l (expiry l now) after
unfolding acquire writer_row
acquired l now rows after h =
    elim (Bool-cases (conflicts l now (select_one (of_instance l.instance_id) rows))) [
      | inl e ↦ absurd (ground (arith, e))
      | inr e ↦
          let is_after : after
              ≡ upsert (of_instance l.instance_id) (λ _. writer_row l now) (writer_row l now) rows =
            ground (arith, e) in
          (
            writer_row l now,
            ap (select_one (of_instance l.instance_id)) is_after
                ∙ select_one-upsert (of_instance l.instance_id) (writer_row l now) rows
                    (=s_refl l.instance_id),
            refl,
            refl,
          )
    ]

observed :
    (l : Lease) (expires later : ℕ) (rows : List LeaseRow)
    → Holds l expires rows
    → later < expires * 1000
    → ((observe l later rows).writer_owner ≡ some l.owner_id)
      × ((observe l later rows).stale ≡ false)
unfolding observe
observed l expires later rows (r, found, owner, until) early =
    let running : later < r.expires_at * 1000 =
      subst (λ (n : ℕ). later < n * 1000) (sym until) early in
    rw (found, observe) (ap some owner, ground (arith, running))

-- From an `acquire` that succeeds until its expiry, whatever calls the other owners make in whatever
-- order, the observed writer is the owner, and an `acquire` of the instance by another owner raises
-- `LeaseConflict` and leaves the table as it is.
pub lease_exclusion :
    (l m : Lease) (now later : ℕ) (rows after : List LeaseRow) (cs : List LeaseCall)
    → acquire l now rows ≡ (ok true, after)
    → All (Rival l (expiry l now * 1000)) cs
    → m.instance_id ≡ l.instance_id
    → (m.owner_id =s l.owner_id) ≡ false
    → later < expiry l now * 1000
    → ((observe l later (lease_calls cs after)).writer_owner ≡ some l.owner_id)
      × ((observe l later (lease_calls cs after)).stale ≡ false)
      × (acquire m later (lease_calls cs after)
          ≡ (raised (lease_conflict m.instance_id), lease_calls cs after))
lease_exclusion l m now later rows after cs h rivals same other early =
    let held = lease_calls-Holds l (expiry l now) cs after (acquired l now rows after h) rivals in
    (
      (observed l (expiry l now) later (lease_calls cs after) held early).0,
      (observed l (expiry l now) later (lease_calls cs after) held early).1,
      refused l m (expiry l now) later (lease_calls cs after) held same other early,
    )
