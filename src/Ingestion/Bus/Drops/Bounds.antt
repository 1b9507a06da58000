-- ===== src/Ingestion/Bus/Drops/Bounds.antt =====
-- The counters of dropped observations stay few and lose no drop.
use bollywood_hal.Prelude.{
  ℕ, ◌+◌, ◌≡◌, ◌≤◌, refl, String, Bool, true, false, =s_iff, List, [], ◌∷◌, ◌++◌, length,
  length-append, ltb, arith, inl, inr, Bool-cases, if◌then◌else◌, if_cases,
}
use bollywood_hal.Storage.Table.{row_count, row_count-append, update_where}
use bollywood_hal.Ingestion.Bus.Drops.{
  DropReason, allocation_exhausted, sampled_out, queue_full, same_reason, DropCounter, has_drop_key,
  is_counted, first_drop, count_again, count_drop, max_counters, record_drop, total,
}

-- how many counters have the key
unfoldable pub counters : String → String → DropReason → List DropCounter → ℕ
unfolding row_count has_drop_key
counters s t r ds = row_count (has_drop_key s t r) ds

-- the counters of the key `("multiple", "multiple", reason)`, over the reasons
unfoldable pub merged : List DropCounter → ℕ
unfolding counters
merged ds =
    counters "multiple" "multiple" allocation_exhausted ds
    + counters "multiple" "multiple" sampled_out ds
    + counters "multiple" "multiple" queue_full ds

-- A key has one counter at most, and only the merged ones go over the limit.
pub record Counters (ds : List DropCounter) : Type 0 where
  pub once : (s t : String) (r : DropReason) → counters s t r ds ≤ 1
  pub few : length ds ≤ max_counters + merged ds

length-update :
    (test : DropCounter → Bool) (f : DropCounter → DropCounter) (ds : List DropCounter)
    → length (update_where test f ds) ≡ length ds
unfolding update_where
length-update test f [] = refl
length-update test f (d ∷ ds) = ground (arith, length-update test f ds)

total-update :
    (test : DropCounter → Bool) (n : ℕ) (ds : List DropCounter)
    → total (update_where test (count_again n) ds) ≡ total ds + row_count test ds
unfolding update_where row_count total
total-update test n [] = omega arith
total-update test n (d ∷ ds) = ground (arith, total-update test n ds)

counters-update :
    (s t : String) (r : DropReason) (test : DropCounter → Bool) (n : ℕ) (ds : List DropCounter)
    → counters s t r (update_where test (count_again n) ds) ≡ counters s t r ds
unfolding update_where counters row_count has_drop_key
counters-update s t r test n [] = refl
counters-update s t r test n (d ∷ ds) = ground (arith, counters-update s t r test n ds)

total-append : (ds es : List DropCounter) → total (ds ++ es) ≡ total ds + total es
unfolding total
total-append [] es = omega arith
total-append (d ∷ ds) es = omega (arith, total-append ds es)

same_reason→eq : (r q : DropReason) → same_reason r q ≡ true → r ≡ q
same_reason→eq allocation_exhausted allocation_exhausted h = refl
same_reason→eq sampled_out sampled_out h = refl
same_reason→eq queue_full queue_full h = refl
same_reason→eq _ _ h = absurd (cc)

-- a counter has no key but its own
key_of :
    (s t : String) (r : DropReason) (d : DropCounter)
    → has_drop_key s t r d ≡ true
    → (d.source ≡ s) × (d.event_type ≡ t) × (d.reason ≡ r)
unfolding has_drop_key
key_of s t r d h =
    ground (arith, (=s_iff d.source s).0, (=s_iff d.event_type t).0, same_reason→eq d.reason r)

counters-new :
    (s t : String) (r : DropReason) (d : DropCounter) (ds : List DropCounter)
    → counters s t r (ds ++ d ∷ [])
      ≡ (if has_drop_key s t r d then counters s t r ds + 1 else counters s t r ds)
unfolding counters row_count
counters-new s t r d ds = ground (arith, row_count-append (has_drop_key s t r) ds (d ∷ []))

uncounted :
    (s t : String) (r : DropReason) (ds : List DropCounter)
    → is_counted s t r ds ≡ false
    → counters s t r ds ≡ 0
unfolding is_counted counters
uncounted s t r ds h = ground (arith, h)

new-once :
    (s t s' t' : String) (r r' : DropReason) (n : ℕ) (ds : List DropCounter)
    → counters s' t' r' ds ≡ 0
    → counters s t r ds ≤ 1
    → counters s t r (ds ++ first_drop s' t' r' n ∷ []) ≤ 1
new-once s t s' t' r r' n ds none once =
    elim (Bool-cases (has_drop_key s t r (first_drop s' t' r' n))) [
      | inl its ↦
          let (es, et, er) = key_of s t r (first_drop s' t' r' n) its in
          let zero : counters s t r ds ≡ 0 = rw⁻¹ (es, et, er) none in
          ground (arith, counters-new s t r (first_drop s' t' r' n) ds, its, zero)
      | inr other ↦ ground (arith, counters-new s t r (first_drop s' t' r' n) ds, other, once)
    ]

count_drop-once :
    (s t s' t' : String) (r r' : DropReason) (n : ℕ) (ds : List DropCounter)
    → counters s t r ds ≤ 1
    → counters s t r (count_drop s' t' r' n ds) ≤ 1
unfolding count_drop
count_drop-once s t s' t' r r' n ds once = elim (Bool-cases (is_counted s' t' r' ds)) [
  | inl old ↦ rw (old, counters-update s t r (has_drop_key s' t' r') n ds) once
  | inr fresh ↦ rw fresh (new-once s t s' t' r r' n ds (uncounted s' t' r' ds fresh) once)
]

-- Counting a drop adds one to the total.
count_drop-total :
    (s t : String) (r : DropReason) (n : ℕ) (ds : List DropCounter)
    → Counters ds
    → total (count_drop s t r n ds) ≡ total ds + 1
unfolding count_drop is_counted counters total
count_drop-total s t r n ds k = elim (Bool-cases (is_counted s t r ds)) [
  | inl old ↦ ground (arith, old, total-update (has_drop_key s t r) n ds, k.once s t r)
  | inr fresh ↦ ground (arith, fresh, total-append ds (first_drop s t r n ∷ []))
]

merged-update :
    (test : DropCounter → Bool) (n : ℕ) (ds : List DropCounter)
    → merged (update_where test (count_again n) ds) ≡ merged ds
unfolding merged
merged-update test n ds = omega (
  arith,
  counters-update "multiple" "multiple" allocation_exhausted test n ds,
  counters-update "multiple" "multiple" sampled_out test n ds,
  counters-update "multiple" "multiple" queue_full test n ds,
)

merged-new :
    (r : DropReason) (n : ℕ) (ds : List DropCounter)
    → merged (ds ++ first_drop "multiple" "multiple" r n ∷ []) ≡ merged ds + 1
unfolding merged has_drop_key
merged-new allocation_exhausted n ds = ground (
  arith,
  counters-new "multiple" "multiple" allocation_exhausted
      (first_drop "multiple" "multiple" allocation_exhausted n) ds,
  counters-new "multiple" "multiple" sampled_out
      (first_drop "multiple" "multiple" allocation_exhausted n) ds,
  counters-new "multiple" "multiple" queue_full
      (first_drop "multiple" "multiple" allocation_exhausted n) ds,
)
merged-new sampled_out n ds = ground (
  arith,
  counters-new "multiple" "multiple" allocation_exhausted
      (first_drop "multiple" "multiple" sampled_out n) ds,
  counters-new "multiple" "multiple" sampled_out (first_drop "multiple" "multiple" sampled_out n)
      ds,
  counters-new "multiple" "multiple" queue_full (first_drop "multiple" "multiple" sampled_out n) ds,
)
merged-new queue_full n ds = ground (
  arith,
  counters-new "multiple" "multiple" allocation_exhausted
      (first_drop "multiple" "multiple" queue_full n) ds,
  counters-new "multiple" "multiple" sampled_out (first_drop "multiple" "multiple" queue_full n) ds,
  counters-new "multiple" "multiple" queue_full (first_drop "multiple" "multiple" queue_full n) ds,
)

count_drop-few :
    (s t : String) (r : DropReason) (n : ℕ) (ds : List DropCounter)
    → Counters ds
    → ltb (length ds) max_counters ≡ true
    → length (count_drop s t r n ds) ≤ max_counters + merged (count_drop s t r n ds)
unfolding count_drop
count_drop-few s t r n ds k room = elim (Bool-cases (is_counted s t r ds)) [
  | inl old ↦
      rw
        (
          old,
          length-update (has_drop_key s t r) (count_again n) ds,
          merged-update (has_drop_key s t r) n ds,
        )
        k.few
  | inr fresh ↦ rw fresh (ground (arith, room, length-append ds (first_drop s t r n ∷ [])))
]

merge-few :
    (r : DropReason) (n : ℕ) (ds : List DropCounter)
    → Counters ds
    → length (count_drop "multiple" "multiple" r n ds)
      ≤ max_counters + merged (count_drop "multiple" "multiple" r n ds)
unfolding count_drop
merge-few r n ds k = elim (Bool-cases (is_counted "multiple" "multiple" r ds)) [
  | inl old ↦
      rw
        (
          old,
          length-update (has_drop_key "multiple" "multiple" r) (count_again n) ds,
          merged-update (has_drop_key "multiple" "multiple" r) n ds,
        )
        k.few
  | inr fresh ↦
      rw (fresh, merged-new r n ds)
        (ground (arith, k.few, length-append ds (first_drop "multiple" "multiple" r n ∷ [])))
]

old-few :
    (s t : String) (r : DropReason) (n : ℕ) (ds : List DropCounter)
    → Counters ds
    → is_counted s t r ds ≡ true
    → length (count_drop s t r n ds) ≤ max_counters + merged (count_drop s t r n ds)
unfolding count_drop
old-few s t r n ds k old =
    rw
      (
        old,
        length-update (has_drop_key s t r) (count_again n) ds,
        merged-update (has_drop_key s t r) n ds,
      )
      k.few

pub record_drop-Counters :
    (s t : String) (r : DropReason) (n : ℕ) (ds : List DropCounter)
    → Counters ds
    → Counters (record_drop s t r n ds)
unfolding record_drop
record_drop-Counters s t r n ds k =
    if_cases Counters (is_counted s t r ds) (count_drop s t r n ds) _
      (λ old. counted (old-few s t r n ds k old))
      (λ fresh.
        if_cases Counters (ltb (length ds) max_counters) (count_drop s t r n ds) _
          (λ room. counted (count_drop-few s t r n ds k room))
          (λ full. record {
            once = λ a b q. count_drop-once a b "multiple" "multiple" q r n ds (k.once a b q);
            few = merge-few r n ds k;
          }))
  where
    counted :
        length (count_drop s t r n ds) ≤ max_counters + merged (count_drop s t r n ds)
        → Counters (count_drop s t r n ds)
    counted few = record {
      once = λ a b q. count_drop-once a b s t q r n ds (k.once a b q);
      few = few;
    }

-- A recorded drop adds one to the total, whichever counter takes it.
pub record_drop-total :
    (s t : String) (r : DropReason) (n : ℕ) (ds : List DropCounter)
    → Counters ds
    → total (record_drop s t r n ds) ≡ total ds + 1
unfolding record_drop
record_drop-total s t r n ds k =
    ground (arith, count_drop-total s t r n ds k, count_drop-total "multiple" "multiple" r n ds k)

pub Counters-empty : Counters []
unfolding counters row_count
Counters-empty = record { once = λ s t r. omega arith; few = omega arith }

-- Three counters over the limit at most, one for each reason.
pub Counters-length : (ds : List DropCounter) → Counters ds → length ds ≤ 131
unfolding merged
Counters-length ds k = omega (
  arith,
  k.few,
  k.once "multiple" "multiple" allocation_exhausted,
  k.once "multiple" "multiple" sampled_out,
  k.once "multiple" "multiple" queue_full,
)
