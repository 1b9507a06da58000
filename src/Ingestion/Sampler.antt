-- ===== src/Ingestion/Sampler.antt =====
-- `BoundedRepresentativeSampler` of src/hal9000/sentience/sketches/sampling.py. `score` is the number
-- that BLAKE2b makes of the namespace and the ordinal; `list.sort` is a stable insertion sort.
pub mod BottomK
pub mod Restore
use bollywood_hal.Prelude.{
  ℕ, zero, suc, ◌+◌, ◌==◌, String, Bool, true, false, Option, none, some, List, [], ◌∷◌, ◌++◌, map,
  take, ltb, if◌then◌else◌,
}
use bollywood_hal.Action.{Result, ok, raised, value_error}
use bollywood_hal.Storage.Models.{Severity, debug, info, notice, warning, error, critical}

-- `_SEVERITY_RANK`
abbrev pub rank : Severity → ℕ
rank debug = 0
rank info = 1
rank notice = 2
rank warning = 3
rank error = 4
rank critical = 5

pub data SampleKind : Type 0 where
  first latest highest uniform : SampleKind

pub record RepresentativeSample : Type 0 where
  pub kind : SampleKind
  pub ordinal : ℕ
  pub observed_at : ℕ
  pub severity : Severity
  pub value : String

abbrev pub Scored : Type 0
Scored = ℕ × RepresentativeSample

pub record Sampler : Type 0 where
  pub capacity : ℕ
  pub namespace : String
  pub count : ℕ
  pub first : Option RepresentativeSample
  pub latest : Option RepresentativeSample
  pub highest : Option RepresentativeSample
  pub uniform : List Scored

unfoldable pub new_sampler : ℕ → String → Sampler
new_sampler capacity namespace = record {
  capacity = capacity;
  namespace = namespace;
  count = 0;
  first = none;
  latest = none;
  highest = none;
  uniform = [];
}

unfoldable pub insert_scored : Scored → List Scored → List Scored
insert_scored x [] = x ∷ []
insert_scored x (y ∷ ys) =
    let rest = insert_scored x ys in if ltb x.0 y.0 then x ∷ y ∷ ys else y ∷ rest

unfoldable pub sort_onto : List Scored → List Scored → List Scored
unfolding insert_scored
sort_onto [] sorted = sorted
sort_onto (x ∷ xs) sorted = sort_onto xs (insert_scored x sorted)

-- `list.sort(key=lambda item: item[0])`
unfoldable pub sort_scored : List Scored → List Scored
unfolding sort_onto
sort_scored xs = sort_onto xs []

-- An observation, as `update` takes it.
pub record Observation : Type 0 where
  pub value : String
  pub observed_at : ℕ
  pub severity : Severity

unfoldable pub sample : SampleKind → ℕ → Observation → RepresentativeSample
sample kind ordinal o = record {
  kind = kind;
  ordinal = ordinal;
  observed_at = o.observed_at;
  severity = o.severity;
  value = o.value;
}

unfoldable pub keep_first :
    ℕ → Observation → Option RepresentativeSample → Option RepresentativeSample
unfolding sample
keep_first ordinal o none = some (sample SampleKind.first ordinal o)
keep_first ordinal o (some s) = some s

unfoldable pub keep_highest :
    ℕ → Observation → Option RepresentativeSample → Option RepresentativeSample
unfolding sample
keep_highest ordinal o none = some (sample SampleKind.highest ordinal o)
keep_highest ordinal o (some s) =
    if ltb (rank s.severity) (rank o.severity)
    then some (sample SampleKind.highest ordinal o)
    else some s

module _ (score : String → ℕ → ℕ) where
  unfoldable pub update : Observation → Sampler → Sampler
  unfolding sample keep_first keep_highest sort_scored
  update o s = record s {
    count = s.count + 1;
    first = keep_first s.count o s.first;
    latest = some (sample SampleKind.latest s.count o);
    highest = keep_highest s.count o s.highest;
    uniform =
        if s.capacity == 0
        then s.uniform
        else take s.capacity (
            sort_scored
              (s.uniform ++ (score s.namespace s.count, sample SampleKind.uniform s.count o) ∷ []));
  }

  unfoldable pub updates : List Observation → Sampler → Sampler
  updates [] s = s
  updates (o ∷ os) s = updates os (update o s)

abbrev pub present : Option RepresentativeSample → List RepresentativeSample
present none = []
present (some s) = s ∷ []

unfoldable pub samples : Sampler → List RepresentativeSample
samples s =
    present s.first
    ++ (present s.latest ++ (present s.highest ++ map (λ (x : Scored). x.1) s.uniform))

abbrev pub is_kind : SampleKind → SampleKind → Bool
is_kind SampleKind.first SampleKind.first = true
is_kind SampleKind.latest SampleKind.latest = true
is_kind SampleKind.highest SampleKind.highest = true
is_kind SampleKind.uniform SampleKind.uniform = true
is_kind _ _ = false

-- `next((item for item in samples if item.kind == kind), None)`
unfoldable pub find_kind : SampleKind → List RepresentativeSample → Option RepresentativeSample
find_kind k [] = none
find_kind k (s ∷ ss) = if is_kind s.kind k then some s else find_kind k ss

unfoldable pub uniform_of : List RepresentativeSample → List RepresentativeSample
uniform_of [] = []
uniform_of (s ∷ ss) =
    let rest = uniform_of ss in if is_kind s.kind SampleKind.uniform then s ∷ rest else rest

unfoldable pub scored : (String → ℕ → ℕ) → String → List RepresentativeSample → List Scored
scored score namespace = map (λ (x : RepresentativeSample). (score namespace x.ordinal, x))

unfoldable pub restore : (String → ℕ → ℕ) → ℕ → List RepresentativeSample → Sampler → Sampler
unfolding find_kind uniform_of scored sort_scored
restore score total rows s = record s {
  count = total;
  first = find_kind SampleKind.first rows;
  latest = find_kind SampleKind.latest rows;
  highest = find_kind SampleKind.highest rows;
  uniform = sort_scored (scored score s.namespace (take s.capacity (uniform_of rows)));
}
