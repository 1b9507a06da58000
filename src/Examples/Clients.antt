-- ===== src/Examples/Clients.antt =====
-- The theorems of the model router, the token budget and the speech chunker at concrete inputs.
use bollywood_hal.Prelude.{
  ℕ, ◌+◌, ◌≡◌, ◌≤◌, refl, max, min, String, true, false, ◌==◌, none, some, List, [], ◌∷◌, ◌++◌,
  length, leb, ltb, ◌&&◌, All, arith,
}
use bollywood_hal.Action.{ok}
use bollywood_hal.Hermes.Router.{ModelOption, ResourceSnapshot, RouterSettings, local_decision}
use bollywood_hal.Hermes.Router.Local.{Answer, local_decision-Answer}
use bollywood_hal.Retrieval.TokenBudget.{
  Utf8, TokenBudget, new_budget, take_text, take_texts, take_texts-used,
}
use bollywood_hal.Speech.Chunker.{Text, Chars, find_boundary}
use bollywood_hal.Speech.Chunker.Feed.{SpeechChunker, concat, speak, feed, feed-settles}

abbrev local_only : RouterSettings ℕ
local_only = record {
  enabled = true;
  policy = "task_aware";
  resource_policy = "offline_local";
  default_provider = "remote";
  default_model = "small";
  default_reasoning = "low";
  complex_provider = "remote";
  complex_model = "large";
  complex_reasoning = "high";
  is_stale = λ now observed. ltb (observed + 30) now;
  exceeds = λ estimate free. ltb free (estimate + 1024);
  lowered = λ s. s;
}

abbrev model_of : String → ℕ → ModelOption
model_of name memory = record {
  provider = "ollama";
  model = name;
  authenticated = true;
  available = true;
  local = true;
  resident_memory_mb = some memory;
}

abbrev models : List ModelOption
models = model_of "large" 9000 ∷ model_of "small" 3000 ∷ model_of "huge" 40000 ∷ []

abbrev fresh : ResourceSnapshot ℕ
fresh = record { free_ram_mb = 16000; free_vram_mb = 8000; observed_monotonic = 100 }

local_decision-Answer_example :
    Answer local_only
      (max 16000 8000)
      models
      (local_decision local_only "id" "general" models (some fresh) 110)
local_decision-Answer_example =
    local_decision-Answer local_only "id" "general" models fresh 110 refl refl

-- texts that are known by their lengths
abbrev lengths : Utf8 ℕ
lengths = record {
  empty = 0;
  bytes = λ n. n;
  clip = min;
  ellipsis = λ n. n + 3;
  bytes_clip = λ n s. omega arith;
  bytes_ellipsis = λ s. refl;
}

abbrev budget : TokenBudget
budget = record { requested = 20; used = 0 }

budget_is_new : new_budget 20 ≡ ok budget
unfolding new_budget
budget_is_new = refl

take_texts-used_example : (take_texts lengths ((8, 100) ∷ (8, 5) ∷ []) budget).used ≤ 21
take_texts-used_example = take_texts-used lengths 20 budget budget_is_new ((8, 100) ∷ (8, 5) ∷ [])

-- a cut text of 48 bytes and its ellipsis cost 13 tokens where 12 are left
take_text_over : (take_text lengths 8 100 budget).1.used ≡ 21
unfolding take_text
take_text_over = refl

abbrev ascii : Chars
ascii = record {
  is_space = λ c. c == 32;
  is_digit = λ c. leb 48 c && leb c 57;
  last_token = λ _. none;
  is_letter = λ _. false;
  spoken = λ t. t;
}

abbrev waiting : SpeechChunker
waiting = record { max_chars = 80; buffer = 72 ∷ 105 ∷ [] }

-- ". Yo"
abbrev delta : Text
delta = 46 ∷ 32 ∷ 89 ∷ 111 ∷ []

feed-settles_example :
    (pieces : List Text) × ((feed ascii delta waiting).0 ≡ speak ascii pieces)
    × (concat pieces ++ (feed ascii delta waiting).1.buffer ≡ waiting.buffer ++ delta)
    × (find_boundary ascii 80 (feed ascii delta waiting).1.buffer ≡ 0)
    × All (λ r. 1 ≤ length r) pieces
feed-settles_example = feed-settles ascii delta waiting

feed_hi : (feed ascii delta waiting).0 ≡ (72 ∷ 105 ∷ 46 ∷ []) ∷ []
unfolding feed
feed_hi = refl
