-- ===== src/Changes/Examples.antt =====
-- A change that is planned and then applied, with an encoding that can be read back.
use infernex_agent.Prelude.{
  ℕ, ◌≡◌, ◌≢◌, refl, some, String, List, [], ◌∷◌, ok, str_eq, if◌then◌else◌,
}
use infernex_agent.Prelude.Int.{pos}
use infernex_agent.Changes.Record.{ChangeRecord, Target, validate_record}
use infernex_agent.Changes.Memory.{MemoryStore, append as append_memory, latest as latest_memory}
use infernex_agent.Changes.Memory.Latest.{append-latest}
use infernex_agent.Changes.Files.{Codec}
use infernex_agent.Changes.Refinement.Agreement.{
  Agrees, file_store_of, memory_store_of, file_store-Agrees,
}

abbrev target : Target
target = record {
  api_version = "v1";
  kind = "InferNexService";
  namespace = "serving";
  name = "llm";
  uid = "";
}

abbrev change : String → ℕ → ChangeRecord
change status time = record {
  api_version = "agent.infernex.io/v1alpha1";
  kind = "InferNexChange";
  id = "0123456789abcdef0123456789abcdef";
  action = "create";
  status = status;
  target = target;
  before = "null";
  desired = "{}";
  occurred_at = pos time;
  message = "";
}

abbrev records : List ChangeRecord
records = change "planned" 1 ∷ change "applied" 2 ∷ []

abbrev decoded : String → ChangeRecord
decoded s = if str_eq s "planned" then change "planned" 1 else change "applied" 2

abbrev codec : Codec
codec = record { encode = λ r. r.status; decode = λ s. some (decoded s); respaced = λ s. s }

file_store-Agrees_example :
    Agrees codec "0123456789abcdef0123456789abcdef"
      (file_store_of codec records [])
      (memory_store_of codec records [])
file_store-Agrees_example =
    file_store-Agrees codec records "0123456789abcdef0123456789abcdef" (refl, (refl, tt))

abbrev planned : MemoryStore
planned = ("0123456789abcdef0123456789abcdef", change "planned" 1 ∷ []) ∷ []

appended : append_memory [] (change "planned" 1) ≡ ok planned
unfolding append_memory validate_record
appended = refl

append-latest_example :
    (latest_memory planned "0123456789abcdef0123456789abcdef" ≡ ok (change "planned" 1))
    × ((id : String)
        → "0123456789abcdef0123456789abcdef" ≢ id
        → latest_memory planned id ≡ latest_memory [] id)
append-latest_example = append-latest [] planned (change "planned" 1) appended
