-- ===== src/Changes/Record.antt =====
-- ChangeRecord, validateRecord and validID of internal/changesafety/store.go. A time is a number of
-- nanoseconds, 0 for the zero time.
use Prim.Native.String.{len}
use infernex_agent.Prelude.{
  ℕ, Bool, not, ◌&&◌, ◌||◌, String, List, [], ◌∷◌, str_eq, any, all, leb, ◌==◌, Outcome, ◌>>◌,
  reject,
}
use infernex_agent.Prelude.Text.{codes}
use infernex_agent.Prelude.Int.{ℤ, pos, eqb_ℤ}

pub record Target : Type 0 where
  pub api_version : String
  pub kind : String
  pub namespace : String
  pub name : String
  pub uid : String

-- `before` and `desired` are JSON texts.
pub record ChangeRecord : Type 0 where
  pub api_version : String
  pub kind : String
  pub id : String
  pub action : String
  pub status : String
  pub target : Target
  pub before : String
  pub desired : String
  pub occurred_at : ℤ
  pub message : String

pub data ChangeError : Type 0 where
  invalid_id unsupported_type invalid_status no_time : ChangeError
  not_found no_events not_decoded not_unique : ChangeError

-- hex.DecodeString takes digits of both cases.
is_hex : ℕ → Bool
is_hex c = leb b'0' c && leb c b'9' || (leb b'a' c && leb c b'f' || leb b'A' c && leb c b'F')

unfoldable pub valid_id : String → Bool
unfolding is_hex all
valid_id id = len id == 32 && all is_hex (codes id)

abbrev pub known_statuses : List String
known_statuses =
    "planned" ∷ "applied" ∷ "committed" ∷ "apply-failed" ∷ "rolled-back" ∷ "rollback-failed" ∷ []

unfoldable pub validate_record : ChangeRecord → Outcome ChangeError (Unit {0})
unfolding valid_id any
validate_record r = do
  reject (not (valid_id r.id)) invalid_id
  reject
      (not (str_eq r.api_version "agent.infernex.io/v1alpha1")
        || not (str_eq r.kind "InferNexChange"))
      unsupported_type
  reject (not (any (str_eq r.status) known_statuses)) invalid_status
  reject (eqb_ℤ r.occurred_at (pos 0)) no_time

-- The change may have to be rolled back.
abbrev pub is_pending : ChangeRecord → Bool
is_pending r = str_eq r.status "planned" || str_eq r.status "applied"
