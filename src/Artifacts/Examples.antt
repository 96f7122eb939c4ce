-- ===== src/Artifacts/Examples.antt =====
-- A session with one artifact, in a limit of ten bytes.
use infernex_agent.Prelude.{ℕ, suc, ◌≡◌, refl, true, Option, some, String, [], ◌∷◌, arith, ok, err}
use infernex_agent.Artifacts.{
  ArtifactRecord, ArtifactStore, System, limit_exceeded, record_of, added, put,
}
use infernex_agent.Prelude.Dict.{lookup}
use infernex_agent.Artifacts.Budget.{IsWithin, Keeps, put-IsWithin}

abbrev system : System
system = record {
  World = ℕ;
  sum = λ content. content;
  join = λ directory name. name;
  write = λ path content w. (true, suc w);
  protect = λ path w. (true, w);
  open_file = λ path w. some "a\nb";
  lower = λ s. s;
}

abbrev log : ArtifactRecord
log = record { id = "sha256:a\nb"; sha256 = "a\nb"; path = "a\nb.log"; bytes = 3; lines = 2 }

abbrev session : ArtifactStore
session = record {
  directory = "session";
  max_session_bytes = 10;
  used_bytes = 3;
  records = ("sha256:a\nb", log) ∷ [];
}

abbrev empty_session : ArtifactStore
empty_session = record session { used_bytes = 0; records = [] }

-- The first artifact is saved, and one that does not fit is refused.
first_put : put system empty_session "a\nb" 0 ≡ (ok log, session, 1)
unfolding put record_of added
first_put = refl

too_large : put system session "12345678" 1 ≡ (err limit_exceeded, session, 1)
unfolding put
too_large = refl

session-IsWithin : IsWithin session
unfolding lookup
session-IsWithin = record { unique = (refl, tt); sums_up = refl; bounded = omega arith }

put-IsWithin_example :
    Keeps system session "c" (put system session "c" 1).1 (put system session "c" 1).0
    × ((r : ArtifactRecord) (v : ℕ)
        → (put system session "c" 1).0 ≡ ok r
        → put system (put system session "c" 1).1 "c" v ≡ (ok r, (put system session "c" 1).1, v))
put-IsWithin_example = put-IsWithin system session "c" 1 session-IsWithin

-- A file system of one file, which is what was written last, and a digest of one character.
abbrev one_file : System
one_file = record {
  World = Option String;
  sum = λ content. "d";
  join = λ directory name. name;
  write = λ path content w. (true, some content);
  protect = λ path w. (true, w);
  open_file = λ path w. w;
  lower = λ s. s;
}

abbrev three_lines : String
three_lines = "a\nbc\r\nd"
