-- ===== src/Artifacts/Budget.antt =====
-- What put keeps of the store.
use Prim.Native.String.{len}
use mathlib.Core.Path.{subst}
use infernex_agent.Prelude.{
  ℕ, ◌+◌, ◌≤◌, ◌≡◌, refl, sym, ◌∙◌, Bool, true, false, none, some, String, [], ◌∷◌, inl, inr,
  str_eq, eq_refl, ltb, arith, Bool-cases, Option-cases, if◌then◌else◌, Outcome, ok, err,
}
use infernex_agent.Prelude.Dict.{
  Dict, lookup, lookup-put, put as put_entry, HasUniqueKeys, put-HasUniqueKeys,
}
use infernex_agent.Artifacts.{
  ArtifactRecord, ArtifactStore, ArtifactError, System, limit_exceeded, not_written, not_protected,
  id_of, record_of, added, saved, save, put, Put,
}

abbrev pub total_bytes : Dict ArtifactRecord → ℕ
total_bytes [] = 0
total_bytes ((k, r) ∷ d) = r.bytes + total_bytes d

-- The used bytes are those of the records, within the limit.
pub record IsWithin (s : ArtifactStore) : Type 0 where
  pub unique : HasUniqueKeys s.records
  pub sums_up : s.used_bytes ≡ total_bytes s.records
  pub bounded : s.used_bytes ≤ s.max_session_bytes

put_branch :
    (k : String) (r : ArtifactRecord) (j : String) (q : ArtifactRecord) (d : Dict ArtifactRecord)
    (same : Bool)
    → (lookup k d ≡ none → total_bytes (put_entry k r d) ≡ r.bytes + total_bytes d)
    → (if same then some q else lookup k d) ≡ none
    → total_bytes (if same then (k, r) ∷ d else (j, q) ∷ put_entry k r d)
      ≡ r.bytes + (q.bytes + total_bytes d)
put_branch k r j q d true ih h = absurd (let h' : some q ≡ none = h in cc)
put_branch k r j q d false ih h = let e = ih h in omega arith

total_bytes-put :
    (k : String) (r : ArtifactRecord) (d : Dict ArtifactRecord)
    → lookup k d ≡ none
    → total_bytes (put_entry k r d) ≡ r.bytes + total_bytes d
unfolding put_entry lookup
total_bytes-put k r [] h = refl
total_bytes-put k r ((j, q) ∷ d) h = put_branch k r j q d (str_eq j k) (total_bytes-put k r d) h

module _ (y : System) where
  open y use {World}

  -- What a put leaves of a store.
  pub record Keeps (s : ArtifactStore) (content : String) (s' : ArtifactStore)
      (r : Outcome ArtifactError ArtifactRecord) : Type 0 where
    pub within : IsWithin s'
    pub same_limit : s'.max_session_bytes ≡ s.max_session_bytes
    pub refused : (e : ArtifactError) → r ≡ err e → s' ≡ s
    pub stored : (q : ArtifactRecord) → r ≡ ok q → lookup (id_of y content) s'.records ≡ some q
    pub others :
        (k : String) → str_eq (id_of y content) k ≡ false → lookup k s'.records ≡ lookup k s.records

  added-IsWithin :
      (s : ArtifactStore) (content : String)
      → IsWithin s
      → lookup (id_of y content) s.records ≡ none
      → ltb s.max_session_bytes (s.used_bytes + len content) ≡ false
      → IsWithin (added y s (record_of y s content))
  unfolding added put_entry record_of
  added-IsWithin s content h new room =
      let t = total_bytes-put (id_of y content) (record_of y s content) s.records new in
      let u = h.sums_up in
      record {
        unique = put-HasUniqueKeys (id_of y content) (record_of y s content) s.records h.unique;
        sums_up = omega arith;
        bounded = ground arith;
      }

  kept-Keeps :
      (s : ArtifactStore) (content : String) (e : ArtifactError)
      → IsWithin s
      → Keeps s content s (err e)
  kept-Keeps s content e h = record {
    within = h;
    same_limit = refl;
    refused = λ _ _. refl;
    stored = λ q f. absurd (let f' : err e ≡ ok q = f in cc);
    others = λ _ _. refl;
  }

  found-Keeps :
      (s : ArtifactStore) (content : String) (r : ArtifactRecord)
      → IsWithin s
      → lookup (id_of y content) s.records ≡ some r
      → Keeps s content s (ok r)
  found-Keeps s content r h found = record {
    within = h;
    same_limit = refl;
    refused = λ _ _. refl;
    stored = λ q f. found ∙ (let f' : ok r ≡ ok q = f in cc);
    others = λ _ _. refl;
  }

  added-Keeps :
      (s : ArtifactStore) (content : String)
      → IsWithin s
      → lookup (id_of y content) s.records ≡ none
      → ltb s.max_session_bytes (s.used_bytes + len content) ≡ false
      → Keeps s content (added y s (record_of y s content)) (ok (record_of y s content))
  unfolding added record_of
  added-Keeps s content h new room =
      let id = id_of y content in
      let r = record_of y s content in
      record {
        within = added-IsWithin s content h new room;
        same_limit = refl;
        refused = λ e f. absurd (let f' : ok r ≡ err e = f in cc);
        stored = λ q f.
            let here : lookup id (put_entry id r s.records) ≡ some r =
              lookup-put id id r s.records ∙ rw (eq_refl id, if◌then◌else◌) refl in
            here ∙ (let f' : ok r ≡ ok q = f in cc);
        others = λ k other. lookup-put id k r s.records ∙ rw (other, if◌then◌else◌) refl;
      }

  save_branch :
      (s : ArtifactStore) (content : String) (written protected : Bool) (w v : World)
      → IsWithin s
      → lookup (id_of y content) s.records ≡ none
      → ltb s.max_session_bytes (s.used_bytes + len content) ≡ false
      → let done = saved y s (record_of y s content) written protected w v in
        Keeps s content done.1 done.0
  unfolding saved
  save_branch s content true true w v h new room = added-Keeps s content h new room
  save_branch s content true false w v h new room = kept-Keeps s content not_protected h
  save_branch s content false protected w v h new room = kept-Keeps s content not_written h

  put-found :
      (s : ArtifactStore) (content : String) (w : World) {r : ArtifactRecord}
      → lookup (id_of y content) s.records ≡ some r
      → put y s content w ≡ (ok r, s, w)
  unfolding put
  put-found s content w found = rw (found, put) refl

  put-full :
      (s : ArtifactStore) (content : String) (w : World)
      → lookup (id_of y content) s.records ≡ none
      → ltb s.max_session_bytes (s.used_bytes + len content) ≡ true
      → put y s content w ≡ (err limit_exceeded, s, w)
  unfolding put
  put-full s content w new full = rw (new, full, if◌then◌else◌, put) refl

  put-saved :
      (s : ArtifactStore) (content : String) (w : World)
      → lookup (id_of y content) s.records ≡ none
      → ltb s.max_session_bytes (s.used_bytes + len content) ≡ false
      → put y s content w ≡ save y s content w
  unfolding put
  put-saved s content w new room = rw (new, room, if◌then◌else◌, put) refl

  abbrev Kept : ArtifactStore → String → Put y → Type 0
  Kept s content p = Keeps s content p.1 p.0

  put-Keeps :
      (s : ArtifactStore) (content : String) (w : World)
      → IsWithin s
      → Kept s content (put y s content w)
  unfolding save
  put-Keeps s content w h = elim (Option-cases (lookup (id_of y content) s.records)) [
    | inr (r, found) ↦
        subst (Kept s content) (sym (put-found s content w found)) (found-Keeps s content r h found)
    | inl new ↦ elim (Bool-cases (ltb s.max_session_bytes (s.used_bytes + len content))) [
      | inl full ↦
          subst (Kept s content) (sym (put-full s content w new full))
            (kept-Keeps s content limit_exceeded h)
      | inr room ↦
          subst (Kept s content) (sym (put-saved s content w new room))
            (save_branch s content _ _ _ _ h new room)
    ]
  ]

  -- On a store within its limit, whose used bytes are those of its records, put leaves such a store
  -- with the same limit, on every branch. Where it fails the store is as before. Where it succeeds
  -- the store has the record that is returned under the digest of the content, and to put the
  -- content again, in any world, returns this record and changes nothing. Every other record stays.
  pub put-IsWithin :
      (s : ArtifactStore) (content : String) (w : World)
      → IsWithin s
      → Keeps s content (put y s content w).1 (put y s content w).0
        × ((r : ArtifactRecord) (v : World)
            → (put y s content w).0 ≡ ok r
            → put y (put y s content w).1 content v ≡ (ok r, (put y s content w).1, v))
  put-IsWithin s content w h =
      let k = put-Keeps s content w h in
      (k, λ r v done. put-found (put y s content w).1 content v (k.stored r done))
