-- ===== src/Prelude/Sort.antt =====
-- sort.Strings
use Prim.Native.String.{String, compare as compare_text}
use mathlib.Core.Bool.{Bool, true, false}
use mathlib.Core.List.{List, [], ◌∷◌}
use mathlib.Core.Logic.{inl, inr}
use text.Mathlib.Text.{is_lt}
use infernex_agent.Prelude.Tests.{if◌then◌else◌, Bool-cases}
use infernex_agent.Prelude.Lists.{In}

insert_text : String → List String → List String
insert_text s [] = s ∷ []
insert_text s (t ∷ texts) =
    let rest = insert_text s texts in if is_lt (compare_text t s) then t ∷ rest else s ∷ t ∷ texts

unfoldable pub sort_texts : List String → List String
unfolding insert_text
sort_texts [] = []
sort_texts (s ∷ texts) = insert_text s (sort_texts texts)

insert_text-In :
    (a s : String) (texts : List String) → In a (s ∷ texts) → In a (insert_text s texts)
unfolding insert_text
insert_text-In a s [] h = h
insert_text-In a s (t ∷ texts) h = elim (Bool-cases (is_lt (compare_text t s))) [
  | inr e ↦ rw (e, if◌then◌else◌) h
  | inl e ↦
      rw (e, if◌then◌else◌)
        (elim h [
          | inl same ↦ inr (insert_text-In a s texts (inl same))
          | inr m ↦ elim m [
            | inl here ↦ inl here
            | inr there ↦ inr (insert_text-In a s texts (inr there))
          ]
        ])
]

pub sort_texts-In : (a : String) (texts : List String) → In a texts → In a (sort_texts texts)
unfolding sort_texts
sort_texts-In a [] h = h
sort_texts-In a (s ∷ texts) h =
    insert_text-In a s (sort_texts texts)
      (elim h [ inl e ↦ inl e | inr m ↦ inr (sort_texts-In a texts m) ])

In-branch :
    (a s t : String) (texts : List String) (later : Bool)
    → (In a (insert_text s texts) → In a (s ∷ texts))
    → In a (if later then t ∷ insert_text s texts else s ∷ t ∷ texts)
    → In a (s ∷ t ∷ texts)
In-branch a s t texts false ih h = h
In-branch a s t texts true ih (inl here) = inr (inl here)
In-branch a s t texts true ih (inr m) = elim (ih m) [
  | inl same ↦ inl same
  | inr there ↦ inr (inr there)
]

In-insert_text :
    (a s : String) (texts : List String) → In a (insert_text s texts) → In a (s ∷ texts)
unfolding insert_text
In-insert_text a s [] h = h
In-insert_text a s (t ∷ texts) h =
    In-branch a s t texts (is_lt (compare_text t s)) (In-insert_text a s texts) h

pub In-sort_texts : (a : String) (texts : List String) → In a (sort_texts texts) → In a texts
unfolding sort_texts
In-sort_texts a [] h = h
In-sort_texts a (s ∷ texts) h = elim (In-insert_text a s (sort_texts texts) h) [
  | inl e ↦ inl e
  | inr m ↦ inr (In-sort_texts a texts m)
]
