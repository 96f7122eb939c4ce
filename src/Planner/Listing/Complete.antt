-- ===== src/Planner/Listing/Complete.antt =====
-- The pagination loop ends within its fuel, and what it returns is the whole chain of pages.
use infernex_agent.Prelude.{
  ℕ, zero, suc, ◌+◌, ◌<◌, ◌≤◌, ◌≡◌, ◌≢◌, refl, sym, ap, ◌∙◌, Bool, Option, none, some, String, List,
  [], ◌++◌, eq_iff, length, arith, Outcome, ok, err, ◌⊎◌, inl, inr,
}
use mathlib.Core.Path.{subst}
use mathlib.Core.List.{append_assoc}
use infernex_agent.Planner.Listing.{
  Page, Listing, ListError, out_of_fuel, Next, stop, go_on, after_page, resume, list_pages,
  list_all,
}

-- The chain of pages that starts at a token: each page is read with the token of the one before
-- it, and the last has none. `items` are those of all the pages, in order.
pub data Reads {W A : Type 0} (list : String → W → Option (Page A) × W)
    : String → W → List A → W → Type 0 where
  last :
      {token : String} {w w' : W} {page : Page A}
      → list token w ≡ (some page, w')
      → page.continue_token ≡ ""
      → Reads list token w page.items w'
  more :
      {token : String} {w w' w'' : W} {page : Page A} {items : List A}
      → list token w ≡ (some page, w')
      → page.continue_token ≢ ""
      → Reads list page.continue_token w' items w''
      → Reads list token w (page.items ++ items) w''

module _ {A : Type 0} (keeps_version : Bool) where
  after_page-not-fuel :
      (limit : ℕ) (token : String) (seen : List String) (result : Listing A)
      (page : Option (Page A))
      → after_page keeps_version limit token seen result page ≢ stop (err out_of_fuel)
  unfolding after_page
  after_page-not-fuel limit token seen result none h = cc
  after_page-not-fuel limit token seen result (some page) h = ground arith

  after_page-seen :
      (limit : ℕ) (token : String) (seen : List String) (result : Listing A)
      (page : Option (Page A)) {result' : Listing A} {seen' : List String} {token' : String}
      → after_page keeps_version limit token seen result page ≡ go_on token' seen' result'
      → (length seen' ≡ suc (length seen)) × (length seen' ≤ limit)
  unfolding after_page
  after_page-seen limit token seen result none h = cc
  after_page-seen limit token seen result (some page) h = ground arith

  after_page-stop :
      (limit : ℕ) (token : String) (seen : List String) (result : Listing A)
      (read : Option (Page A)) {r : Listing A}
      → after_page keeps_version limit token seen result read ≡ stop (ok r)
      → (page : Page A) × (read ≡ some page)
        × (page.continue_token ≡ "")
        × (r.items ≡ result.items ++ page.items)
        × (length r.items ≤ limit)
  unfolding after_page
  after_page-stop limit token seen result none h = cc
  after_page-stop limit token seen result (some page) h =
      (page, refl, ground (arith, eq_iff page.continue_token ""), ground arith, ground arith)

  after_page-go_on :
      (limit : ℕ) (token : String) (seen : List String) (result : Listing A)
      (read : Option (Page A)) {result' : Listing A} {seen' : List String} {token' : String}
      → after_page keeps_version limit token seen result read ≡ go_on token' seen' result'
      → (page : Page A) × (read ≡ some page)
        × (token' ≡ page.continue_token)
        × (page.continue_token ≢ "")
        × (result'.items ≡ result.items ++ page.items)
  unfolding after_page
  after_page-go_on limit token seen result none h = cc
  after_page-go_on limit token seen result (some page) h =
      (page, refl, ground arith, ground (arith, eq_iff page.continue_token ""), ground arith)

module _ {W A : Type 0} where
  resume-not-fuel :
      (k : String → List String → Listing A → W → Outcome ListError (Listing A) × W) (w : W)
      (n : Next A)
      → n ≢ stop (err out_of_fuel)
      → ((t : String) (s : List String) (r : Listing A)
          → n ≡ go_on t s r
          → (k t s r w).0 ≢ err out_of_fuel)
      → (resume k w n).0 ≢ err out_of_fuel
  resume-not-fuel k w (stop r) a b e = a (ap stop e)
  resume-not-fuel k w (go_on t s r) a b e = b t s r refl e

  resume-eq-ok :
      (k : String → List String → Listing A → W → Outcome ListError (Listing A) × W) (w : W)
      (n : Next A) {r : Listing A} {w' : W}
      → resume k w n ≡ (ok r, w')
      → ((n ≡ stop (ok r)) × (w ≡ w'))
        ⊎ ((t : String) × (s : List String) × (r' : Listing A) × (n ≡ go_on t s r')
            × (k t s r' w ≡ (ok r, w')))
  resume-eq-ok k w (stop x) h = inl (ap (λ p. stop p.0) h, ap (λ p. p.1) h)
  resume-eq-ok k w (go_on t s r') h = inr (t, s, r', refl, h)

module _ {W A : Type 0} (keeps_version : Bool) (list : String → W → Option (Page A) × W) where
  list_pages-not-fuel :
      (limit fuel : ℕ) (token : String) (seen : List String) (result : Listing A) (w : W)
      → limit < fuel + length seen
      → length seen ≤ limit
      → (list_pages keeps_version list limit fuel token seen result w).0 ≢ err out_of_fuel
  unfolding list_pages
  list_pages-not-fuel limit zero token seen result w f s = absurd (omega arith)
  list_pages-not-fuel limit (suc fuel) token seen result w f s =
      let (page, w') = list token w in
      resume-not-fuel (list_pages keeps_version list limit fuel) w'
        (after_page keeps_version limit token seen result page)
        (after_page-not-fuel keeps_version limit token seen result page)
        λ t s' r e.
          list_pages-not-fuel limit fuel t s' r w'
            (omega (arith, after_page-seen keeps_version limit token seen result page e))
            (omega (arith, after_page-seen keeps_version limit token seen result page e))

  -- Whatever the cluster answers, the loop ends by itself: the fuel, one more than the limit, is
  -- never used up.
  pub list_all-total :
      (limit : ℕ) (w : W) → (list_all keeps_version list limit w).0 ≢ err out_of_fuel
  unfolding list_all
  list_all-total limit w =
      list_pages-not-fuel limit (suc limit) "" [] (record { items = []; resource_version = "" }) w
        (omega arith) (omega arith)

  abbrev IsWhole : ℕ → String → W → Listing A → Listing A → W → Type 0
  IsWhole limit token w result r w' =
      (items : List A) × Reads list token w items w'
      × (r.items ≡ result.items ++ items)
      × (length r.items ≤ limit)

  IsWhole-last :
      (limit : ℕ) (token : String) (seen : List String) (result : Listing A) (w : W) {r : Listing A}
      {w' : W}
      → after_page keeps_version limit token seen result (list token w).0 ≡ stop (ok r)
      → (list token w).1 ≡ w'
      → IsWhole limit token w result r w'
  IsWhole-last limit token seen result w e e' =
      let (page, read, ends, items, bound) =
        after_page-stop keeps_version limit token seen result (list token w).0 e in
      (page.items, last (λ i. (read i, e' i)) ends, items, bound)

  IsWhole-more :
      (limit : ℕ) (token : String) (seen : List String) (result : Listing A) (w : W) {t : String}
      {s : List String} {r' : Listing A} (r : Listing A) {w' : W}
      → after_page keeps_version limit token seen result (list token w).0 ≡ go_on t s r'
      → IsWhole limit t (list token w).1 r' r w'
      → IsWhole limit token w result r w'
  IsWhole-more limit token seen result w r {w' = w'} e (items, reads, eq, bound) =
      let (page, read, token_eq, on, sum) =
        after_page-go_on keeps_version limit token seen result (list token w).0 e in
      (
        page.items ++ items,
        more (λ i. (read i, (list token w).1)) on
            (subst (λ x. Reads list x (list token w).1 items w') token_eq reads),
        eq ∙ ap (λ xs. xs ++ items) sum ∙ append_assoc result.items page.items items,
        bound,
      )

  list_pages-IsWhole :
      (limit fuel : ℕ) (token : String) (seen : List String) (result : Listing A) (w : W)
      {r : Listing A} {w' : W}
      → list_pages keeps_version list limit fuel token seen result w ≡ (ok r, w')
      → IsWhole limit token w result r w'
  unfolding list_pages
  list_pages-IsWhole limit zero token seen result w {r = r} h = cc
  list_pages-IsWhole limit (suc fuel) token seen result w {r = r} h =
      elim (resume-eq-ok (list_pages keeps_version list limit fuel) (list token w).1
        (after_page keeps_version limit token seen result (list token w).0) h) [
          | inl (e, e') ↦ IsWhole-last limit token seen result w e e'
          | inr (t, s, r', e, k) ↦
              IsWhole-more limit token seen result w r e
                (list_pages-IsWhole limit fuel t s r' (list token w).1 k)
        ]

  -- A list that is returned holds the items of every page of the chain, in order and no others,
  -- and not more than the limit.
  pub list_all-Reads :
      (limit : ℕ) (w : W) {r : Listing A} {w' : W}
      → list_all keeps_version list limit w ≡ (ok r, w')
      → Reads list "" w r.items w' × (length r.items ≤ limit)
  unfolding list_all
  list_all-Reads limit w {w' = w'} h =
      let (items, reads, eq, bound) =
        list_pages-IsWhole limit (suc limit) "" [] (record { items = []; resource_version = "" }) w
          h in
      (subst (λ xs. Reads list "" w xs w') (sym eq) reads, bound)
