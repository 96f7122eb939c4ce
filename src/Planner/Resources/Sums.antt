-- ===== src/Planner/Resources/Sums.antt =====
-- What the operations on resource lists do to the amount of one resource.
use infernex_agent.Prelude.{
  ◌≡◌, sym, Bool, true, false, String, [], ◌∷◌, none, some, str_eq, eq_iff, arith, if◌then◌else◌,
  Bool-cases, Option-cases, inl, inr, eq_refl, ◌∙◌,
}
use infernex_agent.Prelude.Dict.{HasUniqueKeys, lookup, put, lookup-put, put-HasUniqueKeys}
use infernex_agent.Prelude.Int.{
  ℤ, pos, ◌+ℤ◌, ◌-ℤ◌, ◌≤ℤ◌, ltb_ℤ, max_ℤ, +ℤ_zero, -ℤ_zero, max_ℤ_zero, +ℤ_nonneg, max_ℤ_zero_left,
  max_ℤ_nonneg,
}
use infernex_agent.Planner.Quantity.{QuantityApi}
use infernex_agent.Planner.Resources.{
  is_above, ResourceList, quantity, add_resources, subtract_resources, max_resources, fits,
}

module _ (q : QuantityApi) where
  open q use {Quantity, nanos, nil, add, sub, less, nanos-nil, nanos-add, nanos-sub, less_lem}

  -- The amount of a resource in a list, in nano-units: 0 where the list lacks it.
  unfoldable pub amount : String → ResourceList q → ℤ
  amount name list = nanos (quantity q name list)

  pub amount-nil : (name : String) → amount name [] ≡ pos 0
  unfolding amount quantity lookup
  amount-nil name = nanos-nil

  pub amount-cons :
      (name j : String) (x : Quantity) (list : ResourceList q)
      → amount name ((j, x) ∷ list) ≡ (if str_eq j name then nanos x else amount name list)
  unfolding amount quantity lookup
  amount-cons name j x list = ground arith

  pub amount-put :
      (name j : String) (x : Quantity) (list : ResourceList q)
      → amount name (put j x list) ≡ (if str_eq j name then nanos x else amount name list)
  unfolding amount quantity
  amount-put name j x list = ground (arith, lookup-put j name x list)

  amount_of_missing :
      (name : String) (list : ResourceList q) → lookup name list ≡ none → amount name list ≡ pos 0
  unfolding amount quantity
  amount_of_missing name list h = ground (arith, nanos-nil)

  pub amount-add_resources :
      (name : String) (target addition : ResourceList q)
      → HasUniqueKeys addition
      → amount name (add_resources q target addition) ≡ amount name target +ℤ amount name addition
  unfolding add_resources
  amount-add_resources name target [] h = rw (amount-nil name) (sym (+ℤ_zero _))
  amount-add_resources name target ((j, x) ∷ addition) h =
      let target' = put j (add (quantity q j target) x) target in
      rw (amount-add_resources name target' addition h.1) (
        unfold amount in
        ground (
          arith,
          amount-put name j (add (quantity q j target) x) target,
          amount-cons name j x addition,
          nanos-add (quantity q j target) x,
          eq_iff j name,
          amount_of_missing j addition,
          +ℤ_zero (amount name target'),
        ))

  pub amount-subtract_resources :
      (name : String) (target subtraction : ResourceList q)
      → HasUniqueKeys subtraction
      → amount name (subtract_resources q target subtraction)
        ≡ amount name target -ℤ amount name subtraction
  unfolding subtract_resources
  amount-subtract_resources name target [] h = rw (amount-nil name) (sym (-ℤ_zero _))
  amount-subtract_resources name target ((j, x) ∷ subtraction) h =
      let target' = put j (sub (quantity q j target) x) target in
      rw (amount-subtract_resources name target' subtraction h.1) (
        unfold amount in
        ground (
          arith,
          amount-put name j (sub (quantity q j target) x) target,
          amount-cons name j x subtraction,
          nanos-sub (quantity q j target) x,
          eq_iff j name,
          amount_of_missing j subtraction,
          -ℤ_zero (amount name target'),
        ))

  pub add_resources-HasUniqueKeys :
      (target addition : ResourceList q)
      → HasUniqueKeys target
      → HasUniqueKeys (add_resources q target addition)
  unfolding add_resources
  add_resources-HasUniqueKeys target [] h = h
  add_resources-HasUniqueKeys target ((j, x) ∷ addition) h =
      add_resources-HasUniqueKeys (put j (add (quantity q j target) x) target) addition
        (put-HasUniqueKeys j _ target h)

  -- A fitting request is covered in every resource, and one that does not fit lacks some.
  pub fits-amount :
      (name : String) (available requests : ResourceList q) (x : Quantity)
      → fits q available requests ≡ true
      → lookup name requests ≡ some x
      → nanos x ≤ℤ amount name available
  unfolding fits lookup amount
  fits-amount name available [] x h e = cc
  fits-amount name available ((j, y) ∷ requests) x h e = ground (
    arith,
    eq_iff j name,
    less_lem (quantity q j available) y,
    fits-amount name available requests x,
  )

  abbrev pub Lacks : ResourceList q → ResourceList q → Type 0
  Lacks available requests =
      (name : String) × (x : Quantity) × (lookup name requests ≡ some x)
      × (ltb_ℤ (amount name available) (nanos x) ≡ true)

  Lacks-tail :
      (available requests : ResourceList q) (j : String) (y : Quantity)
      → lookup j requests ≡ none
      → Lacks available requests
      → Lacks available ((j, y) ∷ requests)
  unfolding lookup
  Lacks-tail available requests j y h (name, x, e, l) = (name, x, ground (arith, eq_iff j name), l)

  pub fits-Lacks :
      (available requests : ResourceList q)
      → HasUniqueKeys requests
      → fits q available requests ≡ false
      → Lacks available requests
  unfolding fits lookup amount
  fits-Lacks available [] u h = cc
  fits-Lacks available ((j, y) ∷ requests) u h =
      elim (Bool-cases (less (quantity q j available) y)) [
        | inl short ↦ (j, y, rw eq_refl, sym (less_lem (quantity q j available) y) ∙ short)
        | inr enough ↦
            Lacks-tail available requests j y u.0 (fits-Lacks available requests u.1 (ground arith))
      ]

  abbrev pub IsNonNegative : ResourceList q → Type 0
  IsNonNegative [] = Unit
  IsNonNegative ((j, x) ∷ list) = (pos 0 ≤ℤ nanos x) × IsNonNegative list

  -- One round of the loop.
  abbrev raise : String → Quantity → ResourceList q → ResourceList q
  raise j x target = if is_above q x target j then put j x target else target

  amount-raise :
      (name j : String) (x : Quantity) (target : ResourceList q)
      → pos 0 ≤ℤ nanos x
      → amount name (raise j x target)
        ≡ (if str_eq j name then max_ℤ (amount name target) (nanos x) else amount name target)
  amount-raise name j x target h = elim (Option-cases (lookup j target)) [
    | inl e ↦ ground (
      arith,
      e,
      amount-put name j x target,
      amount_of_missing j target e,
      eq_iff j name,
      max_ℤ_zero_left (nanos x) h,
    )
    | inr (current, e) ↦
        unfold amount quantity in
        ground (arith, e, amount-put name j x target, eq_iff j name, less_lem current x)
  ]

  pub amount-max_resources :
      (name : String) (target candidate : ResourceList q)
      → HasUniqueKeys candidate
      → IsNonNegative candidate
      → pos 0 ≤ℤ amount name target
      → amount name (max_resources q target candidate)
        ≡ max_ℤ (amount name target) (amount name candidate)
  unfolding max_resources
  amount-max_resources name target [] u n t =
      rw (amount-nil name) (sym (max_ℤ_zero (amount name target) t))
  amount-max_resources name target ((j, x) ∷ candidate) u n t =
      let t' : pos 0 ≤ℤ amount name (raise j x target) =
        rw (amount-raise name j x target n.0)
          (ground (arith, max_ℤ_nonneg (amount name target) (nanos x) t)) in
      rw (amount-max_resources name (raise j x target) candidate u.1 n.1 t') (
        rw (amount-raise name j x target n.0) (
          ground (
            arith,
            amount-cons name j x candidate,
            amount_of_missing j candidate u.0,
            eq_iff j name,
            max_ℤ_zero (max_ℤ (amount name target) (nanos x))
                (max_ℤ_nonneg (amount name target) (nanos x) t),
          )))

  pub amount_of_lookup :
      (name : String) (list : ResourceList q) (x : Quantity)
      → lookup name list ≡ some x
      → amount name list ≡ nanos x
  unfolding amount quantity
  amount_of_lookup name list x h = ground arith

  pub amount-IsNonNegative :
      (name : String) (list : ResourceList q) → IsNonNegative list → pos 0 ≤ℤ amount name list
  amount-IsNonNegative name [] h = rw (amount-nil name) (omega arith)
  amount-IsNonNegative name ((j, x) ∷ list) h =
      rw (amount-cons name j x list) (ground (arith, amount-IsNonNegative name list))

  put-IsNonNegative :
      (j : String) (x : Quantity) (list : ResourceList q)
      → pos 0 ≤ℤ nanos x
      → IsNonNegative list
      → IsNonNegative (put j x list)
  unfolding put
  put-IsNonNegative j x [] h k = (h, tt)
  put-IsNonNegative j x ((i, y) ∷ list) h k = elim (Bool-cases (str_eq i j)) [
    | inl e ↦ rw (e, if◌then◌else◌) (h, k.1)
    | inr e ↦ rw (e, if◌then◌else◌) (k.0, put-IsNonNegative j x list h k.1)
  ]

  pub add_resources-IsNonNegative :
      (target addition : ResourceList q)
      → IsNonNegative target
      → IsNonNegative addition
      → IsNonNegative (add_resources q target addition)
  unfolding add_resources
  add_resources-IsNonNegative target [] h k = h
  add_resources-IsNonNegative target ((j, x) ∷ addition) h k =
      add_resources-IsNonNegative (put j (add (quantity q j target) x) target) addition
        (put-IsNonNegative j (add (quantity q j target) x) target
          (rw (nanos-add (quantity q j target) x) (
            +ℤ_nonneg (nanos (quantity q j target)) (nanos x)
              (unfold amount in amount-IsNonNegative j target h) k.0))
          h)
        k.1

  abbrev AreFine : ResourceList q → Type 0
  AreFine list = HasUniqueKeys list × IsNonNegative list

  raise-AreFine :
      (j : String) (x : Quantity) (target : ResourceList q)
      → pos 0 ≤ℤ nanos x
      → AreFine target
      → AreFine (raise j x target)
  raise-AreFine j x target h t = choose (is_above q x target j)
    where
      choose : (b : Bool) → AreFine (if b then put j x target else target)
      choose true = (put-HasUniqueKeys j x target t.0, put-IsNonNegative j x target h t.1)
      choose false = t

  pub max_resources-AreFine :
      (target candidate : ResourceList q)
      → HasUniqueKeys target × IsNonNegative target
      → IsNonNegative candidate
      → HasUniqueKeys (max_resources q target candidate)
        × IsNonNegative (max_resources q target candidate)
  unfolding max_resources
  max_resources-AreFine target [] h k = h
  max_resources-AreFine target ((j, x) ∷ candidate) h k =
      max_resources-AreFine (raise j x target) candidate (raise-AreFine j x target k.0 h) k.1
