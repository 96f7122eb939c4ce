-- ===== src/Planner/Listing.antt =====
-- Paginated reads: listNodes, listPods, listResourceQuotas and listLimitRanges, which are one loop
-- with its own limit each. The client's List is not part of the repository: it is the parameter
-- `list`, which may answer differently at each call, since it takes and returns the cluster's state.
pub mod Complete
use infernex_agent.Prelude.{
  ℕ, zero, suc, Bool, true, false, Option, none, some, String, List, [], ◌∷◌, ◌++◌, str_eq, ltb,
  length, any, if◌then◌else◌, Outcome, ok, err,
}

pub record Page (A : Type 0) : Type 0 where
  pub items : List A
  pub continue_token : String
  pub resource_version : String

-- `resource_version` is that of the first page that has one; the lists of quotas and limit ranges
-- do not keep it.
pub record Listing (A : Type 0) : Type 0 where
  pub items : List A
  pub resource_version : String

pub data ListError : Type 0 where
  read_failed too_many_items token_not_advanced token_repeated too_many_pages : ListError
  out_of_fuel : ListError

abbrev pub max_nodes : ℕ
max_nodes = 10_000

abbrev pub max_pods : ℕ
max_pods = 100_000

abbrev pub max_policy_items : ℕ
max_policy_items = 1_000

unfoldable pub seen_before : String → List String → Bool
unfolding any
seen_before token seen = any (str_eq token) seen

-- What follows the read of one page: the loop stops, or goes on with the token of the page.
pub data Next (A : Type 0) : Type 0 where
  stop : Outcome ListError (Listing A) → Next A
  go_on : String → List String → Listing A → Next A

module _ {A : Type 0} (keeps_version : Bool) where
  unfoldable pub extend : Listing A → Page A → Listing A
  extend result page = record {
    items = result.items ++ page.items;
    resource_version =
        if keeps_version
        then if str_eq result.resource_version ""
          then page.resource_version
          else result.resource_version
        else result.resource_version;
  }

  unfoldable pub after_page : ℕ → String → List String → Listing A → Option (Page A) → Next A
  unfolding extend seen_before
  after_page limit token seen result none = stop (err read_failed)
  after_page limit token seen result (some page) =
      let result' = extend result page in
      let seen' = page.continue_token ∷ seen in
      if ltb limit (length result'.items)
      then stop (err too_many_items)
      else if str_eq page.continue_token ""
      then stop (ok result')
      else if str_eq page.continue_token token
      then stop (err token_not_advanced)
      else if seen_before page.continue_token seen
      then stop (err token_repeated)
      else if ltb limit (length seen')
      then stop (err too_many_pages)
      else go_on page.continue_token seen' result'

-- The rest of the loop, `k`, runs where the page was not the last.
abbrev pub resume :
    {W A : Type 0}
    → (String → List String → Listing A → W → Outcome ListError (Listing A) × W)
    → W
    → Next A
    → Outcome ListError (Listing A) × W
resume k w (stop r) = (r, w)
resume k w (go_on token seen result) = k token seen result w

module _ {W A : Type 0} (keeps_version : Bool) (list : String → W → Option (Page A) × W) where
  unfoldable pub list_pages :
      ℕ → ℕ → String → List String → Listing A → W → Outcome ListError (Listing A) × W
  unfolding after_page
  list_pages limit zero token seen result w = (err out_of_fuel, w)
  list_pages limit (suc fuel) token seen result w =
      let (page, w') = list token w in
      resume (list_pages limit fuel) w' (after_page keeps_version limit token seen result page)

  -- Every round but the last adds a token to `seen`, which may hold `limit` of them.
  unfoldable pub list_all : ℕ → W → Outcome ListError (Listing A) × W
  unfolding list_pages
  list_all limit w =
      list_pages limit (suc limit) "" [] (record { items = []; resource_version = "" }) w
