-- ===== src/Discovery.antt =====
-- app/competitors_v22/selection.py: the gate between a discovery of competitors and an analysis that
-- uses it. Texts, times and digests are numbers; canonical URLs are an argument, and so are what the
-- two stores answer.
pub mod Linked
use search_trust_rd.Prelude.{
  ℕ, Bool, true, false, not, ◌&&◌, ◌||◌, Option, none, some, List, [], ◌∷◌, map, ◌==◌, ltb, leb,
  length, if◌then◌else◌,
}
use search_trust_rd.Plan.Targets.{has, distinct}

-- The codes of DiscoverySelectionError; `assertion_failed` is the `assert`.
pub data SelectionError : Type 0 where
  discovery_required not_found incomplete expired case_mismatch context_mismatch : SelectionError
  not_ready snapshot_invalid confirmation_required selection_invalid tampered : SelectionError
  assertion_failed : SelectionError

pub data Gate (A : Type 0) : Type 0 where
  rejected : SelectionError → Gate A
  admitted : A → Gate A

infixl 5 ◌>>=◌
abbrev pub ◌>>=◌ : {A B : Type 0} → Gate A → (A → Gate B) → Gate B
◌>>=◌ (rejected error) next = rejected error
◌>>=◌ (admitted value) next = next value

pub record DiscoveredCompetitor : Type 0 where
  pub competitor_id : ℕ
  pub business_name : ℕ
  pub website_url : ℕ
  pub public_gbp_url : Option ℕ

pub record ConfirmedCompetitor : Type 0 where
  pub competitor_id : ℕ
  pub business_name : ℕ
  pub website_url : ℕ
  pub public_gbp_url : Option ℕ
  pub by_user : Bool

-- `canonical_competitor_url`, and a URL without its last slashes.
pub record UrlForms : Type 0 where
  pub canonical : ℕ → Option ℕ
  pub stripped : ℕ → ℕ

-- `by_id.get(…)`; of entries with one key a dictionary keeps the last
unfoldable pub by_id : ℕ → List DiscoveredCompetitor → Option DiscoveredCompetitor
by_id i [] = none
by_id i (c ∷ cs) = elim (by_id i cs) [
  | none ↦ if c.competitor_id == i then some c else none
  | some d ↦ some d
]

abbrev pub same_option : Option ℕ → Option ℕ → Bool
same_option none none = true
same_option (some a) (some b) = a == b
same_option _ _ = false

abbrev pub same_profile : UrlForms → Option ℕ → Option ℕ → Bool
same_profile urls none none = true
same_profile urls (some a) (some b) = urls.stripped a == urls.stripped b
same_profile urls _ _ = false

abbrev pub domain_or_fail : Option ℕ → Gate ℕ
domain_or_fail none = rejected assertion_failed
domain_or_fail (some d) = admitted d

abbrev pub confirm_against : UrlForms → ConfirmedCompetitor → Option DiscoveredCompetitor → Gate ℕ
confirm_against urls c none = rejected selection_invalid
confirm_against urls c (some k) =
    if not (c.business_name == k.business_name)
      || not (same_option (urls.canonical c.website_url) (urls.canonical k.website_url))
      || not (same_profile urls c.public_gbp_url k.public_gbp_url)
    then rejected tampered
    else domain_or_fail (urls.canonical c.website_url)

-- The checks of one confirmed competitor, up to its canonical URL.
unfoldable pub confirm_one : UrlForms → List DiscoveredCompetitor → ConfirmedCompetitor → Gate ℕ
unfolding by_id
confirm_one urls candidates c =
    if not c.by_user
    then rejected confirmation_required
    else confirm_against urls c (by_id c.competitor_id candidates)

-- The loop over the confirmed competitors.
unfoldable pub confirm_all :
    UrlForms → List DiscoveredCompetitor → List ℕ → List ConfirmedCompetitor → Gate (Unit {0})
unfolding confirm_one
confirm_all urls candidates seen [] = admitted tt
confirm_all urls candidates seen (c ∷ cs) = confirm_one urls candidates c >>= λ domain.
    let rest = confirm_all urls candidates (domain ∷ seen) cs in
    if has domain seen then rejected selection_invalid else rest

-- COMPETITOR_MIN_COUNT
abbrev pub competitor_min_count : ℕ
competitor_min_count = 1

unfoldable pub validate_confirmed_competitors :
    UrlForms → List DiscoveredCompetitor → List ConfirmedCompetitor → Gate (Unit {0})
unfolding confirm_all distinct
validate_confirmed_competitors urls candidates confirmed =
    if ltb (length (distinct (map (λ (c : DiscoveredCompetitor). c.competitor_id) candidates)))
      competitor_min_count
    then rejected not_ready
    else confirm_all urls candidates [] confirmed

pub record DiscoveryResult : Type 0 where
  pub case_id : ℕ
  pub input_digest : ℕ
  pub expires_at : ℕ
  pub ready_for_confirmation : Bool
  pub candidate_digest : ℕ
  pub market_snapshot_id : ℕ
  pub market_snapshot_checksum : ℕ
  pub candidates : List DiscoveredCompetitor

pub record DiscoveryState : Type 0 where
  pub succeeded : Bool
  pub result : Option DiscoveryResult

pub record MarketSnapshot : Type 0 where
  pub snapshot_id : ℕ
  pub snapshot_checksum : ℕ

pub record AnalyzeRequest : Type 0 where
  pub case_id : ℕ
  pub context_digest : ℕ
  pub competitors : List ConfirmedCompetitor

pub record AnalysisDiscoveryLink : Type 0 where
  pub discovery_id : ℕ
  pub candidate_digest : ℕ
  pub market_snapshot_id : ℕ
  pub market_snapshot_checksum : ℕ

-- What the stores answer.
pub record Stores : Type 0 where
  pub get_state : ℕ → Option DiscoveryState
  pub get_snapshot : ℕ → Option MarketSnapshot

abbrev pub holds_snapshot : DiscoveryResult → Option MarketSnapshot → Bool
holds_snapshot r none = false
holds_snapshot r (some s) =
    s.snapshot_id == r.market_snapshot_id && s.snapshot_checksum == r.market_snapshot_checksum

abbrev pub link_of : ℕ → DiscoveryResult → AnalysisDiscoveryLink
link_of i r = record {
  discovery_id = i;
  candidate_digest = r.candidate_digest;
  market_snapshot_id = r.market_snapshot_id;
  market_snapshot_checksum = r.market_snapshot_checksum;
}

-- `verify` from `result = state.result` on
unfoldable pub verify_result :
    UrlForms → Stores → ℕ → AnalyzeRequest → ℕ → DiscoveryResult → Gate AnalysisDiscoveryLink
unfolding validate_confirmed_competitors
verify_result urls stores i request now r =
    if leb r.expires_at now
    then rejected expired
    else if not (r.case_id == request.case_id)
    then rejected case_mismatch
    else if not (r.input_digest == request.context_digest)
    then rejected context_mismatch
    else if not r.ready_for_confirmation
    then rejected not_ready
    else if not (holds_snapshot r (stores.get_snapshot r.input_digest))
    then rejected snapshot_invalid
    else (validate_confirmed_competitors urls r.candidates request.competitors >>= λ valid.
        admitted (link_of i r))

abbrev pub verify_state :
    UrlForms → Stores → ℕ → AnalyzeRequest → ℕ → Option DiscoveryState → Gate AnalysisDiscoveryLink
verify_state urls stores i request now none = rejected not_found
verify_state urls stores i request now (some state) =
    if not state.succeeded then rejected incomplete else (elim state.result [
      | none ↦ rejected incomplete
      | some r ↦ verify_result urls stores i request now r
    ])

-- `RedisDiscoveryVerifier.verify`
unfoldable pub verify :
    UrlForms → Stores → Option ℕ → AnalyzeRequest → ℕ → Gate AnalysisDiscoveryLink
unfolding verify_result
verify urls stores none request now = rejected discovery_required
verify urls stores (some i) request now =
    verify_state urls stores i request now (stores.get_state i)
