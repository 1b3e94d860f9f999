-- ===== src/Discovery/Linked.antt =====
-- What an analysis that passes the gate can rely on.
use search_trust_rd.Prelude.{
  ℕ, ◌≡◌, ◌<◌, refl, true, false, Option, none, some, List, [], ◌∷◌, arith, Bool-cases,
  Option-cases, inl, inr, ==_refl,
}
use search_trust_rd.Plan.Targets.{has}
use search_trust_rd.Plan.Candidates.{all_distinct}
use search_trust_rd.Discovery.{
  Gate, admitted, rejected, ◌>>=◌, UrlForms, DiscoveredCompetitor, ConfirmedCompetitor, by_id,
  same_profile, confirm_against, confirm_one, confirm_all, validate_confirmed_competitors,
  DiscoveryResult, DiscoveryState, AnalyzeRequest, AnalysisDiscoveryLink, Stores, link_of,
  verify_result, verify_state, verify, holds_snapshot, confirmation_required,
}

-- The user confirmed a discovered competitor, under its name, its canonical website and its profile.
pub record IsConfirmed (urls : UrlForms) (candidates : List DiscoveredCompetitor)
    (c : ConfirmedCompetitor) (domain : ℕ) : Type 0 where
  pub by_the_user : c.by_user ≡ true
  pub original : DiscoveredCompetitor
  pub discovered : by_id c.competitor_id candidates ≡ some original
  pub same_name : c.business_name ≡ original.business_name
  pub own_website : urls.canonical c.website_url ≡ some domain
  pub same_website : urls.canonical original.website_url ≡ some domain
  pub same_gbp : same_profile urls c.public_gbp_url original.public_gbp_url ≡ true

confirm_against-IsConfirmed :
    (urls : UrlForms) (candidates : List DiscoveredCompetitor) (c : ConfirmedCompetitor)
    (o : Option DiscoveredCompetitor) {domain : ℕ}
    → c.by_user ≡ true
    → by_id c.competitor_id candidates ≡ o
    → confirm_against urls c o ≡ admitted domain
    → IsConfirmed urls candidates c domain
confirm_against-IsConfirmed urls candidates c none u k e = cc
confirm_against-IsConfirmed urls candidates c (some o) u k e = record {
  by_the_user = u;
  original = o;
  discovered = k;
  same_name = ground arith;
  own_website = ground arith;
  same_website = ground arith;
  same_gbp = ground arith;
}

confirm_one-IsConfirmed :
    (urls : UrlForms) (candidates : List DiscoveredCompetitor) (c : ConfirmedCompetitor)
    {domain : ℕ}
    → confirm_one urls candidates c ≡ admitted domain
    → IsConfirmed urls candidates c domain
unfolding confirm_one
confirm_one-IsConfirmed urls candidates c e = elim (Bool-cases c.by_user) [
  | inl u ↦
      confirm_against-IsConfirmed urls candidates c (by_id c.competitor_id candidates) u refl
        (rw u at e)
  | inr u ↦ absurd (let bad : rejected confirmation_required ≡ admitted _ = rw u at e in cc)
]

-- The canonical websites of confirmed competitors, one for each.
abbrev pub AreConfirmed :
    UrlForms → List DiscoveredCompetitor → List ConfirmedCompetitor → List ℕ → Type 0
AreConfirmed urls candidates [] [] = Unit
AreConfirmed urls candidates (c ∷ cs) (d ∷ ds) =
    IsConfirmed urls candidates c d × AreConfirmed urls candidates cs ds
AreConfirmed urls candidates _ _ = ⊥

-- None of the numbers is among those seen.
abbrev pub IsApart : List ℕ → List ℕ → Type 0
IsApart seen ds = (x : ℕ) → has x seen ≡ true → has x ds ≡ false

abbrev pub Confirms :
    UrlForms → List DiscoveredCompetitor → List ℕ → List ConfirmedCompetitor → Type 0
Confirms urls candidates seen cs =
    (ds : List ℕ) × AreConfirmed urls candidates cs ds × (all_distinct ds ≡ true) × IsApart seen ds

>>=-eq-admitted :
    {A B : Type 0} (gate : Gate A) (next : A → Gate B) {b : B}
    → (gate >>= next) ≡ admitted b
    → (a : A) × (gate ≡ admitted a) × (next a ≡ admitted b)
>>=-eq-admitted (rejected error) next ended = cc
>>=-eq-admitted (admitted a) next ended = (a, refl, ended)

confirm_all-Confirms :
    (urls : UrlForms) (candidates : List DiscoveredCompetitor) (seen : List ℕ)
    (cs : List ConfirmedCompetitor)
    → confirm_all urls candidates seen cs ≡ admitted tt
    → Confirms urls candidates seen cs
unfolding confirm_all all_distinct
confirm_all-Confirms urls candidates seen [] e = ([], tt, refl, λ x h. refl)
confirm_all-Confirms urls candidates seen (c ∷ cs) e =
    let (d, one, rest) = >>=-eq-admitted (confirm_one urls candidates c) _ e in
    let new : has d seen ≡ false = ground arith in
    let later : confirm_all urls candidates (d ∷ seen) cs ≡ admitted tt = ground arith in
    let (ds, confirmed, no_repeats, apart) =
      confirm_all-Confirms urls candidates (d ∷ seen) cs later in
    (
      d ∷ ds,
      (confirm_one-IsConfirmed urls candidates c one, confirmed),
      ground (arith, apart d, ==_refl d),
      λ x h. ground (arith, apart x),
    )

-- What a link stands for.
pub record IsLinked (urls : UrlForms) (stores : Stores) (i : ℕ) (request : AnalyzeRequest) (now : ℕ)
    (r : DiscoveryResult) (link : AnalysisDiscoveryLink) : Type 0 where
  pub not_expired : now < r.expires_at
  pub same_case : r.case_id ≡ request.case_id
  pub same_context : r.input_digest ≡ request.context_digest
  pub ready : r.ready_for_confirmation ≡ true
  pub snapshot_held : holds_snapshot r (stores.get_snapshot r.input_digest) ≡ true
  pub names_result : link ≡ link_of i r
  pub competitors_confirmed : Confirms urls r.candidates [] request.competitors

-- The stored discovery that a link names has succeeded with this result.
abbrev pub HasResult : Stores → ℕ → DiscoveryResult → Type 0
HasResult stores i r =
    (s : DiscoveryState) × (stores.get_state i ≡ some s)
    × (s.succeeded ≡ true)
    × (s.result ≡ some r)

validate-Confirms :
    (urls : UrlForms) (candidates : List DiscoveredCompetitor) (cs : List ConfirmedCompetitor)
    → validate_confirmed_competitors urls candidates cs ≡ admitted tt
    → Confirms urls candidates [] cs
unfolding validate_confirmed_competitors
validate-Confirms urls candidates cs e = confirm_all-Confirms urls candidates [] cs (ground arith)

verify_result-IsLinked :
    (urls : UrlForms) (stores : Stores) (i : ℕ) (request : AnalyzeRequest) (now : ℕ)
    (r : DiscoveryResult) {link : AnalysisDiscoveryLink}
    → verify_result urls stores i request now r ≡ admitted link
    → IsLinked urls stores i request now r link
unfolding verify_result
verify_result-IsLinked urls stores i request now r e = record {
  not_expired = ground arith;
  same_case = ground arith;
  same_context = ground arith;
  ready = ground arith;
  snapshot_held = ground arith;
  names_result = ground arith;
  competitors_confirmed = validate-Confirms urls r.candidates request.competitors (ground arith);
}

-- A link stands for a stored discovery.
abbrev pub Links : UrlForms → Stores → ℕ → AnalyzeRequest → ℕ → AnalysisDiscoveryLink → Type 0
Links urls stores i request now link =
    (r : DiscoveryResult) × HasResult stores i r × IsLinked urls stores i request now r link

verify_state-Links :
    (urls : UrlForms) (stores : Stores) (i : ℕ) (request : AnalyzeRequest) (now : ℕ)
    (o : Option DiscoveryState) {link : AnalysisDiscoveryLink}
    → stores.get_state i ≡ o
    → verify_state urls stores i request now o ≡ admitted link
    → Links urls stores i request now link
verify_state-Links urls stores i request now none k e = cc
verify_state-Links urls stores i request now (some state) k e = elim (Option-cases state.result) [
  | inl absent ↦ absurd (ground arith)
  | inr (r, found) ↦ (
    r,
    (state, k, ground arith, found),
    verify_result-IsLinked urls stores i request now r (ground arith),
  )
]

-- A link is given only for a discovery that has succeeded and not expired, belongs to the case and
-- the context of the request, is ready, and whose market snapshot is still held; the link names it; and
-- the user has confirmed every competitor of the request, each one a discovered competitor with its
-- name, website and profile, no two with one website.
pub verify-Links :
    (urls : UrlForms) (stores : Stores) (i : ℕ) (request : AnalyzeRequest) (now : ℕ)
    {link : AnalysisDiscoveryLink}
    → verify urls stores (some i) request now ≡ admitted link
    → Links urls stores i request now link
unfolding verify
verify-Links urls stores i request now e =
    verify_state-Links urls stores i request now (stores.get_state i) refl e
