-- ===== src/Examples/Discoveries.antt =====
-- An analysis that names a discovery of two competitors, of which the user has confirmed one.
use search_trust_rd.Prelude.{ℕ, ◌≡◌, refl, true, none, some, List, [], ◌∷◌}
use search_trust_rd.Discovery.{
  admitted, rejected, selection_invalid, UrlForms, DiscoveredCompetitor, ConfirmedCompetitor,
  DiscoveryResult, AnalyzeRequest, Stores, link_of, verify,
}
use search_trust_rd.Discovery.Linked.{Links, verify-Links}

abbrev plain_urls : UrlForms
plain_urls = record { canonical = λ u. some u; stripped = λ u. u }

abbrev found : ℕ → DiscoveredCompetitor
found i = record { competitor_id = i; business_name = i; website_url = i; public_gbp_url = none }

abbrev confirmed : ℕ → ConfirmedCompetitor
confirmed i = record {
  competitor_id = i;
  business_name = i;
  website_url = i;
  public_gbp_url = none;
  by_user = true;
}

abbrev discovery : DiscoveryResult
discovery = record {
  case_id = 4;
  input_digest = 5;
  expires_at = 100;
  ready_for_confirmation = true;
  candidate_digest = 6;
  market_snapshot_id = 7;
  market_snapshot_checksum = 8;
  candidates = found 1 ∷ found 2 ∷ [];
}

abbrev sample_stores : Stores
sample_stores = record {
  get_state = λ i. some (record { succeeded = true; result = some discovery });
  get_snapshot = λ d. some (record { snapshot_id = 7; snapshot_checksum = 8 });
}

abbrev analysis : List ConfirmedCompetitor → AnalyzeRequest
analysis cs = record { case_id = 4; context_digest = 5; competitors = cs }

linked :
    verify plain_urls sample_stores (some 3) (analysis (confirmed 2 ∷ [])) 99
    ≡ admitted (link_of 3 discovery)
unfolding verify
linked = refl

twice :
    verify plain_urls sample_stores (some 3) (analysis (confirmed 2 ∷ confirmed 2 ∷ [])) 99
    ≡ rejected selection_invalid
unfolding verify
twice = refl

verify-Links_example :
    Links plain_urls sample_stores 3 (analysis (confirmed 2 ∷ [])) 99 (link_of 3 discovery)
verify-Links_example =
    verify-Links plain_urls sample_stores 3 (analysis (confirmed 2 ∷ [])) 99 linked
