-- ===== src/Plan/Findings.antt =====
-- What app/report_v22/actions.py reads: the findings with their evaluations, and the tables of
-- app/report_v22/public_action_catalog.py. An identifier, a URL or any other text is a number, its
-- place among the texts of its kind in Python's order. The texts of the templates are left out;
-- where the code counts them, the template has their number.
use search_trust_rd.Prelude.{ℕ, Bool, true, false, Option, none, some, List, [], ◌∷◌, ◌==◌, any}

pub data Severity : Type 0 where
  low medium high critical : Severity

pub data Confidence : Type 0 where
  low medium high : Confidence

pub data FindingClass : Type 0 where
  estimate inference fact : FindingClass

-- _SEVERITY_RANK
abbrev pub severity_rank : Severity → ℕ
severity_rank Severity.low = 1
severity_rank Severity.medium = 2
severity_rank Severity.high = 3
severity_rank Severity.critical = 4

-- _CONFIDENCE_RANK
abbrev pub confidence_rank : Confidence → ℕ
confidence_rank Confidence.low = 1
confidence_rank Confidence.medium = 2
confidence_rank Confidence.high = 3

-- _CLASSIFICATION_RANK
abbrev pub classification_rank : FindingClass → ℕ
classification_rank estimate = 1
classification_rank inference = 2
classification_rank fact = 3

-- Numbered as in _SOURCE_ORDER.
pub data SourceType : Type 0 where
  site serp competitor gsc gbp ga4 pagespeed coverage : SourceType

abbrev pub source_index : SourceType → ℕ
source_index SourceType.site = 0
source_index serp = 1
source_index competitor = 2
source_index gsc = 3
source_index gbp = 4
source_index ga4 = 5
source_index pagespeed = 6
source_index coverage = 7

-- _SOURCE_ORDER
abbrev pub source_order : List SourceType
source_order = SourceType.site ∷ serp ∷ competitor ∷ gsc ∷ gbp ∷ ga4 ∷ pagespeed ∷ coverage ∷ []

abbrev pub has_source : SourceType → List SourceType → Bool
has_source s l = any (λ t. source_index t == source_index s) l

pub data TemplateKey : Type 0 where
  align_public_gbp close_page_type_gap differentiate_page_titles : TemplateKey
  restore_site_access_indexing review_market_visibility : TemplateKey

-- the place of the template's key among the keys
abbrev pub template_index : TemplateKey → ℕ
template_index align_public_gbp = 0
template_index close_page_type_gap = 1
template_index differentiate_page_titles = 2
template_index restore_site_access_indexing = 3
template_index review_market_visibility = 4

abbrev pub is_template : TemplateKey → TemplateKey → Bool
is_template k l = template_index k == template_index l

pub record ActionTemplate : Type 0 where
  pub order : ℕ
  pub steps : ℕ
  pub content_requirements : ℕ
  pub gbp_requirements : ℕ
  pub technical_requirements : ℕ
  pub required_client_assets : ℕ
  pub allowed_source_types : List SourceType

-- ACTION_TEMPLATES
abbrev pub action_templates : TemplateKey → ActionTemplate
action_templates restore_site_access_indexing = record {
  order = 10;
  steps = 3;
  content_requirements = 0;
  gbp_requirements = 0;
  technical_requirements = 1;
  required_client_assets = 1;
  allowed_source_types = SourceType.site ∷ [];
}
action_templates differentiate_page_titles = record {
  order = 20;
  steps = 3;
  content_requirements = 1;
  gbp_requirements = 0;
  technical_requirements = 1;
  required_client_assets = 1;
  allowed_source_types = SourceType.site ∷ [];
}
action_templates review_market_visibility = record {
  order = 30;
  steps = 3;
  content_requirements = 0;
  gbp_requirements = 0;
  technical_requirements = 1;
  required_client_assets = 1;
  allowed_source_types = serp ∷ [];
}
action_templates close_page_type_gap = record {
  order = 40;
  steps = 3;
  content_requirements = 1;
  gbp_requirements = 0;
  technical_requirements = 1;
  required_client_assets = 2;
  allowed_source_types = SourceType.site ∷ competitor ∷ [];
}
action_templates align_public_gbp = record {
  order = 50;
  steps = 3;
  content_requirements = 1;
  gbp_requirements = 1;
  technical_requirements = 0;
  required_client_assets = 2;
  allowed_source_types = SourceType.site ∷ gbp ∷ coverage ∷ [];
}

pub data GbpField : Type 0 where
  business_name address phone service_area opening_hours : GbpField

-- the place of the field's name among the names
abbrev pub field_index : GbpField → ℕ
field_index address = 0
field_index business_name = 1
field_index opening_hours = 2
field_index phone = 3
field_index service_area = 4

-- The rules of RULE_ACTIONS.
pub data Rule : Type 0 where
  hours http noindex title domain ahead asset : Rule
  gbp_name gbp_address gbp_phone gbp_service_area : Rule

-- `RULE_ACTIONS[rule].template_key`
abbrev pub rule_template : Rule → TemplateKey
rule_template hours = align_public_gbp
rule_template http = restore_site_access_indexing
rule_template noindex = restore_site_access_indexing
rule_template title = differentiate_page_titles
rule_template domain = review_market_visibility
rule_template ahead = review_market_visibility
rule_template asset = close_page_type_gap
rule_template gbp_name = align_public_gbp
rule_template gbp_address = align_public_gbp
rule_template gbp_phone = align_public_gbp
rule_template gbp_service_area = align_public_gbp

-- `RULE_ACTIONS[rule].gbp_field`
abbrev pub rule_field : Rule → Option GbpField
rule_field hours = some opening_hours
rule_field gbp_name = some business_name
rule_field gbp_address = some address
rule_field gbp_phone = some phone
rule_field gbp_service_area = some service_area
rule_field _ = none

abbrev pub is_asset : Rule → Bool
is_asset asset = true
is_asset _ = false

-- A finding, with the page type that the target of its evaluation has.
pub record Finding : Type 0 where
  pub finding_id : ℕ
  pub rule : Rule
  pub severity : Severity
  pub confidence : Confidence
  pub classification : FindingClass
  pub affected_urls : List ℕ
  pub affected_queries : List ℕ
  pub evidence_ids : List ℕ
  pub comparator_ids : List ℕ
  pub page_type : Option ℕ
