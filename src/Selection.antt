-- ===== src/Selection.antt =====
-- app/collectors/site_inventory_selection.py, `select_key_pages`: which pages of a site are read in
-- depth. A page's URL is its number. The order by score, which is a floating-point number, is an
-- argument (`rank`).
pub mod Laws
pub mod Caps
use search_trust_rd.Prelude.{
  ℕ, suc, ◌/◌, Bool, true, false, not, ◌&&◌, ◌||◌, Option, none, some, List, [], ◌∷◌, ◌++◌, ◌==◌,
  ltb, leb, length, any, max, min, if◌then◌else◌,
}

pub data SitePageType : Type 0 where
  home service_index service_detail service_area location about contact team : SitePageType
  review_testimonial case_study_portfolio faq blog_index blog_post : SitePageType
  product_category product_detail legal other : SitePageType

abbrev pub type_index : SitePageType → ℕ
type_index home = 0
type_index service_index = 1
type_index service_detail = 2
type_index service_area = 3
type_index location = 4
type_index about = 5
type_index contact = 6
type_index team = 7
type_index review_testimonial = 8
type_index case_study_portfolio = 9
type_index faq = 10
type_index blog_index = 11
type_index blog_post = 12
type_index product_category = 13
type_index product_detail = 14
type_index legal = 15
type_index other = 16

pub record Page : Type 0 where
  pub url : ℕ
  pub page_type : SitePageType
  pub is_checked : Bool
  pub status_code : Option ℕ
  pub has_noindex : Bool

-- `page.status_code or 500`
abbrev pub code_or_500 : Option ℕ → ℕ
code_or_500 none = 500
code_or_500 (some code) = if code == 0 then 500 else code

unfoldable pub eligible : List Page → List Page
eligible [] = []
eligible (p ∷ ps) =
    if p.is_checked && ltb (code_or_500 p.status_code) 400 && not p.has_noindex
    then p ∷ eligible ps
    else eligible ps

-- _COVERAGE_ORDER
abbrev pub coverage_order : List SitePageType
coverage_order =
    service_index ∷ service_detail ∷ service_area ∷ location ∷ about ∷ contact ∷ team
    ∷ review_testimonial ∷ case_study_portfolio ∷ faq ∷ product_category ∷ blog_index ∷ []

abbrev pub has_url : ℕ → List Page → Bool
has_url url pages = any (λ p. p.url == url) pages

abbrev pub is_of : SitePageType → Page → Bool
is_of t p = type_index p.page_type == type_index t

-- `next(item for item in ranked if …)`
unfoldable pub first_of : SitePageType → List Page → Option Page
first_of t [] = none
first_of t (p ∷ ps) = if is_of t p then some p else first_of t ps

unfoldable pub count_of : SitePageType → List Page → ℕ
count_of t [] = 0
count_of t (p ∷ ps) = if is_of t p then suc (count_of t ps) else count_of t ps

unfoldable pub choose : ℕ → Page → List Page → List Page
choose limit p chosen =
    if not (has_url p.url chosen) && ltb (length chosen) limit then chosen ++ p ∷ [] else chosen

abbrev pub choose_found : ℕ → Option Page → List Page → List Page
choose_found limit none chosen = chosen
choose_found limit (some p) chosen = choose limit p chosen

-- The loop over the types, which stops at the limit.
unfoldable pub cover : ℕ → List Page → List SitePageType → List Page → List Page
unfolding first_of choose
cover limit ranked [] chosen = chosen
cover limit ranked (t ∷ ts) chosen =
    let rest = cover limit ranked ts (choose_found limit (first_of t ranked) chosen) in
    if leb limit (length chosen) then chosen else rest

-- `capped_types`
abbrev pub cap_of : ℕ → SitePageType → Option ℕ
cap_of limit blog_post = some (max 2 (limit / 5))
cap_of limit product_detail = some (max 2 (limit / 5))
cap_of limit _ = none

abbrev pub at_cap : Option ℕ → SitePageType → List Page → Bool
at_cap none t chosen = false
at_cap (some cap) t chosen = leb cap (count_of t chosen)

-- The loop over all ranked pages.
unfoldable pub fill : ℕ → List Page → List Page → List Page
unfolding count_of choose
fill limit [] chosen = chosen
fill limit (p ∷ ps) chosen =
    let rest = fill limit ps (
      if at_cap (cap_of limit p.page_type) p.page_type chosen
      then chosen
      else choose limit p chosen) in
    if leb limit (length chosen) then chosen else rest

unfoldable pub select_ranked : ℕ → List Page → List Page
unfolding cover fill
select_ranked limit ranked =
    fill limit ranked
      (cover limit ranked coverage_order (choose_found limit (first_of home ranked) []))

unfoldable pub select_key_pages : (List Page → List Page) → List Page → ℕ → List Page
unfolding select_ranked eligible
select_key_pages rank pages limit =
    if min limit 500 == 0 then [] else select_ranked (min limit 500) (rank (eligible pages))
