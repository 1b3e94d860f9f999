-- ===== src/Examples/Pages.antt =====
-- A site of five pages, in the order of their ranks.
use search_trust_rd.Prelude.{
  ℕ, ◌≤◌, ◌≡◌, refl, true, false, none, some, List, [], ◌∷◌, max, min, ◌/◌, arith,
}
use search_trust_rd.Selection.{
  Page, SitePageType, home, blog_post, product_detail, contact, first_of, count_of, eligible,
  select_key_pages, select_ranked,
}
use search_trust_rd.Selection.Laws.{IsBounded, select-IsBounded, Heads, select-Heads}
use search_trust_rd.Selection.Caps.{select-counts}

abbrev page : ℕ → SitePageType → Page
page n t = record {
  url = n;
  page_type = t;
  is_checked = true;
  status_code = some 200;
  has_noindex = false;
}

abbrev site : List Page
site =
    page 1 blog_post
    ∷ page 2 blog_post
    ∷ page 3 blog_post
    ∷ page 4 home
    ∷ page 5 contact
    ∷ page 4 contact
    ∷ record (page 6 contact) { status_code = none }
    ∷ []

abbrev as_given : List Page → List Page
as_given ps = ps

-- The home page, the type of the coverage order, and two blog posts.
chosen :
    select_key_pages as_given site 10
    ≡ page 4 home ∷ page 5 contact ∷ page 1 blog_post ∷ page 2 blog_post ∷ []
unfolding select_key_pages select_ranked
chosen = refl

select-IsBounded_example : IsBounded (min 10 500) (select_key_pages as_given site 10)
select-IsBounded_example = select-IsBounded as_given site 10

select-counts_example :
    (count_of blog_post (select_key_pages as_given site 10) ≤ max 2 (min 10 500 / 5))
    × (count_of product_detail (select_key_pages as_given site 10) ≤ max 2 (min 10 500 / 5))
select-counts_example = select-counts as_given site 10

select-Heads_example : Heads (page 4 home) (select_key_pages as_given site 10)
unfolding first_of eligible
select-Heads_example = select-Heads as_given site 10 (page 4 home) (omega arith) refl
