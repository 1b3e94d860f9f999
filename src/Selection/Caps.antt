-- ===== src/Selection/Caps.antt =====
-- The caps on the pages of some types.
use search_trust_rd.Prelude.{
  ℕ, ◌+◌, ◌≤◌, ◌≡◌, refl, sym, ap, subst, ◌∙◌, Bool, true, false, Option, none, some, List, [], ◌∷◌,
  ◌==◌, leb, length, max, min, arith, Bool-cases, inl, inr, ◌/◌, All, if◌then◌else◌,
}
use search_trust_rd.Selection.{
  SitePageType, home, blog_post, product_detail, type_index, Page, is_of, first_of, count_of,
  choose, choose_found, cover, cap_of, at_cap, fill, coverage_order, select_ranked,
  select_key_pages, eligible,
}
use search_trust_rd.Selection.Laws.{choose_counts}

first_of-is :
    (t : SitePageType) (ps : List Page) (p : Page) → first_of t ps ≡ some p → is_of t p ≡ true
unfolding first_of
first_of-is t [] p h = cc
first_of-is t (q ∷ ps) p h = elim (Bool-cases (is_of t q)) [
  | inl e ↦ subst (λ x. is_of t x ≡ true) (some-inj (rw e at h)) e
  | inr e ↦ first_of-is t ps p (rw e at h)
]
  where
    some-inj : {p q : Page} → some p ≡ some q → p ≡ q
    some-inj h = cc

-- A type, its cap, and that no other type counts as it.
module _ (t : SitePageType) (limit cap : ℕ) where
  found_counts :
      (x : SitePageType) (ranked chosen : List Page) (o : Option Page)
      → first_of x ranked ≡ o
      → (type_index x == type_index t) ≡ false
      → count_of t (choose_found limit o chosen) ≤ count_of t chosen
  found_counts x ranked chosen none e h = omega arith
  found_counts x ranked chosen (some p) e h =
      not_counted (is_of t p)
        (other_type (type_index p.page_type) (type_index x) (type_index t)
          (first_of-is x ranked p e) h)
        (choose_counts t limit p chosen)
    where
      other_type : (p x t : ℕ) → (p == x) ≡ true → (x == t) ≡ false → (p == t) ≡ false
      other_type p x t h k = ground arith

      not_counted : {m n : ℕ} (b : Bool) → b ≡ false → m ≤ n + (if b then 1 else 0) → m ≤ n
      not_counted b h k = ground arith

  cover_counts :
      (ranked : List Page) (ts : List SitePageType) (chosen : List Page)
      → All (λ x. (type_index x == type_index t) ≡ false) ts
      → count_of t (cover limit ranked ts chosen) ≤ count_of t chosen
  unfolding cover
  cover_counts ranked [] chosen h = omega arith
  cover_counts ranked (x ∷ ts) chosen h = elim (Bool-cases (leb limit (length chosen))) [
    | inl e ↦ rw e (omega arith)
    | inr e ↦ rw e (
        omega (
          arith,
          cover_counts ranked ts (choose_found limit (first_of x ranked) chosen) h.1,
          found_counts x ranked chosen (first_of x ranked) refl h.0,
        ))
  ]

  step_counts :
      (p : Page) (chosen : List Page)
      → ((is_of t p ≡ true)
          → at_cap (cap_of limit p.page_type) p.page_type chosen ≡ leb cap (count_of t chosen))
      → count_of t chosen ≤ cap
      → count_of t (
          if at_cap (cap_of limit p.page_type) p.page_type chosen
          then chosen
          else choose limit p chosen)
        ≤ cap
  step_counts p chosen capped h =
      elim (Bool-cases (at_cap (cap_of limit p.page_type) p.page_type chosen)) [
        | inl e ↦ rw e h
        | inr e ↦ rw e (
            within (is_of t p) (count_of t chosen) (λ k. sym (capped k) ∙ e) h
              (choose_counts t limit p chosen))
      ]
    where
      within :
          {m : ℕ} (b : Bool) (n : ℕ)
          → (b ≡ true → leb cap n ≡ false)
          → n ≤ cap
          → m ≤ n + (if b then 1 else 0)
          → m ≤ cap
      within true n f h k = below n (f refl) k
        where
          below : {m : ℕ} (n : ℕ) → leb cap n ≡ false → m ≤ n + 1 → m ≤ cap
          below n h k = ground arith
      within false n f h k = omega arith

  fill_counts :
      (ps chosen : List Page)
      → ((p : Page) (qs : List Page)
          → is_of t p ≡ true
          → at_cap (cap_of limit p.page_type) p.page_type qs ≡ leb cap (count_of t qs))
      → count_of t chosen ≤ cap
      → count_of t (fill limit ps chosen) ≤ cap
  unfolding fill
  fill_counts [] chosen capped h = h
  fill_counts (p ∷ ps) chosen capped h = elim (Bool-cases (leb limit (length chosen))) [
    | inl e ↦ rw e h
    | inr e ↦ rw e (fill_counts ps _ capped (step_counts p chosen (capped p chosen) h))
  ]

is_blog_post : (x : SitePageType) → (type_index x == 12) ≡ true → x ≡ blog_post
is_blog_post blog_post h = refl
is_blog_post _ h = absurd (ground (arith, h))

is_product_detail : (x : SitePageType) → (type_index x == 14) ≡ true → x ≡ product_detail
is_product_detail product_detail h = refl
is_product_detail _ h = absurd (ground (arith, h))

-- The counts of a type with a cap, in a whole selection.
ranked_counts :
    (t : SitePageType) (limit cap : ℕ) (ranked : List Page)
    → ((p : Page) (qs : List Page)
        → is_of t p ≡ true
        → at_cap (cap_of limit p.page_type) p.page_type qs ≡ leb cap (count_of t qs))
    → (type_index home == type_index t) ≡ false
    → All (λ x. (type_index x == type_index t) ≡ false) coverage_order
    → count_of t (select_ranked limit ranked) ≤ cap
unfolding select_ranked count_of
ranked_counts t limit cap ranked capped no_home no_cover = fill_counts t limit cap ranked _ capped (
    omega (
      arith,
      cover_counts t limit cap ranked coverage_order (choose_found limit (first_of home ranked) [])
          no_cover,
      found_counts t limit cap home ranked [] (first_of home ranked) refl no_home,
    ))

-- Of blog posts, and of product details, at most a fifth of the limit, or two where that is less.
pub select-counts :
    (rank : List Page → List Page) (pages : List Page) (limit : ℕ)
    → (count_of blog_post (select_key_pages rank pages limit) ≤ max 2 (min limit 500 / 5))
      × (count_of product_detail (select_key_pages rank pages limit) ≤ max 2 (min limit 500 / 5))
unfolding select_key_pages count_of
select-counts rank pages limit = elim (Bool-cases (min limit 500 == 0)) [
  | inl e ↦ rw e (omega arith, omega arith)
  | inr e ↦ rw e (
    ranked_counts blog_post (min limit 500) (max 2 (min limit 500 / 5)) (rank (eligible pages))
        (λ p qs h. capped_as blog_post p qs (is_blog_post p.page_type h)) refl all_other_blog,
    ranked_counts product_detail (min limit 500) (max 2 (min limit 500 / 5)) (rank (eligible pages))
        (λ p qs h. capped_as product_detail p qs (is_product_detail p.page_type h)) refl
        all_other_product,
  )
]
  where
    capped_as :
        (t : SitePageType) (p : Page) (qs : List Page)
        → p.page_type ≡ t
        → at_cap (cap_of (min limit 500) p.page_type) p.page_type qs
          ≡ at_cap (cap_of (min limit 500) t) t qs
    capped_as t p qs h = ap (λ x. at_cap (cap_of (min limit 500) x) x qs) h

    all_other_blog : All (λ x. (type_index x == 12) ≡ false) coverage_order
    all_other_blog = (
      refl,
      (refl, (refl, (refl, (refl, (refl, (refl, (refl, (refl, (refl, (refl, (refl, tt))))))))))),
    )

    all_other_product : All (λ x. (type_index x == 14) ≡ false) coverage_order
    all_other_product = (
      refl,
      (refl, (refl, (refl, (refl, (refl, (refl, (refl, (refl, (refl, (refl, (refl, tt))))))))))),
    )
