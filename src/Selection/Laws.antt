-- ===== src/Selection/Laws.antt =====
-- What a selection of pages keeps to, whatever their ranking.
use search_trust_rd.Prelude.{
  ℕ, ◌+◌, ◌≤◌, ◌<◌, ◌≡◌, refl, sym, subst, Bool, true, false, not, ◌&&◌, ◌||◌, Option, none, some,
  List, [], ◌∷◌, ◌++◌, ◌==◌, ltb, leb, length, min, arith, Bool-cases, inl, inr, if◌then◌else◌,
}
use search_trust_rd.Selection.{
  SitePageType, home, Page, has_url, is_of, first_of, count_of, choose, choose_found, cover, cap_of,
  at_cap, fill, coverage_order, select_ranked, select_key_pages, eligible,
}

abbrev pub AreDistinct : List Page → Type 0
AreDistinct [] = Unit
AreDistinct (p ∷ ps) = (has_url p.url ps ≡ false) × AreDistinct ps

has_url-append :
    (u : ℕ) (ps : List Page) (p : Page) → has_url u (ps ++ p ∷ []) ≡ (has_url u ps || (p.url == u))
has_url-append u [] p = ground arith
has_url-append u (q ∷ ps) p = ground (arith, has_url-append u ps p)

length-append : (ps : List Page) (p : Page) → length (ps ++ p ∷ []) ≡ length ps + 1
length-append [] p = refl
length-append (q ∷ ps) p = omega (arith, length-append ps p)

append-AreDistinct :
    (ps : List Page) (p : Page)
    → AreDistinct ps
    → has_url p.url ps ≡ false
    → AreDistinct (ps ++ p ∷ [])
append-AreDistinct [] p h k = (refl, tt)
append-AreDistinct (q ∷ ps) p h k =
    (ground (arith, has_url-append q.url ps p), append-AreDistinct ps p h.1 (ground arith))

-- The length and the URLs of a choice.
abbrev pub IsBounded : ℕ → List Page → Type 0
IsBounded limit chosen = (length chosen ≤ limit) × AreDistinct chosen

choose-IsBounded :
    (limit : ℕ) (p : Page) (chosen : List Page)
    → IsBounded limit chosen
    → IsBounded limit (choose limit p chosen)
unfolding choose
choose-IsBounded limit p chosen h =
    elim (Bool-cases (not (has_url p.url chosen) && ltb (length chosen) limit)) [
      | inl e ↦ rw e (
        room (length chosen) (length-append chosen p) (has_url p.url chosen) e,
        append-AreDistinct chosen p h.1
            (unseen (has_url p.url chosen) (ltb (length chosen) limit) e),
      )
      | inr e ↦ rw e h
    ]
  where
    unseen : (a b : Bool) → (not a && b) ≡ true → a ≡ false
    unseen a b h = ground arith

    room :
        {m limit : ℕ} (n : ℕ) → m ≡ n + 1 → (a : Bool) → (not a && ltb n limit) ≡ true → m ≤ limit
    room n e a h = ground arith

-- The loops keep what each choice keeps.
module _ (limit : ℕ) (P : List Page → Type 0)
    (keeps : (p : Page) (chosen : List Page) → P chosen → P (choose limit p chosen)) where
  found-keeps : (o : Option Page) (chosen : List Page) → P chosen → P (choose_found limit o chosen)
  found-keeps none chosen h = h
  found-keeps (some p) chosen h = keeps p chosen h

  cover-keeps :
      (ranked : List Page) (ts : List SitePageType) (chosen : List Page)
      → P chosen
      → P (cover limit ranked ts chosen)
  unfolding cover
  cover-keeps ranked [] chosen h = h
  cover-keeps ranked (t ∷ ts) chosen h = either_keeps (leb limit (length chosen)) h (
      cover-keeps ranked ts (choose_found limit (first_of t ranked) chosen)
        (found-keeps (first_of t ranked) chosen h))
    where
      either_keeps : (b : Bool) {x y : List Page} → P x → P y → P (if b then x else y)
      either_keeps true h k = h
      either_keeps false h k = k

  fill-keeps : (ps chosen : List Page) → P chosen → P (fill limit ps chosen)
  unfolding fill
  fill-keeps [] chosen h = h
  fill-keeps (p ∷ ps) chosen h = either_keeps (leb limit (length chosen)) h (
      fill-keeps ps _
        (either_keeps (at_cap (cap_of limit p.page_type) p.page_type chosen) h (keeps p chosen h)))
    where
      either_keeps : (b : Bool) {x y : List Page} → P x → P y → P (if b then x else y)
      either_keeps true h k = h
      either_keeps false h k = k

  select_ranked-keeps : (ranked : List Page) → P [] → P (select_ranked limit ranked)
  unfolding select_ranked
  select_ranked-keeps ranked h =
      fill-keeps ranked _
        (cover-keeps ranked coverage_order _ (found-keeps (first_of home ranked) [] h))

-- At most the limit, and at most 500, and no URL twice.
pub select-IsBounded :
    (rank : List Page → List Page) (pages : List Page) (limit : ℕ)
    → IsBounded (min limit 500) (select_key_pages rank pages limit)
unfolding select_key_pages
select-IsBounded rank pages limit = elim (Bool-cases (min limit 500 == 0)) [
  | inl e ↦ rw e (omega arith, tt)
  | inr e ↦ rw e (
      select_ranked-keeps (min limit 500) (IsBounded (min limit 500))
        (choose-IsBounded (min limit 500)) (rank (eligible pages)) (omega arith, tt))
]

count_of-append :
    (t : SitePageType) (ps : List Page) (p : Page)
    → count_of t (ps ++ p ∷ []) ≡ count_of t ps + (if is_of t p then 1 else 0)
unfolding count_of
count_of-append t [] p = ground arith
count_of-append t (q ∷ ps) p = ground (arith, count_of-append t ps p)

-- A choice adds at most one page, of its own type.
pub choose_counts :
    (t : SitePageType) (limit : ℕ) (p : Page) (chosen : List Page)
    → count_of t (choose limit p chosen) ≤ count_of t chosen + (if is_of t p then 1 else 0)
unfolding choose
choose_counts t limit p chosen =
    elim (Bool-cases (not (has_url p.url chosen) && ltb (length chosen) limit)) [
      | inl e ↦ rw e (omega (arith, count_of-append t chosen p))
      | inr e ↦ rw e (omega arith)
    ]

-- A page that heads a list, whatever follows.
abbrev pub Heads : Page → List Page → Type 0
Heads p [] = ⊥
Heads p (q ∷ ps) = q ≡ p

choose-Heads :
    (limit : ℕ) (p q : Page) (chosen : List Page) → Heads p chosen → Heads p (choose limit q chosen)
unfolding choose
choose-Heads limit p q [] h = absurd h
choose-Heads limit p q (r ∷ chosen) h =
    elim (Bool-cases (not (has_url q.url (r ∷ chosen)) && ltb (length (r ∷ chosen)) limit)) [
      | inl e ↦ rw e h
      | inr e ↦ rw e h
    ]

-- Where the limit allows a page, the first home page in the ranking of the eligible ones comes first.
pub select-Heads :
    (rank : List Page → List Page) (pages : List Page) (limit : ℕ) (p : Page)
    → 0 < limit
    → first_of home (rank (eligible pages)) ≡ some p
    → Heads p (select_key_pages rank pages limit)
unfolding select_key_pages select_ranked choose
select-Heads rank pages limit p h e =
    let ranked = rank (eligible pages) in
    let keeps = choose-Heads (min limit 500) p in
    rw (nonzero limit h) (
      fill-keeps (min limit 500) (Heads p) keeps ranked _ (
        cover-keeps (min limit 500) (Heads p) keeps ranked coverage_order _ (
          subst (λ o. Heads p (choose_found (min limit 500) o [])) (sym e)
            (rw (room limit h) refl))))
  where
    nonzero : (n : ℕ) → 0 < n → (min n 500 == 0) ≡ false
    nonzero n h = ground arith

    room : (n : ℕ) → 0 < n → ltb 0 (min n 500) ≡ true
    room n h = ground arith
