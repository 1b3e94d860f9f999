-- ===== src/Redis/Journal.antt =====
-- A server that keeps the commands it has run, newest first: an instance of the Redis interface,
-- by which the theorems are shown at concrete inputs.
use search_trust_rd.Prelude.{
  ℕ, zero, suc, ◌≡◌, refl, Bool, true, ◌&&◌, not, Option, none, some, List, [], ◌∷◌, Number, All,
  any, take, length, inl, inr, Bool-cases, if◌then◌else◌,
}
use search_trust_rd.Redis.{
  Key, Member, Command, set, expire, delete, zadd, zrem, zremrangebyscore, publish, at_most, key_eq,
  member_eq, get_after, zscore_after, Redis,
}

abbrev pub scored :
    Option Number → Member → (Number → Bool) → List (Member × Number) → List (Member × Number)
scored none m p rest = rest
scored (some s) m p rest = if p s then (m, s) ∷ rest else rest

pub take-All :
    (P : Member × Number → Type 0) (n : ℕ) (xs : List (Member × Number))
    → All P xs
    → All P (take n xs)
take-All P zero xs h = tt
take-All P (suc n) [] h = tt
take-All P (suc n) (x ∷ xs) h = (h.0, take-All P n xs h.1)

module _ {V : Type 0} where
  abbrev pub journal_get : List (Command V) → Key → Option V
  journal_get [] k = none
  journal_get (c ∷ cs) k = get_after c k (journal_get cs k)

  abbrev pub journal_zscore : List (Command V) → Key → Member → Option Number
  journal_zscore [] k m = none
  journal_zscore (c ∷ cs) k m = zscore_after c k m (journal_zscore cs k m)

  abbrev added : Command V → Key → List Member → List Member
  added (zadd j m s) k rest = if key_eq j k && not (any (member_eq m) rest) then m ∷ rest else rest
  added (set j v ttl) k rest = rest
  added (expire j ttl) k rest = rest
  added (delete j) k rest = rest
  added (zrem j m) k rest = rest
  added (zremrangebyscore j top) k rest = rest
  added (publish j n) k rest = rest

  abbrev pub candidates : List (Command V) → Key → List Member
  candidates [] k = []
  candidates (c ∷ cs) k = added c k (candidates cs k)

  abbrev pub entries :
      List (Command V) → Key → (Number → Bool) → List Member → List (Member × Number)
  entries db k p [] = []
  entries db k p (m ∷ ms) = scored (journal_zscore db k m) m p (entries db k p ms)

  scored_scores :
      (db : List (Command V)) (k : Key) (o : Option Number) (m : Member) (p : Number → Bool)
      (rest : List (Member × Number))
      → journal_zscore db k m ≡ o
      → All (λ e. journal_zscore db k e.0 ≡ some e.1) rest
      → All (λ e. journal_zscore db k e.0 ≡ some e.1) (scored o m p rest)
  scored_scores db k none m p rest h t = t
  scored_scores db k (some s) m p rest h t = elim (Bool-cases (p s)) [
    | inl e ↦ rw e (h, t)
    | inr e ↦ rw e t
  ]

  pub entries_scores :
      (db : List (Command V)) (k : Key) (p : Number → Bool) (ms : List Member)
      → All (λ e. journal_zscore db k e.0 ≡ some e.1) (entries db k p ms)
  entries_scores db k p [] = tt
  entries_scores db k p (m ∷ ms) =
      scored_scores db k (journal_zscore db k m) m p (entries db k p ms) refl
        (entries_scores db k p ms)

abbrev pub journal : (V : Type 0) → Redis V
journal V = record {
  Db = List (Command V);
  get = journal_get;
  zscore = journal_zscore;
  zrange = λ db k n. take n (entries db k (λ s. true) (candidates db k));
  zrange_by_score = λ db k top n. take n (entries db k (at_most top) (candidates db k));
  zcard = λ db k. length (entries db k (λ s. true) (candidates db k));
  run = λ db c. c ∷ db;
  get-run = λ db c k. refl;
  zscore-run = λ db c k m. refl;
  zrange_scores = λ db k n. take-All _ n _ (entries_scores db k _ (candidates db k));
  zrange_by_score_scores = λ db k top n. take-All _ n _ (entries_scores db k _ (candidates db k));
}
