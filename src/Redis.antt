-- ===== src/Redis.antt =====
-- The Redis server, which is not part of the repository: a parameter of the model, with the
-- documented effect of each command that the program sends. The keys are those that
-- app/jobs_v22/keys.py builds.
pub mod Journal
use search_trust_rd.Prelude.{
  ℕ, ◌≡◌, refl, Bool, true, false, ◌&&◌, Option, none, some, List, [], ◌∷◌, ◌==◌, Number, All, ◌∙◌,
  ap, leb, ltb, whole, fractional, negative, infinite, minus_infinite, if◌then◌else◌,
}

-- Each is a text `prefix:…`; the kinds and the job, case or digest in them tell keys apart.
pub data Key : Type 0 where
  request state lease : ℕ → Key
  idempotency : ℕ → ℕ → Key
  events : ℕ → Key
  active sync_pending recovery_pending : Key
  circuit circuit_probe circuit_failures : ℕ → Key
  cost_ledger : ℕ → Key

abbrev pub key_eq : Key → Key → Bool
key_eq (request a) (request b) = a == b
key_eq (state a) (state b) = a == b
key_eq (lease a) (lease b) = a == b
key_eq (idempotency a d) (idempotency b e) = a == b && d == e
key_eq (events a) (events b) = a == b
key_eq active active = true
key_eq sync_pending sync_pending = true
key_eq recovery_pending recovery_pending = true
key_eq (circuit a) (circuit b) = a == b
key_eq (circuit_probe a) (circuit_probe b) = a == b
key_eq (circuit_failures a) (circuit_failures b) = a == b
key_eq (cost_ledger a) (cost_ledger b) = a == b
key_eq _ _ = false

-- A member of a sorted set: the canonical text of a job's id, or bytes that are no such text.
pub data Member : Type 0 where
  job : ℕ → Member
  malformed : ℕ → Member
  -- a failure at a time, told apart from others by a random number
  failure : ℕ → ℕ → Member

abbrev pub member_eq : Member → Member → Bool
member_eq (job a) (job b) = a == b
member_eq (malformed a) (malformed b) = a == b
member_eq (failure a k) (failure b l) = a == b && k == l
member_eq _ _ = false

-- SET key value EX ttl, EXPIRE, DEL, ZADD, ZREM, ZREMRANGEBYSCORE key -inf top, PUBLISH
pub data Command (V : Type 0) : Type 0 where
  set : Key → V → ℕ → Command V
  expire : Key → ℕ → Command V
  delete : Key → Command V
  zadd : Key → Member → Number → Command V
  zrem : Key → Member → Command V
  zremrangebyscore : Key → ℕ → Command V
  publish : Key → ℕ → Command V

abbrev pub at_most : ℕ → Number → Bool
at_most top (whole n) = leb n top
at_most top (fractional n k) = ltb n top
at_most top (negative k) = true
at_most top infinite = false
at_most top minus_infinite = true

-- a score that stays when those up to `top` go
abbrev pub above : ℕ → Option Number → Option Number
above top none = none
above top (some s) = if at_most top s then none else some s

module _ {V : Type 0} where
  -- What GET of a key returns after a command, given what it returned before.
  abbrev pub get_after : Command V → Key → Option V → Option V
  get_after (set j v ttl) k old = if key_eq j k then some v else old
  get_after (expire j ttl) k old = if key_eq j k && ttl == 0 then none else old
  get_after (delete j) k old = if key_eq j k then none else old
  get_after (zadd j m s) k old = old
  get_after (zrem j m) k old = old
  get_after (zremrangebyscore j top) k old = old
  get_after (publish j n) k old = old

  -- The same for ZSCORE of a member.
  abbrev pub zscore_after : Command V → Key → Member → Option Number → Option Number
  zscore_after (zadd j m s) k n old = if key_eq j k && member_eq m n then some s else old
  zscore_after (zrem j m) k n old = if key_eq j k && member_eq m n then none else old
  zscore_after (set j v ttl) k n old = if key_eq j k then none else old
  zscore_after (expire j ttl) k n old = if key_eq j k && ttl == 0 then none else old
  zscore_after (delete j) k n old = if key_eq j k then none else old
  zscore_after (zremrangebyscore j top) k n old = if key_eq j k then above top old else old
  zscore_after (publish j r) k n old = old

pub record Redis (V : Type 0) : Type 1 where
  pub Db : Type 0
  pub get : Db → Key → Option V
  pub zscore : Db → Key → Member → Option Number
  -- ZRANGE key 0 n-1 and ZRANGEBYSCORE key -inf max LIMIT 0 n, with scores
  pub zrange : Db → Key → ℕ → List (Member × Number)
  pub zrange_by_score : Db → Key → ℕ → ℕ → List (Member × Number)
  pub zcard : Db → Key → ℕ
  pub run : Db → Command V → Db
  pub get-run : (db : Db) (c : Command V) (k : Key) → get (run db c) k ≡ get_after c k (get db k)
  pub zscore-run :
      (db : Db) (c : Command V) (k : Key) (m : Member)
      → zscore (run db c) k m ≡ zscore_after c k m (zscore db k m)
  pub zrange_scores :
      (db : Db) (k : Key) (n : ℕ) → All (λ e. zscore db k e.0 ≡ some e.1) (zrange db k n)
  pub zrange_by_score_scores :
      (db : Db) (k : Key) (top n : ℕ)
      → All (λ e. zscore db k e.0 ≡ some e.1) (zrange_by_score db k top n)

-- The commands between MULTI and EXEC, in order.
module _ {V : Type 0} where
  abbrev pub gets_after : List (Command V) → Key → Option V → Option V
  gets_after [] k old = old
  gets_after (c ∷ cs) k old = gets_after cs k (get_after c k old)

  abbrev pub zscores_after : List (Command V) → Key → Member → Option Number → Option Number
  zscores_after [] k m old = old
  zscores_after (c ∷ cs) k m old = zscores_after cs k m (zscore_after c k m old)

module _ {V : Type 0} (R : Redis V) where
  open R use {Db, get, zscore, run, get-run, zscore-run}

  unfoldable pub run_all : Db → List (Command V) → Db
  run_all db [] = db
  run_all db (c ∷ cs) = run_all (run db c) cs

  pub get-run_all :
      (db : Db) (cs : List (Command V)) (k : Key)
      → get (run_all db cs) k ≡ gets_after cs k (get db k)
  unfolding run_all
  get-run_all db [] k = refl
  get-run_all db (c ∷ cs) k = get-run_all (run db c) cs k ∙ ap (gets_after cs k) (get-run db c k)

  pub zscore-run_all :
      (db : Db) (cs : List (Command V)) (k : Key) (m : Member)
      → zscore (run_all db cs) k m ≡ zscores_after cs k m (zscore db k m)
  unfolding run_all
  zscore-run_all db [] k m = refl
  zscore-run_all db (c ∷ cs) k m =
      zscore-run_all (run db c) cs k m ∙ ap (zscores_after cs k m) (zscore-run db c k m)
