-- ===== src/Transaction.antt =====
-- The optimistic transaction that every operation of app/jobs_v22/store.py is written as:
-- `while True: try: WATCH keys; read; return early, or MULTI … EXEC; break; except WatchError:
-- continue`. A disturbed round of the loop (`Round`) has the commands that other clients send from
-- its WATCH to its EXEC or its return, and what its reads return, which may be of different moments
-- among them. EXEC fails if one of these commands names a watched key. After the disturbed rounds
-- comes one without other clients.
use search_trust_rd.Prelude.{
  ap, subst, ◌⊎◌, inl, inr, ◌≡◌, refl, sym, ◌∙◌, Bool, true, false, ◌||◌, Option, List, [], ◌∷◌,
  All, Number, arith,
}
use search_trust_rd.Model.{Result, ok}
use search_trust_rd.Redis.{
  Key, Member, Command, set, expire, delete, zadd, zrem, zremrangebyscore, publish, key_eq,
  get_after, zscore_after, Redis, run_all,
}

-- What a round decides after its reads: to leave the block with a value or an error, or to queue
-- commands and return a value once they have run.
pub data Plan (V A : Type 0) : Type 0 where
  stop : Result A → Plan V A
  commit : List (Command V) → A → Plan V A

abbrev pub key_of : {V : Type 0} → Command V → Key
key_of (set k v ttl) = k
key_of (expire k ttl) = k
key_of (delete k) = k
key_of (zadd k m s) = k
key_of (zrem k m) = k
key_of (zremrangebyscore k top) = k
key_of (publish k n) = k

unfoldable pub touches : {V : Type 0} → List (Command V) → Key → Bool
touches [] k = false
touches (c ∷ cs) k = key_eq (key_of c) k || touches cs k

unfoldable pub touches_any : {V : Type 0} → List (Command V) → List Key → Bool
unfolding touches
touches_any cs [] = false
touches_any cs (k ∷ ks) = touches cs k || touches_any cs ks

module _ {V : Type 0} (R : Redis V) where
  open R use {Db, get, zscore, run, get-run, zscore-run}

  -- The whole body at one moment, with nobody between the reads and the writes.
  unfoldable pub settle : {A : Type 0} → Plan V A → Db → Result A × Db
  settle (stop r) db = (r, db)
  settle (commit cs a) db = (ok a, run_all R db cs)

  -- EXEC after a round: it fails, and the loop goes on, or it runs the queue on what the others left.
  unfoldable pub conclude : {A : Type 0} → Plan V A → Bool → Db → Result A × Db → Result A × Db
  conclude (stop r) conflict after rest = (r, after)
  conclude (commit cs a) true after rest = rest
  conclude (commit cs a) false after rest = (ok a, run_all R after cs)

  -- `seen` is a database that holds what the round's reads return.
  pub record Round : Type 0 where
    pub seen : Db
    pub between : List (Command V)

  unfoldable pub attempt :
      {A : Type 0} → List Key → (Db → Plan V A) → List Round → Db → Result A × Db
  unfolding settle conclude
  attempt watched body [] db = settle (body db) db
  attempt watched body (round ∷ rounds) db =
      let after = run_all R db round.between in
      let rest = attempt watched body rounds after in
      conclude (body round.seen) (touches_any round.between watched) after rest

  -- Two databases hold the same under a key.
  abbrev pub SameAt : Db → Db → Key → Type 0
  SameAt a b k = (get a k ≡ get b k) × ((m : Member) → zscore a k m ≡ zscore b k m)

  -- The key is read at one moment: before all the commands, or after some of them.
  abbrev pub SeenAt : Db → Key → List (Command V) → Db → Type 0
  SeenAt seen k [] db = SameAt seen db k
  SeenAt seen k (c ∷ cs) db = SameAt seen db k ⊎ SeenAt seen k cs (run db c)

  -- Each round reads each key at one moment of that round.
  abbrev pub IsSeen : List Round → Db → Type 0
  IsSeen [] db = Unit
  IsSeen (r ∷ rounds) db =
      ((k : Key) → SeenAt r.seen k r.between db) × IsSeen rounds (run_all R db r.between)

  -- On what the round's reads returned the operation, alone, writes nothing and gives this answer;
  -- and nothing but the other clients' commands has been written.
  abbrev pub LeavesEarly :
      {A : Type 0} → (List Round → Db → Result A × Db) → Result A × Db → Round → Db → Type 0
  LeavesEarly op result r after =
      (result.0 ≡ (op [] r.seen).0)
      × ((k : Key) → SameAt r.seen (op [] r.seen).1 k)
      × ((k : Key) → SameAt after result.1 k)

  -- The result is that of the operation alone at this moment or at the end of a later round, or a
  -- round has left early.
  abbrev pub Linear :
      {A : Type 0} → (List Round → Db → Result A × Db) → Result A × Db → List Round → Db → Type 0
  Linear op result [] db = result ≡ op [] db
  Linear op result (r ∷ rounds) db =
      (result ≡ op [] db)
      ⊎ LeavesEarly op result r (run_all R db r.between)
      ⊎ Linear op result rounds (run_all R db r.between)

  -- The body's decision depends only on the keys that it watches.
  abbrev pub ReadsOnly : {A : Type 0} → List Key → (Db → Plan V A) → Type 0
  ReadsOnly watched body = (a b : Db) → All (SameAt a b) watched → body a ≡ body b

untouched_get :
    {V : Type 0} (c : Command V) (k : Key) (old : Option V)
    → key_eq (key_of c) k ≡ false
    → get_after c k old ≡ old
untouched_get (set j v ttl) k old h = rw h
untouched_get (expire j ttl) k old h = rw h
untouched_get (delete j) k old h = rw h
untouched_get (zadd j m s) k old h = refl
untouched_get (zrem j m) k old h = refl
untouched_get (zremrangebyscore j top) k old h = refl
untouched_get (publish j n) k old h = refl

untouched_zscore :
    {V : Type 0} (c : Command V) (k : Key) (m : Member) (old : Option Number)
    → key_eq (key_of c) k ≡ false
    → zscore_after c k m old ≡ old
untouched_zscore (set j v ttl) k m old h = rw h
untouched_zscore (expire j ttl) k m old h = rw h
untouched_zscore (delete j) k m old h = rw h
untouched_zscore (zadd j n s) k m old h = rw h
untouched_zscore (zrem j n) k m old h = rw h
untouched_zscore (zremrangebyscore j top) k m old h = rw h
untouched_zscore (publish j n) k m old h = refl

or_false : (a b : Bool) → (a || b) ≡ false → (a ≡ false) × (b ≡ false)
or_false a b h = ground arith

module _ {V : Type 0} (R : Redis V) where
  open R use {Db, get, zscore, run, get-run, zscore-run}

  -- A key that none of the commands names holds what it held.
  untouched :
      (cs : List (Command V)) (db : Db) (k : Key)
      → touches cs k ≡ false
      → SameAt R db (run_all R db cs) k
  unfolding touches run_all
  untouched [] db k h = (refl, λ m. refl)
  untouched (c ∷ cs) db k h =
      let (here, later) = or_false (key_eq (key_of c) k) (touches cs k) h in
      let (same_get, same_zscore) = untouched cs (run db c) k later in
      (
        sym (get-run db c k ∙ untouched_get c k (get db k) here) ∙ same_get,
        λ m.
            sym (zscore-run db c k m ∙ untouched_zscore c k m (zscore db k m) here) ∙ same_zscore m,
      )

  untouched-All :
      (cs : List (Command V)) (db : Db) (ks : List Key)
      → touches_any cs ks ≡ false
      → All (SameAt R db (run_all R db cs)) ks
  unfolding touches_any
  untouched-All cs db [] h = tt
  untouched-All cs db (k ∷ ks) h =
      let (here, later) = or_false (touches cs k) (touches_any cs ks) h in
      (untouched cs db k here, untouched-All cs db ks later)

  same_trans : (a b d : Db) (k : Key) → SameAt R a b k → SameAt R b d k → SameAt R a d k
  same_trans a b d k (e, f) (g, h) = (e ∙ g, λ m. f m ∙ h m)

  -- What was read of a key that nobody has touched is what it holds.
  seen_untouched :
      (seen : Db) (k : Key) (cs : List (Command V)) (db : Db)
      → touches cs k ≡ false
      → SeenAt R seen k cs db
      → SameAt R seen (run_all R db cs) k
  unfolding touches run_all
  seen_untouched seen k [] db h s = s
  seen_untouched seen k (c ∷ cs) db h (inl s) =
      same_trans seen db (run_all R db (c ∷ cs)) k s (untouched (c ∷ cs) db k h)
  seen_untouched seen k (c ∷ cs) db h (inr s) =
      seen_untouched seen k cs (run db c) (or_false (key_eq (key_of c) k) (touches cs k) h).1 s

  seen_untouched-All :
      (seen : Db) (cs : List (Command V)) (db : Db) (ks : List Key)
      → touches_any cs ks ≡ false
      → ((k : Key) → SeenAt R seen k cs db)
      → All (SameAt R seen (run_all R db cs)) ks
  unfolding touches_any
  seen_untouched-All seen cs db [] h s = tt
  seen_untouched-All seen cs db (k ∷ ks) h s =
      let (here, later) = or_false (touches cs k) (touches_any cs ks) h in
      (seen_untouched seen k cs db here (s k), seen_untouched-All seen cs db ks later s)

  -- What follows a transaction: it keeps the answer and what the keys hold, as a publication does.
  abbrev pub Follows : {A : Type 0} → (Result A × Db → Result A × Db) → Type 0
  Follows {A} finish =
      ((x : Result A × Db) → (finish x).0 ≡ x.0)
      × ((x : Result A × Db) (k : Key) → SameAt R x.1 (finish x).1 k)

  pub Linear-now :
      {A : Type 0} (op : List (Round R) → Db → Result A × Db) (result : Result A × Db)
      (rounds : List (Round R)) (db : Db)
      → result ≡ op [] db
      → Linear R op result rounds db
  Linear-now op result [] db e = e
  Linear-now op result (r ∷ rounds) db e = inl e

  module _ {A : Type 0} (finish : Result A × Db → Result A × Db) (follows : Follows finish)
      (watched : List Key) (body : Db → Plan V A) (only : ReadsOnly R watched body) where
    abbrev op : List (Round R) → Db → Result A × Db
    op rounds db = finish (attempt R watched body rounds db)

    -- One round, given what the later rounds do.
    round-Linear :
        (r : Round R) (rounds : List (Round R)) (db : Db) (plan : Plan V A) (conflict : Bool)
        → ((k : Key) → SeenAt R r.seen k r.between db)
        → body r.seen ≡ plan
        → touches_any r.between watched ≡ conflict
        → (rest : Result A × Db) → Linear R op (finish rest) rounds (run_all R db r.between)
        → Linear R op
            (finish (conclude R plan conflict (run_all R db r.between) rest))
            (r ∷ rounds)
            db
    unfolding conclude attempt settle
    round-Linear r rounds db (stop a) conflict s e t rest later =
        let after = run_all R db r.between in
        let alone : op [] r.seen ≡ finish (a, r.seen) = ap (λ p. finish (settle R p r.seen)) e in
        inr (
          inl (
            follows.0 (a, after) ∙ sym (follows.0 (a, r.seen)) ∙ ap (λ x. x.0) (sym alone),
            λ k.
                subst (λ (x : Result A × Db). SameAt R r.seen x.1 k) (sym alone)
                  (follows.1 (a, r.seen) k),
            λ k. follows.1 (a, after) k,
          ))
    round-Linear r rounds db (commit cs a) true s e t rest later = inr (inr later)
    round-Linear r rounds db (commit cs a) false s e t rest later =
        let after = run_all R db r.between in
        let same : body after ≡ commit cs a =
          sym (only r.seen after (seen_untouched-All r.seen r.between db watched t s)) ∙ e in
        inr (inr (Linear-now op _ rounds after (ap (λ p. finish (settle R p after)) (sym same))))

    -- Whatever other clients send, the loop does what the body does at one moment, or leaves early.
    pub attempt-Linear :
        (rounds : List (Round R)) (db : Db)
        → IsSeen R rounds db
        → Linear R op (op rounds db) rounds db
    unfolding attempt
    attempt-Linear [] db s = refl
    attempt-Linear (r ∷ rounds) db s =
        round-Linear r rounds db (body r.seen) (touches_any r.between watched) s.0 refl refl
          (attempt R watched body rounds (run_all R db r.between))
          (attempt-Linear rounds (run_all R db r.between) s.1)
