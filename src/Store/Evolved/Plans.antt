-- ===== src/Store/Evolved/Plans.antt =====
-- Every plan that writes a snapshot makes it evolve.
use search_trust_rd.Prelude.{
  ℕ, ◌≡◌, refl, Bool, true, false, not, ◌||◌, Option, none, some, [], ◌∷◌, ◌++◌, Number, whole,
  if◌then◌else◌, ==_refl, negative, infinite, minus_infinite, arith,
}
use search_trust_rd.Model.{JobState, terminal}
use search_trust_rd.Redis.{
  state, request, recovery_pending, sync_pending, active, job, set, expire, zadd, zrem,
}
use search_trust_rd.Transaction.{commit}
use search_trust_rd.Store.Base.{state_json, StoreConfig, TransitionResult}
use search_trust_rd.Store.Transition.{Update, index_commands, transition_next, transition_plan}
use search_trust_rd.Store.Recovery.{
  take_over_commands, take_over_next, take_over_plan, retry_commands, retry_plan, retry_next,
  mark_enqueued_plan, is_failed,
}
use search_trust_rd.Store.Callbacks.{mark_synced_plan, synced_revision}
use search_trust_rd.Store.Evolved.{Evolves, Evolves-refl, Moves, moves_rules}

or_left : (a b : Bool) → (a || b) ≡ false → a ≡ false
or_left a b h = ground arith

not_or_left : (a b : Bool) → (not a || b) ≡ false → a ≡ true
not_or_left a b h = ground arith

module _ (c : StoreConfig) (j : ℕ) (s : JobState) where
  transition_next-Evolves : (u : Update) → terminal s ≡ false → Evolves s (transition_next u s)
  unfolding transition_next terminal
  transition_next-Evolves u h = record {
    same_job = refl;
    same_case = refl;
    same_request = refl;
    same_key = refl;
    same_created = refl;
    same_deadline = refl;
    revision_grows = omega arith;
    generation_grows = omega arith;
    one_content = λ e. absurd (omega arith);
    success_stays = λ e. cc (h, e);
  }

  transition_commands-Moves :
      (now : ℕ) (next : JobState) (ended : Bool) (a : TransitionResult)
      → Evolves s next
      → Moves j s (
          commit
            (set (state j) (state_json next) c.state_ttl_seconds
              ∷ expire (request j) c.state_ttl_seconds
              ∷ (index_commands ended j now
                  ++ zadd sync_pending (job j) (whole next.revision) ∷ []))
            a)
  transition_commands-Moves now next true a e = record {
    sent = record { next = next; holds = rw ==_refl; evolves = e };
  }
  transition_commands-Moves now next false a e = record {
    sent = record { next = next; holds = rw ==_refl; evolves = e };
  }

  pub transition-Moves : (u : Update) → Moves j s (transition_plan c j u s)
  unfolding transition_plan
  transition-Moves u =
      let next = transition_next u s in
      search
        (
          moves_rules,
          transition_commands-Moves u.now next (terminal next),
          transition_next-Evolves u,
        )
        depth 8

  receipt-Evolves : (n : ℕ) → Evolves s (record s { callback_synced_revision = n })
  receipt-Evolves n = record {
    same_job = refl;
    same_case = refl;
    same_request = refl;
    same_key = refl;
    same_created = refl;
    same_deadline = refl;
    revision_grows = omega arith;
    generation_grows = omega arith;
    one_content = λ e. refl;
    success_stays = λ e. refl;
  }

  take_over-Moves-commit :
      (now : ℕ) (a : TransitionResult)
      → terminal s ≡ false
      → Moves j s (commit (take_over_commands c j now (take_over_next now s)) a)
  unfolding take_over_commands take_over_next terminal
  take_over-Moves-commit now a h = record {
    sent = record {
      next = take_over_next now s;
      holds = rw ==_refl;
      evolves = record {
        same_job = refl;
        same_case = refl;
        same_request = refl;
        same_key = refl;
        same_created = refl;
        same_deadline = refl;
        revision_grows = omega arith;
        generation_grows = omega arith;
        one_content = λ e. absurd (omega arith);
        success_stays = λ e. cc (h, e);
      };
    };
  }

  pub take_over-Moves :
      (expected now : ℕ) (pending : Option Number)
      → Moves j s (take_over_plan c j expected now pending s)
  unfolding take_over_plan
  take_over-Moves expected now pending =
      search (moves_rules, take_over-Moves-commit now, or_left) depth 8

  retry-Moves-commit :
      (now : ℕ) (a : TransitionResult)
      → is_failed s.status ≡ true
      → Moves j s (commit (retry_commands c j now (retry_next now s)) a)
  unfolding retry_commands retry_next
  retry-Moves-commit now a h = record {
    sent = record {
      next = retry_next now s;
      holds = rw ==_refl;
      evolves = record {
        same_job = refl;
        same_case = refl;
        same_request = refl;
        same_key = refl;
        same_created = refl;
        same_deadline = refl;
        revision_grows = omega arith;
        generation_grows = omega arith;
        one_content = λ e. absurd (omega arith);
        success_stays = λ e. cc (h, e);
      };
    };
  }

  pub retry-Moves : (now : ℕ) → Moves j s (retry_plan c j now s)
  unfolding retry_plan
  retry-Moves now = search (moves_rules, retry-Moves-commit now, not_or_left) depth 8

  mark_synced-Moves-commit :
      (n : ℕ) (all : Bool)
      → Moves j s (
          commit
            (set
                (state j)
                (state_json (record s { callback_synced_revision = n }))
                c.state_ttl_seconds
              ∷ (if all then zrem sync_pending (job j) ∷ [] else []))
            (record s { callback_synced_revision = n }))
  mark_synced-Moves-commit n true = record {
    sent = record {
      next = record s { callback_synced_revision = n };
      holds = rw ==_refl;
      evolves = receipt-Evolves n;
    };
  }
  mark_synced-Moves-commit n false = record {
    sent = record {
      next = record s { callback_synced_revision = n };
      holds = rw ==_refl;
      evolves = receipt-Evolves n;
    };
  }

  pub mark_synced-Moves : (revision : ℕ) → Moves j s (mark_synced_plan c j revision s)
  unfolding mark_synced_plan
  mark_synced-Moves revision = mark_synced-Moves-commit (synced_revision revision s) _

  enqueued-Moves-commit :
      (now : ℕ) (ended : Bool)
      → Moves j s (
          commit
            (zrem recovery_pending (job j)
              ∷ (if ended then [] else zadd active (job j) (whole now) ∷ []))
            true)
  enqueued-Moves-commit now true = record {
    sent = record { next = s; holds = refl; evolves = Evolves-refl s };
  }
  enqueued-Moves-commit now false = record {
    sent = record { next = s; holds = refl; evolves = Evolves-refl s };
  }

  pub mark_enqueued-Moves :
      (generation now : ℕ) (pending : Option Number)
      → Moves j s (mark_enqueued_plan j generation now pending s)
  unfolding mark_enqueued_plan
  mark_enqueued-Moves generation now none = search moves_rules
  mark_enqueued-Moves generation now (some infinite) = search moves_rules
  mark_enqueued-Moves generation now (some minus_infinite) = search moves_rules
  mark_enqueued-Moves generation now (some (negative k)) = search moves_rules
  mark_enqueued-Moves generation now (some _) =
      search (moves_rules, enqueued-Moves-commit now (terminal s))
