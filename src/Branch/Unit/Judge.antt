-- ===== src/Branch/Unit/Judge.antt =====
-- What `judge` answers and counts.
use ysyx_np_sim.Prelude.{
  ℕ, ◌+◌, ◌%◌, ◌^◌, ◌≡◌, ◌≢◌, refl, Bool, true, false, if◌then◌else◌, ◌==◌, incr, arith,
}
use ysyx_np_sim.Branch.Types.{BranchResult, BpStats}
use ysyx_np_sim.Branch.Unit.{BranchUnit, judge_stats, judge}

-- `judge` says that a prediction was accurate exactly when the fetch went on where the program
-- does: at the predicted target, if it was redirected, or else at the next instruction, which
-- neither target is.
pub judge-fetch :
    {P : Type 0} (u : BranchUnit P) (real_taken : Bool) (real_target next : ℕ) (pred : BranchResult)
    → real_target ≢ next
    → pred.pred_target ≢ next
    → (judge u real_taken real_target pred).0 ≡ (
        (if pred.will_redirect then pred.pred_target else next)
        == (if real_taken then real_target else next))
unfolding judge judge_stats
judge-fetch u real_taken real_target next pred h k = go real_taken pred.will_redirect
  where
    go :
        (t r : Bool)
        → (judge_stats u.stats t real_target (record pred { will_redirect = r })).0
          ≡ ((if r then pred.pred_target else next) == (if t then real_target else next))
    go true true = refl
    go true false = ground arith
    go false true = ground arith
    go false false = ground arith

-- The three causes add up to the misses, in the arithmetic of `size_t`.
abbrev pub Balanced : BpStats → Type 0
Balanced s = (s.no_target + s.bad_target + s.bad_pred) % 2 ^ 64 ≡ s.misses % 2 ^ 64

-- Where the three causes of a miss add up to the misses, modulo 2^64, they do so after `judge`,
-- whatever it judges.
pub judge-causes :
    {P : Type 0} (u : BranchUnit P) (real_taken : Bool) (real_target : ℕ) (pred : BranchResult)
    → Balanced u.stats
    → Balanced (judge u real_taken real_target pred).1.stats
unfolding judge judge_stats
judge-causes u real_taken real_target pred h =
    go real_taken pred.will_redirect pred.pred_taken (pred.pred_target == real_target)
  where
    s : BpStats
    s = u.stats

    missed : BpStats
    missed = record s { misses = incr s.misses }

    after : Bool → Bool → Bool → Bool → Bool × BpStats
    after t r p a =
        if t
        then (if r
            then (a, if a then s else record missed { bad_target = incr s.bad_target })
            else (
              false,
              if p
                  then record missed { no_target = incr s.no_target }
                  else record missed { bad_pred = incr s.bad_pred },
            ))
        else if r
        then (false, record missed { bad_pred = incr s.bad_pred })
        else (true, s)

    go : (t r p a : Bool) → Balanced (after t r p a).1
    go true true p true = h
    go true true p false = omega (arith, h)
    go true false true a = omega (arith, h)
    go true false false a = omega (arith, h)
    go false true p a = omega (arith, h)
    go false false p a = h
