-- ===== src/Mem/Arbiter/Priority.antt =====
-- Which request an idle channel serves next.
use ysyx_np_sim.Prelude.{
  ◌≡◌, refl, ap, ◌∙◌, Option, none, some, List, [], ◌∷◌, ◌++◌, Option-cases, inl, inr, All,
}
use ysyx_np_sim.Mem.Types.{MemRwOpt, MemTrans}
use ysyx_np_sim.Mem.Arbiter.{Ports, slot, later_or, last_pending}

pub none-pending :
    (mop : MemRwOpt) (ps : List Ports)
    → last_pending mop ps ≡ none
    → All (λ q. slot mop q ≡ none) ps
unfolding last_pending
none-pending mop [] h = tt
none-pending mop (p ∷ ps) h =
    let (later, here) = split (last_pending mop ps) (slot mop p) h in
    (here, none-pending mop ps later)
  where
    split : (o q : Option MemTrans) → later_or o q ≡ none → (o ≡ none) × (q ≡ none)
    split none q e = (refl, e)
    split (some t) q e = cc

-- Of the requests that wait, `last_pending` finds that of the host of the highest number that has one: that host's
-- slot holds it, and the slots of all later hosts are empty.
pub last_pending-highest :
    (mop : MemRwOpt) (ps : List Ports) (t : MemTrans)
    → last_pending mop ps ≡ some t
    → (before after : List Ports) × (p : Ports) × (ps ≡ before ++ (p ∷ after))
      × (slot mop p ≡ some t)
      × All (λ q. slot mop q ≡ none) after
unfolding last_pending
last_pending-highest mop [] t h = cc
last_pending-highest mop (p ∷ ps) t h = elim (Option-cases (last_pending mop ps)) [
  | inl e ↦ ([], ps, p, refl, rw e at h, none-pending mop ps e)
  | inr (u, e) ↦
      let (before, after, q, shape, here, later) = last_pending-highest mop ps t (e ∙ rw e at h) in
      (p ∷ before, after, q, ap (λ qs. p ∷ qs) shape, here, later)
]
