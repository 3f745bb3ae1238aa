-- ===== src/Pipe/Wake.antt =====
-- pipeSim/Pipeline.hh: when the core runs next.
use ysyx_np_sim.Prelude.{
  ℕ, ◌+◌, ◌^◌, ◌≤◌, ◌<◌, min, ◌≡◌, refl, Bool, true, false, ◌⊎◌, inl, inr, arith, u64, leb,
  if◌then◌else◌,
}
use ysyx_np_sim.Pipe.Types.{
  FetchState, PerStage, PipeStage, fetch, decode, execute, int_mul_ext, int_div_ext, memory,
  write_back, inf_time, get,
}
use ysyx_np_sim.Pipe.Core.{Core, calc_sched, sooner, next_stage, fetch_active}

sooner-le : (now m t : ℕ) → sooner now m t ≤ m
sooner-le now m t = ground arith

sooner-lt : (now m t : ℕ) → now < m → now < sooner now m t
sooner-lt now m t h = ground arith

sooner-due : (now m t : ℕ) → now < t → sooner now m t ≤ t
sooner-due now m t h = ground arith

next_stage-lt : (s : PerStage ℕ) (now : ℕ) → now < inf_time → now < next_stage s now
next_stage-lt s now h = sooner-lt now _ _ (
    sooner-lt now _ _ (
      sooner-lt now _ _
        (sooner-lt now _ _ (sooner-lt now _ _ (sooner-lt now _ _ (sooner-lt now _ _ h))))))

sooner-bound : (now m t x : ℕ) → m ≤ x → sooner now m t ≤ x
sooner-bound now m t x h = omega (arith, sooner-le now m t)

next_stage-due :
    (s : PerStage ℕ) (now : ℕ) (stage : PipeStage)
    → now < get stage s
    → next_stage s now ≤ get stage s
next_stage-due s now write_back h = sooner-due now _ _ h
next_stage-due s now memory h = sooner-bound now _ _ _ (sooner-due now _ _ h)
next_stage-due s now int_div_ext h =
    sooner-bound now _ _ _ (sooner-bound now _ _ _ (sooner-due now _ _ h))
next_stage-due s now int_mul_ext h =
    sooner-bound now _ _ _ (sooner-bound now _ _ _ (sooner-bound now _ _ _ (sooner-due now _ _ h)))
next_stage-due s now execute h = sooner-bound now _ _ _ (
    sooner-bound now _ _ _ (sooner-bound now _ _ _ (sooner-bound now _ _ _ (sooner-due now _ _ h))))
next_stage-due s now decode h = sooner-bound now _ _ _ (
    sooner-bound now _ _ _ (
      sooner-bound now _ _ _
        (sooner-bound now _ _ _ (sooner-bound now _ _ _ (sooner-due now _ _ h)))))
next_stage-due s now fetch h = sooner-bound now _ _ _ (
    sooner-bound now _ _ _ (
      sooner-bound now _ _ _ (
        sooner-bound now _ _ _
          (sooner-bound now _ _ _ (sooner-bound now _ _ _ (sooner-due now _ _ h))))))

-- The next update that the two parts of the minimum give.
wake_at : Bool → ℕ → ℕ → ℕ
wake_at active mins now = if active then min mins (u64 (now + 1)) else mins

wake_at-bounds :
    (active : Bool) (mins now : ℕ)
    → now + 1 < 2 ^ 64
    → now < mins
    → (now < wake_at active mins now)
      × (wake_at active mins now ≤ mins)
      × ((active ≡ false) ⊎ (wake_at active mins now ≡ now + 1))
unfolding wake_at
wake_at-bounds true mins now h k = (ground arith, ground arith, inr (ground arith))
wake_at-bounds false mins now h k = (k, omega arith, inl refl)

-- The front end has nothing to fetch on its own account.
abbrev pub IsIdle : FetchState → ℕ → Type 0
IsIdle f now = (f.wrong_path ≡ false) × (f.early_redir_remaining ≡ 0) × (f.resume_tick ≤ now)

fetch_active-IsIdle : (f : FetchState) (now : ℕ) → fetch_active f now ≡ false → IsIdle f now
fetch_active-IsIdle f now h = (ground arith, ground arith, ground arith)

IsIdle-or_next :
    (f : FetchState) (now next : ℕ)
    → (fetch_active f now ≡ false) ⊎ (next ≡ now + 1)
    → IsIdle f now ⊎ (next ≡ now + 1)
IsIdle-or_next f now next (inl e) = inl (fetch_active-IsIdle f now e)
IsIdle-or_next f now next (inr e) = inr e

le-or-lt : (a b : ℕ) → (a ≤ b) ⊎ (b < a)
le-or-lt a b = decided (leb a b) refl
  where
    decided : (d : Bool) → leb a b ≡ d → (a ≤ b) ⊎ (b < a)
    decided true e = inl (ground arith)
    decided false e = inr (ground arith)

due_by :
    (s : PerStage ℕ) (now : ℕ) (stage : PipeStage) (next : ℕ)
    → next ≤ next_stage s now
    → (get stage s ≤ now) ⊎ (next ≤ get stage s)
due_by s now stage next h = elim (le-or-lt (get stage s) now) [
  | inl past ↦ inl past
  | inr due ↦ inr (omega (arith, next_stage-due s now stage due))
]

-- Where no answer of the legacy MMIO timer is due, and before the last tick of the clock, the next
-- update that `calc_sched` sets is after this tick, not after the tick of any stage unless that is
-- not later than this tick, and in the very next tick unless the front end is on no wrong path, has
-- no early redirect left and waits for no recovery.
pub calc_sched-wakes :
    {P C : Type 0} (c : Core P C) (now : ℕ) (stage : PipeStage)
    → c.mmio_resp_tick ≡ inf_time
    → now < inf_time
    → (now < (calc_sched c now).calc_nxtupd)
      × ((get stage c.stage_update ≤ now)
          ⊎ ((calc_sched c now).calc_nxtupd ≤ get stage c.stage_update))
      × (IsIdle c.fetch_state now ⊎ ((calc_sched c now).calc_nxtupd ≡ now + 1))
unfolding calc_sched wake_at
calc_sched-wakes c now stage h lt =
    let mins = min (next_stage c.stage_update now) c.mmio_resp_tick in
    let after : now < mins = omega (arith, next_stage-lt c.stage_update now lt, h) in
    let (a, b, r) = wake_at-bounds (fetch_active c.fetch_state now) mins now (omega arith) after in
    (a, due_by c.stage_update now stage _ (omega arith), IsIdle-or_next c.fetch_state now _ r)
