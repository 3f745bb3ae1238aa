-- ===== src/Mem/Arbiter/Next.antt =====
-- What a channel of `RAMArbiter` serves after it has answered a request.
use ysyx_np_sim.Prelude.{
  ℕ, ◌+◌, ◌≡◌, refl, ◌∙◌, sym, ap, subst, ◌⊎◌, inl, inr, true, Option, none, some, List, [], ◌∷◌,
  ◌++◌, length, get_elem?, set, u64, All, Ensures, Ensures-bind, Ensures-all, Ensures-elim,
}
use ysyx_np_sim.Mem.Types.{MemRwOpt, read, write, resp, MemTrans}
use ysyx_np_sim.Mem.Arbiter.{
  Ports, Arbiter, Channel, idle, slot, put, channel, put_channel, place, start, recv_all,
  last_pending, pick_next, complete, due, serve_channel,
}
use ysyx_np_sim.Mem.Arbiter.Priority.{none-pending, last_pending-highest}
use ysyx_np_sim.Mem.Arbiter.Slots.{
  IsSlotted, Fits, at-Fits, place-Slotted, channel-put, Starts, start-Starts, start-Slotted,
  recv_all-Slotted,
}

-- The channel is idle and no host waits for it, or it serves the request of the host of the highest
-- number that has one, from the next tick on and for the latency of that request.
abbrev pub Serves : MemRwOpt → ℕ → Arbiter → Type 0
Serves mop now b =
    (All (λ q. slot mop q ≡ none) b.reqs × (channel mop b ≡ idle))
    ⊎ ((before after : List Ports) × (p : Ports) × (t : MemTrans) × (b.reqs ≡ before ++ (p ∷ after))
        × (slot mop p ≡ some t)
        × All (λ q. slot mop q ≡ none) after
        × (channel mop b
            ≡ record { serving_id = length before; busy_until = u64 (now + 1 + t.lat) }))

get-middle :
    (before after : List Ports) (p : Ports)
    → get_elem? (before ++ (p ∷ after)) (length before) ≡ some p
get-middle [] after p = refl
get-middle (q ∷ before) after p = get-middle before after p

set-middle :
    (before after : List Ports) (p v : Ports)
    → set (before ++ (p ∷ after)) (length before) v ≡ before ++ (v ∷ after)
set-middle [] after p v = refl
set-middle (q ∷ before) after p v = ap (λ (ps : List Ports). q ∷ ps) (set-middle before after p v)

slot-put : (mop : MemRwOpt) (p : Ports) (o : Option MemTrans) → slot mop (put mop p o) ≡ o
slot-put read p o = refl
slot-put write p o = refl

-- The request at the place of the last one that waits is started there.
started :
    (a b : Arbiter) (mop : MemRwOpt) (now : ℕ) (t : MemTrans) (before after : List Ports)
    (p : Ports)
    → a.reqs ≡ before ++ (p ∷ after)
    → All (λ q. slot mop q ≡ none) after
    → t.id ≡ length before
    → t.mop ≡ mop
    → Starts a t now 1 b
    → Serves mop now b
started a b mop now t before after p shape later id way v =
    let (q, _, put_in) = v.placed in
    let timed : MemTrans = record t { lat = v.lat } in
    inr (
      before,
      after,
      put mop q (some timed),
      timed,
      put_in
          ∙ ap (λ (m : MemRwOpt). set a.reqs t.id (put m q (some timed))) way
          ∙ ap (λ (n : ℕ). set a.reqs n (put mop q (some timed))) id
          ∙ ap (λ (ps : List Ports). set ps (length before) (put mop q (some timed))) shape
          ∙ set-middle before after p (put mop q (some timed)),
      slot-put mop q (some timed),
      later,
      ap (λ (m : MemRwOpt). channel m b) (sym way)
          ∙ v.serves
          ∙ ap (λ (n : ℕ). record { serving_id = n; busy_until = u64 (now + 1 + v.lat) }) id,
    )

-- The same with the requests still well placed.
abbrev Next : MemRwOpt → ℕ → Arbiter → Type 0
Next mop now b = IsSlotted b.reqs × Serves mop now b

put_channel-reqs :
    (mop : MemRwOpt) (a : Arbiter) (c : Channel) → (put_channel mop a c).reqs ≡ a.reqs
put_channel-reqs read a c = refl
put_channel-reqs write a c = refl

pick_next-Next :
    (a : Arbiter) (mop : MemRwOpt) (now : ℕ)
    → IsSlotted a.reqs
    → Ensures (pick_next (put_channel mop a idle) mop now (last_pending mop a.reqs)) (Next mop now)
unfolding pick_next
pick_next-Next a mop now s = go (last_pending mop a.reqs) refl
  where
    free : Arbiter
    free = put_channel mop a idle

    same : free.reqs ≡ a.reqs
    same = put_channel-reqs mop a idle

    slotted : IsSlotted free.reqs
    slotted = subst IsSlotted (sym same) s

    go :
        (o : Option MemTrans)
        → last_pending mop a.reqs ≡ o
        → Ensures (pick_next free mop now o) (Next mop now)
    go none e = (
      slotted,
      inl (
        subst (λ (ps : List Ports). All (λ q. slot mop q ≡ none) ps) (sym same)
            (none-pending mop a.reqs e),
        channel-put mop a idle,
      ),
    )
    go (some t) e =
        let (before, after, p, shape, here, later) = last_pending-highest mop a.reqs t e in
        let (id, way) : Fits (length before) mop (some t) =
          subst (Fits (length before) mop) here
            (at-Fits before after p mop (subst IsSlotted shape s)) in
        Ensures-all (start free t now 1) (λ b d. (
          Ensures-elim (λ c. IsSlotted c.reqs) _ b (start-Slotted free t now 1 slotted) d,
          started free b mop now t before after p (same ∙ shape) later id way
              (Ensures-elim (Starts free t now 1) _ b (start-Starts free t now 1) d),
        ))

module _ {H : Type 0} (respond : H → ℕ → MemTrans → H × List MemTrans) where
  complete-Next :
      (a : Arbiter) (h : H) (mop : MemRwOpt) (now : ℕ)
      → IsSlotted a.reqs
      → Ensures (complete respond a h mop now) (λ x. Next mop now x.0)
  unfolding complete
  complete-Next a h mop now s =
      let Q : Arbiter × H → Type 0 = λ x. Next mop now x.0 in
      let id = (channel mop a).serving_id in
      Ensures-bind Q (get_elem? a.reqs id) _ (λ p _. Ensures-bind Q (slot mop p) _ (λ t _.
        Ensures-bind Q (place a id mop none) _ (λ freed e1.
          let s1 =
            Ensures-elim (λ b. IsSlotted b.reqs) _ freed (place-Slotted a id mop none s tt) e1 in
          let issued = (respond h id (record t { dir = resp })).1 in
          Ensures-bind Q (recv_all freed issued now) _ (λ a' e2.
            let s2 =
              Ensures-elim (λ b. IsSlotted b.reqs) _ a' (recv_all-Slotted freed issued now s1) e2 in
            Ensures-bind Q (pick_next (put_channel mop a' idle) mop now (last_pending mop a'.reqs))
              _
              (λ next e3. Ensures-elim (Next mop now) _ next (pick_next-Next a' mop now s2) e3)))))

  -- A channel whose request is due, with each request in the slot of its host and direction, and
  -- whatever the hosts do when they are answered: where no assertion fails, afterwards either no
  -- host waits for the channel and it is idle, or it serves the waiting request of the host of the
  -- highest number, from the next tick on and for its latency. Each request is still in the slot of
  -- its host and direction.
  pub serve_channel-Serves :
      (a : Arbiter) (h : H) (mop : MemRwOpt) (now : ℕ)
      → IsSlotted a.reqs
      → due respond (channel mop a) now ≡ true
      → Ensures (serve_channel respond a h mop now) (λ x. IsSlotted x.0.reqs × Serves mop now x.0)
  unfolding serve_channel
  serve_channel-Serves a h mop now s d = rw d (complete-Next a h mop now s)
