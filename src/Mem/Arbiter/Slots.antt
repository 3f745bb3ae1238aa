-- ===== src/Mem/Arbiter/Slots.antt =====
-- The requests that `RAMArbiter` keeps: each in the slot of its own host and direction.
use ysyx_np_sim.Prelude.{
  ℕ, ◌+◌, ◌≡◌, refl, ◌∙◌, sym, ap, subst, ◌==◌, Option, none, some, List, [], ◌∷◌, ◌++◌, zero, suc,
  arith, length, get_elem?, set, set_at, u64, ltb, Ensures, Ensures-bind, Ensures-then, Ensures-if,
  Ensures-all, Ensures-elim, subst-some,
}
use ysyx_np_sim.Mem.Types.{MemRwOpt, read, write, MemTrans}
use ysyx_np_sim.Mem.Device
use ysyx_np_sim.Mem.Device.{device_of}
use ysyx_np_sim.Mem.Arbiter.{
  Ports, Channel, Arbiter, inf_time, slot, put, channel, put_channel, bump, count_host,
  count_device, lat_of, place, start, is_free, recv_req, recv_all,
}

abbrev pub Fits : ℕ → MemRwOpt → Option MemTrans → Type 0
Fits i mop none = Unit
Fits i mop (some t) = (t.id ≡ i) × (t.mop ≡ mop)

-- The slots of the hosts from number `i` on.
abbrev pub SlottedFrom : ℕ → List Ports → Type 0
SlottedFrom i [] = Unit
SlottedFrom i (p ∷ ps) = (Fits i read p.rd × Fits i write p.wr) × SlottedFrom (i + 1) ps

-- Each request is in the slot of its host and direction.
abbrev pub IsSlotted : List Ports → Type 0
IsSlotted ps = SlottedFrom 0 ps

put-Fits :
    (i : ℕ) (mop : MemRwOpt) (p : Ports) (o : Option MemTrans)
    → Fits i read p.rd × Fits i write p.wr
    → Fits i mop o
    → Fits i read (put mop p o).rd × Fits i write (put mop p o).wr
put-Fits i read p o f g = (g, f.1)
put-Fits i write p o f g = (f.0, g)

set-Slotted :
    (k i : ℕ) (ps : List Ports) (mop : MemRwOpt) (p : Ports) (o : Option MemTrans)
    → SlottedFrom k ps
    → get_elem? ps i ≡ some p
    → Fits (k + i) mop o
    → SlottedFrom k (set ps i (put mop p o))
set-Slotted k i [] mop p o s e f = tt
set-Slotted k zero (q ∷ ps) mop p o s e f =
    let at_k : Fits k mop o = subst (λ (n : ℕ). Fits n mop o) (omega arith) f in
    (
      put-Fits k mop p o (subst-some (λ (r : Ports). Fits k read r.rd × Fits k write r.wr) e s.0)
          at_k,
      s.1,
    )
set-Slotted k (suc i) (q ∷ ps) mop p o s e f =
    (s.0, set-Slotted (k + 1) i ps mop p o s.1 e (subst (λ (n : ℕ). Fits n mop o) (omega arith) f))

-- What stands in a slot fits it.
slot-Fits :
    (k : ℕ) (before after : List Ports) (p : Ports) (mop : MemRwOpt)
    → SlottedFrom k (before ++ (p ∷ after))
    → Fits (k + length before) mop (slot mop p)
slot-Fits k [] after p read s = subst (λ (n : ℕ). Fits n read p.rd) (omega arith) s.0.0
slot-Fits k [] after p write s = subst (λ (n : ℕ). Fits n write p.wr) (omega arith) s.0.1
slot-Fits k (q ∷ before) after p mop s =
    subst (λ (n : ℕ). Fits n mop (slot mop p)) (omega arith)
      (slot-Fits (k + 1) before after p mop s.1)

pub at-Fits :
    (before after : List Ports) (p : Ports) (mop : MemRwOpt)
    → IsSlotted (before ++ (p ∷ after))
    → Fits (length before) mop (slot mop p)
at-Fits before after p mop s =
    subst (λ (n : ℕ). Fits n mop (slot mop p)) (omega arith) (slot-Fits 0 before after p mop s)

-- The request is in the slots.
abbrev Places : Arbiter → ℕ → MemRwOpt → Option MemTrans → Arbiter → Type 0
Places a id mop o b =
    (p : Ports) × (get_elem? a.reqs id ≡ some p) × (b.reqs ≡ set a.reqs id (put mop p o))

place-Places :
    (a : Arbiter) (id : ℕ) (mop : MemRwOpt) (o : Option MemTrans)
    → Ensures (place a id mop o) (Places a id mop o)
unfolding place
place-Places a id mop o =
    Ensures-bind (Places a id mop o) (get_elem? a.reqs id) _ (λ p e. (p, e, refl))

Places-Slotted :
    (a b : Arbiter) (id : ℕ) (mop : MemRwOpt) (o : Option MemTrans)
    → IsSlotted a.reqs
    → Fits id mop o
    → Places a id mop o b
    → IsSlotted b.reqs
Places-Slotted a b id mop o s f (p, e, same) =
    subst IsSlotted (sym same)
      (set-Slotted 0 id a.reqs mop p o s e (subst (λ (n : ℕ). Fits n mop o) (omega arith) f))

pub place-Slotted :
    (a : Arbiter) (id : ℕ) (mop : MemRwOpt) (o : Option MemTrans)
    → IsSlotted a.reqs
    → Fits id mop o
    → Ensures (place a id mop o) (λ b. IsSlotted b.reqs)
place-Slotted a id mop o s f = Ensures-all (place a id mop o) (λ b e.
    Places-Slotted a b id mop o s f
      (Ensures-elim (Places a id mop o) _ b (place-Places a id mop o) e))

count_host-reqs :
    (a : Arbiter) (mop : MemRwOpt) (h : ℕ) → Ensures (count_host a mop h) (λ b. b.reqs ≡ a.reqs)
unfolding count_host
count_host-reqs a read h = Ensures-bind (λ b. b.reqs ≡ a.reqs) (bump a.host_rd h) _ (λ n _. refl)
count_host-reqs a write h = Ensures-bind (λ b. b.reqs ≡ a.reqs) (bump a.host_wr h) _ (λ n _. refl)

count_device-reqs :
    (a : Arbiter) (h did : ℕ) → Ensures (count_device a h did) (λ b. b.reqs ≡ a.reqs)
unfolding count_device
count_device-reqs a h did =
    let Q : Arbiter → Type 0 = λ b. b.reqs ≡ a.reqs in
    Ensures-bind Q (get_elem? a.host_dev h) _ (λ row _.
      Ensures-bind Q (bump row did) _
        (λ row' _. Ensures-bind Q (set_at a.host_dev h row') _ (λ host_dev _. refl)))

lat_of-reqs :
    (a : Arbiter) (t : MemTrans) (now : ℕ) → Ensures (lat_of a t now) (λ x. x.1.reqs ≡ a.reqs)
unfolding lat_of
lat_of-reqs a t now =
    let Q : ℕ × Arbiter → Type 0 = λ x. x.1.reqs ≡ a.reqs in
    let did = device_of a.addr_map a.default_device t.addr in
    Ensures-then Q (ltb t.id (length a.reqs)) _ (λ _.
      Ensures-then Q (ltb did (length a.devices)) _ (λ _.
        Ensures-bind Q (count_host a t.mop t.id) _ (λ a1 e1.
          let same1 = Ensures-elim (λ b. b.reqs ≡ a.reqs) _ a1 (count_host-reqs a t.mop t.id) e1 in
          Ensures-bind Q (count_device a1 t.id did) _ (λ a2 e2.
            let same2 =
              Ensures-elim (λ b. b.reqs ≡ a1.reqs) _ a2 (count_device-reqs a1 t.id did) e2 in
            Ensures-bind Q (get_elem? a2.devices did) _ (λ d _.
              Ensures-bind Q (Device.access d t now) _ (λ (lat, d') _.
                Ensures-bind Q (set_at a2.devices did d') _ (λ devices _. same2 ∙ same1)))))))

put_channel-reqs :
    (mop : MemRwOpt) (a : Arbiter) (c : Channel) → (put_channel mop a c).reqs ≡ a.reqs
put_channel-reqs read a c = refl
put_channel-reqs write a c = refl

pub channel-put :
    (mop : MemRwOpt) (a : Arbiter) (c : Channel) → channel mop (put_channel mop a c) ≡ c
channel-put read a c = refl
channel-put write a c = refl

-- A request is being served: its latency is in its slot, and its channel is busy for as long.
pub record Starts (a : Arbiter) (t : MemTrans) (now wait : ℕ) (b : Arbiter) : Type 0 where
  pub lat : ℕ
  pub placed : Places a t.id t.mop (some (record t { lat = lat })) b
  pub serves : channel t.mop b ≡ record { serving_id = t.id; busy_until = u64 (now + wait + lat) }

pub start-Starts :
    (a : Arbiter) (t : MemTrans) (now wait : ℕ) → Ensures (start a t now wait) (Starts a t now wait)
unfolding start
start-Starts a t now wait =
    let Q = Starts a t now wait in
    Ensures-bind Q (lat_of a t now) _ (λ (lat, a') e1.
      let same = Ensures-elim (λ x. x.1.reqs ≡ a.reqs) _ (lat, a') (lat_of-reqs a t now) e1 in
      let timed : Option MemTrans = some (record t { lat = lat }) in
      Ensures-bind Q (place a' t.id t.mop timed) _ (λ b e2.
        let (p, e, put_in) =
          Ensures-elim (Places a' t.id t.mop timed) _ b (place-Places a' t.id t.mop timed) e2 in
        let c : Channel = record { serving_id = t.id; busy_until = u64 (now + wait + lat) } in
        record {
          lat = lat;
          placed = (
            p,
            ap (λ (ps : List Ports). get_elem? ps t.id) (sym same) ∙ e,
            put_channel-reqs t.mop b c
                ∙ put_in
                ∙ ap (λ (ps : List Ports). set ps t.id (put t.mop p timed)) same,
          );
          serves = channel-put t.mop b c;
        }))

pub start-Slotted :
    (a : Arbiter) (t : MemTrans) (now wait : ℕ)
    → IsSlotted a.reqs
    → Ensures (start a t now wait) (λ b. IsSlotted b.reqs)
start-Slotted a t now wait s = Ensures-all (start a t now wait) (λ b e.
    let v = Ensures-elim (Starts a t now wait) _ b (start-Starts a t now wait) e in
    Places-Slotted a b t.id t.mop (some (record t { lat = v.lat })) s (refl, refl) v.placed)

recv_req-Slotted :
    (a : Arbiter) (t : MemTrans) (now : ℕ)
    → IsSlotted a.reqs
    → Ensures (recv_req a t now) (λ b. IsSlotted b.reqs)
unfolding recv_req
recv_req-Slotted a t now s =
    let Q : Arbiter → Type 0 = λ b. IsSlotted b.reqs in
    Ensures-bind Q (get_elem? a.reqs t.id) _ (λ p _. Ensures-then Q (is_free (slot t.mop p)) _ (λ _.
      Ensures-bind Q (place a t.id t.mop (some t)) _ (λ placed e.
        let s1 = Ensures-elim Q _ placed (place-Slotted a t.id t.mop (some t) s (refl, refl)) e in
        Ensures-if Q ((channel t.mop placed).busy_until == inf_time) (start placed t now 0) _
          (λ _. start-Slotted placed t now 0 s1) (λ _. s1))))

pub recv_all-Slotted :
    (a : Arbiter) (ts : List MemTrans) (now : ℕ)
    → IsSlotted a.reqs
    → Ensures (recv_all a ts now) (λ b. IsSlotted b.reqs)
unfolding recv_all
recv_all-Slotted a [] now s = s
recv_all-Slotted a (t ∷ ts) now s =
    let Q : Arbiter → Type 0 = λ b. IsSlotted b.reqs in
    Ensures-bind Q (recv_req a t now) _
      (λ b e. recv_all-Slotted b ts now (Ensures-elim Q _ b (recv_req-Slotted a t now s) e))
