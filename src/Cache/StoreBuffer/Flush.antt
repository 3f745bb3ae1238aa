-- ===== src/Cache/StoreBuffer/Flush.antt =====
-- The steps of a store buffer, its bound, and what `flush_all` does to it.
use ysyx_np_sim.Prelude.{
  ℕ, ◌≤◌, ◌≡◌, refl, ap, ◌∙◌, true, false, Bool-cases, inl, inr, Option, none, some, List, [], ◌∷◌,
  arith, ◌==◌, ltb, ltb→lt, leb, length, length-append, Ensures, Ensures-then, Ensures-elim, incr,
}
use ysyx_np_sim.Mem.Types.{MemTrans, MemRwOpt, read, write}
use ysyx_np_sim.Cache.Events.{Event}
use ysyx_np_sim.Cache.StoreBuffer.{
  StoreBuffer, Entry, is_ready, flush_all, find_entry, read_found, read_req, unbuffered, buffered,
  write_req, drain, recv_read, recv_front, recv_write, recv_as, recv_mem_resp, send_miss, send_read,
  send_store, send_write, update_impl,
}

-- A call of one of the public operations.
pub data Step : StoreBuffer → StoreBuffer → Type 0 where
  reads : {b : StoreBuffer} (addr now : ℕ) → Step b (read_req b addr now)
  writes :
      {b b' : StoreBuffer} (addr word mask now : ℕ) (out : List Event)
      → write_req b addr word mask now ≡ some (b', out)
      → Step b b'
  receives :
      {b b' : StoreBuffer} (t : MemTrans) (now : ℕ) (out : List Event)
      → recv_mem_resp b t now ≡ some (b', out)
      → Step b b'
  updates : {b : StoreBuffer} (now : ℕ) → Step b (update_impl b now).0
  flushes : {b : StoreBuffer} → Step b (flush_all b)

pub data Steps : StoreBuffer → StoreBuffer → Type 0 where
  done : {b : StoreBuffer} → Steps b b
  then_step : {b c d : StoreBuffer} → Steps b c → Step c d → Steps b d

-- What no operation but `flush_all` changes, and how the buffer may grow.
abbrev Kept : StoreBuffer → StoreBuffer → Type 0
Kept b d =
    (d.pending_flush ≡ b.pending_flush)
    × (d.entries ≡ b.entries)
    × (length b.fifo ≤ b.entries → length d.fifo ≤ d.entries)

read_req-Kept : (b : StoreBuffer) (addr now : ℕ) → Kept b (read_req b addr now)
unfolding read_req
read_req-Kept b addr now = go (find_entry addr b.fifo)
  where
    go :
        (o : Option Entry)
        → Kept b (read_found (record b { accesses = incr b.accesses }) addr now o)
    go none = (refl, refl, λ h. h)
    go (some e) = (refl, refl, λ h. h)

write_req-Kept :
    (b : StoreBuffer) (addr word mask now : ℕ)
    → Ensures (write_req b addr word mask now) (λ q. Kept b q.0)
unfolding write_req unbuffered buffered
write_req-Kept b addr word mask now = elim (Bool-cases (b.entries == 0)) [
  | inl direct ↦ rw direct (refl, refl, λ h. h)
  | inr queued ↦ rw queued (
      Ensures-then (λ q. Kept b q.0) (ltb (length b.fifo) b.entries) _
        (λ room. (
          refl,
          refl,
          λ h. rw (length-append b.fifo _) (omega (arith, ltb→lt (length b.fifo) b.entries room)),
        )))
]

drain-Kept : (b : StoreBuffer) (es : List Entry) → Kept b (drain b es).0
unfolding drain
drain-Kept b [] = (refl, refl, λ h. h)
drain-Kept b (e ∷ es) = (refl, refl, λ h. h)

recv_front-Kept :
    (b : StoreBuffer) (t : MemTrans) (es : List Entry)
    → b.fifo ≡ es
    → Ensures (recv_front b t es) (λ q. Kept b q.0)
unfolding recv_front
recv_front-Kept b t [] e = tt
recv_front-Kept b t (x ∷ es) e =
    Ensures-then (λ q. Kept b q.0) (x.addr == t.addr) _
      (λ same.
        let k = drain-Kept (record b { fifo = es; w_busy = false }) es in
        (k.0, k.1, λ h. k.2 (shorter h)))
  where
    shorter : length b.fifo ≤ b.entries → length es ≤ b.entries
    shorter h = omega (arith, h, ap length e)

recv_mem_resp-Kept :
    (b : StoreBuffer) (t : MemTrans) (now : ℕ) → Ensures (recv_mem_resp b t now) (λ q. Kept b q.0)
unfolding recv_mem_resp recv_as recv_read recv_write
recv_mem_resp-Kept b t now = go t.mop
  where
    go : (mop : MemRwOpt) → Ensures (recv_as b t now mop) (λ q. Kept b q.0)
    go read = Ensures-then (λ q. Kept b q.0) (length t.words == 0) _ (λ e. (refl, refl, λ h. h))
    go write = elim (Bool-cases (b.entries == 0)) [
      | inl direct ↦ rw direct (refl, refl, λ h. h)
      | inr queued ↦ rw queued (recv_front-Kept b t b.fifo refl)
    ]

Kept-trans : (b c d : StoreBuffer) → Kept b c → Kept c d → Kept b d
Kept-trans b c d h k = (k.0 ∙ h.0, k.1 ∙ h.1, λ s. k.2 (h.2 s))

send_miss-Kept : (b : StoreBuffer) (now : ℕ) → Kept b (send_miss b now).0
unfolding send_miss
send_miss-Kept b now = elim (Bool-cases (leb b.pending_rmiss_time now)) [
  | inl due ↦ rw due (refl, refl, λ h. h)
  | inr later ↦ rw later (refl, refl, λ h. h)
]

send_read-Kept : (b : StoreBuffer) (now : ℕ) → Kept b (send_read b now).0
unfolding send_read
send_read-Kept b now = elim (Bool-cases (leb b.sched_r_time now)) [
  | inl due ↦ rw due (refl, refl, λ h. h)
  | inr later ↦ rw later (refl, refl, λ h. h)
]

send_store-Kept : (b : StoreBuffer) → Kept b (send_store b).0
unfolding send_store
send_store-Kept b = elim (Bool-cases b.w_busy) [
  | inl busy ↦ rw busy (refl, refl, λ h. h)
  | inr free ↦ rw free (drain-Kept (record b { w_busy = false }) b.fifo)
]

send_write-Kept : (b : StoreBuffer) (now : ℕ) → Kept b (send_write b now).0
unfolding send_write
send_write-Kept b now = elim (Bool-cases (leb b.sched_w_time now)) [
  | inl due ↦ rw due (send_store-Kept _)
  | inr later ↦ rw later (refl, refl, λ h. h)
]

update_impl-Kept : (b : StoreBuffer) (now : ℕ) → Kept b (update_impl b now).0
unfolding update_impl
update_impl-Kept b now =
    let b1 = (send_miss b now).0 in
    let b2 = (send_read b1 now).0 in
    Kept-trans b b2 (send_write b2 now).0
      (Kept-trans b b1 b2 (send_miss-Kept b now) (send_read-Kept b1 now)) (send_write-Kept b2 now)

Step-bounded :
    {b d : StoreBuffer} → Step b d → length b.fifo ≤ b.entries → length d.fifo ≤ d.entries
unfolding flush_all
Step-bounded {b = b} (reads addr now) h = (read_req-Kept b addr now).2 h
Step-bounded {b = b} (writes {b' = d} addr word mask now out e) h =
    (Ensures-elim (λ q. Kept b q.0) (write_req b addr word mask now) (d, out)
        (write_req-Kept b addr word mask now) e).2
      h
Step-bounded {b = b} (receives {b' = d} t now out e) h =
    (Ensures-elim (λ q. Kept b q.0) (recv_mem_resp b t now) (d, out) (recv_mem_resp-Kept b t now)
        e).2
      h
Step-bounded {b = b} (updates now) h = (update_impl-Kept b now).2 h
Step-bounded flushes h = h

Step-flushed : {b d : StoreBuffer} → Step b d → b.pending_flush ≡ true → d.pending_flush ≡ true
unfolding flush_all
Step-flushed {b = b} (reads addr now) h = (read_req-Kept b addr now).0 ∙ h
Step-flushed {b = b} (writes {b' = d} addr word mask now out e) h =
    (Ensures-elim (λ q. Kept b q.0) (write_req b addr word mask now) (d, out)
      (write_req-Kept b addr word mask now) e).0
    ∙ h
Step-flushed {b = b} (receives {b' = d} t now out e) h =
    (Ensures-elim (λ q. Kept b q.0) (recv_mem_resp b t now) (d, out) (recv_mem_resp-Kept b t now)
      e).0
    ∙ h
Step-flushed {b = b} (updates now) h = (update_impl-Kept b now).0 ∙ h
Step-flushed flushes h = refl

Steps-flushed : {b d : StoreBuffer} → Steps b d → b.pending_flush ≡ true → d.pending_flush ≡ true
Steps-flushed done h = h
Steps-flushed (then_step before s) h = Step-flushed s (Steps-flushed before h)

-- The list of stores never grows beyond `entries`: in every state that is reached from one within
-- the bound, by any sequence of calls that do not fault, it is within the bound.
pub Steps-bounded :
    (b d : StoreBuffer) → Steps b d → length b.fifo ≤ b.entries → length d.fifo ≤ d.entries
Steps-bounded b d done h = h
Steps-bounded b d (then_step {c = c} before s) h = Step-bounded s (Steps-bounded b c before h)

-- After `flush_all` the buffer is never ready again, for reads or for writes: not in any state that
-- is reached by calls that do not fault.
pub flush_all-is_ready : (b d : StoreBuffer) → Steps (flush_all b) d → is_ready d ≡ (false, false)
unfolding flush_all is_ready
flush_all-is_ready b d s = rw (Steps-flushed s refl) refl
