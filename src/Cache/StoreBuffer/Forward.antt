-- ===== src/Cache/StoreBuffer/Forward.antt =====
-- Which store a read is served from.
use ysyx_np_sim.Prelude.{
  ℕ, ◌≡◌, refl, ap, ◌∙◌, true, false, Option, none, some, List, [], ◌∷◌, ◌++◌, All, if◌then◌else◌,
  incr,
}
use ysyx_np_sim.Mem.Types.{read}
use ysyx_np_sim.Cache.Events.{resp_of}
use ysyx_np_sim.Cache.StoreBuffer.{StoreBuffer, Entry, covers, find_entry, read_found, read_req}

find_entry_lem :
    (addr : ℕ) (xs ys : List Entry) (e : Entry)
    → All (λ x. covers addr x ≡ false) xs
    → covers addr e ≡ true
    → find_entry addr (xs ++ (e ∷ ys)) ≡ some e
unfolding find_entry
find_entry_lem addr [] ys e h k = ap (λ b. if b then some e else find_entry addr ys) k
find_entry_lem addr (x ∷ xs) ys e h k =
    ap (λ b. if b then some x else find_entry addr (xs ++ (e ∷ ys))) h.0
    ∙ find_entry_lem addr xs ys e h.1 k

word_at : Option Entry → ℕ
word_at none = 0
word_at (some k) = k.word

-- A read of an address that buffered stores of whole words cover is a hit, answered at the next
-- tick with the word of the OLDEST of these stores, whatever stores follow it in the list; the list
-- of stores stays.
pub read_req-oldest :
    (b : StoreBuffer) (addr now : ℕ) (xs ys : List Entry) (e : Entry)
    → b.fifo ≡ xs ++ (e ∷ ys)
    → All (λ x. covers addr x ≡ false) xs
    → covers addr e ≡ true
    → let d = read_req b addr now in
      (d.sched_r_resp ≡ resp_of addr e.word b.cache_id read)
      × (d.sched_r_time ≡ incr now)
      × (d.hits ≡ incr b.hits)
      × (d.misses ≡ b.misses)
      × (d.fifo ≡ b.fifo)
unfolding read_req word_at
read_req-oldest b addr now xs ys e shape before here =
    go (find_entry addr b.fifo)
      (ap (find_entry addr) shape ∙ find_entry_lem addr xs ys e before here)
  where
    go :
        (o : Option Entry)
        → o ≡ some e
        → let d = read_found (record b { accesses = incr b.accesses }) addr now o in
          (d.sched_r_resp ≡ resp_of addr e.word b.cache_id read)
          × (d.sched_r_time ≡ incr now)
          × (d.hits ≡ incr b.hits)
          × (d.misses ≡ b.misses)
          × (d.fifo ≡ b.fifo)
    go none h = cc
    go (some k) h =
        (ap (λ (w : ℕ). resp_of addr w b.cache_id read) (ap word_at h), refl, refl, refl, refl)
