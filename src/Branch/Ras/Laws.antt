-- ===== src/Branch/Ras/Laws.antt =====
-- `ReturnAddrStack` is a stack of at most `depth` addresses: a push onto a full one drops the oldest.
use ysyx_np_sim.Prelude.{
  ℕ, zero, suc, ◌+◌, ◌-◌, ◌%◌, ◌≤◌, ◌<◌, ◌≡◌, refl, ap, ◌⊎◌, inl, inr, min, Option, none, some,
  List, [], ◌∷◌, arith, if◌then◌else◌, ltb, lt→ltb, leb, ◌==◌, length, length-set, length-replicate,
  get_elem?, set, get_elem?_of_lt, get_elem?-set_self, get_elem?-set_ne, set_at_of_lt, Returns,
}
use native.Mathlib.Nat.{mod-eq_of_lt, mod_self}
use native.Mathlib.Decide.{dec_lt}
use ysyx_np_sim.Branch.Ras.{Ras, init, push, pop, top, depth}

pub record IsValid (r : Ras) : Type 0 where
  pub tos_in : r.tos < length r.stack
  pub cnt_in : r.cnt ≤ length r.stack

pub init-IsValid : (d : ℕ) → 0 < d → IsValid (init d)
unfolding init
init-IsValid d h = omega (arith, length-replicate {A = ℕ} d 0)

-- The entry below `i` in a ring of `size`.
abbrev below : ℕ → ℕ → ℕ
below size i = if i == 0 then size - 1 else i - 1

-- How many steps down lead from `i` to `j`.
abbrev apart : ℕ → ℕ → ℕ → ℕ
apart size i j = if leb j i then i - j else i + size - j

abbrev or_zero : Option ℕ → ℕ
or_zero none = 0
or_zero (some a) = a

-- The `n` entries from `i` down.
abbrev entries : List ℕ → ℕ → ℕ → List ℕ
entries s i zero = []
entries s i (suc n) = or_zero (get_elem? s i) ∷ entries s (below (length s) i) n

-- The addresses on the stack, the latest first.
abbrev pub contents : Ras → List ℕ
contents r = entries r.stack r.tos r.cnt

-- The specification's operations.
abbrev pub take : ℕ → List ℕ → List ℕ
take zero xs = []
take (suc n) [] = []
take (suc n) (x ∷ xs) = x ∷ take n xs

abbrev pub drop_one : List ℕ → List ℕ
drop_one [] = []
drop_one (x ∷ xs) = xs

abbrev pub head_or_zero : List ℕ → ℕ
head_or_zero [] = 0
head_or_zero (x ∷ xs) = x

take-entries : (k : ℕ) (s : List ℕ) (i n : ℕ) → take k (entries s i n) ≡ entries s i (min k n)
take-entries zero s i n = let e : min 0 n ≡ 0 = omega arith in rw e refl
take-entries (suc k) s i zero = let e : min (suc k) 0 ≡ 0 = omega arith in rw e refl
take-entries (suc k) s i (suc n) =
    let e : min (suc k) (suc n) ≡ suc (min k n) = omega arith in
    rw e
      (ap (λ (l : List ℕ). or_zero (get_elem? s i) ∷ l) (take-entries k s (below (length s) i) n))

-- A write that the `n` entries from `i` down do not reach.
entries-set :
    (s : List ℕ) (i j x n : ℕ)
    → i < length s
    → j < length s
    → n ≤ apart (length s) i j
    → entries (set s j x) i n ≡ entries s i n
entries-set s i j x zero hi hj h = refl
entries-set s i j x (suc n) hi hj h =
    rw (length-set s j x, get_elem?-set_ne s j i x (λ same. here same))
      (ap (λ (l : List ℕ). or_zero (get_elem? s i) ∷ l)
        (entries-set s (below (length s) i) j x n in_ring hj nearer))
  where
    here : j ≡ i → ⊥
    here same = ground arith

    in_ring : below (length s) i < length s
    in_ring = ground arith

    nearer : n ≤ apart (length s) (below (length s) i) j
    nearer = ground arith

next_index :
    (size t : ℕ)
    → t < size
    → (((t + 1) % size ≡ t + 1) × (t + 1 < size)) ⊎ (((t + 1) % size ≡ 0) × (t + 1 ≡ size))
next_index size t h = elim (dec_lt (t + 1) size) [
  | yes p ↦ inl (mod-eq_of_lt p, p)
  | no p ↦ inr (last (omega arith), omega arith)
]
  where
    last : t + 1 ≡ size → (t + 1) % size ≡ 0
    last e = rw e (mod_self size)

next_apart :
    (size t : ℕ)
    → t < size
    → ((t + 1) % size < size)
      × (below size ((t + 1) % size) ≡ t)
      × (apart size t ((t + 1) % size) ≡ size - 1)
next_apart size t h = ground (arith, next_index size t h)

-- `push` never writes out of range; the new address comes on top, and of a full stack the oldest
-- address is dropped.
pub push_refines :
    (r : Ras) (addr : ℕ)
    → IsValid r
    → Returns (push r addr) (λ r'.
      IsValid r' × (depth r' ≡ depth r) × (contents r' ≡ take (depth r) (addr ∷ contents r)))
unfolding push depth
push_refines r addr v = rw (set_at_of_lt r.stack tos addr (next_apart size r.tos v.tos_in).0) (
  record {
    tos_in = rw (length-set r.stack tos addr) (next_apart size r.tos v.tos_in).0;
    cnt_in = rw (length-set r.stack tos addr) (ground arith);
  },
  length-set r.stack tos addr,
  pushed size refl,
)
  where
    size : ℕ
    size = length r.stack

    tos : ℕ
    tos = (r.tos + 1) % size

    cnt' : ℕ
    cnt' = if ltb r.cnt size then r.cnt + 1 else r.cnt

    rest :
        (n : ℕ)
        → n ≤ size - 1
        → entries (set r.stack tos addr) (below (length (set r.stack tos addr)) tos) n
          ≡ entries r.stack r.tos n
    rest n h =
        rw (length-set r.stack tos addr, (next_apart size r.tos v.tos_in).1)
          (entries-set r.stack r.tos tos addr n v.tos_in (next_apart size r.tos v.tos_in).0
            (omega (arith, next_apart size r.tos v.tos_in)))

    pushed :
        (d : ℕ) → size ≡ d → entries (set r.stack tos addr) tos cnt' ≡ take d (addr ∷ contents r)
    pushed zero e = absurd (omega (arith, v.tos_in))
    pushed (suc d) e =
        rw
          (
            count_eq,
            get_elem?-set_self r.stack tos addr (next_apart size r.tos v.tos_in).0,
            rest (min d r.cnt) (omega arith),
            take-entries d r.stack r.tos r.cnt,
          )
          refl
      where
        count_eq : cnt' ≡ suc (min d r.cnt)
        count_eq = ground arith

pop_empty :
    (s : List ℕ) (t : ℕ)
    → pop (record { stack = s; tos = t; cnt = 0 }) ≡ record { stack = s; tos = t; cnt = 0 }
unfolding pop
pop_empty s t = refl

pop_some :
    (s : List ℕ) (t n : ℕ)
    → pop (record { stack = s; tos = t; cnt = suc n })
      ≡ record { stack = s; tos = below (length s) t; cnt = n }
unfolding pop
pop_some s t n = ground arith

pop_at :
    (s : List ℕ) (t n : ℕ)
    → t < length s
    → n ≤ length s
    → let r : Ras = record { stack = s; tos = t; cnt = n } in
      IsValid (pop r) × (depth (pop r) ≡ depth r) × (contents (pop r) ≡ drop_one (contents r))
unfolding depth
pop_at s t zero h k = rw (pop_empty s t) ((omega arith), refl, refl)
pop_at s t (suc n) h k = rw (pop_some s t n) (ground arith, refl, refl)

-- `pop` removes the latest address, and does nothing to an empty stack.
pub pop_refines :
    (r : Ras)
    → IsValid r
    → IsValid (pop r) × (depth (pop r) ≡ depth r) × (contents (pop r) ≡ drop_one (contents r))
pop_refines r v = pop_at r.stack r.tos r.cnt v.tos_in v.cnt_in

top_at :
    (s : List ℕ) (t n : ℕ)
    → t < length s
    → let r : Ras = record { stack = s; tos = t; cnt = n } in
      top r ≡ some (head_or_zero (contents r))
unfolding top
top_at s t zero h = refl
top_at s t (suc n) h =
    let (a, e) = get_elem?_of_lt s t h in rw e (rw (lt→ltb 0 (suc n) (omega arith)) refl)

-- `top` reads in range, and gives the latest address, or 0 when there is none.
pub top_refines : (r : Ras) → IsValid r → top r ≡ some (head_or_zero (contents r))
top_refines r v = top_at r.stack r.tos r.cnt v.tos_in
