-- ===== src/Branch/Btb/Laws.antt =====
-- `CompressedBTB` as a map from addresses to targets that forgets on collision.
use ysyx_np_sim.Prelude.{
  ℕ, ◌+◌, ◌*◌, ◌/◌, ◌%◌, ◌^◌, ◌≤◌, ◌<◌, ◌≡◌, ◌≢◌, refl, sym, ap, ◌∙◌, inl, inr, Bool, true, false,
  some, arith, if◌then◌else◌, ◌==◌, ==_iff, Bool-cases, ones, bit_and-mask, power_pos, pow-add,
  length, length-set, length-replicate, get_elem?, set, get_elem?_of_lt, get_elem?-set_self,
  get_elem?-set_ne, set_at_of_lt, Returns,
}
use native.Mathlib.Nat.{
  mod-lt, div-lt_iff_lt-mul, div-div-eq-div-mul, pow-le-pow_right, div-add-mod, mod-eq_of_lt,
}
use ysyx_np_sim.Branch.Btb.{
  BtbEntry, Geometry, compressed, Btb, empty_entry, init_compressed, index, tag, entry_target,
  lookup, write_entry, update_compressed, update_as, clear_as, update, clear_entry,
}

pub record IsValid (pow2 tag_bits : ℕ) (g : Geometry) (b : Btb) : Type 0 where
  pub is_compressed : b.class ≡ compressed g
  pub masked : g.index_mask ≡ ones pow2
  pub tagged : g.tag_mask ≡ ones tag_bits
  pub shifted : g.tag_shift ≡ 2 + pow2
  pub sized : length b.table ≡ 2 ^ pow2

-- The geometry that the constructor makes of `entries_pow2` and `tag_bits`.
abbrev pub geometry : ℕ → ℕ → Geometry
geometry pow2 tag_bits = record {
  tag_mask = ones tag_bits;
  index_mask = ones pow2;
  tag_shift = 2 + pow2;
  last_write_tick = 0;
}

pub init-IsValid :
    (pow2 tag_bits : ℕ) (sram_dff : Bool)
    → IsValid pow2 tag_bits (geometry pow2 tag_bits) (init_compressed pow2 tag_bits sram_dff 0)
unfolding init_compressed
init-IsValid pow2 tag_bits sram_dff = record {
  is_compressed = refl;
  masked = refl;
  tagged = refl;
  shifted = refl;
  sized = length-replicate (2 ^ pow2) empty_entry;
}

-- A number is known by its remainder and its quotient.
rejoin : (m x y : ℕ) → x % m ≡ y % m → x / m ≡ y / m → x ≡ y
rejoin m x y r q = omega (arith, div-add-mod x m, div-add-mod y m, ap (λ (t : ℕ). m * t) q)

top_bits :
    (pow2 tag_bits x : ℕ)
    → 32 ≤ 2 + pow2 + tag_bits
    → x < 2 ^ 32
    → x / 2 ^ (2 + pow2) < 2 ^ tag_bits
top_bits pow2 tag_bits x wide h =
    (div-lt_iff_lt-mul (power_pos (2 + pow2))).1
      (omega (arith, pow-le-pow_right {n = 2} (omega arith) wide, pow-add tag_bits (2 + pow2)))

module _ (pow2 tag_bits : ℕ) (g : Geometry) where
  pub index_lem : (b : Btb) (pc : ℕ) → IsValid pow2 tag_bits g b → index g pc ≡ pc / 4 % 2 ^ pow2
  unfolding index
  index_lem b pc v = rw (v.masked, bit_and-mask) refl

  pub tag_lem :
      (b : Btb) (pc : ℕ) → IsValid pow2 tag_bits g b → tag g pc ≡ pc / 2 ^ (2 + pow2) % 2 ^ tag_bits
  unfolding tag
  tag_lem b pc v = rw (v.tagged, v.shifted, bit_and-mask) refl

  pub index-lt : (b : Btb) (pc : ℕ) → IsValid pow2 tag_bits g b → index g pc < length b.table
  index-lt b pc v = rw (index_lem b pc v, v.sized) (mod-lt (pc / 4) (power_pos pow2))

  write-IsValid :
      (b : Btb) (i : ℕ) (e : BtbEntry)
      → IsValid pow2 tag_bits g b
      → IsValid pow2 tag_bits g (record b { table = set b.table i e })
  write-IsValid b i e v = record {
    is_compressed = v.is_compressed;
    masked = v.masked;
    tagged = v.tagged;
    shifted = v.shifted;
    sized = length-set b.table i e ∙ v.sized;
  }

  -- Reading after writing the entry of `pc`.
  lookup_written :
      (b : Btb) (pc pc' : ℕ) (e : BtbEntry)
      → IsValid pow2 tag_bits g b
      → lookup (record b { table = set b.table (index g pc) e }) pc'
        ≡ (if index g pc == index g pc' then some (entry_target e (tag g pc')) else lookup b pc')
  unfolding lookup
  lookup_written b pc pc' e v = elim (Bool-cases (index g pc == index g pc')) [
    | inl same ↦
        rw
          (
            v.is_compressed,
            same,
            ← (==_iff _ _).0 same,
            get_elem?-set_self b.table (index g pc) e (index-lt b pc v),
          )
          refl
    | inr other ↦
        rw
          (
            v.is_compressed,
            other,
            get_elem?-set_ne b.table (index g pc) (index g pc') e (λ same. differ same other),
          )
          refl
  ]
    where
      differ : index g pc ≡ index g pc' → (index g pc == index g pc') ≡ false → ⊥
      differ same other = ground (arith, (==_iff (index g pc) (index g pc')).1 same)

  written_to :
      (b : Btb) (pc : ℕ) (e : BtbEntry)
      → IsValid pow2 tag_bits g b
      → write_entry b g pc e ≡ some (record b { table = set b.table (index g pc) e })
  unfolding write_entry
  written_to b pc e v = rw (set_at_of_lt b.table (index g pc) e (index-lt b pc v))

  new_entry : BtbEntry → ℕ → ℕ → BtbEntry
  new_entry e pc target = record e { pc_tag = tag g pc; target = target; valid = true }

  update_lem :
      (b : Btb) (pc target : ℕ)
      → IsValid pow2 tag_bits g b
      → (e : BtbEntry) × (update b pc target
          ≡ some (record b { table = set b.table (index g pc) (new_entry e pc target) }))
  unfolding update new_entry
  update_lem b pc target v = go (get_elem?_of_lt b.table (index g pc) (index-lt b pc v))
    where
      go :
          (e : BtbEntry) × (get_elem? b.table (index g pc) ≡ some e)
          → (e : BtbEntry) × (update b pc target
              ≡ some (record b { table = set b.table (index g pc) (new_entry e pc target) }))
      go (e, found) = (
        e,
        ap (λ c. update_as c b pc target) v.is_compressed
            ∙ rw (found, update_compressed) (written_to b pc (new_entry e pc target) v),
      )

  clear_entry_lem :
      (b : Btb) (pc : ℕ)
      → IsValid pow2 tag_bits g b
      → clear_entry b pc ≡ some (record b { table = set b.table (index g pc) empty_entry })
  unfolding clear_entry
  clear_entry_lem b pc v = ap (λ c. clear_as c b pc) v.is_compressed ∙ written_to b pc empty_entry v

  -- On a valid BTB `update` raises no exception. A lookup at the index of `pc` then hits exactly if
  -- the tags agree, and finds the target; a lookup at any other index finds what it found before.
  pub lookup-update :
      (b : Btb) (pc pc' target : ℕ)
      → IsValid pow2 tag_bits g b
      → Returns (update b pc target) (λ b'.
        IsValid pow2 tag_bits g b'
        × (lookup b' pc' ≡ (
            if index g pc == index g pc'
            then some (if tag g pc == tag g pc' then target else 0)
            else lookup b pc')))
  unfolding new_entry entry_target
  lookup-update b pc pc' target v =
      let (e, eq) = update_lem b pc target v in
      rw eq (
        write-IsValid b (index g pc) (new_entry e pc target) v,
        lookup_written b pc pc' (new_entry e pc target) v,
      )

  -- `clear_entry` makes every address at the index of `pc` miss, and changes no other lookup.
  pub lookup-clear_entry :
      (b : Btb) (pc pc' : ℕ)
      → IsValid pow2 tag_bits g b
      → Returns (clear_entry b pc) (λ b'.
        IsValid pow2 tag_bits g b'
        × (lookup b' pc' ≡ (if index g pc == index g pc' then some 0 else lookup b pc')))
  unfolding entry_target
  lookup-clear_entry b pc pc' v =
      rw (clear_entry_lem b pc v)
        (write-IsValid b (index g pc) empty_entry v, lookup_written b pc pc' empty_entry v)

  same_address :
      (b : Btb) (pc pc' : ℕ)
      → IsValid pow2 tag_bits g b
      → 32 ≤ 2 + pow2 + tag_bits
      → pc < 2 ^ 32
      → pc' < 2 ^ 32
      → pc % 4 ≡ pc' % 4
      → index g pc ≡ index g pc'
      → tag g pc ≡ tag g pc'
      → pc ≡ pc'
  same_address b pc pc' v wide h h' low i t =
      rejoin 4 pc pc' low (rejoin (2 ^ pow2) (pc / 4) (pc' / 4) slots tops)
    where
      slots : pc / 4 % 2 ^ pow2 ≡ pc' / 4 % 2 ^ pow2
      slots = sym (index_lem b pc v) ∙ i ∙ index_lem b pc' v

      quadruple : 2 ^ (2 + pow2) ≡ 4 * 2 ^ pow2
      quadruple = omega (arith, pow-add pow2 2)

      top : (x : ℕ) → x < 2 ^ 32 → x / 2 ^ (2 + pow2) % 2 ^ tag_bits ≡ x / 4 / 2 ^ pow2
      top x small =
          mod-eq_of_lt (top_bits pow2 tag_bits x wide small)
          ∙ ap (λ (m : ℕ). x / m) quadruple
          ∙ sym (div-div-eq-div-mul x 4 (2 ^ pow2))

      tops : pc / 4 / 2 ^ pow2 ≡ pc' / 4 / 2 ^ pow2
      tops = sym (top pc h) ∙ sym (tag_lem b pc v) ∙ t ∙ tag_lem b pc' v ∙ top pc' h'

  -- Where index and tag cover a 32-bit address, two different addresses of the same alignment never
  -- share both an index and a tag.
  pub no_alias :
      (b : Btb) (pc pc' : ℕ)
      → IsValid pow2 tag_bits g b
      → 32 ≤ 2 + pow2 + tag_bits
      → pc < 2 ^ 32
      → pc' < 2 ^ 32
      → pc % 4 ≡ pc' % 4
      → pc ≢ pc'
      → ¬ ((index g pc ≡ index g pc') × (tag g pc ≡ tag g pc'))
  no_alias b pc pc' v wide h h' low differ (i, t) =
      differ (same_address b pc pc' v wide h h' low i t)
