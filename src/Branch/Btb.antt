-- ===== src/Branch/Btb.antt =====
-- branchSim/BranchPred.hh and BranchPred.cc: `BTBBase`, `CompressedBTB` and `NoBTB`. `none` is the
-- exception of `.at`.
pub mod Laws
pub mod Tests
use ysyx_np_sim.Prelude.{
  ℕ, zero, suc, ◌+◌, ◌^◌, Bool, true, false, not, ◌&&◌, Option, none, some, List, [], ◌∷◌, ◌>>=◌,
  if◌then◌else◌, bit_and, ones, shr, ltb, ◌==◌, length, get_elem?, set, set_at, replicate,
}

pub record BtbEntry : Type 0 where
  pub pc_tag : ℕ
  pub target : ℕ
  pub valid : Bool
  -- 0 for a normal branch, 1 for a return
  pub type : ℕ

abbrev pub empty_entry : BtbEntry
empty_entry = record { pc_tag = 0; target = 0; valid = false; type = 0 }

-- `CompressedBTB`'s own fields
pub record Geometry : Type 0 where
  pub tag_mask : ℕ
  pub index_mask : ℕ
  pub tag_shift : ℕ
  pub last_write_tick : ℕ

pub data Class : Type 0 where
  no_btb : Class
  compressed : Geometry → Class

-- `BTBBase` with its subclass
pub record Btb : Type 0 where
  pub class : Class
  pub table : List BtbEntry
  pub sram_dff : Bool

-- The constructor of `CompressedBTB`, for `tag_bits` below 32 and `entries_pow2` below 31, from which
-- on its shifts are undefined; Options/Build has the fault.
unfoldable pub init_compressed : (entries_pow2 tag_bits : ℕ) → Bool → ℕ → Btb
init_compressed entries_pow2 tag_bits sram_dff tag_shift_override = record {
  class = compressed (record {
    tag_mask = ones tag_bits;
    index_mask = ones entries_pow2;
    tag_shift = if ltb 0 tag_shift_override then tag_shift_override else 2 + entries_pow2;
    last_write_tick = 0;
  });
  table = replicate (2 ^ entries_pow2) empty_entry;
  sram_dff = sram_dff;
}

-- The constructor of `NoBTB`: one entry that nothing reads.
unfoldable pub init_no_btb : Btb
init_no_btb = record { class = no_btb; table = empty_entry ∷ []; sram_dff = true }

pub index : Geometry → ℕ → ℕ
index g pc = bit_and (shr pc 2) g.index_mask

pub tag : Geometry → ℕ → ℕ
tag g pc = bit_and (shr pc g.tag_shift) g.tag_mask

-- `bool hit = ent.valid && (ent.pc_tag == …); return hit ? … : 0`
entry_target : BtbEntry → ℕ → ℕ
entry_target e t = if e.valid && e.pc_tag == t then e.target else 0

lookup_compressed : List BtbEntry → Geometry → ℕ → Option ℕ
unfolding entry_target
lookup_compressed table g pc = do e ← get_elem? table (index g pc); some (entry_target e (tag g pc))

-- The target for `pc`, 0 on a miss.
pub lookup : Btb → ℕ → Option ℕ
unfolding lookup_compressed
lookup b pc = elim b.class [ no_btb ↦ some 0 | compressed g ↦ lookup_compressed b.table g pc ]

write_entry : Btb → Geometry → ℕ → BtbEntry → Option Btb
write_entry b g pc e = do table ← set_at b.table (index g pc) e; some (record b { table = table })

-- The type of the entry is kept.
update_compressed : Btb → Geometry → ℕ → ℕ → Option Btb
unfolding write_entry
update_compressed b g pc target = do
  e ← get_elem? b.table (index g pc)
  write_entry b g pc (record e { pc_tag = tag g pc; target = target; valid = true })

update_as : Class → Btb → ℕ → ℕ → Option Btb
unfolding update_compressed
update_as no_btb b pc target = some b
update_as (compressed g) b pc target = update_compressed b g pc target

pub update : Btb → ℕ → ℕ → Option Btb
unfolding update_as
update b pc target = update_as b.class b pc target

clear_as : Class → Btb → ℕ → Option Btb
unfolding write_entry
clear_as no_btb b pc = some b
clear_as (compressed g) b pc = write_entry b g pc empty_entry

pub clear_entry : Btb → ℕ → Option Btb
unfolding clear_as
clear_entry b pc = clear_as b.class b pc

pub mark_write_tick : Btb → ℕ → Btb
mark_write_tick b t = elim b.class [
  | no_btb ↦ b
  | compressed g ↦ record b { class = compressed (record g { last_write_tick = t }) }
]

pub num_entries : Btb → ℕ
num_entries b = length b.table

pub has_rw_conflict : Btb → Bool
has_rw_conflict b = not b.sram_dff

type_of : Option BtbEntry → ℕ
type_of none = 0
type_of (some e) = e.type

-- 0 out of range
pub entry_type : Btb → ℕ → ℕ
unfolding type_of
entry_type b i = type_of (get_elem? b.table i)

typed : List BtbEntry → ℕ → ℕ → Option BtbEntry → List BtbEntry
typed table i t none = table
typed table i t (some e) = set table i (record e { type = t })

pub set_entry_type : Btb → ℕ → ℕ → Btb
unfolding typed
set_entry_type b i t = record b { table = typed b.table i t (get_elem? b.table i) }
