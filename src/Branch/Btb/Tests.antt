-- ===== src/Branch/Btb/Tests.antt =====
-- Runs of the BTB.
use ysyx_np_sim.Prelude.{false, ◌≡◌, refl, true, some, Returns, arith, if◌then◌else◌, ◌==◌}
use ysyx_np_sim.Branch.Btb.{
  lookup_compressed, entry_target, has_rw_conflict, num_entries, Btb, init_compressed, index, tag,
  lookup, update,
}
use ysyx_np_sim.Branch.Btb.Laws.{IsValid, geometry, init-IsValid, lookup-update, no_alias}

abbrev small : Btb
small = init_compressed 3 10 true 0

small-IsValid : IsValid 3 10 (geometry 3 10) small
small-IsValid = init-IsValid 3 10 true

lookup-update_example : Returns (update small 0x80000010 0x80000400) (λ b'.
    IsValid 3 10 (geometry 3 10) b'
    × (lookup b' 0x80008010 ≡ (
        if index (geometry 3 10) 0x80000010 == index (geometry 3 10) 0x80008010
        then some (
            if tag (geometry 3 10) 0x80000010 == tag (geometry 3 10) 0x80008010
            then 0x80000400
            else 0)
        else lookup small 0x80008010)))
lookup-update_example =
    lookup-update 3 10 (geometry 3 10) small 0x80000010 0x80008010 0x80000400 small-IsValid

no_alias_example : ¬ (
    (index (geometry 14 16) 0x80000010 ≡ index (geometry 14 16) 0x80010010)
    × (tag (geometry 14 16) 0x80000010 ≡ tag (geometry 14 16) 0x80010010))
no_alias_example =
    no_alias 14 16 (geometry 14 16) (init_compressed 14 16 true 0) 0x80000010 0x80010010
      (init-IsValid 14 16 true) (omega arith) (omega arith) (omega arith) refl (omega arith)

-- An empty BTB of four entries in SRAM.
abbrev pub empty : Btb
empty = init_compressed 2 10 false 0

pub empty-lookup : lookup empty 0x48 ≡ some 0
unfolding lookup lookup_compressed entry_target init_compressed index
empty-lookup = refl

pub empty-has_rw_conflict : has_rw_conflict empty ≡ true
unfolding has_rw_conflict init_compressed
empty-has_rw_conflict = refl

pub empty-num_entries : num_entries empty ≡ 4
unfolding num_entries init_compressed
empty-num_entries = refl
