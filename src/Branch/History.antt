-- ===== src/Branch/History.antt =====
-- The global history register of branchSim/Bimodal.cc, and the outcomes that it stands for.
use ysyx_np_sim.Prelude.{
  ℕ, ◌+◌, ◌*◌, ◌/◌, ◌%◌, sym, ◌^◌, ◌≤◌, ◌<◌, ◌≡◌, Bool, true, false, List, [], ◌∷◌, arith, bit,
  bit_and, bit_or, bit_and-mask, bit_or-double, ones, power_pos, u32,
}
use native.Mathlib.Nat.{mod-lt, mod-eq_of_lt, pow-le-pow_right, div-add-mod, mul-add-mod_self_left}

-- `((ghr << 1) | (taken ? 1u : 0u)) & hist_mask_`, on `uint32_t`
pub shift : ℕ → Bool → ℕ → ℕ
shift ghr taken hist_mask = bit_and (bit_or (u32 (ghr * 2)) (bit taken)) hist_mask

-- Outcomes as a number, the latest in the lowest bit and at the head.
abbrev pub encode : List Bool → ℕ
encode [] = 0
encode (b ∷ bs) = encode bs * 2 + bit b

-- The register holds the latest `len` outcomes.
abbrev pub Holds : ℕ → ℕ → List Bool → Type 0
Holds len ghr outcomes = ghr ≡ encode outcomes % 2 ^ len

pub bit-lt : (b : Bool) → bit b < 2
bit-lt true = omega arith
bit-lt false = omega arith

pub double_mod : (p e b : ℕ) → (e % p * 2 + b) % p ≡ (e * 2 + b) % p
double_mod p e b = sym (rw split (mul-add-mod_self_left p (e / p * 2) (e % p * 2 + b)))
  where
    split : e * 2 + b ≡ p * (e / p * 2) + (e % p * 2 + b)
    split = omega (arith, div-add-mod e p)

Holds-lt : (len ghr : ℕ) (outcomes : List Bool) → Holds len ghr outcomes → ghr < 2 ^ len
Holds-lt len ghr outcomes e = rw e (mod-lt (encode outcomes) (power_pos len))

-- Shifting in an outcome is adding it to the history.
pub shift-Holds :
    (len ghr : ℕ) (taken : Bool) (outcomes : List Bool)
    → len < 32
    → Holds len ghr outcomes
    → Holds len (shift ghr taken (ones len)) (taken ∷ outcomes)
unfolding shift
shift-Holds len ghr taken outcomes h e =
    rw (no_wrap, bit_and-mask, bit_or-double ghr (bit taken) (bit-lt taken), e)
      (double_mod (2 ^ len) (encode outcomes) (bit taken))
  where
    short : 2 ^ len ≤ 2 ^ 31
    short = let fit : len ≤ 31 = omega arith in pow-le-pow_right {n = 2} (omega arith) fit

    no_wrap : u32 (ghr * 2) ≡ ghr * 2
    no_wrap = mod-eq_of_lt (omega (arith, short, Holds-lt len ghr outcomes e))
