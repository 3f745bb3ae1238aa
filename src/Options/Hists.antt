-- ===== src/Options/Hists.antt =====
-- What `create_bpu_core` of src/main.cc makes of a list of history lengths.
use ysyx_np_sim.Prelude.{
  ℕ, ◌^◌, ◌<◌, ◌≡◌, suc, refl, sym, ◌∙◌, ap, true, some, List, [], ◌∷◌, ◌++◌, map, All, arith,
  ◌>>=◌,
}
use mathlib.Core.List.{append-nil}
use ysyx_np_sim.Options.{pos, stoi, is_digit}
use ysyx_np_sim.Options.Decimal.{
  decimal, IsDigits, decimal_from-IsDigits, decimal_from-ne, stoi-decimal,
}
use ysyx_np_sim.Options.Build.{checked, read_hists, parse_hists}

-- The lengths in decimal digits, with commas between them.
abbrev pub joined : ℕ → List ℕ → List ℕ
joined n [] = decimal n
joined n (m ∷ ns) = decimal n ++ (b',' ∷ joined m ns)

read_char :
    (front : List ℕ) (c : ℕ) (s : List ℕ)
    → is_digit c ≡ true
    → read_hists front (c ∷ s) ≡ read_hists (front ++ (c ∷ [])) s
unfolding read_hists
read_char front c [] h = ground arith
read_char front c (d ∷ s) h = ground arith

append-cons : (ts us : List ℕ) (t : ℕ) → (ts ++ (t ∷ [])) ++ us ≡ ts ++ (t ∷ us)
append-cons [] us t = refl
append-cons (u ∷ ts) us t = ap (λ (vs : List ℕ). u ∷ vs) (append-cons ts us t)

read_digits :
    (front s t : List ℕ) → IsDigits s → read_hists front (s ++ t) ≡ read_hists (front ++ s) t
read_digits front [] t h = ap (λ f. read_hists f t) (sym (append-nil front))
read_digits front (c ∷ s) t h =
    read_char front c (s ++ t) h.0
    ∙ read_digits (front ++ (c ∷ [])) s t h.1
    ∙ ap (λ f. read_hists f t) (append-cons front s c)

read_comma :
    (front : List ℕ) (d : ℕ) (s : List ℕ)
    → read_hists front (b',' ∷ d ∷ s)
      ≡ (checked (stoi front) >>= λ n. read_hists [] (d ∷ s) >>= λ ns. some (n ∷ ns))
unfolding read_hists
read_comma front d s = refl

joined-ne : (n : ℕ) (ns : List ℕ) → (c : ℕ) × (s : List ℕ) × (joined n ns ≡ c ∷ s)
joined-ne n [] = decimal_from-ne n n
joined-ne n (m ∷ ns) =
    let (c, s, e) = decimal_from-ne n n in
    (c, s ++ (b',' ∷ joined m ns), ap (λ t. t ++ (b',' ∷ joined m ns)) e)

read_joined :
    (n : ℕ) (ns : List ℕ)
    → n < 2 ^ 31
    → All (λ m. m < 2 ^ 31) ns
    → read_hists [] (joined n ns) ≡ some (pos n ∷ map pos ns)
unfolding read_hists
read_joined n [] h k =
    ap (read_hists []) (sym (append-nil (decimal n)))
    ∙ read_digits [] (decimal n) [] (decimal_from-IsDigits (suc n) n)
    ∙ ap (λ o. checked o >>= λ k. some (k ∷ [])) (stoi-decimal n h)
read_joined n (m ∷ ns) h k =
    let (c, s, e) = joined-ne m ns in
    read_digits [] (decimal n) (b',' ∷ joined m ns) (decimal_from-IsDigits (suc n) n)
    ∙ ap (λ t. read_hists (decimal n) (b',' ∷ t)) e
    ∙ read_comma (decimal n) c s
    ∙ ap (λ o. checked o >>= λ k. read_hists [] (c ∷ s) >>= λ ks. some (k ∷ ks)) (stoi-decimal n h)
    ∙ ap (λ t. read_hists [] t >>= λ ks. some (pos n ∷ ks)) (sym e)
    ∙ ap (λ o. o >>= λ ks. some (pos n ∷ ks)) (read_joined m ns k.0 k.1)

-- Lengths below `2 ^ 31`, printed with commas between them, are read back in order.
pub parse_hists-joined :
    (n : ℕ) (ns : List ℕ)
    → n < 2 ^ 31
    → All (λ m. m < 2 ^ 31) ns
    → parse_hists (joined n ns) ≡ some (pos n ∷ map pos ns)
unfolding parse_hists
parse_hists-joined n ns h k =
    let (c, s, e) = joined-ne n ns in
    ap parse_hists e ∙ ap (read_hists []) (sym e) ∙ read_joined n ns h k
