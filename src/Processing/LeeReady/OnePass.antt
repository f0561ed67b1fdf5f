-- ===== src/Processing/LeeReady/OnePass.antt =====
-- The columns of lee_ready.py, computed one after the other, are one pass over the tape.
use ffllowwgreeks.Prelude.{
  ℕ, ◌≡◌, refl, ap, sym, ◌∙◌, inl, inr, Bool, true, false, ◌&&◌, Option, none, List, [], ◌∷◌, map,
  arith, if◌then◌else◌, Bool-cases,
}
use ffllowwgreeks.Processing.LeeReady.{
  Price, nan, neg_inf, pos_inf, num, Side, buy, sell, unclassified, Trade, quote_of, is_dup,
  mask_dups, ffill, shift, last_diff_price, halted, break_halts, tick_side, or_else, final_sides,
  price_of, is_classified, all_classified, references, sides,
}

-- The last price that is not NaN.
abbrev pub known : Price → Price → Price
known last nan = last
known last neg_inf = neg_inf
known last pos_inf = pos_inf
known last (num p) = num p

-- The reference of each row: the last known price before it.
pub known_before : Price → List Price → List Price
known_before last [] = []
known_before last (p ∷ ps) = last ∷ known_before (known last p) ps

-- The price above is the last known one, if it is a number.
abbrev Sync : Price → Price → Type 0
Sync (num q) last = last ≡ num q
Sync _ last = Unit

-- A masked row repeats the number above it, so filling gives back the same value.
dup_known :
    (above last p : Price)
    → is_dup above p ≡ true
    → Sync above last
    → (last ≡ p) × (known last p ≡ p)
unfolding is_dup
dup_known (num q) last (num p) d h = ground arith
dup_known (num q) last nan d h = cc
dup_known (num q) last neg_inf d h = cc
dup_known (num q) last pos_inf d h = cc
dup_known nan last p d h = cc
dup_known neg_inf last p d h = cc
dup_known pos_inf last p d h = cc

Sync-known : (last p : Price) → Sync p (known last p)
Sync-known last nan = tt
Sync-known last neg_inf = tt
Sync-known last pos_inf = tt
Sync-known last (num p) = refl

filled :
    (last p : Price) (ps : List Price)
    → shift last (ffill last (p ∷ ps)) ≡ last ∷ shift (known last p) (ffill (known last p) ps)
unfolding shift ffill
filled last nan ps = refl
filled last neg_inf ps = refl
filled last pos_inf ps = refl
filled last (num p) ps = refl

filled_nan :
    (last : Price) (ps : List Price)
    → shift last (ffill last (nan ∷ ps)) ≡ last ∷ shift last (ffill last ps)
unfolding shift ffill
filled_nan last ps = refl

fill_masked :
    (above last : Price) (ps : List Price)
    → Sync above last
    → shift last (ffill last (mask_dups above ps)) ≡ known_before last ps
unfolding mask_dups known_before
fill_masked above last [] h = unfold shift ffill in refl
fill_masked above last (p ∷ ps) h =
    let rest = fill_masked p (known last p) ps (Sync-known last p) in
    elim (Bool-cases (is_dup above p)) [
      | inl dup ↦
          let (e, k) = dup_known above last p dup h in
          rw (dup, filled_nan last (mask_dups p ps))
            (ap (λ l. last ∷ l) (ap (λ c. shift c (ffill c (mask_dups p ps))) (e ∙ sym k) ∙ rest))
      | inr fresh ↦ rw (fresh, filled last p (mask_dups p ps)) (ap (λ l. last ∷ l) rest)
    ]

-- The reference column is the last known price above each row: masking repeated prices before
-- filling has no effect.
pub last_diff_price-known_before :
    (prices : List Price) → last_diff_price prices ≡ known_before nan prices
unfolding last_diff_price
last_diff_price-known_before prices = fill_masked nan nan prices tt

-- Classifying one row after the other, with the last known price and the time of the row above.
unfoldable pub one_pass : Bool → ℕ → Option ℕ → Price → List Trade → List Side
one_pass has_ts threshold above last [] = []
one_pass has_ts threshold above last (t ∷ ts) =
    let ref = if has_ts && halted threshold above t.ts then nan else last in
    or_else (quote_of t) (tick_side t.price ref)
    ∷ one_pass has_ts threshold t.ts (known last t.price) ts

cons_path {ℓ} : {A : Type ℓ} {x : A} {xs ys : List A} → xs ≡ ys → x ∷ xs ≡ x ∷ ys
cons_path {x = x} e = ap (λ l. x ∷ l) e

sides_from :
    (threshold : ℕ) (above : Option ℕ) (last : Price) (ts : List Trade)
    → final_sides ts (break_halts threshold above ts (known_before last (map price_of ts)))
      ≡ one_pass true threshold above last ts
unfolding final_sides break_halts one_pass known_before
sides_from threshold above last [] = refl
sides_from threshold above last (t ∷ ts) =
    cons_path (sides_from threshold t.ts (known last t.price) ts)

sides_untimed :
    (threshold : ℕ) (above : Option ℕ) (last : Price) (ts : List Trade)
    → final_sides ts (known_before last (map price_of ts)) ≡ one_pass false threshold above last ts
unfolding final_sides one_pass known_before
sides_untimed threshold above last [] = refl
sides_untimed threshold above last (t ∷ ts) =
    cons_path (sides_untimed threshold t.ts (known last t.price) ts)

all_cons :
    (s : Side) (ss : List Side)
    → all_classified (s ∷ ss) ≡ true
    → (is_classified s ≡ true) × (all_classified ss ≡ true)
unfolding all_classified
all_cons s ss h = ground arith

decided : (s r : Side) → is_classified s ≡ true → or_else s r ≡ s
decided buy r h = refl
decided sell r h = refl
decided unclassified r h = cc

-- If the quote rule decides every row, the one pass gives its verdicts.
all_quoted :
    (has_ts : Bool) (threshold : ℕ) (above : Option ℕ) (last : Price) (ts : List Trade)
    → all_classified (map quote_of ts) ≡ true
    → map quote_of ts ≡ one_pass has_ts threshold above last ts
unfolding all_classified one_pass
all_quoted has_ts threshold above last [] h = refl
all_quoted has_ts threshold above last (t ∷ ts) h =
    let (here, rest) = all_cons (quote_of t) (map quote_of ts) h in
    cc (decided (quote_of t) _ here, all_quoted has_ts threshold t.ts (known last t.price) ts rest)

from_columns :
    (has_ts : Bool) (threshold : ℕ) (ts : List Trade)
    → final_sides ts (references has_ts threshold ts) ≡ one_pass has_ts threshold none nan ts
unfolding references
from_columns true threshold ts =
    rw (last_diff_price-known_before (map price_of ts)) (sides_from threshold none nan ts)
from_columns false threshold ts =
    rw (last_diff_price-known_before (map price_of ts)) (sides_untimed threshold none nan ts)

-- The column `side` is that of one pass over the tape: the quote rule, or else a comparison with
-- the last price above the row that is not NaN, which a halt wipes for the row behind it.
pub sides-one_pass :
    (has_ts : Bool) (threshold : ℕ) (ts : List Trade)
    → sides has_ts threshold ts ≡ one_pass has_ts threshold none nan ts
unfolding sides
sides-one_pass has_ts threshold ts = elim (Bool-cases (all_classified (map quote_of ts))) [
  | inl all ↦ rw all (all_quoted has_ts threshold none nan ts all)
  | inr open_rows ↦ rw open_rows (from_columns has_ts threshold ts)
]
