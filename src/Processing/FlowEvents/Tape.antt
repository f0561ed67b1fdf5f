-- ===== src/Processing/FlowEvents/Tape.antt =====
-- Replayed prints in archive/python-legacy/backend/app/processing/flow_events.py.
use ffllowwgreeks.Prelude.{
  ℕ, suc, ◌≡◌, refl, ap, ◌∙◌, ◌↔◌, inl, inr, true, false, ◌||◌, Option, none, some, List, [], ◌∷◌,
  ◌++◌, ==_iff, if◌then◌else◌, Text, same_iff, arith, Bool-cases,
}
use ffllowwgreeks.Processing.FlowEvents.{
  Side, buy, sell, neither, Contract, Row, Print, same_number, same_text, same_side, same_contract,
  same_print, seen, drop_seen, drop_duplicates, clean,
}
use ffllowwgreeks.Processing.FlowEvents.Detect.{Pandas, prepare}

same_number_iff : (m n : Option ℕ) → (same_number m n ≡ true) ↔ (m ≡ n)
same_number_iff none none = ground arith
same_number_iff none (some n) = ground arith
same_number_iff (some m) none = ground arith
same_number_iff (some m) (some n) = ground (arith, ==_iff m n)

same_text_iff : (s t : Option Text) → (same_text s t ≡ true) ↔ (s ≡ t)
same_text_iff none none = ground arith
same_text_iff none (some t) = ground arith
same_text_iff (some s) none = ground arith
same_text_iff (some s) (some t) = ground (arith, same_iff s t)

same_side_iff : (s t : Side) → (same_side s t ≡ true) ↔ (s ≡ t)
same_side_iff buy buy = ground arith
same_side_iff buy sell = ground arith
same_side_iff buy neither = ground arith
same_side_iff sell buy = ground arith
same_side_iff sell sell = ground arith
same_side_iff sell neither = ground arith
same_side_iff neither buy = ground arith
same_side_iff neither sell = ground arith
same_side_iff neither neither = ground arith

same_contract_iff : (c d : Contract) → (same_contract c d ≡ true) ↔ (c ≡ d)
unfolding same_contract
same_contract_iff c d = ground (
  arith,
  same_iff c.symbol d.symbol,
  same_iff c.expiration d.expiration,
  ==_iff c.strike d.strike,
  same_iff c.option_type d.option_type,
)

same_print_iff : (p q : Print) → (same_print p q ≡ true) ↔ (p ≡ q)
unfolding same_print
same_print_iff p q = ground (
  arith,
  ==_iff p.ts q.ts,
  same_contract_iff p.contract q.contract,
  same_number_iff p.price q.price,
  ==_iff p.size q.size,
  same_side_iff p.side q.side,
  same_text_iff p.exchange q.exchange,
  same_number_iff p.seq q.seq,
)

-- How often a print is on a tape.
abbrev pub occurrences : Print → List Print → ℕ
occurrences p [] = 0
occurrences p (q ∷ qs) = let n = occurrences p qs in if same_print q p then suc n else n

seen_like :
    (p q : Print) (before : List Print) → same_print q p ≡ true → seen q before ≡ seen p before
seen_like p q before h = ap (λ x. seen x before) ((same_print_iff q p).0 h)

seen_again :
    (p q : Print) (before ps : List Print)
    → seen q before ≡ true
    → ◌≡◌ {A = ℕ}
        (if same_print q p || seen p before then 0 else if seen p ps then 1 else 0)
        (if seen p before then 0 else if same_print q p || seen p ps then 1 else 0)
seen_again p q before ps e = ground (arith, e, seen_like p q before)

seen_first :
    (p q : Print) (before ps : List Print)
    → seen q before ≡ false
    → ◌≡◌ {A = ℕ}
        (if same_print q p
          then suc (if same_print q p || seen p before then 0 else if seen p ps then 1 else 0)
          else if same_print q p || seen p before
          then 0
          else if seen p ps
          then 1
          else 0)
        (if seen p before then 0 else if same_print q p || seen p ps then 1 else 0)
seen_first p q before ps e = ground (arith, e, seen_like p q before)

occurrences-drop_seen :
    (p : Print) (before ps : List Print)
    → occurrences p (drop_seen before ps)
      ≡ (if seen p before then 0 else if seen p ps then 1 else 0)
unfolding drop_seen
occurrences-drop_seen p before [] = ground arith
occurrences-drop_seen p before (q ∷ ps) = elim (Bool-cases (seen q before)) [
  | inl e ↦ rw (e, occurrences-drop_seen p (q ∷ before) ps) (seen_again p q before ps e)
  | inr e ↦ rw (e, occurrences-drop_seen p (q ∷ before) ps) (seen_first p q before ps e)
]

occurrences-drop_duplicates :
    (p : Print) (ps : List Print)
    → occurrences p (drop_duplicates ps) ≡ (if seen p ps then 1 else 0)
unfolding drop_duplicates
occurrences-drop_duplicates p ps = occurrences-drop_seen p [] ps

seen-append : (p : Print) (xs ys : List Print) → seen p (xs ++ ys) ≡ (seen p xs || seen p ys)
seen-append p [] ys = refl
seen-append p (x ∷ xs) ys = ground (arith, seen-append p xs ys)

clean-append : (xs ys : List Row) → clean (xs ++ ys) ≡ clean xs ++ clean ys
unfolding clean
clean-append [] ys = refl
clean-append (r ∷ xs) ys = ground (arith, clean-append xs ys)

-- A sorting keeps the prints there are.
abbrev pub KeepsPrints : Pandas → Type 0
KeepsPrints pandas = (p : Print) (ps : List Print) → seen p (pandas.sort_values ps) ≡ seen p ps

-- The prepared tape has every print of the trades once and no other one.
pub occurrences-prepare :
    (pandas : Pandas) (p : Print) (trades : List Row)
    → KeepsPrints pandas
    → occurrences p (prepare pandas trades) ≡ (if seen p (clean trades) then 1 else 0)
unfolding prepare
occurrences-prepare pandas p trades keeps =
    occurrences-drop_duplicates p (pandas.sort_values (clean trades))
    ∙ ap (λ b. if b then 1 else 0) (keeps p (clean trades))

-- Trades that are fed again, once or more often, leave each print as often on the prepared tape as
-- before, if the sorting keeps the prints there are.
pub occurrences-prepare-append :
    (pandas : Pandas) (p : Print) (trades again : List Row)
    → KeepsPrints pandas
    → ((q : Print) → seen q (clean again) ≡ true → seen q (clean trades) ≡ true)
    → occurrences p (prepare pandas (trades ++ again)) ≡ occurrences p (prepare pandas trades)
occurrences-prepare-append pandas p trades again keeps known =
    rw
      (
        occurrences-prepare pandas p (trades ++ again) keeps,
        occurrences-prepare pandas p trades keeps,
        clean-append trades again,
        seen-append p (clean trades) (clean again),
      )
      (ground (arith, known p))
