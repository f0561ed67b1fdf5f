-- ===== src/Processing/MaxPain/Strikes.antt =====
-- The candidate strikes of max_pain.py: ascending, without repetition, and all of the rows' strikes.
use ffllowwgreeks.Prelude.{ℕ, ◌<◌, ◌≡◌, refl, sym, ◌⊎◌, inl, inr, List, [], ◌∷◌, map, arith, All}
use mathlib.Core.Path.{subst}
use ffllowwgreeks.Processing.MaxPain.{Contract, insert_unique, sorted_unique, strike_of}

-- Membership, as data.
abbrev pub In : ℕ → List ℕ → Type 0
In k [] = ⊥
In k (s ∷ ss) = (k ≡ s) ⊎ In k ss

abbrev pub Ascending : List ℕ → Type 0
Ascending [] = Unit
Ascending (s ∷ ss) = All (λ t. s < t) ss × Ascending ss

In-insert_self : (k : ℕ) (ss : List ℕ) → In k (insert_unique k ss)
unfolding insert_unique
In-insert_self k [] = inl refl
In-insert_self k (s ∷ ss) = ground (arith, In-insert_self k ss)

In-insert : (k j : ℕ) (ss : List ℕ) → In j ss → In j (insert_unique k ss)
unfolding insert_unique
In-insert k j [] h = absurd h
In-insert k j (s ∷ ss) (inl e) = ground arith
In-insert k j (s ∷ ss) (inr h) = ground (arith, In-insert k j ss h)

In-of_insert : (k j : ℕ) (ss : List ℕ) → In j (insert_unique k ss) → (j ≡ k) ⊎ In j ss
unfolding insert_unique
In-of_insert k j [] h = ground arith
In-of_insert k j (s ∷ ss) h = ground (arith, In-of_insert k j ss)

All-insert :
    (a k : ℕ) (ss : List ℕ) → a < k → All (λ t. a < t) ss → All (λ t. a < t) (insert_unique k ss)
unfolding insert_unique
All-insert a k [] h v = (h, tt)
All-insert a k (s ∷ ss) h v = ground (arith, All-insert a k ss h v.1)

All-lower : (a b : ℕ) (ss : List ℕ) → a < b → All (λ t. b < t) ss → All (λ t. a < t) ss
All-lower a b [] h v = tt
All-lower a b (s ∷ ss) h v = (omega arith, All-lower a b ss h v.1)

insert-Ascending : (k : ℕ) (ss : List ℕ) → Ascending ss → Ascending (insert_unique k ss)
unfolding insert_unique
insert-Ascending k [] v = (tt, tt)
insert-Ascending k (s ∷ ss) v =
    ground (arith, insert-Ascending k ss v.1, All-insert s k ss, All-lower k s ss)

pub sorted_unique-Ascending : (ks : List ℕ) → Ascending (sorted_unique ks)
unfolding sorted_unique
sorted_unique-Ascending [] = tt
sorted_unique-Ascending (k ∷ ks) =
    insert-Ascending k (sorted_unique ks) (sorted_unique-Ascending ks)

pub In-sorted_unique : (j : ℕ) (ks : List ℕ) → In j ks → In j (sorted_unique ks)
unfolding sorted_unique
In-sorted_unique j [] h = h
In-sorted_unique j (k ∷ ks) (inl e) =
    subst (λ i. In i (insert_unique k (sorted_unique ks))) (sym e)
      (In-insert_self k (sorted_unique ks))
In-sorted_unique j (k ∷ ks) (inr h) = In-insert k j (sorted_unique ks) (In-sorted_unique j ks h)

pub In-of_sorted_unique : (j : ℕ) (ks : List ℕ) → In j (sorted_unique ks) → In j ks
unfolding sorted_unique
In-of_sorted_unique j [] h = h
In-of_sorted_unique j (k ∷ ks) h =
    ground (arith, In-of_insert k j (sorted_unique ks) h, In-of_sorted_unique j ks)

-- Every row's strike is a candidate.
abbrev pub Listed : List ℕ → List Contract → Type 0
Listed ss cs = All (λ c. In c.strike ss) cs

Listed-cons : (s : ℕ) (ss : List ℕ) (cs : List Contract) → Listed ss cs → Listed (s ∷ ss) cs
Listed-cons s ss [] h = tt
Listed-cons s ss (c ∷ cs) h = (inr h.0, Listed-cons s ss cs h.1)

Listed-rows : (cs : List Contract) → Listed (map strike_of cs) cs
Listed-rows [] = tt
Listed-rows (c ∷ cs) = (inl refl, Listed-cons c.strike (map strike_of cs) cs (Listed-rows cs))

Listed-sorted : (ks : List ℕ) (cs : List Contract) → Listed ks cs → Listed (sorted_unique ks) cs
Listed-sorted ks [] h = tt
Listed-sorted ks (c ∷ cs) h = (In-sorted_unique c.strike ks h.0, Listed-sorted ks cs h.1)

pub Listed-candidates : (cs : List Contract) → Listed (sorted_unique (map strike_of cs)) cs
Listed-candidates cs = Listed-sorted (map strike_of cs) cs (Listed-rows cs)
