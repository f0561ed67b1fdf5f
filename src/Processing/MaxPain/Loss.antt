-- ===== src/Processing/MaxPain/Loss.antt =====
-- The loss of a book of contracts as a function of the settlement price (max_pain.py): convex, and
-- linear between strikes.
use ffllowwgreeks.Prelude.{
  ℕ, ◌+◌, ◌-◌, ◌*◌, ◌≤◌, ◌<◌, ◌≡◌, refl, sym, ◌∙◌, ◌⊎◌, inl, inr, Bool, true, false, List, [], ◌∷◌,
  arith, if◌then◌else◌, All, Bool-cases, leb, leb→le,
}
use mathlib.Core.Path.{subst, subst₂, ap₂}
use ffllowwgreeks.Processing.MaxPain.{Contract, call_loss, put_loss}

abbrev one_loss : Bool → ℕ → ℕ → ℕ → ℕ
one_loss is_call strike oi price = if is_call then (price - strike) * oi else (strike - price) * oi

pub loss : List Contract → ℕ → ℕ
loss [] x = 0
loss (c ∷ cs) x = one_loss c.is_call c.strike c.oi x + loss cs x

pub loss_lem : (cs : List Contract) (x : ℕ) → call_loss cs x + put_loss cs x ≡ loss cs x
unfolding loss call_loss put_loss
loss_lem [] x = refl
loss_lem (c ∷ cs) x = ground (arith, loss_lem cs x)

rising : (m i j o : ℕ) → (i + j) * ((m + i) * o) ≡ j * (m * o) + i * ((m + (i + j)) * o)
rising m i j o = omega arith

falling : (m i j o : ℕ) → (i + j) * ((m + j) * o) ≡ j * ((m + (i + j)) * o) + i * (m * o)
falling m i j o = omega arith

-- Between `a` and `a + (i + j)`, with the strike outside, the loss of one contract is linear.
one_line :
    (b : Bool) (k o a i j : ℕ)
    → (k ≤ a) ⊎ (a + (i + j) ≤ k)
    → (i + j) * one_loss b k o (a + i) ≡ j * one_loss b k o a + i * one_loss b k o (a + (i + j))
one_line true k o a i j (inl h) =
    let e : a + i - k ≡ (a - k) + i = omega arith in
    let f : a + (i + j) - k ≡ (a - k) + (i + j) = omega arith in rw (e, f) (rising (a - k) i j o)
one_line true k o a i j (inr h) =
    let d : a - k ≡ 0 = omega arith in
    let e : a + i - k ≡ 0 = omega arith in
    let f : a + (i + j) - k ≡ 0 = omega arith in rw (d, e, f) (omega arith)
one_line false k o a i j (inl h) =
    let d : k - a ≡ 0 = omega arith in
    let e : k - (a + i) ≡ 0 = omega arith in
    let f : k - (a + (i + j)) ≡ 0 = omega arith in rw (d, e, f) (omega arith)
one_line false k o a i j (inr h) =
    let m : ℕ = k - (a + (i + j)) in
    let d : k - a ≡ m + (i + j) = omega arith in
    let e : k - (a + i) ≡ m + j = omega arith in rw (d, e) (falling m i j o)

-- No strike lies strictly between `a` and `b`.
abbrev pub Outside : ℕ → ℕ → List Contract → Type 0
Outside a b cs = All (λ c. (c.strike ≤ a) ⊎ (b ≤ c.strike)) cs

loss_line :
    (a i j : ℕ) (cs : List Contract)
    → Outside a (a + (i + j)) cs
    → (i + j) * loss cs (a + i) ≡ j * loss cs a + i * loss cs (a + (i + j))
unfolding loss
loss_line a i j [] h = omega arith
loss_line a i j (c ∷ cs) h =
    omega (arith, one_line c.is_call c.strike c.oi a i j h.0, loss_line a i j cs h.1)

mean_too_small : (i j x u v : ℕ) → 0 < i + j → (i + j) * x ≡ j * (x + 1 + u) + i * (x + 1 + v) → ⊥
mean_too_small i j x u v h e = omega arith

-- A weighted mean is not below both of its terms.
not_below_both : (i j x y z : ℕ) → 0 < i + j → (i + j) * x ≡ j * y + i * z → (y ≤ x) ⊎ (z ≤ x)
not_below_both i j x y z h e = elim (Bool-cases (leb y x)) [
  | inl le ↦ inl (leb→le _ _ le)
  | inr above ↦ elim (Bool-cases (leb z x)) [
    | inl le ↦ inr (leb→le _ _ le)
    | inr above' ↦
        let ey : y ≡ x + 1 + (y - x - 1) = ground arith in
        let ez : z ≡ x + 1 + (z - x - 1) = ground arith in
        absurd
          (mean_too_small i j x (y - x - 1) (z - x - 1) h (e ∙ ap₂ (λ s t. j * s + i * t) ey ez))
  ]
]

-- So one end of a stretch without strikes costs no more than any price in it.
pub loss_end :
    (a x b : ℕ) (cs : List Contract)
    → a ≤ x
    → x ≤ b
    → a < b
    → Outside a b cs
    → (loss cs a ≤ loss cs x) ⊎ (loss cs b ≤ loss cs x)
loss_end a x b cs p q r h =
    subst₂ (λ s t. (loss cs a ≤ loss cs s) ⊎ (loss cs t ≤ loss cs s)) ex eb
      (not_below_both i j (loss cs (a + i)) (loss cs a) (loss cs (a + (i + j))) (omega arith)
        (loss_line a i j cs (subst (λ t. Outside a t cs) (sym eb) h)))
  where
    i : ℕ
    i = x - a

    j : ℕ
    j = b - x

    ex : a + i ≡ x
    ex = omega arith

    eb : a + (i + j) ≡ b
    eb = omega arith

mul_mono : (m n o : ℕ) → m ≤ n → m * o ≤ n * o
mul_mono m n o h = grind arith

one_below : (b : Bool) (k o a x : ℕ) → x ≤ a → a ≤ k → one_loss b k o a ≤ one_loss b k o x
one_below true k o a x p h = mul_mono (a - k) (x - k) o (omega arith)
one_below false k o a x p h = mul_mono (k - a) (k - x) o (omega arith)

one_above : (b : Bool) (k o a x : ℕ) → a ≤ x → k ≤ a → one_loss b k o a ≤ one_loss b k o x
one_above true k o a x p h = mul_mono (a - k) (x - k) o (omega arith)
one_above false k o a x p h = mul_mono (k - a) (k - x) o (omega arith)

-- Below every strike a lower price costs no less.
pub loss_below :
    (a x : ℕ) (cs : List Contract) → x ≤ a → All (λ c. a ≤ c.strike) cs → loss cs a ≤ loss cs x
unfolding loss
loss_below a x [] p h = omega arith
loss_below a x (c ∷ cs) p h =
    omega (arith, one_below c.is_call c.strike c.oi a x p h.0, loss_below a x cs p h.1)

-- Above every strike a higher price costs no less.
pub loss_above :
    (b x : ℕ) (cs : List Contract) → b ≤ x → All (λ c. c.strike ≤ b) cs → loss cs b ≤ loss cs x
unfolding loss
loss_above b x [] p h = omega arith
loss_above b x (c ∷ cs) p h =
    omega (arith, one_above c.is_call c.strike c.oi b x p h.0, loss_above b x cs p h.1)
