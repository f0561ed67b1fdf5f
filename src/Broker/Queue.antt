-- ===== src/Broker/Queue.antt =====
-- Python's bounded containers as the two notifiers and the dead-letter queue use them:
-- `collections.deque(maxlen=m)` and `asyncio.Queue(maxsize=m)`, oldest entry first.
use ffllowwgreeks.Prelude.{
  ℕ, zero, suc, ◌+◌, ◌-◌, ◌≤◌, ◌<◌, ◌≡◌, refl, inl, inr, Bool, true, false, Option, none, some,
  List, [], ◌∷◌, ◌++◌, arith, leb, ltb, ltb→lt, sym, if◌then◌else◌, Bool-cases, length, drop,
  length-append, length-drop, drop-append, drop-drop, ap, ◌∙◌,
}

module _ {ℓ} {A : Type ℓ} where
  -- The newest `m` entries.
  abbrev pub last_of : ℕ → List A → List A
  last_of m xs = drop (length xs - m) xs

  -- deque(maxlen=m).append(x): a full deque drops its oldest entry.
  unfoldable pub append_bounded : ℕ → List A → A → List A
  append_bounded m xs x = last_of m (xs ++ x ∷ [])

  -- asyncio.Queue.full: a queue of maximal size 0 is unbounded.
  unfoldable pub full : ℕ → List A → Bool
  full zero q = false
  full (suc m) q = leb (suc m) (length q)

  -- asyncio.Queue.put_nowait; `none` is QueueFull.
  unfoldable pub put_nowait : ℕ → List A → A → Option (List A)
  unfolding full
  put_nowait m q x = if full m q then none else some (q ++ x ∷ [])

  -- asyncio.Queue.get_nowait; `none` is QueueEmpty.
  unfoldable pub get_nowait : List A → Option (A × List A)
  get_nowait [] = none
  get_nowait (x ∷ q) = some (x, q)

  -- The handler of the first QueueFull: `get_nowait`, with QueueEmpty passed over.
  unfoldable pub discard_oldest : List A → List A
  unfolding get_nowait
  discard_oldest q = elim (get_nowait q) [ none ↦ q | some (x, rest) ↦ rest ]

  -- The body of the loop of `publish` for one queue, and whether it delivered.
  unfoldable pub offer : ℕ → List A → A → List A × Bool
  unfolding put_nowait discard_oldest
  offer m q x = elim (put_nowait m q x) [
    | some q' ↦ (q', true)
    | none ↦ elim (put_nowait m (discard_oldest q) x) [
      | some q' ↦ (q', true)
      | none ↦ (discard_oldest q, false)
    ]
  ]

  -- A queue that keeps to its maximal size.
  abbrev pub Fits : ℕ → List A → Type 0
  Fits zero q = Unit
  Fits (suc m) q = length q ≤ suc m

  -- What `offer` leaves: everything if unbounded, else the newest entries.
  abbrev pub offered : ℕ → List A → A → List A
  offered zero q x = q ++ x ∷ []
  offered (suc m) q x = last_of (suc m) (q ++ x ∷ [])

  pub length-append_bounded : (m : ℕ) (xs : List A) (x : A) → length (append_bounded m xs x) ≤ m
  unfolding append_bounded
  length-append_bounded m xs x =
      omega (arith, length-drop (length (xs ++ x ∷ []) - m) (xs ++ x ∷ []))

  pub last_of-fits : (m : ℕ) (xs : List A) → length xs ≤ m → last_of m xs ≡ xs
  last_of-fits m xs h = let e : length xs - m ≡ 0 = omega arith in rw e

  -- The newest `m` entries of a longer list need only the newest `m` of its beginning.
  pub last_of-last_of :
      (m : ℕ) (xs ys : List A) → last_of m (last_of m xs ++ ys) ≡ last_of m (xs ++ ys)
  last_of-last_of m xs ys = rw (← kept) (drop-drop _ b zs ∙ ap (λ k. drop k zs) count)
    where
      b : ℕ
      b = length xs - m

      zs : List A
      zs = xs ++ ys

      kept : drop b zs ≡ drop b xs ++ ys
      kept = drop-append b xs ys (omega arith)

      count : b + (length (drop b zs) - m) ≡ length zs - m
      count = omega (arith, length-drop b zs, length-append xs ys)

  pub last_of-append :
      (m : ℕ) (xs : List A) (x : A) → append_bounded m (last_of m xs) x ≡ last_of m (xs ++ x ∷ [])
  unfolding append_bounded
  last_of-append m xs x = last_of-last_of m xs (x ∷ [])

  discarded : (k : ℕ) (q : List A) → length q ≡ suc k → length (discard_oldest q) ≡ k
  unfolding discard_oldest
  discarded k [] h = absurd (omega arith)
  discarded k (y ∷ q) h = omega arith

  discard-drop : (q : List A) → discard_oldest q ≡ drop 1 q
  unfolding discard_oldest
  discard-drop [] = refl
  discard-drop (y ∷ q) = refl

  put_nowait-room :
      (k : ℕ) (q : List A) (x : A) → length q < suc k → put_nowait (suc k) q x ≡ some (q ++ x ∷ [])
  unfolding put_nowait
  put_nowait-room k q x h = ground arith

  put_nowait-full : (k : ℕ) (q : List A) (x : A) → length q ≡ suc k → put_nowait (suc k) q x ≡ none
  unfolding put_nowait
  put_nowait-full k q x h = ground arith

  offered-room : (k : ℕ) (q : List A) (x : A) → length q < suc k → offered (suc k) q x ≡ q ++ x ∷ []
  offered-room k q x h = ap (λ n. drop n (q ++ x ∷ [])) zeroth
    where
      zeroth : length (q ++ x ∷ []) - suc k ≡ 0
      zeroth = omega (arith, length-append q (x ∷ []))

  offered-full :
      (k : ℕ) (q : List A) (x : A)
      → length q ≡ suc k
      → offered (suc k) q x ≡ discard_oldest q ++ x ∷ []
  offered-full k q x h =
      ap (λ n. drop n (q ++ x ∷ [])) first
      ∙ drop-append 1 q (x ∷ []) (omega arith)
      ∙ ap (λ r. r ++ x ∷ []) (sym (discard-drop q))
    where
      first : length (q ++ x ∷ []) - suc k ≡ 1
      first = omega (arith, length-append q (x ∷ []))

  -- A queue that keeps to its size always takes the newest entry, and drops at most the oldest.
  pub offer-Fits : (m : ℕ) (q : List A) (x : A) → Fits m q → offer m q x ≡ (offered m q x, true)
  unfolding offer
  offer-Fits zero q x h = refl
  offer-Fits (suc k) q x h = elim (Bool-cases (ltb (length q) (suc k))) [
    | inl room ↦
        rw (put_nowait-room k q x (ltb→lt _ _ room), offer)
          (ap (λ r. (r, true)) (sym (offered-room k q x (ltb→lt _ _ room))))
    | inr none_left ↦
        let h' : length q ≡ suc k = ground arith in
        rw (put_nowait-full k q x h', offer)
          (rw (put_nowait-room k (discard_oldest q) x (omega (arith, discarded k q h')), offer)
            (ap (λ r. (r, true)) (sym (offered-full k q x h'))))
  ]

  pub Fits-offered : (m : ℕ) (q : List A) (x : A) → Fits m (offered m q x)
  unfolding append_bounded
  Fits-offered zero q x = tt
  Fits-offered (suc k) q x = length-append_bounded (suc k) q x
