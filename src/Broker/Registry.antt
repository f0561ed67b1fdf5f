-- ===== src/Broker/Registry.antt =====
-- The table of subscribers that `StreamNotifier` and `TickNotifier` both keep: a set of queues for
-- each symbol. A queue is an object that its consumer shares, so it is a number into a heap.
pub mod Invariant
use ffllowwgreeks.Prelude.{
  ℕ, suc, ◌+◌, ◌≡◌, refl, inl, inr, Bool, true, false, ◌||◌, Option, none, some, List, [], ◌∷◌,
  arith, ◌==◌, if◌then◌else◌, Text, length, Bool-cases, upper,
}
use ffllowwgreeks.Prelude.Dict
use ffllowwgreeks.Prelude.Dict.{Dict}
use ffllowwgreeks.Broker.Queue.{Fits, offer, offered, offer-Fits, Fits-offered}

pub record Registry {ℓ} (A : Type ℓ) : Type ℓ where
  -- `_queue_maxsize`
  pub queue_maxsize : ℕ
  -- `_subscribers`
  pub subscribers : Dict (List ℕ)
  -- The heap of the queues, and the next free place in it.
  pub queues : ℕ → List A
  pub next_queue : ℕ

abbrev pub elem : ℕ → List ℕ → Bool
elem q [] = false
elem q (p ∷ ps) = p == q || elem q ps

-- set.discard
unfoldable pub discard : ℕ → List ℕ → List ℕ
discard q [] = []
discard q (p ∷ ps) = let rest = discard q ps in if p == q then rest else p ∷ rest

abbrev pub is_empty {ℓ} : {A : Type ℓ} → List A → Bool
is_empty [] = true
is_empty (x ∷ xs) = false

abbrev pub total : List (List ℕ) → ℕ
total [] = 0
total (b ∷ bs) = length b + total bs

module _ {ℓ} {A : Type ℓ} where
  abbrev pub update : (ℕ → List A) → ℕ → List A → ℕ → List A
  update h q xs p = if p == q then xs else h p

  unfoldable pub create : ℕ → Registry A
  create maxsize = record {
    queue_maxsize = maxsize;
    subscribers = Dict.empty;
    queues = λ q. [];
    next_queue = 0;
  }

  -- `self._subscribers[sym].add(queue)` with a new queue.
  unfoldable pub register : Text → Registry A → ℕ × Registry A
  register symbol r =
      let sym = upper symbol in
      let queue = r.next_queue in
      (
        queue,
        record r {
          subscribers = Dict.put r.subscribers sym (queue ∷ Dict.get_default r.subscribers sym []);
          queues = update r.queues queue [];
          next_queue = suc queue;
        },
      )

  unfoldable pub detach_from : Text → ℕ → Registry A → Option (List ℕ) → Registry A
  unfolding discard
  detach_from sym queue r none = r
  detach_from sym queue r (some bucket) =
      let left = discard queue bucket in
      if is_empty left
      then record r { subscribers = Dict.remove r.subscribers sym }
      else record r { subscribers = Dict.put r.subscribers sym left }

  unfoldable pub detach : Text → ℕ → Registry A → Registry A
  unfolding detach_from
  detach symbol queue r =
      let sym = upper symbol in detach_from sym queue r (Dict.get r.subscribers sym)

  unfoldable pub count_of : Option Text → Registry A → ℕ
  count_of none r = total (Dict.values r.subscribers)
  count_of (some symbol) r = length (Dict.get_default r.subscribers (upper symbol) [])

  -- The loop of `publish` over a snapshot of the set, and the number of queues that it reached.
  unfoldable pub deliver : ℕ → A → List ℕ → (ℕ → List A) → (ℕ → List A) × ℕ
  deliver m frame [] h = (h, 0)
  deliver m frame (q ∷ qs) h =
      let (xs, done) = offer m (h q) frame in
      let (h', delivered) = deliver m frame qs (update h q xs) in
      (h', (if done then 1 else 0) + delivered)

  -- The consumer's side: the oldest frame of its queue is taken off.
  unfoldable pub receive : ℕ → Registry A → Option A × Registry A
  receive q r = elim (r.queues q) [
    | [] ↦ (none, r)
    | x ∷ xs ↦ (some x, record r { queues = update r.queues q xs })
  ]

-- No queue twice.
abbrev pub Distinct : List ℕ → Type 0
Distinct [] = Unit
Distinct (q ∷ qs) = (elem q qs ≡ false) × Distinct qs

module _ {ℓ} {A : Type ℓ} where
  deliver_other :
      (m : ℕ) (x : A) (qs : List ℕ) (h : ℕ → List A) (p : ℕ)
      → elem p qs ≡ false
      → (deliver m x qs h).0 p ≡ h p
  unfolding deliver
  deliver_other m x [] h p e = refl
  deliver_other m x (q ∷ qs) h p e =
      ground (arith, deliver_other m x qs (update h q (offer m (h q) x).0) p)

  Fits-if :
      (m : ℕ) (b : Bool) (xs ys : List A) → Fits m xs → Fits m ys → Fits m (if b then xs else ys)
  Fits-if m true xs ys hx hy = hx
  Fits-if m false xs ys hx hy = hy

  -- The frame reaches `p` from the rest of the set or, if `p` is `q`, from the offer to `q`.
  reaches :
      (m : ℕ) (x : A) (q p : ℕ) (qs : List ℕ) (h g : ℕ → List A)
      → elem q qs ≡ false
      → let h' = update h q (offered m (h q) x) in
        g p ≡ (if elem p qs then offered m (h' p) x else h' p)
        → g p ≡ (if q == p || elem p qs then offered m (h p) x else h p)
  reaches m x q p qs h g apart e = elim (Bool-cases (q == p)) [
    | inl hit ↦ let same_queue : q ≡ p = ground arith in ground (arith, e)
    | inr miss ↦ ground (arith, e)
  ]

  -- Every queue of a set takes the frame once; the others stay as they are.
  pub deliver_lem :
      (m : ℕ) (x : A) (qs : List ℕ) (h : ℕ → List A)
      → Distinct qs
      → ((p : ℕ) → Fits m (h p))
      → ((p : ℕ) → (deliver m x qs h).0 p ≡ (if elem p qs then offered m (h p) x else h p))
        × ((deliver m x qs h).1 ≡ length qs)
  unfolding deliver
  deliver_lem m x [] h d f = ((λ p. refl), refl)
  deliver_lem m x (q ∷ qs) h d f =
      let h' : ℕ → List A = update h q (offered m (h q) x) in
      let rest =
        deliver_lem m x qs h' d.1
          (λ p. Fits-if m (p == q) (offered m (h q) x) (h p) (Fits-offered m (h q) x) (f p)) in
      rw (offer-Fits m (h q) x (f q))
        ((λ p. reaches m x q p qs h (deliver m x qs h').0 d.0 (rest.0 p)), omega (arith, rest.1))
