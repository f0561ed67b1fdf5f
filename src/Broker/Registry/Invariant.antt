-- ===== src/Broker/Registry/Invariant.antt =====
-- What every operation on the table of subscribers keeps true.
use ffllowwgreeks.Prelude.{
  ℕ, zero, suc, ◌<◌, ◌≡◌, refl, inl, inr, Bool, true, false, Option, none, some, List, [], ◌∷◌,
  arith, ◌==◌, if◌then◌else◌, Text, Bool-cases, upper, All, same,
}
use mathlib.Core.Path.{subst}
use ffllowwgreeks.Prelude.Dict
use ffllowwgreeks.Prelude.Dict.{Dict, dict_laws, get-put, get-remove}
use ffllowwgreeks.Broker.Queue.{Fits, offered, Fits-offered}
use ffllowwgreeks.Broker.Registry.{
  Registry, elem, discard, is_empty, update, create, register, detach_from, detach, deliver,
  receive, Distinct, deliver_lem,
}

-- A set of subscribers is not empty, holds no queue twice, and only queues that were handed out.
pub record IsBucket (bound : ℕ) (b : List ℕ) : Type 0 where
  pub occupied : is_empty b ≡ false
  pub distinct : Distinct b
  pub allotted : All (λ q. q < bound) b

pub record IsValid {ℓ} {A : Type ℓ} (r : Registry A) : Type 0 where
  pub fits : (p : ℕ) → Fits r.queue_maxsize (r.queues p)
  pub buckets :
      (s : Text) (b : List ℕ) → Dict.get r.subscribers s ≡ some b → IsBucket r.next_queue b

elem_of_bound : (n : ℕ) (b : List ℕ) → All (λ q. q < n) b → elem n b ≡ false
elem_of_bound n [] h = refl
elem_of_bound n (q ∷ b) h = ground (arith, elem_of_bound n b h.1)

All-mono : (n : ℕ) (b : List ℕ) → All (λ q. q < n) b → All (λ q. q < suc n) b
All-mono n [] h = tt
All-mono n (q ∷ b) h = (omega arith, All-mono n b h.1)

elem-discard : (q p : ℕ) (b : List ℕ) → elem p b ≡ false → elem p (discard q b) ≡ false
unfolding discard
elem-discard q p [] h = refl
elem-discard q p (x ∷ b) h = ground (arith, elem-discard q p b)

discard-Distinct : (q : ℕ) (b : List ℕ) → Distinct b → Distinct (discard q b)
unfolding discard
discard-Distinct q [] h = tt
discard-Distinct q (x ∷ b) h = ground (arith, discard-Distinct q b h.1, elem-discard q x b h.0)

discard-All : (n q : ℕ) (b : List ℕ) → All (λ q. q < n) b → All (λ q. q < n) (discard q b)
unfolding discard
discard-All n q [] h = tt
discard-All n q (x ∷ b) h = ground (arith, discard-All n q b h.1)

-- The set after a subscription: the new queue in front.
joined-IsBucket :
    (n : ℕ) (o : Option (List ℕ))
    → ((b : List ℕ) → o ≡ some b → IsBucket n b)
    → IsBucket (suc n) (n ∷ (elim o [ none ↦ [] | some b ↦ b ]))
joined-IsBucket n none h = record {
  occupied = refl;
  distinct = (refl, tt);
  allotted = (omega arith, tt);
}
joined-IsBucket n (some b) h = record {
  occupied = refl;
  distinct = (elem_of_bound n b (h b refl).allotted, (h b refl).distinct);
  allotted = (omega arith, All-mono n b (h b refl).allotted);
}

widen : (n : ℕ) (b : List ℕ) → IsBucket n b → IsBucket (suc n) b
widen n b h = record {
  occupied = h.occupied;
  distinct = h.distinct;
  allotted = All-mono n b h.allotted;
}

abbrev Buckets : ℕ → Dict (List ℕ) → Type 0
Buckets n d = (s : Text) (b : List ℕ) → Dict.get d s ≡ some b → IsBucket n b

put-Buckets :
    (n : ℕ) (d : Dict (List ℕ)) (k : Text) (x : List ℕ)
    → IsBucket n x
    → Buckets n d
    → Buckets n (Dict.put d k x)
put-Buckets n d k x hx h t b e = elim (Bool-cases (same k t)) [
  | inl hit ↦ subst (IsBucket n) (ground (arith, get-put d k t x)) hx
  | inr miss ↦ h t b (ground (arith, get-put d k t x))
]

remove-Buckets : (n : ℕ) (d : Dict (List ℕ)) (k : Text) → Buckets n d → Buckets n (Dict.remove d k)
remove-Buckets n d k h t b e = h t b (ground (arith, get-remove d k t))

Fits-nil {ℓ} : (A : Type ℓ) (m : ℕ) → Fits {A = A} m []
Fits-nil A zero = tt
Fits-nil A (suc m) = omega arith

module _ {ℓ} {A : Type ℓ} where
  Fits-if :
      (m : ℕ) (b : Bool) (xs ys : List A) → Fits m xs → Fits m ys → Fits m (if b then xs else ys)
  Fits-if m true xs ys hx hy = hx
  Fits-if m false xs ys hx hy = hy

  Fits-tail : (m : ℕ) (x : A) (xs : List A) → Fits m (x ∷ xs) → Fits m xs
  Fits-tail zero x xs h = tt
  Fits-tail (suc m) x xs h = omega arith

  pub create-IsValid : (m : ℕ) → IsValid (create {A = A} m)
  unfolding create
  create-IsValid m = record {
    fits = λ p. Fits-nil _ m;
    buckets = λ s b e. cc (Dict.get-empty {V = List ℕ} s);
  }

  pub register-IsValid : (s : Text) (r : Registry A) → IsValid r → IsValid (register s r).1
  unfolding register
  register-IsValid s r v = record {
    fits = λ p.
        Fits-if r.queue_maxsize (p == r.next_queue) [] (r.queues p) (Fits-nil _ r.queue_maxsize)
          (v.fits p);
    buckets =
        put-Buckets (suc r.next_queue) r.subscribers (upper s) _
          (joined-IsBucket r.next_queue (Dict.get r.subscribers (upper s)) (v.buckets (upper s)))
          (λ t b e. widen r.next_queue b (v.buckets t b e));
  }

  detach_from-IsValid :
      (k : Text) (q : ℕ) (r : Registry A) (o : Option (List ℕ))
      → ((b : List ℕ) → o ≡ some b → IsBucket r.next_queue b)
      → IsValid r
      → IsValid (detach_from k q r o)
  unfolding detach_from
  detach_from-IsValid k q r none h v = v
  detach_from-IsValid k q r (some b) h v = elim (Bool-cases (is_empty (discard q b))) [
    | inl gone ↦
        rw gone (record {
          fits = v.fits;
          buckets = remove-Buckets r.next_queue r.subscribers k v.buckets;
        })
    | inr left ↦ rw left (record {
      fits = v.fits;
      buckets =
          put-Buckets r.next_queue r.subscribers k (discard q b)
            (record {
              occupied = left;
              distinct = discard-Distinct q b (h b refl).distinct;
              allotted = discard-All r.next_queue q b (h b refl).allotted;
            })
            v.buckets;
    })
  ]

  pub detach-IsValid : (s : Text) (q : ℕ) (r : Registry A) → IsValid r → IsValid (detach s q r)
  unfolding detach
  detach-IsValid s q r v =
      detach_from-IsValid (upper s) q r (Dict.get r.subscribers (upper s)) (v.buckets (upper s)) v

  -- Delivery to one of the sets.
  pub deliver-IsValid :
      (s : Text) (x : A) (r : Registry A) (b : List ℕ)
      → IsValid r
      → Dict.get r.subscribers s ≡ some b
      → IsValid (record r { queues = (deliver r.queue_maxsize x b r.queues).0 })
  deliver-IsValid s x r b v e = record {
    fits = λ p.
        rw ((deliver_lem r.queue_maxsize x b r.queues (v.buckets s b e).distinct v.fits).0 p) (
          Fits-if r.queue_maxsize (elem p b) (offered r.queue_maxsize (r.queues p) x) (r.queues p)
            (Fits-offered r.queue_maxsize (r.queues p) x) (v.fits p));
    buckets = v.buckets;
  }

  receive_from :
      (q : ℕ) (r : Registry A) (xs : List A)
      → Fits r.queue_maxsize xs
      → IsValid r
      → IsValid (record r { queues = update r.queues q xs })
  receive_from q r xs f v = record {
    fits = λ p. Fits-if r.queue_maxsize (p == q) xs (r.queues p) f (v.fits p);
    buckets = v.buckets;
  }

  received :
      (q : ℕ) (r : Registry A) (xs : List A) → r.queues q ≡ xs → IsValid r → IsValid (receive q r).1
  unfolding receive
  received q r [] e v = rw (e, receive) v
  received q r (x ∷ xs) e v =
      rw (e, receive)
        (receive_from q r xs
          (Fits-tail r.queue_maxsize x xs (subst (Fits r.queue_maxsize) e (v.fits q))) v)

  pub receive-IsValid : (q : ℕ) (r : Registry A) → IsValid r → IsValid (receive q r).1
  receive-IsValid q r v = received q r (r.queues q) refl v
