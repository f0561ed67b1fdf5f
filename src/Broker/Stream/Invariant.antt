-- ===== src/Broker/Stream/Invariant.antt =====
-- What every history of calls on a notifier of stream_notifier.py keeps true.
use ffllowwgreeks.Prelude.{
  ℕ, ◌≤◌, ◌≡◌, refl, inl, inr, Option, none, some, List, [], ◌∷◌, ◌++◌, arith, Text, length, All,
  All-append, All-drop, Bool-cases, upper, same, same_iff,
}
use mathlib.Core.Path.{subst}
use ffllowwgreeks.Prelude.Dict
use ffllowwgreeks.Prelude.Dict.{Dict, get-put, get_default-put, get_default-put_self, get-empty}
use ffllowwgreeks.Broker.Queue.{append_bounded, length-append_bounded}
use ffllowwgreeks.Broker.Registry.Invariant
use ffllowwgreeks.Broker.Registry.Invariant.{
  create-IsValid, register-IsValid, detach-IsValid, receive-IsValid, deliver-IsValid,
}
use ffllowwgreeks.Broker.Stream.{
  Stream, create, subscribe, unsubscribe, publish, publish_to, file_frame, numbering, next_seq,
  receive, reset_replay_state,
}

-- A replay buffer: no longer than its maximum, and no number above the counter.
pub record IsBuffer {ℓ} {F : Type ℓ} (maxlen latest : ℕ) (b : List (ℕ × F)) : Type 0 where
  pub short : length b ≤ maxlen
  pub counted : All (λ e. e.0 ≤ latest) b

abbrev Buffers {ℓ} : {F : Type ℓ} → ℕ → Dict ℕ → Dict (List (ℕ × F)) → Type ℓ
Buffers {F = F} m seqs d =
    (s : Text) (b : List (ℕ × F)) → Dict.get d s ≡ some b → IsBuffer m (Dict.get_default seqs s 0) b

pub record IsValid {ℓ} {F : Type ℓ} (n : Stream F) : Type ℓ where
  pub table : Invariant.IsValid n.registry
  pub buffers :
      (s : Text) (b : List (ℕ × F))
      → Dict.get n.frame_buffer s ≡ some b
      → IsBuffer n.frame_buffer_maxlen (Dict.get_default n.frame_seq s 0) b

pub data Call {ℓ} (F : Type ℓ) : Type ℓ where
  subscribes : Text → Call F
  unsubscribes : Text → ℕ → Call F
  publishes : Text → F → Option ℕ → Call F
  reserves : Text → Call F
  receives : ℕ → Call F
  resets : Call F

numbering_bounds :
    (latest : ℕ) (seq : Option ℕ)
    → ((numbering latest seq).0 ≤ (numbering latest seq).1) × (latest ≤ (numbering latest seq).1)
unfolding numbering
numbering_bounds latest none = omega arith
numbering_bounds latest (some seq) = omega arith

module _ {ℓ} {F : Type ℓ} where
  pub step : Stream F → Call F → Stream F
  step n (subscribes symbol) = (subscribe symbol n).1
  step n (unsubscribes symbol queue) = unsubscribe symbol queue n
  step n (publishes symbol frame seq) = (publish symbol frame seq n).0
  step n (reserves symbol) = (next_seq symbol n).1
  step n (receives queue) = (receive queue n).1
  step n resets = reset_replay_state n

  pub run : Stream F → List (Call F) → Stream F
  run n [] = n
  run n (c ∷ cs) = run (step n c) cs

  higher : (a b : ℕ) (xs : List (ℕ × F)) → a ≤ b → All (λ e. e.0 ≤ a) xs → All (λ e. e.0 ≤ b) xs
  higher a b [] h k = tt
  higher a b (x ∷ xs) h k = (omega arith, higher a b xs h k.1)

  raise_counter : (m a b : ℕ) (xs : List (ℕ × F)) → a ≤ b → IsBuffer m a xs → IsBuffer m b xs
  raise_counter m a b xs h v = record { short = v.short; counted = higher a b xs h v.counted }

  -- Filing one more frame under a number that the new counter covers.
  append-IsBuffer :
      (m b k : ℕ) (x : F) (xs : List (ℕ × F))
      → k ≤ b
      → All (λ e. e.0 ≤ b) xs
      → IsBuffer m b (append_bounded m xs (k, x))
  unfolding append_bounded
  append-IsBuffer m b k x xs h v = record {
    short = length-append_bounded m xs (k, x);
    counted =
        All-drop (λ e. e.0 ≤ b) _ (xs ++ (k, x) ∷ [])
          (All-append (λ e. e.0 ≤ b) xs ((k, x) ∷ []) v (h, tt));
  }

  stored_counted :
      (m latest : ℕ) (o : Option (List (ℕ × F)))
      → ((b : List (ℕ × F)) → o ≡ some b → IsBuffer m latest b)
      → All (λ e. e.0 ≤ latest) (elim o [ none ↦ [] | some b ↦ b ])
  stored_counted m latest none h = tt
  stored_counted m latest (some b) h = (h b refl).counted

  -- A counter that goes up keeps every buffer.
  put_counter :
      (m : ℕ) (seqs : Dict ℕ) (d : Dict (List (ℕ × F))) (k : Text) (c : ℕ)
      → Dict.get_default seqs k 0 ≤ c
      → Buffers m seqs d
      → Buffers m (Dict.put seqs k c) d
  put_counter m seqs d k c h v t b e =
      rw (get_default-put seqs k t c 0) (elim (Bool-cases (same k t)) [
        | inl hit ↦ rw hit (
            raise_counter m (Dict.get_default seqs t 0) c b
              (subst (λ j. Dict.get_default seqs j 0 ≤ c) ((same_iff k t).0 hit) h) (v t b e))
        | inr miss ↦ rw miss (v t b e)
      ])

  put_buffer :
      (m : ℕ) (seqs : Dict ℕ) (d : Dict (List (ℕ × F))) (k : Text) (x : List (ℕ × F))
      → IsBuffer m (Dict.get_default seqs k 0) x
      → Buffers m seqs d
      → Buffers m seqs (Dict.put d k x)
  put_buffer m seqs d k x hx v t b e = elim (Bool-cases (same k t)) [
    | inl hit ↦
        let same_key : k ≡ t = (same_iff k t).0 hit in
        let stored : x ≡ b = ground (arith, get-put d k t x) in
        subst (λ j. IsBuffer m (Dict.get_default seqs j 0) b) same_key
          (subst (IsBuffer m (Dict.get_default seqs k 0)) stored hx)
    | inr miss ↦ v t b (ground (arith, get-put d k t x))
  ]

  file_frame-IsValid :
      (s : Text) (x : F) (seq : Option ℕ) (n : Stream F)
      → IsValid n
      → IsValid (file_frame s x seq n)
  unfolding file_frame
  file_frame-IsValid s x seq n v =
      let latest = Dict.get_default n.frame_seq s 0 in
      let bounds = numbering_bounds latest seq in
      let c = (numbering latest seq).1 in
      let m = n.frame_buffer_maxlen in
      let old = Dict.get_default n.frame_buffer s [] in
      record {
        table = v.table;
        buffers =
            put_buffer m (Dict.put n.frame_seq s c) n.frame_buffer s _
              (rw (get_default-put_self n.frame_seq s c 0) (
                append-IsBuffer m c (numbering latest seq).0 x old bounds.0 (
                  higher latest c old bounds.1
                    (stored_counted m latest (Dict.get n.frame_buffer s) (v.buffers s)))))
              (put_counter m n.frame_seq n.frame_buffer s c bounds.1 v.buffers);
      }

  publish_to-IsValid :
      (s : Text) (x : F) (seq : Option ℕ) (o : Option (List ℕ)) (n : Stream F)
      → Dict.get n.subscribers s ≡ o
      → IsValid n
      → IsValid (publish_to s x seq o n).0
  unfolding publish_to
  publish_to-IsValid s x seq none n e v = v
  publish_to-IsValid s x seq (some []) n e v = v
  publish_to-IsValid s x seq (some (q ∷ qs)) n e v =
      let filed = file_frame-IsValid s x seq n v in
      record { table = deliver-IsValid s x n.registry (q ∷ qs) v.table e; buffers = filed.buffers }

  pub step-IsValid : (n : Stream F) (c : Call F) → IsValid n → IsValid (step n c)
  unfolding step subscribe unsubscribe publish next_seq receive reset_replay_state
  step-IsValid n (subscribes symbol) v = record {
    table = register-IsValid symbol n.registry v.table;
    buffers = v.buffers;
  }
  step-IsValid n (unsubscribes symbol queue) v = record {
    table = detach-IsValid symbol queue n.registry v.table;
    buffers = v.buffers;
  }
  step-IsValid n (publishes symbol frame seq) v =
      publish_to-IsValid (upper symbol) frame seq (Dict.get n.subscribers (upper symbol)) n refl v
  step-IsValid n (reserves symbol) v = record {
    table = v.table;
    buffers =
        put_counter n.frame_buffer_maxlen n.frame_seq n.frame_buffer (upper symbol) _ (omega arith)
          v.buffers;
  }
  step-IsValid n (receives queue) v = record {
    table = receive-IsValid queue n.registry v.table;
    buffers = v.buffers;
  }
  step-IsValid n resets v = record {
    table = v.table;
    buffers = λ s b e. cc (get-empty {V = List (ℕ × F)} s);
  }

  run-IsValid : (n : Stream F) (cs : List (Call F)) → IsValid n → IsValid (run n cs)
  unfolding run
  run-IsValid n [] v = v
  run-IsValid n (c ∷ cs) v = run-IsValid (step n c) cs (step-IsValid n c v)

  create-IsValid_lem : (m k : ℕ) → IsValid (create {F = F} m k)
  unfolding create
  create-IsValid_lem m k = record {
    table = create-IsValid m;
    buffers = λ s b e. cc (get-empty {V = List (ℕ × F)} s);
  }

  -- After any calls, in any order and with any numbers handed to `publish`: no queue exceeds its
  -- maximal size, each set of subscribers is non-empty and holds no queue twice, no replay buffer
  -- exceeds its maximal length, and no buffered number exceeds the symbol's counter.
  pub run-create-IsValid : (m k : ℕ) (cs : List (Call F)) → IsValid (run (create m k) cs)
  run-create-IsValid m k cs = run-IsValid (create m k) cs (create-IsValid_lem m k)
