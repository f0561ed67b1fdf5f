-- ===== src/Api/Middleware/Capped.antt =====
-- What the limit on bodies of archive/python-legacy/backend/app/main.py lets through.
use mathlib.Core.Path.{subst}
use ffllowwgreeks.Prelude.{
  ℕ, ◌+◌, ◌≤◌, ◌<◌, ◌≡◌, refl, sym, ap, ◌∙◌, Bool, true, false, Option, List, [], ◌∷◌, length, ltb,
  arith, if◌then◌else◌, if-cases, ltb→lt, Text,
}
use ffllowwgreeks.Api.Middleware.Declared.{
  Declares, declares_too_much-Declares, Declares-declares_too_much,
}
use ffllowwgreeks.Api.Middleware.BodyLimit.{
  Message, http_request, http_disconnect, other_message, Filter, fresh, count_body, pass,
  receive_capped, receive_all, declares_too_much, call,
}

-- The bytes of the bodies.
abbrev pub total : List Message → ℕ
total [] = 0
total (http_request body more ∷ ms) = length body + total ms
total (http_disconnect ∷ ms) = total ms
total (other_message ∷ ms) = total ms

-- What an application reads that stops at a disconnect.
abbrev pub until_disconnect : List Message → List Message
until_disconnect [] = []
until_disconnect (http_request body more ∷ ms) = http_request body more ∷ until_disconnect ms
until_disconnect (http_disconnect ∷ ms) = []
until_disconnect (other_message ∷ ms) = other_message ∷ until_disconnect ms

-- A rejected request gets no further answer.
rejected-answers :
    (max_size : ℕ) (ms : List Message) (f : Filter)
    → f.rejected ≡ true
    → (receive_all max_size ms f).1.answers_413 ≡ f.answers_413
unfolding receive_all
rejected-answers max_size [] f r = refl
rejected-answers max_size (m ∷ ms) f r =
    let same : (receive_capped max_size m f).1 ≡ f =
      unfold receive_capped in ap (λ b. (if b then (m, f) else pass max_size m f).1) r in
    rejected-answers max_size ms (receive_capped max_size m f).1 (ap (λ g. g.rejected) same ∙ r)
    ∙ ap (λ g. g.answers_413) same

-- From a filter that has not rejected, the messages pass up to the limit.
record Caps (max_size : ℕ) (f : Filter) (ms : List Message) (out : List Message × Filter)
    : Type 0 where
  pub read : f.seen + total (until_disconnect out.0) ≤ max_size
  pub answers :
      out.1.answers_413
      ≡ (if ltb max_size (f.seen + total ms) then f.answers_413 + 1 else f.answers_413)
  pub whole : f.seen + total ms ≤ max_size → out.0 ≡ ms

open_step :
    (max_size : ℕ) (m : Message) (f : Filter)
    → f.rejected ≡ false
    → receive_capped max_size m f ≡ pass max_size m f
unfolding receive_capped
open_step max_size m f r = ap (λ b. if b then (m, f) else pass max_size m f) r

Caps-next :
    (max_size : ℕ) (m : Message) (ms : List Message) (f g : Filter) (n : ℕ)
    → total (m ∷ ms) ≡ n + total ms
    → ((rest : List Message)
        → total (until_disconnect (m ∷ rest)) ≤ n + total (until_disconnect rest))
    → g.seen ≡ f.seen + n
    → g.answers_413 ≡ f.answers_413
    → (out : List Message × Filter) → Caps max_size g ms out
    → Caps max_size f (m ∷ ms) (m ∷ out.0, out.1)
Caps-next max_size m ms f g n et er es ea out c = record {
  read = omega (arith, c.read, er out.0);
  answers = ground (arith, c.answers, et);
  whole = λ h. ap (λ rest. m ∷ rest) (c.whole (omega arith));
}

-- What comes after a step of an open filter.
after : ℕ → List Message → Message × Filter → List Message × Filter
after max_size ms step = let rest = receive_all max_size ms step.1 in (step.0 ∷ rest.0, rest.1)

rejecting-Caps :
    (max_size : ℕ) (body : List ℕ) (more : Bool) (ms : List Message) (f g : Filter)
    → f.seen ≤ max_size
    → max_size < f.seen + length body
    → g.rejected ≡ true
    → g.answers_413 ≡ f.answers_413 + 1
    → Caps max_size f (http_request body more ∷ ms) (after max_size ms (http_disconnect, g))
unfolding after
rejecting-Caps max_size body more ms f g h over r ea = record {
  read = omega arith;
  answers = rejected-answers max_size ms g r ∙ ground (arith, ea);
  whole = λ e. absurd (omega arith);
}

pass-Caps :
    (max_size : ℕ) (ms : List Message) (m : Message) (f : Filter)
    → f.rejected ≡ false
    → f.seen ≤ max_size
    → ((g : Filter)
        → g.rejected ≡ false
        → g.seen ≤ max_size
        → Caps max_size g ms (receive_all max_size ms g))
    → Caps max_size f (m ∷ ms) (after max_size ms (pass max_size m f))
unfolding after pass count_body
pass-Caps max_size ms (http_request [] more) f r h ih =
    Caps-next max_size (http_request [] more) ms f f 0 refl (λ rest. omega arith) (omega arith) refl
      (receive_all max_size ms f) (ih f r h)
pass-Caps max_size ms http_disconnect f r h ih =
    Caps-next max_size http_disconnect ms f f 0 (omega arith) (λ rest. omega arith) (omega arith)
      refl (receive_all max_size ms f) (ih f r h)
pass-Caps max_size ms other_message f r h ih =
    Caps-next max_size other_message ms f f 0 (omega arith) (λ rest. omega arith) (omega arith) refl
      (receive_all max_size ms f) (ih f r h)
pass-Caps max_size ms (http_request (b ∷ bs) more) f r h ih =
    if-cases (λ step. Caps max_size f (http_request (b ∷ bs) more ∷ ms) (after max_size ms step))
      (ltb max_size (f.seen + length (b ∷ bs))) _ _
      (λ over. rejecting-Caps max_size (b ∷ bs) more ms f _ h (ltb→lt max_size _ over) refl refl)
      (λ within.
        let g = record f { seen = f.seen + length (b ∷ bs) } in
        Caps-next max_size (http_request (b ∷ bs) more) ms f g (length (b ∷ bs)) refl
          (λ rest. omega arith) refl refl (receive_all max_size ms g)
          (ih g r (ground (arith, within))))

receive_all-Caps :
    (max_size : ℕ) (ms : List Message) (f : Filter)
    → f.rejected ≡ false
    → f.seen ≤ max_size
    → Caps max_size f ms (receive_all max_size ms f)
unfolding receive_all after
receive_all-Caps max_size [] f r h = record {
  read = omega arith;
  answers = ground arith;
  whole = λ e. refl;
}
receive_all-Caps max_size (m ∷ ms) f r h =
    subst (λ step. Caps max_size f (m ∷ ms) (after max_size ms step))
      (sym (open_step max_size m f r))
      (pass-Caps max_size ms m f r h (λ g. receive_all-Caps max_size ms g))

-- What becomes of an HTTP request: if it declares too much, the 413 and no call of the application;
-- otherwise a call, and the 413 if the bytes that come are more than the limit; at most as many
-- bytes as the limit for an application that stops at a disconnect; and without a 413 all the
-- messages as they came.
pub record IsLimited (int : Text → Option ℕ) (max_size : ℕ) (headers : List (Text × Text))
    (ms : List Message) (out : Bool × List Message × ℕ) : Type 0 where
  pub uncalled : Declares int max_size headers → out ≡ (false, [], 1)
  pub called :
      ¬ Declares int max_size headers
      → (out.0 ≡ true) × (out.2 ≡ (if ltb max_size (total ms) then 1 else 0))
  pub read : total (until_disconnect out.1) ≤ max_size
  pub untouched : out.2 ≡ 0 → out ≡ (true, ms, 0)

module _ (int : Text → Option ℕ) (max_size : ℕ) where
  limited :
      (headers : List (Text × Text)) (ms : List Message) (out : List Message × Filter)
      → Caps max_size fresh ms out
      → (declared : Bool) → declares_too_much int max_size headers ≡ declared
      → IsLimited int max_size headers ms
          (if declared then (false, [], 1) else (true, out.0, out.1.answers_413))
  unfolding fresh
  limited headers ms out c true e = record {
    uncalled = λ d. refl;
    called =
        λ none_declared. absurd (none_declared (declares_too_much-Declares int max_size headers e));
    read = omega arith;
    untouched = λ z. absurd (omega arith);
  }
  limited headers ms out c false e = record {
    uncalled = λ d. absurd (ground (arith, e, Declares-declares_too_much int max_size headers d));
    called = λ none_declared. (refl, c.answers ∙ ground arith);
    read = omega (arith, c.read);
    untouched = λ z.
        let small : total ms ≤ max_size = ground (arith, c.answers, z) in
        rw (c.whole (omega arith), z);
  }

-- An HTTP request whose first content-length is a number above the limit is answered with the 413,
-- once, and the application is not called. For any other one it is called, and the 413 is sent, once,
-- exactly if the bytes that come are more than the limit. An application that stops at a disconnect
-- reads no more bytes than the limit, and if no 413 is sent it gets all the messages as they came.
pub call-IsLimited :
    (int : Text → Option ℕ) (max_size : ℕ) (headers : List (Text × Text)) (ms : List Message)
    → IsLimited int max_size headers ms (call int max_size true headers ms)
unfolding call
call-IsLimited int max_size headers ms =
    limited int max_size headers ms (receive_all max_size ms fresh)
      (receive_all-Caps max_size ms fresh (unfold fresh in refl) (unfold fresh in omega arith))
      (declares_too_much int max_size headers) refl
