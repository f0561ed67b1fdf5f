-- ===== src/Api/Middleware/BodyLimit.antt =====
-- The limit on the bodies of requests, archive/python-legacy/backend/app/main.py. The application is
-- what asks for the messages of a request, one after the other; Python's `int` on a header's bytes
-- is an argument, none where it raises an error or gives a negative number.
use ffllowwgreeks.Prelude.{
  ℕ, ◌+◌, Bool, true, false, not, Option, none, some, List, [], ◌∷◌, length, ltb, if◌then◌else◌,
  Text, codes, same, lower,
}

-- What `receive` gives: a piece of the body, or something else.
pub data Message : Type 0 where
  http_request : (body : List ℕ) (more_body : Bool) → Message
  http_disconnect other_message : Message

-- The variables of a request, with the number of answers 413 that were sent.
pub record Filter : Type 0 where
  pub seen : ℕ
  pub rejected : Bool
  pub answers_413 : ℕ

unfoldable pub fresh : Filter
fresh = record { seen = 0; rejected = false; answers_413 = 0 }

-- A piece that is not empty.
unfoldable pub count_body : ℕ → List ℕ → Bool → Filter → Message × Filter
count_body max_size body more f =
    let seen = f.seen + length body in
    if ltb max_size seen
    then (
      http_disconnect,
      record f { seen = seen; rejected = true; answers_413 = f.answers_413 + 1 },
    )
    else (http_request body more, record f { seen = seen })

-- One message, of a request that was not rejected.
unfoldable pub pass : ℕ → Message → Filter → Message × Filter
unfolding count_body
pass max_size (http_request [] more) f = (http_request [] more, f)
pass max_size (http_request (b ∷ bs) more) f = count_body max_size (b ∷ bs) more f
pass max_size http_disconnect f = (http_disconnect, f)
pass max_size other_message f = (other_message, f)

unfoldable pub receive_capped : ℕ → Message → Filter → Message × Filter
unfolding pass
receive_capped max_size message f = if f.rejected then (message, f) else pass max_size message f

-- The messages that the application gets of those that come, and the variables after them.
unfoldable pub receive_all : ℕ → List Message → Filter → List Message × Filter
unfolding receive_capped
receive_all max_size [] f = ([], f)
receive_all max_size (m ∷ ms) f =
    let got = receive_capped max_size m f in
    let rest = receive_all max_size ms got.1 in (got.0 ∷ rest.0, rest.1)

module _ (int : Text → Option ℕ) where
  -- Whether the first content-length declares too much.
  unfoldable pub declares_too_much : ℕ → List (Text × Text) → Bool
  unfolding same lower
  declares_too_much max_size [] = false
  declares_too_much max_size ((k, v) ∷ headers) =
      let rest = declares_too_much max_size headers in
      if same (lower k) (codes "content-length")
      then elim (int v) [ none ↦ false | some n ↦ ltb max_size n ]
      else rest

  -- A request: whether the application is called, what it gets when it asks for all the messages, and
  -- the number of answers 413.
  unfoldable pub call : ℕ → Bool → List (Text × Text) → List Message → Bool × List Message × ℕ
  unfolding declares_too_much receive_all fresh
  call max_size is_http headers messages =
      let out = receive_all max_size messages fresh in
      if not is_http
      then (true, messages, 0)
      else if declares_too_much max_size headers
      then (false, [], 1)
      else (true, out.0, out.1.answers_413)
