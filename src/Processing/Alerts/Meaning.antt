-- ===== src/Processing/Alerts/Meaning.antt =====
-- When a clause of archive/python-legacy/backend/app/processing/alerts.py is met by the snapshots.
use ffllowwgreeks.Prelude.{
  ◌≡◌, ◌↔◌, inl, inr, refl, Bool, true, false, Option, none, some, arith, if◌then◌else◌, if-cases,
  Option-cases, ap, sym, ◌∙◌, Text, codes, same, same_iff,
}
use ffllowwgreeks.Processing.Json.{Number, Json}
use ffllowwgreeks.Processing.Alerts.{
  below, compare_by, crosses_above, crosses_below, crossing, numeric, float, resolve, cross, is_met,
}
use ffllowwgreeks.Processing.Alerts.Numbers.{
  distance, Compares, gt, lt, ge, le, eq, ne, abs_gt, abs_lt, Crosses, upward, downward, below_iff,
  not-below_iff, magnitude_lem, both, either,
}

module _ (int : Text → Option Number) (parse_float : Text → Option Number) (payload : Json)
    (previous : Option Json) where
  -- A clause is met: its value at the path compares with the threshold, or crossed it since the
  -- snapshot before.
  pub data IsMet (path op : Text) (value : Json) : Type 0 where
    compared :
        (a b : Number)
        → float int parse_float (resolve int parse_float payload path) ≡ some a
        → float int parse_float value ≡ some b
        → Compares op a b
        → IsMet path op value
    crossed :
        (before : Json) (p c t : Number)
        → previous ≡ some before
        → float int parse_float (resolve int parse_float before path) ≡ some p
        → float int parse_float (resolve int parse_float payload path) ≡ some c
        → float int parse_float value ≡ some t
        → Crosses op p c t
        → IsMet path op value

  compare_by-IsMet :
      (path op : Text) (value : Json) (test : Number → Number → Bool) (a b : Option Number)
      → float int parse_float (resolve int parse_float payload path) ≡ a
      → float int parse_float value ≡ b
      → ((x y : Number) → test x y ≡ true → Compares op x y)
      → compare_by int parse_float test a b ≡ true
      → IsMet path op value
  compare_by-IsMet path op value test (some a) (some b) ea eb sound h =
      compared a b ea eb (sound a b h)
  compare_by-IsMet path op value test (some a) none ea eb sound h = absurd (ground arith)
  compare_by-IsMet path op value test none b ea eb sound h = absurd (ground arith)

  crossing-IsMet :
      (path op : Text) (value before : Json) (test : Number → Number → Number → Bool)
      (p c t : Option Number)
      → previous ≡ some before
      → float int parse_float (resolve int parse_float before path) ≡ p
      → float int parse_float (resolve int parse_float payload path) ≡ c
      → float int parse_float value ≡ t
      → ((x y z : Number) → test x y z ≡ true → Crosses op x y z)
      → crossing int parse_float test p c t ≡ true
      → IsMet path op value
  crossing-IsMet path op value before test (some p) (some c) (some t) eb ep ec et sound h =
      crossed before p c t eb ep ec et (sound p c t h)
  crossing-IsMet path op value before test (some p) (some c) none eb ep ec et sound h =
      absurd (ground arith)
  crossing-IsMet path op value before test (some p) none t eb ep ec et sound h =
      absurd (ground arith)
  crossing-IsMet path op value before test none c t eb ep ec et sound h = absurd (ground arith)

  cross-IsMet :
      (path op : Text) (value : Json) (test : Number → Number → Number → Bool)
      → ((x y z : Number) → test x y z ≡ true → Crosses op x y z)
      → cross int parse_float payload previous test path value ≡ true
      → IsMet path op value
  unfolding cross
  cross-IsMet path op value test sound h = elim (Option-cases previous) [
    | inl e ↦ absurd (ground (arith, rw e at h))
    | inr (before, e) ↦
        crossing-IsMet path op value before test _ _ _ e refl refl refl sound (rw e at h)
  ]

  module _ (path op : Text) (value : Json) where
    -- What a lookup of the operator leads to: a comparison, or else the crossings.
    Sound : Option (Number → Number → Bool) → Type 0
    Sound o =
        (elim o [
          | some test ↦
              compare_by int parse_float test
                (float int parse_float (resolve int parse_float payload path))
                (float int parse_float value)
          | none ↦
              if same op (codes "cross_above")
              then cross int parse_float payload previous crosses_above path value
              else if same op (codes "cross_below")
              then cross int parse_float payload previous crosses_below path value
              else false
        ])
          ≡ true
        → IsMet path op value

    Sound-some :
        (name : Text) (test : Number → Number → Bool)
        → (op ≡ name → (x y : Number) → test x y ≡ true → Compares op x y)
        → same op name ≡ true
        → Sound (some test)
    unfolding Sound
    Sound-some name test sound e h =
        compare_by-IsMet path op value test _ _ refl refl (sound ((same_iff op name).0 e)) h

    Sound-none : Sound none
    unfolding Sound
    Sound-none =
        if-cases (λ b. b ≡ true → IsMet path op value) (same op (codes "cross_above")) _ _
          (λ e. cross-IsMet path op value crosses_above λ p c t h.
            let parts = both _ _ h in
            upward ((same_iff op _).0 e) ((not-below_iff t p).0 parts.0)
              ((below_iff t c).0 parts.1))
          (λ _.
            if-cases (λ b. b ≡ true → IsMet path op value) (same op (codes "cross_below")) _ _
              (λ e. cross-IsMet path op value crosses_below λ p c t h.
                let parts = both _ _ h in
                downward ((same_iff op _).0 e) ((not-below_iff p t).0 parts.0)
                  ((below_iff c t).0 parts.1))
              (λ _ h. absurd (ground (arith, h))))

    is_met-Sound : Sound (numeric op)
    unfolding numeric
    is_met-Sound =
        if-cases Sound (same op (codes "gt")) _ _
          (Sound-some _ _ λ e x y h. gt e ((below_iff y x).0 h))
          λ _.
            if-cases Sound (same op (codes "lt")) _ _
              (Sound-some _ _ λ e x y h. lt e ((below_iff x y).0 h))
              λ _.
                if-cases Sound (same op (codes "ge")) _ _
                  (Sound-some _ _ λ e x y h. ge e ((not-below_iff x y).0 h))
                  λ _.
                    if-cases Sound (same op (codes "le")) _ _
                      (Sound-some _ _ λ e x y h. le e ((not-below_iff y x).0 h))
                      λ _.
                        if-cases Sound (same op (codes "eq")) _ _
                          (Sound-some _ _ λ e x y h.
                            let parts = both _ _ h in
                            eq e ((not-below_iff y x).0 parts.1) ((not-below_iff x y).0 parts.0))
                          λ _.
                            if-cases Sound (same op (codes "ne")) _ _
                              (Sound-some _ _ λ e x y h. ne e (elim (either _ _ h) [
                                | inl less ↦ inl ((below_iff x y).0 less)
                                | inr more ↦ inr ((below_iff y x).0 more)
                              ]))
                              λ _.
                                if-cases Sound (same op (codes "abs_gt")) _ _
                                  (Sound-some _ _ λ e x y h. abs_gt e (
                                    (below_iff y (distance x)).0
                                      (ap (below y) (sym (magnitude_lem x)) ∙ h)))
                                  λ _.
                                    if-cases Sound (same op (codes "abs_lt")) _ _
                                      (Sound-some _ _ λ e x y h. abs_lt e (
                                        (below_iff (distance x) y).0
                                          (ap (λ z. below z y) (sym (magnitude_lem x)) ∙ h)))
                                      λ _. Sound-none

    pub is_met-IsMet :
        is_met int parse_float payload previous path op value ≡ true → IsMet path op value
    unfolding is_met Sound
    is_met-IsMet = is_met-Sound

    Compares-is_met :
        (a b : Number)
        → float int parse_float (resolve int parse_float payload path) ≡ some a
        → float int parse_float value ≡ some b
        → Compares op a b
        → is_met int parse_float payload previous path op value ≡ true
    unfolding is_met numeric same
    Compares-is_met a b ea eb (gt e h) = rw (e, ea, eb) ((below_iff b a).1 h)
    Compares-is_met a b ea eb (lt e h) = rw (e, ea, eb) ((below_iff a b).1 h)
    Compares-is_met a b ea eb (ge e h) = rw (e, ea, eb) ((not-below_iff a b).1 h)
    Compares-is_met a b ea eb (le e h) = rw (e, ea, eb) ((not-below_iff b a).1 h)
    Compares-is_met a b ea eb (eq e h g) =
        rw (e, ea, eb, (not-below_iff b a).1 h, (not-below_iff a b).1 g) refl
    Compares-is_met a b ea eb (ne e (inl h)) = rw (e, ea, eb, (below_iff a b).1 h) refl
    Compares-is_met a b ea eb (ne e (inr h)) = rw (e, ea, eb, (below_iff b a).1 h) (ground arith)
    Compares-is_met a b ea eb (abs_gt e h) =
        rw (e, ea, eb) (ap (below b) (magnitude_lem a) ∙ (below_iff b (distance a)).1 h)
    Compares-is_met a b ea eb (abs_lt e h) =
        rw (e, ea, eb) (ap (λ z. below z b) (magnitude_lem a) ∙ (below_iff (distance a) b).1 h)

    Crosses-is_met :
        (before : Json) (p c t : Number)
        → previous ≡ some before
        → float int parse_float (resolve int parse_float before path) ≡ some p
        → float int parse_float (resolve int parse_float payload path) ≡ some c
        → float int parse_float value ≡ some t
        → Crosses op p c t
        → is_met int parse_float payload previous path op value ≡ true
    unfolding is_met numeric cross same
    Crosses-is_met before p c t eb ep ec et (upward e h g) =
        rw (e, eb, ep, ec, et, (not-below_iff t p).1 h) ((below_iff t c).1 g)
    Crosses-is_met before p c t eb ep ec et (downward e h g) =
        rw (e, eb, ep, ec, et, (not-below_iff p t).1 h) ((below_iff c t).1 g)

    pub is_met_iff :
        (is_met int parse_float payload previous path op value ≡ true) ↔ IsMet path op value
    is_met_iff = (
      is_met-IsMet,
      elim [
        | compared a b ea eb h ↦ Compares-is_met a b ea eb h
        | crossed before p c t eb ep ec et h ↦ Crosses-is_met before p c t eb ep ec et h
      ],
    )
