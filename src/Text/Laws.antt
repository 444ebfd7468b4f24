-- ===== src/Text/Laws.antt =====
-- Laws of the text methods, for texts all of whose characters pass a test.
use Prim.Native.String.{[], ◌∷◌}
use cats.Prelude.{
  ℕ, Char, code, String, ◌≡◌, refl, ap, sym, ◌∙◌, Bool, true, false, not, arith, eqb, some,
  Bool-cases, inl, inr,
}
use cats.Text.{
  is_space, lstrip_by, cons_unless, rstrip_by, strip, lower_char, lower, ◌<>◌, all_chars, is_empty,
  drop_prefix, contains, has_char, take_until, drop_until,
}

-- Every character that passes `p` fails `q`.
abbrev pub Excludes : (p q : Char → Bool) → Type 0
Excludes p q = (c : Char) → p c ≡ true → q c ≡ false

module _ (p : Char → Bool) where
  pub all_chars-head : (c : Char) (s : String) → all_chars p (c ∷ s) ≡ true → p c ≡ true
  unfolding all_chars
  all_chars-head c s h = ground arith

  pub all_chars-tail : (c : Char) (s : String) → all_chars p (c ∷ s) ≡ true → all_chars p s ≡ true
  unfolding all_chars
  all_chars-tail c s h = ground arith

  pub all_chars-append :
      (s t : String) → all_chars p s ≡ true → all_chars p t ≡ true → all_chars p (s <> t) ≡ true
  unfolding all_chars ◌<>◌
  all_chars-append [] t hs ht = ht
  all_chars-append (c ∷ s) t hs ht = ground (arith, all_chars-append s t)

  pub lstrip_by_self :
      (q : Char → Bool) → Excludes p q → (s : String) → all_chars p s ≡ true → lstrip_by q s ≡ s
  unfolding lstrip_by all_chars
  lstrip_by_self q e [] h = refl
  lstrip_by_self q e (c ∷ s) h = ground (arith, e c)

  pub rstrip_by_self :
      (q : Char → Bool) → Excludes p q → (s : String) → all_chars p s ≡ true → rstrip_by q s ≡ s
  unfolding rstrip_by all_chars cons_unless
  rstrip_by_self q e [] h = refl
  rstrip_by_self q e (c ∷ []) h = ground (arith, e c)
  rstrip_by_self q e (c ∷ d ∷ s) h =
      rw (rstrip_by_self q e (d ∷ s) (all_chars-tail c (d ∷ s) h)) refl

  pub strip_self : Excludes p is_space → (s : String) → all_chars p s ≡ true → strip s ≡ s
  unfolding strip
  strip_self e s h =
      ap (rstrip_by is_space) (lstrip_by_self is_space e s h) ∙ rstrip_by_self is_space e s h

  pub lower_self :
      ((c : Char) → p c ≡ true → lower_char c ≡ c)
      → (s : String) → all_chars p s ≡ true
      → lower s ≡ s
  unfolding lower all_chars
  lower_self e [] h = refl
  lower_self e (c ∷ s) h = ground (arith, e c, lower_self e s)

  -- no character of the text is the first of the text looked for
  pub contains-eq-false :
      (d : Char) (t : String)
      → ((c : Char) → p c ≡ true → eqb (code c) (code d) ≡ false)
      → (s : String) → all_chars p s ≡ true
      → contains s (d ∷ t) ≡ false
  unfolding contains all_chars
  contains-eq-false d t e [] h = refl
  contains-eq-false d t e (c ∷ s) h = ground (arith, e c, contains-eq-false d t e s)

  pub has_char-eq-false :
      (n : ℕ)
      → ((c : Char) → p c ≡ true → eqb (code c) n ≡ false)
      → (s : String) → all_chars p s ≡ true
      → has_char n s ≡ false
  unfolding has_char all_chars
  has_char-eq-false n e [] h = refl
  has_char-eq-false n e (c ∷ s) h = ground (arith, e c, has_char-eq-false n e s)

pub all_chars-map :
    (p q : Char → Bool)
    → ((c : Char) → p c ≡ true → q c ≡ true)
    → (s : String) → all_chars p s ≡ true
    → all_chars q s ≡ true
unfolding all_chars
all_chars-map p q e [] h = refl
all_chars-map p q e (c ∷ s) h = ground (arith, e c, all_chars-map p q e s)

-- A character that is not stripped stands in front of the stripped rest.
pub rstrip_by-cons :
    (p : Char → Bool) (c : Char) (s : String)
    → p c ≡ false
    → rstrip_by p (c ∷ s) ≡ c ∷ rstrip_by p s
unfolding rstrip_by
rstrip_by-cons p c s h = go (rstrip_by p s)
  where
    go : (t : String) → cons_unless p c t ≡ c ∷ t
    go [] = ground arith
    go (d ∷ t) = refl

pub drop_prefix-append : (s t : String) → drop_prefix (s <> t) s ≡ some t
unfolding drop_prefix ◌<>◌
drop_prefix-append [] [] = refl
drop_prefix-append [] (c ∷ t) = refl
drop_prefix-append (c ∷ s) t = ground (arith, drop_prefix-append s t)

lstrip_by-cons :
    (p : Char → Bool) (c : Char) (s : String) → p c ≡ false → lstrip_by p (c ∷ s) ≡ c ∷ s
unfolding lstrip_by
lstrip_by-cons p c s h = rw h refl

cons_unless_idem :
    (p : Char → Bool) (c : Char) (t : String)
    → rstrip_by p t ≡ t
    → rstrip_by p (cons_unless p c t) ≡ cons_unless p c t
unfolding rstrip_by
cons_unless_idem p c [] h = elim (Bool-cases (p c)) [
  | inl gone ↦ rw gone refl
  | inr kept ↦ rw (kept, kept) refl
]
cons_unless_idem p c (d ∷ t) h = rw h refl

rstrip_by_idem : (p : Char → Bool) (s : String) → rstrip_by p (rstrip_by p s) ≡ rstrip_by p s
unfolding rstrip_by
rstrip_by_idem p [] = refl
rstrip_by_idem p (c ∷ s) = cons_unless_idem p c (rstrip_by p s) (rstrip_by_idem p s)

rstrip_by-nil : (p : Char → Bool) → rstrip_by p [] ≡ []
unfolding rstrip_by
rstrip_by-nil p = refl

strip_by_idem :
    (p : Char → Bool) (s : String)
    → rstrip_by p (lstrip_by p (rstrip_by p (lstrip_by p s))) ≡ rstrip_by p (lstrip_by p s)
unfolding lstrip_by
strip_by_idem p [] = rw (rstrip_by-nil p) (rstrip_by-nil p)
strip_by_idem p (c ∷ s) = elim (Bool-cases (p c)) [
  | inl gone ↦ rw gone (strip_by_idem p s)
  | inr kept ↦
      rw
        (
          kept,
          rstrip_by-cons p c s kept,
          lstrip_by-cons p c (rstrip_by p s) kept,
          ← rstrip_by-cons p c s kept,
        )
        (rstrip_by_idem p (c ∷ s))
]

-- Stripping a second time changes nothing.
pub strip_idem : (s : String) → strip (strip s) ≡ strip s
unfolding strip
strip_idem s = strip_by_idem is_space s

strip-rstrip : (s : String) → strip s ≡ s → rstrip_by is_space s ≡ s
unfolding strip
strip-rstrip s h =
    ap (rstrip_by is_space) (sym h) ∙ rstrip_by_idem is_space (lstrip_by is_space s) ∙ h

cons_unless-full :
    (p : Char → Bool) (c : Char) (s : String) → is_empty s ≡ false → cons_unless p c s ≡ c ∷ s
unfolding is_empty cons_unless
cons_unless-full p c [] h = cc
cons_unless-full p c (d ∷ s) h = refl

pub is_empty-append : (s t : String) → is_empty t ≡ false → is_empty (s <> t) ≡ false
unfolding is_empty ◌<>◌
is_empty-append [] t h = h
is_empty-append (c ∷ s) t h = refl

rstrip_by-append :
    (p : Char → Bool) (s t : String)
    → rstrip_by p t ≡ t
    → is_empty t ≡ false
    → rstrip_by p (s <> t) ≡ s <> t
unfolding ◌<>◌ rstrip_by
rstrip_by-append p [] t e h = e
rstrip_by-append p (c ∷ s) t e h =
    rw (rstrip_by-append p s t e h) (cons_unless-full p c (s <> t) (is_empty-append s t h))

-- A text that starts with a visible character and ends with a stripped text is stripped.
pub strip-append :
    (c : Char) (s t : String)
    → is_space c ≡ false
    → strip t ≡ t
    → is_empty t ≡ false
    → strip (c ∷ s <> t) ≡ c ∷ s <> t
unfolding strip ◌<>◌
strip-append c s t h e full =
    rw (lstrip_by-cons is_space c (s <> t) h)
      (rstrip_by-append is_space (c ∷ s) t (strip-rstrip t e) full)

pub take_until-append :
    (p : Char → Bool) (b : String) (c : Char) (t : String)
    → all_chars (λ x. not (p x)) b ≡ true
    → p c ≡ true
    → (take_until p (b <> c ∷ t) ≡ b) × (drop_until p (b <> c ∷ t) ≡ c ∷ t)
unfolding take_until drop_until ◌<>◌ all_chars
take_until-append p [] c t h k = ground arith
take_until-append p (d ∷ b) c t h k = ground (arith, take_until-append p b c t)

pub take_until_all :
    (p : Char → Bool) (b : String)
    → all_chars (λ x. not (p x)) b ≡ true
    → (take_until p b ≡ b) × (drop_until p b ≡ [])
unfolding take_until drop_until all_chars
take_until_all p [] h = (refl, refl)
take_until_all p (d ∷ b) h = ground (arith, take_until_all p b)

pub <>_assoc : (s t u : String) → (s <> t) <> u ≡ s <> (t <> u)
unfolding ◌<>◌
<>_assoc [] t u = refl
<>_assoc (c ∷ s) t u = ap (λ r. c ∷ r) (<>_assoc s t u)
