-- ===== src/Trace/KeyPattern.antt =====
-- KEY_PATTERN of app/agent/trace.py, `sk-(ant-)?[A-Za-z0-9_\-]{16,}`, searched in a text.
use paper_trading_agent.Base.{
  ℕ, zero, suc, ◌≡◌, refl, ap, subst, ◌∙◌, length, All, Bool-cases, ==_iff, ◌↔◌, inl, inr, Bool,
  true, false, ◌&&◌, ◌||◌, [], ◌∷◌, ◌++◌, leb, ◌==◌, Text, codes, arith,
}

-- [A-Za-z0-9_\-]
abbrev pub is_key_char : ℕ → Bool
is_key_char c =
    leb b'A' c && leb c b'Z'
    || leb b'a' c && leb c b'z'
    || leb b'0' c && leb c b'9'
    || c == b'_'
    || c == b'-'

-- `[...]{n,}` at the front of a text: n such characters stand there.
unfoldable pub starts_with_run : ℕ → Text → Bool
starts_with_run zero s = true
starts_with_run (suc n) [] = false
starts_with_run (suc n) (c ∷ s) = is_key_char c && starts_with_run n s

-- The text after a literal prefix has to pass a test.
unfoldable pub after_prefix : Text → (Text → Bool) → Text → Bool
after_prefix [] p s = p s
after_prefix (k ∷ ks) p [] = false
after_prefix (k ∷ ks) p (c ∷ s) = c == k && after_prefix ks p s

-- The pattern at the front of a text; the optional group is tried, then left out.
abbrev either_run : Text → Bool
either_run s = after_prefix (codes "ant-") (starts_with_run 16) s || starts_with_run 16 s

unfoldable pub key_here : Text → Bool
unfolding after_prefix starts_with_run
key_here = after_prefix (codes "sk-") either_run

-- KEY_PATTERN.search
unfoldable pub looks_like_key : Text → Bool
unfolding key_here
looks_like_key [] = false
looks_like_key (c ∷ s) = key_here (c ∷ s) || looks_like_key s

-- Where a key stands in a text: what is before it, the run of 16 characters after `sk-`, and the rest.
pub record KeyIn (s : Text) : Type 0 where
  pub before : Text
  pub run : Text
  pub after : Text
  pub whole : s ≡ before ++ (codes "sk-" ++ (run ++ after))
  pub run_length : length run ≡ 16
  pub key_chars : All (λ c. is_key_char c ≡ true) run

both_true : (a b : Bool) → (a && b) ≡ true → (a ≡ true) × (b ≡ true)
both_true a b h = (ground arith, ground arith)

starts_with_run-append :
    (run after : Text)
    → All (λ c. is_key_char c ≡ true) run
    → starts_with_run (length run) (run ++ after) ≡ true
unfolding starts_with_run
starts_with_run-append [] after h = refl
starts_with_run-append (c ∷ run) after (h, hs) = rw h (starts_with_run-append run after hs)

starts_with_run-splits :
    (n : ℕ) (s : Text)
    → starts_with_run n s ≡ true
    → (run : Text) × (after : Text) × (s ≡ run ++ after)
      × (length run ≡ n)
      × All (λ c. is_key_char c ≡ true) run
unfolding starts_with_run
starts_with_run-splits zero s h = ([], s, refl, refl, tt)
starts_with_run-splits (suc n) [] h = cc
starts_with_run-splits (suc n) (c ∷ s) h =
    let (ok_char, later) = both_true (is_key_char c) (starts_with_run n s) h in
    let (run, after, e, l, chars) = starts_with_run-splits n s later in
    (c ∷ run, after, ap (λ t. c ∷ t) e, ap suc l, (ok_char, chars))

starts_with_run-fewer :
    (n : ℕ) (s : Text) → starts_with_run (suc n) s ≡ true → starts_with_run n s ≡ true
unfolding starts_with_run
starts_with_run-fewer zero s h = refl
starts_with_run-fewer (suc n) [] h = cc
starts_with_run-fewer (suc n) (c ∷ s) h =
    let (fits, later) = both_true (is_key_char c) (starts_with_run (suc n) s) h in
    rw fits (starts_with_run-fewer n s later)

after_prefix-splits :
    (ks : Text) (p : Text → Bool) (s : Text)
    → after_prefix ks p s ≡ true
    → (t : Text) × (s ≡ ks ++ t) × (p t ≡ true)
unfolding after_prefix
after_prefix-splits [] p s h = (s, refl, h)
after_prefix-splits (k ∷ ks) p [] h = cc
after_prefix-splits (k ∷ ks) p (c ∷ s) h =
    let (same, later) = both_true (c == k) (after_prefix ks p s) h in
    let (t, e, passed) = after_prefix-splits ks p s later in
    (t, cc ((==_iff c k).0 same, e), passed)

after_prefix-append :
    (ks : Text) (p : Text → Bool) (t : Text) → p t ≡ true → after_prefix ks p (ks ++ t) ≡ true
unfolding after_prefix
after_prefix-append [] p t h = h
after_prefix-append (k ∷ ks) p t h = rw ((==_iff k k).1 refl) (after_prefix-append ks p t h)

no_key_in_nothing : ¬ (key_here [] ≡ true)
unfolding key_here
no_key_in_nothing h = cc

run_of_20 : (t : Text) → starts_with_run 16 t ≡ true → starts_with_run 20 (codes "ant-" ++ t) ≡ true
unfolding starts_with_run
run_of_20 t h = h

-- The optional group consists of characters of the run, so that it adds nothing.
after_ant :
    (s : Text)
    → after_prefix (codes "ant-") (starts_with_run 16) s ≡ true
    → starts_with_run 16 s ≡ true
after_ant s h =
    let (t, e, more) = after_prefix-splits (codes "ant-") (starts_with_run 16) s h in
    let longer : starts_with_run 20 (codes "ant-" ++ t) ≡ true = run_of_20 t more in
    rw e (
      starts_with_run-fewer 16 _ (
        starts_with_run-fewer 17 _
          (starts_with_run-fewer 18 _ (starts_with_run-fewer 19 _ longer))))

key_here-splits :
    (s : Text)
    → key_here s ≡ true
    → (t : Text) × (s ≡ codes "sk-" ++ t) × (starts_with_run 16 t ≡ true)
unfolding key_here
key_here-splits s h =
    let (t, e, either) = after_prefix-splits (codes "sk-") either_run s h in
    (
      t,
      e,
      elim (Bool-cases (starts_with_run 16 t)) [
        | inl short ↦ short
        | inr longer ↦ after_ant t (ground arith)
      ],
    )

key_at_front : (s : Text) → key_here s ≡ true → KeyIn s
key_at_front s h =
    let (t, e, long) = key_here-splits s h in
    let (run, after, split, l, chars) = starts_with_run-splits 16 t long in
    record {
      before = [];
      run = run;
      after = after;
      whole = e ∙ ap (λ x. codes "sk-" ++ x) split;
      run_length = l;
      key_chars = chars;
    }

key_later : (c : ℕ) (s : Text) → KeyIn s → KeyIn (c ∷ s)
key_later c s k = record {
  before = c ∷ k.before;
  run = k.run;
  after = k.after;
  whole = ap (λ t. c ∷ t) k.whole;
  run_length = k.run_length;
  key_chars = k.key_chars;
}

key_found : (s : Text) → looks_like_key s ≡ true → KeyIn s
unfolding looks_like_key
key_found [] h = cc
key_found (c ∷ s) h = elim (Bool-cases (key_here (c ∷ s))) [
  | inl e ↦ key_at_front (c ∷ s) e
  | inr e ↦ key_later c s (key_found s (ground arith))
]

key_here-append :
    (run after : Text)
    → length run ≡ 16
    → All (λ c. is_key_char c ≡ true) run
    → key_here (codes "sk-" ++ (run ++ after)) ≡ true
unfolding key_here
key_here-append run after l chars =
    let long : starts_with_run 16 (run ++ after) ≡ true =
      subst (λ n. starts_with_run n (run ++ after) ≡ true) l
        (starts_with_run-append run after chars) in
    after_prefix-append (codes "sk-") either_run (run ++ after) (ground arith)

search_reaches : (before s : Text) → key_here s ≡ true → looks_like_key (before ++ s) ≡ true
unfolding looks_like_key
search_reaches [] [] h = absurd (no_key_in_nothing h)
search_reaches [] (c ∷ s) h = rw h refl
search_reaches (c ∷ before) s h = ground (arith, search_reaches before s h)

-- A text is refused exactly when `sk-` and 16 letters, digits, `_` or `-` after it stand somewhere in it.
pub looks_like_key_iff : (s : Text) → (looks_like_key s ≡ true) ↔ KeyIn s
looks_like_key_iff s = (
  key_found s,
  λ k.
      rw k.whole
        (search_reaches k.before _ (key_here-append k.run k.after k.run_length k.key_chars)),
)
