-- ===== src/Query/Lexer/Tokens.antt =====
-- The tokenizer of src/query/parser.rs ends on every input.
use lo_ra_db.Prelude.{
  ℕ, zero, suc, ◌≤◌, ◌<◌, ◌≡◌, refl, Bool, true, Option, none, some, List, [], ◌∷◌, inl, inr,
  Result, ok, err, length, arith, unwrap_or, Option-cases, ◌∙◌, sym, ap, suc,
}
use lo_ra_db.Model.Text.{Text}
use lo_ra_db.Query.Lexer.{
  Failure, Token, CharClasses, Kind, blank, star, separator, quote, digit, word, other, span,
  take_string, push, is_word, kind_of, tokenize_from, parse_usize, rejected, panic, tokenize,
}

pub length-span-le : (p : ℕ → Bool) (s : Text) → length (span p s).1 ≤ length s
length-span-le p [] = omega arith
length-span-le p (c ∷ s) = ground (arith, length-span-le p s)

pub length-take_string-le : (q : ℕ) (s : Text) → length (take_string q s).1 ≤ length s
unfolding take_string
length-take_string-le q [] = omega arith
length-take_string-le q (c ∷ s) = ground (arith, length-take_string-le q s)

abbrev pub Outcome : Option (Result Failure (List Token)) → Type 0
Outcome o = (r : Result Failure (List Token)) × (o ≡ some r)

push-Outcome :
    (t : Token) (o : Option (Result Failure (List Token))) → Outcome o → Outcome (push t o)
push-Outcome t none h = cc (h.1)
push-Outcome t (some (ok ts)) h = (ok (t ∷ ts), refl)
push-Outcome t (some (err e)) h = (err e, refl)

pub length-span_first :
    (p : ℕ → Bool) (c : ℕ) (s : Text) → p c ≡ true → length (span p (c ∷ s)).1 ≤ length s
length-span_first p c s h = rw h (length-span-le p s)

module _ (u : CharClasses) where
  pub digit-numeric : (c : ℕ) → kind_of u c ≡ digit → u.is_numeric c ≡ true
  unfolding kind_of
  digit-numeric c h = ground arith

  pub word-is_word : (c : ℕ) → kind_of u c ≡ word → is_word u c ≡ true
  unfolding kind_of is_word
  word-is_word c h = ground arith

  tokenize_from_round :
      (fuel c : ℕ) (s : Text) (k : Kind)
      → kind_of u c ≡ k
      → length s < fuel
      → ((s' : Text) → length s' < fuel → Outcome (tokenize_from u fuel s'))
      → Outcome (tokenize_from u (suc fuel) (c ∷ s))
  unfolding tokenize_from
  tokenize_from_round fuel c s blank e h go = rw (e, tokenize_from) (go s h)
  tokenize_from_round fuel c s star e h go = rw (e, tokenize_from) (push-Outcome _ _ (go s h))
  tokenize_from_round fuel c s separator e h go = rw (e, tokenize_from) (push-Outcome _ _ (go s h))
  tokenize_from_round fuel c s quote e h go =
      rw (e, tokenize_from) (push-Outcome _ _ (go _ (omega (arith, length-take_string-le c s))))
  tokenize_from_round fuel c s digit e h go =
      elim (Option-cases (parse_usize (span u.is_numeric (c ∷ s)).0)) [
        | inl bad ↦ rw (e, tokenize_from, bad) (rejected, refl)
        | inr (n, good) ↦
            rw (e, tokenize_from, good)
              (push-Outcome _ _
                (go _ (omega (arith, length-span_first u.is_numeric c s (digit-numeric c e)))))
      ]
  tokenize_from_round fuel c s word e h go =
      rw (e, tokenize_from)
        (push-Outcome _ _
          (go _ (omega (arith, length-span_first (is_word u) c s (word-is_word c e)))))
  tokenize_from_round fuel c s other e h go = rw (e, tokenize_from) (rejected, refl)

  -- With more fuel than the input has characters the tokenizer ends.
  pub tokenize_from-Outcome :
      (fuel : ℕ) (s : Text) → length s < fuel → Outcome (tokenize_from u fuel s)
  tokenize_from-Outcome zero s h = elim h [ ]
  tokenize_from-Outcome (suc fuel) [] h = unfold tokenize_from in (ok [], refl)
  tokenize_from-Outcome (suc fuel) (c ∷ s) h =
      tokenize_from_round fuel c s (kind_of u c) refl (omega arith)
        (λ s' h'. tokenize_from-Outcome fuel s' h')

  tokenize_from_agree_round :
      (f g c : ℕ) (s : Text) (k : Kind)
      → kind_of u c ≡ k
      → ((s' : Text) → length s' ≤ length s → tokenize_from u f s' ≡ tokenize_from u g s')
      → tokenize_from u (suc f) (c ∷ s) ≡ tokenize_from u (suc g) (c ∷ s)
  unfolding tokenize_from
  tokenize_from_agree_round f g c s blank e go = rw (e, tokenize_from) (go s (omega arith))
  tokenize_from_agree_round f g c s star e go =
      rw (e, tokenize_from) (ap (push Token.asterisk) (go s (omega arith)))
  tokenize_from_agree_round f g c s separator e go =
      rw (e, tokenize_from) (ap (push Token.comma) (go s (omega arith)))
  tokenize_from_agree_round f g c s quote e go =
      rw (e, tokenize_from)
        (ap (push (Token.string (take_string c s).0)) (go _ (length-take_string-le c s)))
  tokenize_from_agree_round f g c s digit e go =
      elim (Option-cases (parse_usize (span u.is_numeric (c ∷ s)).0)) [
        | inl bad ↦ rw (e, tokenize_from, bad) refl
        | inr (n, good) ↦
            rw (e, tokenize_from, good)
              (ap (push (Token.integer n))
                (go _ (length-span_first u.is_numeric c s (digit-numeric c e))))
      ]
  tokenize_from_agree_round f g c s word e go =
      rw (e, tokenize_from)
        (ap (push (Token.identifier (span (is_word u) (c ∷ s)).0))
          (go _ (length-span_first (is_word u) c s (word-is_word c e))))
  tokenize_from_agree_round f g c s other e go = rw (e, tokenize_from) refl

  pub tokenize_from_agree :
      (f g : ℕ) (s : Text) → length s < f → length s < g → tokenize_from u f s ≡ tokenize_from u g s
  tokenize_from_agree zero g s h k = elim h [ ]
  tokenize_from_agree (suc f) zero s h k = elim k [ ]
  tokenize_from_agree (suc f) (suc g) [] h k = unfold tokenize_from in refl
  tokenize_from_agree (suc f) (suc g) (c ∷ s) h k =
      tokenize_from_agree_round f g c s (kind_of u c) refl
        (λ s' l. tokenize_from_agree f g s' (omega (arith, h, l)) (omega (arith, k, l)))

  -- The loop of the tokenizer ends: with more fuel than the input has characters, and so with any
  -- more, it returns, and what it returns is the result of `tokenize`.
  pub tokenize_total :
      (fuel : ℕ) (s : Text) → length s < fuel → tokenize_from u fuel s ≡ some (tokenize u s)
  unfolding tokenize
  tokenize_total fuel s h =
      let (r, e) = tokenize_from-Outcome (suc (length s)) s (omega arith) in
      tokenize_from_agree fuel (suc (length s)) s h (omega arith)
      ∙ e
      ∙ ap (λ o. some (unwrap_or o (err panic))) (sym e)
