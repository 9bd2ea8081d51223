-- ===== src/Query/Tokenized.antt =====
-- `Tokenize` of internal/query/tokens.go: its tokens and blanks against the input.
use codeai.Base.{
  ℕ, zero, suc, ◌+◌, ◌<◌, ◌≡◌, refl, sym, ap, ◌∙◌, subst, inl, inr, true, false, ◌||◌, List, [],
  ◌∷◌, ◌++◌, Option, none, some, ◌==◌, length, length-append, append-nil, Bool-cases, All, arith,
}
use codeai.Query.Tokens.{TokenType, token_eof, Token}
use codeai.Query.Readers.{Cursor, Scanned, make, past_blank, skip_whitespace, is_blank, newline}
use codeai.Query.Lexer.{
  scan, next_token, LexerError, error_at, is_eof, is_error, prepend_token, after_token,
  tokenize_within, new_cursor, tokenize,
}
use codeai.Query.Consumed.{empty, shape_of, Spells, Scans, if_elim}
use codeai.Query.Scan.{scan-Scans}

abbrev pub IsSpace : ℕ → Type 0
IsSpace ch = is_blank ch || ch == newline ≡ true

-- The blanks in front of the next token.
record Skips (input : List ℕ) (c : Cursor) (out : List ℕ × Cursor) : Type 0 where
  blanks : List ℕ
  spaces : All IsSpace blanks
  split : input ≡ blanks ++ out.0
  moved : out.1.pos ≡ c.pos + length blanks

past_blank-pos : (ch : ℕ) (c : Cursor) → (past_blank ch c).pos ≡ suc c.pos
past_blank-pos ch c =
    if_elim (λ (d : Cursor). d.pos ≡ suc c.pos) (ch == newline) (λ t. refl) (λ t. refl)

skip_whitespace-Skips : (input : List ℕ) (c : Cursor) → Skips input c (skip_whitespace input c)
unfolding skip_whitespace
skip_whitespace-Skips [] c = record { blanks = []; spaces = tt; split = refl; moved = omega arith }
skip_whitespace-Skips (ch ∷ rest) c =
    let more = skip_whitespace-Skips rest (past_blank ch c) in
    if_elim (Skips (ch ∷ rest) c) (is_blank ch || ch == newline)
      (λ t. record {
        blanks = ch ∷ more.blanks;
        spaces = (t, more.spaces);
        split = ap (λ bytes. ch ∷ bytes) more.split;
        moved = omega (arith, more.moved, past_blank-pos ch c);
      })
      (λ t. record { blanks = []; spaces = tt; split = refl; moved = omega arith })

-- The input from position `p` on is laid out as tokens with blanks between them, up to its end, or
-- up to an error.
pub data Laid : List ℕ → ℕ → List Token → Option LexerError → Type 0 where
  at_end :
      (blanks : List ℕ) {p : ℕ} {t : Token}
      → All IsSpace blanks
      → is_eof t.token_type ≡ true
      → t.pos ≡ p + length blanks
      → Laid blanks p (t ∷ []) none
  at_error :
      (blanks rest : List ℕ) {p : ℕ} {t : Token}
      → All IsSpace blanks
      → is_error t.token_type ≡ true
      → t.pos ≡ p + length blanks
      → Laid (blanks ++ rest) p (t ∷ []) (some (error_at t))
  at_token :
      (blanks taken rest : List ℕ) {p : ℕ} {t : Token} {ts : List Token} {err : Option LexerError}
      → All IsSpace blanks
      → is_eof t.token_type || is_error t.token_type ≡ false
      → t.pos ≡ p + length blanks
      → 0 < length taken
      → Spells (shape_of t.token_type) taken t.value
      → Laid rest (t.pos + length taken) ts err
      → Laid (blanks ++ (taken ++ rest)) p (t ∷ ts) err

abbrev pub IsTokenized : List ℕ → ℕ → Option (List Token × Option LexerError) → Type 0
IsTokenized input p none = ⊥
IsTokenized input p (some (ts, err)) = Laid input p ts err

is_eof-empty : (t : TokenType) → is_eof t ≡ true → shape_of t ≡ empty
is_eof-empty token_eof h = refl
is_eof-empty t h = cc h

-- A token taken from the input is not the end of it.
Scans-not_eof :
    (input : List ℕ) (c : Cursor) (s : Scanned)
    → Scans input c s
    → is_eof s.token.token_type ≡ false
Scans-not_eof input c s h = elim (Bool-cases (is_eof s.token.token_type)) [
  | inl e ↦
      let nothing : h.takes.taken ≡ [] =
        subst (λ shape. Spells shape h.takes.taken s.token.value)
          (is_eof-empty s.token.token_type e) h.spelled in
      let more = h.progress in
      let zero_length = ap (λ l. length l) nothing in absurd (omega (arith, more, zero_length))
  | inr e ↦ e
]

module _ (fuel : ℕ)
    (next : (input : List ℕ) (c : Cursor)
      → length input < fuel
      → IsTokenized input c.pos (tokenize_within fuel input c)) where
  tokenize_after :
      (blanks input : List ℕ) (p : ℕ) (c : Cursor) (s : Scanned)
      → All IsSpace blanks
      → c.pos ≡ p + length blanks
      → length input < suc fuel
      → Scans input c s
      → IsTokenized (blanks ++ input) p (after_token s.token (tokenize_within fuel s.rest s.cursor))
  tokenize_after blanks input p c s spaces moved enough h =
      let at : s.token.pos ≡ p + length blanks = h.placed ∙ moved in
      let used = ap (λ l. length l) h.takes.split ∙ length-append h.takes.taken s.rest in
      rw (Scans-not_eof input c s h) (
        if_elim (IsTokenized (blanks ++ input) p) (is_error s.token.token_type)
          (λ e. at_error blanks input spaces e at)
          (λ e.
            go e (tokenize_within fuel s.rest s.cursor)
              (next s.rest s.cursor (omega (arith, used, h.progress, enough)))))
    where
      go :
          is_error s.token.token_type ≡ false
          → (out : Option (List Token × Option LexerError)) → IsTokenized s.rest s.cursor.pos out
          → IsTokenized
              (blanks ++ input)
              p
              (elim out [ none ↦ none | some o ↦ some (prepend_token s.token o) ])
      go e none t = absurd t
      go e (some (ts, err)) t =
          subst (λ i. Laid (blanks ++ i) p (s.token ∷ ts) err) (sym h.takes.split)
            (at_token blanks h.takes.taken s.rest spaces (rw (Scans-not_eof input c s h, e) refl)
              (h.placed ∙ moved) h.progress h.spelled
              (subst (λ q. Laid s.rest q ts err) (omega (arith, h.takes.moved, h.placed)) t))

next_token-end :
    (input : List ℕ) (c c' : Cursor)
    → skip_whitespace input c ≡ ([], c')
    → next_token input c ≡ make token_eof [] c' [] c'
unfolding next_token
next_token-end input c c' e = rw (ap (λ o. o.0) e, ap (λ o. o.1) e, next_token) refl

next_token-scan :
    (input : List ℕ) (c c' : Cursor) (ch : ℕ) (rest : List ℕ)
    → skip_whitespace input c ≡ (ch ∷ rest, c')
    → next_token input c ≡ scan ch rest c'
unfolding next_token
next_token-scan input c c' ch rest e = rw (ap (λ o. o.0) e, ap (λ o. o.1) e, next_token) refl

tokenize_within-IsTokenized :
    (fuel : ℕ) (input : List ℕ) (c : Cursor)
    → length input < fuel
    → IsTokenized input c.pos (tokenize_within fuel input c)
unfolding tokenize_within
tokenize_within-IsTokenized zero input c h = absurd (omega (arith, h))
tokenize_within-IsTokenized (suc fuel) input c h =
    go (skip_whitespace input c) refl (skip_whitespace-Skips input c)
      (tokenize_within-IsTokenized fuel)
  where
    Done : Scanned → Type 0
    Done s = IsTokenized input c.pos (after_token s.token (tokenize_within fuel s.rest s.cursor))

    go :
        (out : List ℕ × Cursor)
        → skip_whitespace input c ≡ out
        → Skips input c out
        → ((input : List ℕ) (c : Cursor)
            → length input < fuel
            → IsTokenized input c.pos (tokenize_within fuel input c))
        → Done (next_token input c)
    go ([], c') e skips next =
        let whole : skips.blanks ≡ input = sym (append-nil skips.blanks) ∙ sym skips.split in
        subst Done (sym (next_token-end input c c' e)) (
          subst (λ i. Laid i c.pos ((make token_eof [] c' [] c').token ∷ []) none) whole
            (at_end skips.blanks skips.spaces refl skips.moved))
    go (ch ∷ rest, c') e skips next =
        let used = ap (λ l. length l) skips.split ∙ length-append skips.blanks (ch ∷ rest) in
        subst Done (sym (next_token-scan input c c' ch rest e)) (
          subst
            (λ i. IsTokenized i c.pos (
              after_token (scan ch rest c').token
                (tokenize_within fuel (scan ch rest c').rest (scan ch rest c').cursor)))
            (sym skips.split)
            (tokenize_after fuel next skips.blanks (ch ∷ rest) c.pos c' (scan ch rest c')
              skips.spaces skips.moved (omega (arith, used, h)) (scan-Scans ch rest c')))

-- Tokenize always ends, and its tokens lay out the input, up to its end or to an error: in the
-- order of the tokens there come blanks, then the bytes of the token, from its position on, which
-- are its value, or @ or $ and then the value, or a quote, a body that stands for the value, by the
-- escapes of a backslash, and in which the quote stands only behind a backslash, and the same
-- quote, and then the next token. Each token but the last takes a byte or more and is neither an
-- end nor an error. The last one is the end of the input, and then there is no error, or it is an
-- error token, and then the error has its line, column and value.
pub tokenize-IsTokenized : (input : List ℕ) → IsTokenized input 0 (tokenize input)
unfolding tokenize
tokenize-IsTokenized input =
    tokenize_within-IsTokenized (suc (length input)) input new_cursor (omega arith)
