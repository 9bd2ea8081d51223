-- ===== src/Query/Scan.antt =====
-- Each token of internal/query/tokens.go against the bytes that it takes.
use codeai.Base.{
  ℕ, ◌≡◌, refl, sym, ap, subst, ◌⊎◌, inl, inr, true, ◌&&◌, ◌||◌, List, [], ◌∷◌, Option, none, some,
  ◌==◌, all, arith,
}
use codeai.Query.Tokens.{
  TokenType, token_error, token_number, token_not_equals, token_less, token_less_eq, token_greater,
  token_greater_eq, is_digit, is_ident_start, is_ident_char,
}
use codeai.Query.Readers.{
  Cursor, advance, Scanned, make, read_while, number_of, read_number, read_identifier, read_param,
}
use codeai.Query.Lexer.{
  single_bytes, find_byte, read_bang, read_greater, read_less, starts_with_digit, scan,
}
use codeai.Query.Consumed.{
  whole, shape_of, Spells, Scans, if_elim, read_while-Reads, number_of-Reads,
}
use codeai.Query.Bodies.{read_string-Scans}
use codeai.Query.Progress.{
  Scans-piece, is_whole, is_whole→eq, and_split, identifier_type-whole, or_split, eq→≡,
  is_ident_start→char, read_while-progress, number_of-progress,
}

-- A token of one byte, and one of two.
Scans-single :
    (t : TokenType) (value : List ℕ) (ch : ℕ) (rest : List ℕ) (c : Cursor)
    → Spells (shape_of t) (ch ∷ []) value
    → Scans (ch ∷ rest) c (make t value c rest (advance c))
Scans-single t value ch rest c spelled = record {
  takes = record { taken = ch ∷ []; split = refl; moved = omega arith };
  progress = omega arith;
  placed = refl;
  spelled = spelled;
}

Scans-pair :
    (t : TokenType) (value : List ℕ) (a b ch : ℕ) (rest : List ℕ) (c : Cursor)
    → (ch == b) ≡ true
    → Spells (shape_of t) (a ∷ b ∷ []) value
    → Scans (a ∷ ch ∷ rest) c (make t value c rest (advance (advance c)))
Scans-pair t value a b ch rest c e spelled = record {
  takes = record { taken = a ∷ ch ∷ []; split = refl; moved = omega arith };
  progress = omega arith;
  placed = refl;
  spelled = rw (eq→≡ ch b e) spelled;
}

abbrev IsWhole : Option TokenType → Type 0
IsWhole none = Unit
IsWhole (some t) = shape_of t ≡ whole

find_byte-IsWhole :
    (ch : ℕ) (table : List (ℕ × TokenType))
    → all (λ (row : ℕ × TokenType). is_whole (shape_of row.1)) table ≡ true
    → IsWhole (find_byte ch table)
find_byte-IsWhole ch [] h = tt
find_byte-IsWhole ch ((b, t) ∷ rest) h =
    let (here, later) = and_split (is_whole (shape_of t)) _ h in
    if_elim IsWhole (ch == b) (λ e. is_whole→eq (shape_of t) here)
      (λ e. find_byte-IsWhole ch rest later)

single_bytes-IsWhole : (ch : ℕ) → IsWhole (find_byte ch single_bytes)
unfolding is_whole
single_bytes-IsWhole ch = find_byte-IsWhole ch single_bytes refl

read_bang-Scans : (rest : List ℕ) (c : Cursor) → Scans (b'!' ∷ rest) c (read_bang rest c)
unfolding read_bang
read_bang-Scans [] c = Scans-single token_error _ b'!' [] c tt
read_bang-Scans (ch ∷ rest) c =
    if_elim (Scans (b'!' ∷ ch ∷ rest) c) (ch == b'=')
      (λ e. Scans-pair token_not_equals _ b'!' b'=' ch rest c e refl)
      (λ e. Scans-single token_error _ b'!' (ch ∷ rest) c tt)

read_greater-Scans : (rest : List ℕ) (c : Cursor) → Scans (b'>' ∷ rest) c (read_greater rest c)
unfolding read_greater
read_greater-Scans [] c = Scans-single token_greater _ b'>' [] c refl
read_greater-Scans (ch ∷ rest) c =
    if_elim (Scans (b'>' ∷ ch ∷ rest) c) (ch == b'=')
      (λ e. Scans-pair token_greater_eq _ b'>' b'=' ch rest c e refl)
      (λ e. Scans-single token_greater _ b'>' (ch ∷ rest) c refl)

read_less-Scans : (rest : List ℕ) (c : Cursor) → Scans (b'<' ∷ rest) c (read_less rest c)
unfolding read_less
read_less-Scans [] c = Scans-single token_less _ b'<' [] c refl
read_less-Scans (ch ∷ rest) c =
    if_elim (Scans (b'<' ∷ ch ∷ rest) c) (ch == b'=')
      (λ e. Scans-pair token_less_eq _ b'<' b'=' ch rest c e refl)
      (λ e.
        if_elim (Scans (b'<' ∷ ch ∷ rest) c) (ch == b'>')
          (λ f. Scans-pair token_not_equals _ b'<' b'>' ch rest c f refl)
          (λ f. Scans-single token_less _ b'<' (ch ∷ rest) c refl))

read_param-Scans :
    (sigil : ℕ) (rest : List ℕ) (c : Cursor)
    → (sigil ≡ b'@') ⊎ (sigil ≡ b'$')
    → Scans (sigil ∷ rest) c (read_param rest c)
unfolding read_param
read_param-Scans sigil [] c h = Scans-single token_error _ sigil [] c tt
read_param-Scans sigil (ch ∷ rest) c h =
    let name = read_while is_ident_char (ch ∷ rest) (advance c) in
    let reads = read_while-Reads is_ident_char (ch ∷ rest) (advance c) in
    if_elim (Scans (sigil ∷ ch ∷ rest) c) (is_ident_start ch)
      (λ e. record {
        takes = record {
          taken = sigil ∷ name.value;
          split = ap (λ bytes. sigil ∷ bytes) reads.split;
          moved = omega (arith, reads.moved);
        };
        progress = omega arith;
        placed = refl;
        spelled = (sigil, refl, h);
      })
      (λ e. Scans-single token_error _ sigil (ch ∷ rest) c tt)

either : (ch a b : ℕ) → (ch == a) || (ch == b) ≡ true → (ch ≡ a) ⊎ (ch ≡ b)
either ch a b h = elim (or_split (ch == a) (ch == b) h) [
  | inl e ↦ inl (eq→≡ ch a e)
  | inr e ↦ inr (eq→≡ ch b e)
]

-- Under a first byte that was tested.
Scans-at :
    (ch a : ℕ) (rest : List ℕ) (c : Cursor) (s : Scanned)
    → (ch == a) ≡ true
    → Scans (a ∷ rest) c s
    → Scans (ch ∷ rest) c s
Scans-at ch a rest c s e h = subst (λ x. Scans (x ∷ rest) c s) (sym (eq→≡ ch a e)) h

pub scan-Scans : (ch : ℕ) (rest : List ℕ) (c : Cursor) → Scans (ch ∷ rest) c (scan ch rest c)
unfolding scan read_number read_identifier
scan-Scans ch rest c = go (find_byte ch single_bytes) refl (single_bytes-IsWhole ch)
  where
    S : Scanned → Type 0
    S = Scans (ch ∷ rest) c

    go : (o : Option TokenType) → find_byte ch single_bytes ≡ o → IsWhole o → S (scan ch rest c)
    go (some t) e w = rw (e, scan) (Scans-single t (ch ∷ []) ch rest c (rw w refl))
    go none e w =
        rw (e, scan)
          (if_elim S (ch == b'!')
            (λ h. Scans-at ch b'!' rest c (read_bang rest c) h (read_bang-Scans rest c))
            (λ _.
              if_elim S (ch == b'>')
                (λ h. Scans-at ch b'>' rest c (read_greater rest c) h (read_greater-Scans rest c))
                (λ _.
                  if_elim S (ch == b'<')
                    (λ h. Scans-at ch b'<' rest c (read_less rest c) h (read_less-Scans rest c))
                    (λ _.
                      if_elim S (ch == b'"' || ch == b'\'')
                        (λ h. read_string-Scans ch rest c (either ch b'"' b'\'' h))
                        (λ _.
                          if_elim S (ch == b'@' || ch == b'$')
                            (λ h. read_param-Scans ch rest c (either ch b'@' b'$' h))
                            (λ _.
                              if_elim S (is_digit ch || (ch == b'-' && starts_with_digit rest))
                                (λ h.
                                  Scans-piece token_number (ch ∷ rest) c (number_of (ch ∷ rest) c)
                                    refl (number_of-Reads (ch ∷ rest) c)
                                    (number_of-progress ch rest c h))
                                (λ _.
                                  if_elim S (is_ident_start ch)
                                    (λ h.
                                      Scans-piece _ (ch ∷ rest) c
                                        (read_while is_ident_char (ch ∷ rest) c)
                                        (identifier_type-whole _)
                                        (read_while-Reads is_ident_char (ch ∷ rest) c)
                                        (read_while-progress is_ident_char ch rest c
                                          (is_ident_start→char ch h)))
                                    (λ _. Scans-single token_error _ ch rest c tt))))))))
