-- ===== src/Query/Compiler/Quoting.antt =====
-- `quoteIdent` of internal/query/compiler.go against the reading of quoted identifiers in SQL.
use codeai.Base.{
  ℕ, zero, suc, ◌<◌, ◌≡◌, refl, ap, sym, ◌∙◌, subst, inl, inr, Bool, false, List, [], ◌∷◌, ◌++◌,
  map, Option, none, some, ◌==◌, if◌then◌else◌, length, append_assoc, Bool-cases, arith,
}
use codeai.Query.Consumed.{if_elim}
use codeai.Query.Parser.Numbers.{any_byte}
use codeai.Query.Compiler.Sql.{Sql, raw, is_blank}
use codeai.Query.Compiler.Names.{double_quotes, quote, extend, split_dots, join_dots, quote_ident}

abbrev pub is_dot : ℕ → Bool
is_dot ch = ch == b'.'

abbrev pub with_byte : ℕ → Option (List ℕ × List ℕ) → Option (List ℕ × List ℕ)
with_byte ch none = none
with_byte ch (some (part, rest)) = some (ch ∷ part, rest)

-- Behind an opening quote: two quotes are one, and one quote ends the identifier.
unfoldable pub read_quoted : List ℕ → Option (List ℕ × List ℕ)
read_quoted [] = none
read_quoted (ch ∷ []) = if ch == b'"' then some ([], []) else none
read_quoted (ch ∷ next ∷ rest) =
    let doubled = with_byte b'"' (read_quoted rest) in
    let plain = with_byte ch (read_quoted (next ∷ rest)) in
    if ch == b'"' then if next == b'"' then doubled else some ([], next ∷ rest) else plain

abbrev pub begins_with : ℕ → List ℕ → Bool
begins_with ch [] = false
begins_with ch (c ∷ rest) = c == ch

read_quoted-end :
    (rest : List ℕ) → begins_with b'"' rest ≡ false → read_quoted (b'"' ∷ rest) ≡ some ([], rest)
unfolding read_quoted
read_quoted-end [] h = refl
read_quoted-end (ch ∷ rest) h = rw h

read_quoted-plain :
    (ch : ℕ) (bytes : List ℕ) {part rest : List ℕ}
    → ch == b'"' ≡ false
    → read_quoted bytes ≡ some (part, rest)
    → read_quoted (ch ∷ bytes) ≡ some (ch ∷ part, rest)
unfolding read_quoted
read_quoted-plain ch [] h e = cc e
read_quoted-plain ch (next ∷ bytes) h e = rw h (rw e)

read_quoted-doubled :
    (ch : ℕ) (bytes : List ℕ) {part rest : List ℕ}
    → ch ≡ b'"'
    → read_quoted bytes ≡ some (part, rest)
    → read_quoted (b'"' ∷ b'"' ∷ bytes) ≡ some (ch ∷ part, rest)
unfolding read_quoted
read_quoted-doubled ch bytes {part} {rest} e ih = rw ih (ap (λ c. some (c ∷ part, rest)) (sym e))

read_quoted-double_quotes :
    (part rest : List ℕ)
    → begins_with b'"' rest ≡ false
    → read_quoted (double_quotes part ++ b'"' ∷ rest) ≡ some (part, rest)
unfolding double_quotes
read_quoted-double_quotes [] rest h = read_quoted-end rest h
read_quoted-double_quotes (ch ∷ part) rest h =
    let ih = read_quoted-double_quotes part rest h in
    if_elim (λ bytes. read_quoted (bytes ++ b'"' ∷ rest) ≡ some (ch ∷ part, rest)) (ch == b'"')
      (λ e. read_quoted-doubled ch (double_quotes part ++ b'"' ∷ rest) (ground arith) ih)
      (λ e. read_quoted-plain ch (double_quotes part ++ b'"' ∷ rest) e ih)

abbrev pub with_part : List ℕ → Option (List (List ℕ) × List ℕ) → Option (List (List ℕ) × List ℕ)
with_part part none = none
with_part part (some (parts, rest)) = some (part ∷ parts, rest)

-- Behind a quoted part, a point leads to another.
abbrev pub after_part :
    (List ℕ → Option (List (List ℕ) × List ℕ))
    → Option (List ℕ × List ℕ)
    → Option (List (List ℕ) × List ℕ)
after_part more none = none
after_part more (some (part, [])) = some (part ∷ [], [])
after_part more (some (part, ch ∷ rest)) =
    if is_dot ch then with_part part (more rest) else some (part ∷ [], ch ∷ rest)

-- A qualified name of at most `n` quoted parts, and what is behind it.
unfoldable pub read_name : ℕ → List ℕ → Option (List (List ℕ) × List ℕ)
read_name zero bytes = none
read_name (suc n) [] = none
read_name (suc n) (ch ∷ bytes) =
    let found = after_part (read_name n) (read_quoted bytes) in if ch == b'"' then found else none

-- What may stand behind a name.
abbrev EndsName : List ℕ → Type 0
EndsName rest = (begins_with b'"' rest ≡ false) × (begins_with b'.' rest ≡ false)

read_name-last :
    (n : ℕ) (part rest : List ℕ)
    → EndsName rest
    → read_name (suc n) (quote part ++ rest) ≡ some (part ∷ [], rest)
unfolding read_name
read_name-last n part rest h =
    ap (λ bytes. after_part (read_name n) (read_quoted bytes))
      (append_assoc (double_quotes part) (b'"' ∷ []) rest)
    ∙ ap (after_part (read_name n)) (read_quoted-double_quotes part rest h.0)
    ∙ ends rest h.1
  where
    ends :
        (rest : List ℕ)
        → begins_with b'.' rest ≡ false
        → after_part (read_name n) (some (part, rest)) ≡ some (part ∷ [], rest)
    ends [] e = refl
    ends (ch ∷ rest) e = rw e

read_name-more :
    (n : ℕ) (part bytes : List ℕ) {parts : List (List ℕ)} {rest : List ℕ}
    → read_name n bytes ≡ some (parts, rest)
    → read_name (suc n) (quote part ++ b'.' ∷ bytes) ≡ some (part ∷ parts, rest)
unfolding read_name
read_name-more n part bytes h =
    ap (λ bytes. after_part (read_name n) (read_quoted bytes))
      (append_assoc (double_quotes part) (b'"' ∷ []) (b'.' ∷ bytes))
    ∙ ap (after_part (read_name n)) (read_quoted-double_quotes part (b'.' ∷ bytes) refl)
    ∙ ap (with_part part) h

read_name-join_dots :
    (n : ℕ) (part : List ℕ) (parts : List (List ℕ)) (rest : List ℕ)
    → length parts < n
    → EndsName rest
    → read_name n (join_dots (map quote (part ∷ parts)) ++ rest) ≡ some (part ∷ parts, rest)
unfolding join_dots
read_name-join_dots zero part parts rest l h = elim l [ ]
read_name-join_dots (suc n) part [] rest l h = read_name-last n part rest h
read_name-join_dots (suc n) part (next ∷ parts) rest l h =
    ap (read_name (suc n))
      (append_assoc (quote part) (b'.' ∷ join_dots (map quote (next ∷ parts))) rest)
    ∙ read_name-more n part (join_dots (map quote (next ∷ parts)) ++ rest)
        (read_name-join_dots n next parts rest (omega (arith, l)) h)

pub split_dots-cons :
    (ident : List ℕ) → (part : List ℕ) × (parts : List (List ℕ)) × (split_dots ident ≡ part ∷ parts)
unfolding split_dots
split_dots-cons [] = ([], [], refl)
split_dots-cons (ch ∷ ident) =
    let (part, parts, e) = split_dots-cons ident in
    if_elim (λ out. (p : List ℕ) × (ps : List (List ℕ)) × (out ≡ p ∷ ps)) (is_dot ch)
      (λ t. ([], split_dots ident, refl)) (λ t. (ch ∷ part, parts, ap (extend ch) e))

split_dots-one : (ident : List ℕ) → any_byte is_dot ident ≡ false → split_dots ident ≡ ident ∷ []
unfolding split_dots
split_dots-one [] h = refl
split_dots-one (ch ∷ ident) h = elim (Bool-cases (is_dot ch)) [
  | inl e ↦ cc (rw e at h)
  | inr e ↦ rw e (ap (extend ch) (split_dots-one ident (rw e at h)))
]

join_dots-extend :
    (ch : ℕ) (part : List ℕ) (parts : List (List ℕ))
    → join_dots (extend ch (part ∷ parts)) ≡ ch ∷ join_dots (part ∷ parts)
unfolding join_dots
join_dots-extend ch part [] = refl
join_dots-extend ch part (next ∷ parts) = refl

join_dots-split_dots : (ident : List ℕ) → join_dots (split_dots ident) ≡ ident
unfolding split_dots join_dots
join_dots-split_dots [] = refl
join_dots-split_dots (ch ∷ ident) =
    let (part, parts, e) = split_dots-cons ident in
    let ih : join_dots (part ∷ parts) ≡ ident = sym (ap join_dots e) ∙ join_dots-split_dots ident in
    if_elim (λ out. join_dots out ≡ ch ∷ ident) (is_dot ch)
      (λ t.
        ap (λ ps. join_dots ([] ∷ ps)) e
        ∙ ap (λ bytes. b'.' ∷ bytes) ih
        ∙ ap (λ c. c ∷ ident) (ground arith))
      (λ t.
        ap (λ ps. join_dots (extend ch ps)) e
        ∙ join_dots-extend ch part parts
        ∙ ap (λ bytes. ch ∷ bytes) ih)

-- A quoted name is the quoted parts, with points between them.
quote_ident-parts : (ident : List ℕ) → quote_ident ident ≡ join_dots (map quote (split_dots ident))
unfolding quote_ident join_dots
quote_ident-parts ident =
    if_elim (λ out. out ≡ join_dots (map quote (split_dots ident))) (any_byte is_dot ident)
      (λ e. refl) (λ e. sym (ap (λ ps. join_dots (map quote ps)) (split_dots-one ident e)))

-- Whatever bytes a name has, SQL reads the quoted name back as the parts between its points, and
-- leaves what stands behind it, if that begins with neither a quote nor a point; and these parts,
-- with points between them, are the name.
pub read_name-quote_ident :
    (ident rest : List ℕ)
    → begins_with b'"' rest ≡ false
    → begins_with b'.' rest ≡ false
    → (read_name (length (split_dots ident)) (quote_ident ident ++ rest)
        ≡ some (split_dots ident, rest))
      × (join_dots (split_dots ident) ≡ ident)
read_name-quote_ident ident rest g h =
    let (part, parts, e) = split_dots-cons ident in
    (
      ap (λ bytes. read_name (length (split_dots ident)) (bytes ++ rest)) (quote_ident-parts ident)
          ∙ subst (λ ps. read_name (length ps) (join_dots (map quote ps) ++ rest) ≡ some (ps, rest))
              (sym e)
              (read_name-join_dots (suc (length parts)) part parts rest (omega arith) (g, h)),
      join_dots-split_dots ident,
    )

-- A quoted name is not empty.
pub is_blank-quote_ident :
    (ident : List ℕ) (sql : Sql) → is_blank (raw (quote_ident ident) ∷ sql) ≡ false
unfolding join_dots
is_blank-quote_ident ident sql =
    let (part, parts, e) = split_dots-cons ident in
    subst (λ bytes. is_blank (raw bytes ∷ sql) ≡ false)
      (sym (quote_ident-parts ident ∙ ap (λ ps. join_dots (map quote ps)) e)) (begun part parts)
  where
    begun :
        (part : List ℕ) (parts : List (List ℕ))
        → is_blank (raw (join_dots (map quote (part ∷ parts))) ∷ sql) ≡ false
    begun part [] = refl
    begun part (next ∷ parts) = refl
