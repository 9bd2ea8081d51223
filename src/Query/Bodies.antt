-- ===== src/Query/Bodies.antt =====
-- The bodies of strings in internal/query/tokens.go: the bytes that they take, and what these stand for.
use codeai.Base.{
  ℕ, ◌≢◌, subst, sym, suc, ◌≡◌, refl, ap, ◌⊎◌, inl, inr, true, false, List, [], ◌∷◌, Option, none,
  some, ◌==◌, Bool-cases, Option-cases, arith,
}
use codeai.Query.Readers.{
  Cursor, advance, past_char, Body, read_body, unescape, prepend, read_string, newline,
}
use codeai.Query.Consumed.{
  Takes, Scans, if_elim, Escape, line_feed, tab, carriage_return, itself, Quoted, closing, plain,
  escaped,
}
use codeai.Query.Progress.{eq→≡}

neq→≢ : (a b : ℕ) → (a == b) ≡ false → a ≢ b
neq→≢ a b h same = ground (arith, same)

unfoldable Takes-cons :
    (ch : ℕ) (input : List ℕ) (c c' : Cursor) (rest : List ℕ) (c'' : Cursor)
    → c'.pos ≡ suc c.pos
    → Takes input c' rest c''
    → Takes (ch ∷ input) c rest c''
Takes-cons ch input c c' rest c'' one t = record {
  taken = ch ∷ t.taken;
  split = ap (λ bytes. ch ∷ bytes) t.split;
  moved = omega (arith, one, t.moved);
}

Takes-nothing : (input : List ℕ) (c : Cursor) → Takes input c input c
Takes-nothing input c = record { taken = []; split = refl; moved = omega arith }

past_char-pos : (ch : ℕ) (c : Cursor) → (past_char ch c).pos ≡ suc c.pos
past_char-pos ch c =
    if_elim (λ (d : Cursor). d.pos ≡ suc c.pos) (ch == newline) (λ t. refl) (λ t. refl)

-- The body of a string, up to the closing quote if there is one.
abbrev OnBody : ℕ → Option (List ℕ) → List ℕ → Type 0
OnBody quote none taken = Unit
OnBody quote (some value) taken = Quoted quote taken value

record ReadsBody (quote : ℕ) (input : List ℕ) (c : Cursor) (b : Body) : Type 0 where
  takes : Takes input c b.rest b.cursor
  stands : OnBody quote b.value takes.taken

unescape-Escape : (next : ℕ) → Escape next (unescape next)
unescape-Escape next =
    if_elim (Escape next) (next == b'n')
      (λ e. subst (λ n. Escape n 10) (sym (eq→≡ next b'n' e)) line_feed)
      (λ not_n.
        if_elim (Escape next) (next == b't')
          (λ e. subst (λ n. Escape n 9) (sym (eq→≡ next b't' e)) tab)
          (λ not_t.
            if_elim (Escape next) (next == b'r')
              (λ e. subst (λ n. Escape n 13) (sym (eq→≡ next b'r' e)) carriage_return)
              (λ not_r.
                itself (neq→≢ next b'n' not_n) (neq→≢ next b't' not_t) (neq→≢ next b'r' not_r))))

OnBody-prepend :
    (quote ch : ℕ) (value : Option (List ℕ)) (bytes taken : List ℕ)
    → ((text : List ℕ) → Quoted quote bytes text → Quoted quote taken (ch ∷ text))
    → OnBody quote value bytes
    → OnBody quote (elim value [ none ↦ none | some text ↦ some (ch ∷ text) ]) taken
OnBody-prepend quote ch none bytes taken f h = tt
OnBody-prepend quote ch (some text) bytes taken f h = f text h

ReadsBody-close :
    (quote ch : ℕ) (rest : List ℕ) (c : Cursor)
    → (ch == quote) ≡ true
    → ReadsBody quote (ch ∷ rest) c (record { value = some []; rest = rest; cursor = advance c })
unfolding Takes-cons Takes-nothing
ReadsBody-close quote ch rest c e = record {
  takes = Takes-cons ch rest c (advance c) rest (advance c) refl (Takes-nothing rest (advance c));
  stands = subst (λ q. Quoted quote (q ∷ []) []) (sym (eq→≡ ch quote e)) closing;
}

ReadsBody-plain :
    (quote ch : ℕ) (input : List ℕ) (c : Cursor) (b : Body)
    → (ch == quote) ≡ false
    → (ch == b'\\') ≡ false
    → ReadsBody quote input (past_char ch c) b
    → ReadsBody quote (ch ∷ input) c (prepend ch b)
unfolding Takes-cons
ReadsBody-plain quote ch input c b other not_escape r = record {
  takes = Takes-cons ch input c (past_char ch c) b.rest b.cursor (past_char-pos ch c) r.takes;
  stands =
      OnBody-prepend quote ch b.value r.takes.taken (ch ∷ r.takes.taken)
        (λ text q. plain (neq→≢ ch quote other) (neq→≢ ch b'\\' not_escape) q) r.stands;
}

ReadsBody-escaped :
    (quote ch next : ℕ) (input : List ℕ) (c : Cursor) (b : Body)
    → (ch == b'\\') ≡ true
    → ReadsBody quote input (advance (advance c)) b
    → ReadsBody quote (ch ∷ next ∷ input) c (prepend (unescape next) b)
unfolding Takes-cons
ReadsBody-escaped quote ch next input c b e r = record {
  takes =
      Takes-cons ch (next ∷ input) c (advance c) b.rest b.cursor refl
        (Takes-cons next input (advance c) (advance (advance c)) b.rest b.cursor refl r.takes);
  stands =
      OnBody-prepend quote (unescape next) b.value r.takes.taken (ch ∷ next ∷ r.takes.taken)
        (λ text q.
          subst (λ s. Quoted quote (s ∷ next ∷ r.takes.taken) (unescape next ∷ text))
            (sym (eq→≡ ch b'\\' e)) (escaped (unescape-Escape next) q))
        r.stands;
}

read_body-ReadsBody :
    (quote : ℕ) (input : List ℕ) (c : Cursor) → ReadsBody quote input c (read_body quote input c)
unfolding read_body
read_body-ReadsBody quote [] c = record { takes = Takes-nothing [] c; stands = tt }
read_body-ReadsBody quote (ch ∷ []) c =
    if_elim (ReadsBody quote (ch ∷ []) c) (ch == quote) (ReadsBody-close quote ch [] c) (λ t.
      record {
        takes =
            Takes-cons ch [] c (past_char ch c) [] (past_char ch c) (past_char-pos ch c)
              (Takes-nothing [] (past_char ch c));
        stands = tt;
      })
read_body-ReadsBody quote (ch ∷ next ∷ rest) c =
    if_elim (ReadsBody quote (ch ∷ next ∷ rest) c) (ch == quote)
      (ReadsBody-close quote ch (next ∷ rest) c)
      (λ t. elim (Bool-cases (ch == b'\\')) [
        | inl e ↦ rw e (
            ReadsBody-escaped quote ch next rest c (read_body quote rest (advance (advance c))) e
              (read_body-ReadsBody quote rest (advance (advance c))))
        | inr e ↦ rw e (
            ReadsBody-plain quote ch (next ∷ rest) c
              (read_body quote (next ∷ rest) (past_char ch c)) t e
              (read_body-ReadsBody quote (next ∷ rest) (past_char ch c)))
      ])

pub read_string-Scans :
    (quote : ℕ) (rest : List ℕ) (c : Cursor)
    → (quote ≡ b'"') ⊎ (quote ≡ b'\'')
    → Scans (quote ∷ rest) c (read_string quote rest c)
unfolding read_string Takes-cons
read_string-Scans quote rest c q =
    let body = read_body quote rest (advance c) in
    let reads = read_body-ReadsBody quote rest (advance c) in
    let t = Takes-cons quote rest c (advance c) body.rest body.cursor refl reads.takes in
    elim (Option-cases body.value) [
      | inl e ↦
          rw (e, read_string)
            (record { takes = t; progress = omega arith; placed = refl; spelled = tt })
      | inr (value, e) ↦
          let stands : Quoted quote reads.takes.taken value =
            subst (λ v. OnBody quote v reads.takes.taken) e reads.stands in
          rw (e, read_string)
            (record {
              takes = t;
              progress = omega arith;
              placed = refl;
              spelled = (quote, reads.takes.taken, refl, stands, q);
            })
    ]
