-- ===== src/Graph/Lexer/Quoting.antt =====
-- `split_words` of cli/src/framework/graph.rs on lines of quoted words.
use Prim.Native.Char.{Char, code}
use Prim.Native.String
use Prim.Native.String.append
use text.Mathlib.TextLemmas.{append_assoc, append-nil, nil-append, cons-append}
use sec_fa.Prelude.{
  subst, String, ◌≡◌, refl, ap, ◌∙◌, sym, Bool, false, ◌||◌, none, some, List, [], ◌∷◌, ◌++◌,
  nat_eq, if◌then◌else◌, arith, Bool-cases, inl, inr,
}
use mathlib.Core.List.{append-nil as list-append-nil, append_assoc as list-append_assoc}
use sec_fa.Outcome.{ok}
use sec_fa.Graph.Lexer.{
  Words, Scan, split_step, split_scan, split_words, push, outside, is_empty, is_whitespace,
}

abbrev pub quote_char : Char
quote_char = "\""

abbrev pub backslash : Char
backslash = "\\"

abbrev pub is_special : Char → Bool
is_special c = nat_eq (code c) 34 || nat_eq (code c) 92

-- The text of a word between quotes, in front of a rest: a backslash before each quote and
-- backslash.
unfoldable pub escape_then : String → String → String
escape_then String.[] rest = rest
escape_then (String.◌∷◌ c s) rest =
    if is_special c
    then String.◌∷◌ backslash (String.◌∷◌ c (escape_then s rest))
    else String.◌∷◌ c (escape_then s rest)

-- A word in double quotes, in front of a rest.
abbrev pub quoted_then : String → String → String
quoted_then w rest = String.◌∷◌ quote_char (escape_then w (String.◌∷◌ quote_char rest))

-- Words in double quotes with a space between two.
unfoldable pub render : List String → String
render [] = ""
render (w ∷ []) = quoted_then w ""
render (w ∷ v ∷ ws) = quoted_then w (String.◌∷◌ " " (render (v ∷ ws)))

-- The words that are not empty.
unfoldable pub non_empty : List String → List String
non_empty [] = []
non_empty (w ∷ ws) = if is_empty w then non_empty ws else w ∷ non_empty ws

abbrev pub inside : Scan
inside = record { quote = some quote_char; escaped = false }

step_plain :
    (cur : String) (ws : List String) (c : Char)
    → is_special c ≡ false
    → split_step (record { scan = inside; current = cur; words = ws }) c
      ≡ record { scan = inside; current = push cur c; words = ws }
unfolding split_step
step_plain cur ws c h = ground arith

step_special :
    (cur : String) (ws : List String) (c : Char)
    → split_step (split_step (record { scan = inside; current = cur; words = ws }) backslash) c
      ≡ record { scan = inside; current = push cur c; words = ws }
unfolding split_step
step_special cur ws c = ground arith

push-append :
    (cur : String) (c : Char) (s : String)
    → String.◌++◌ (push cur c) s ≡ String.◌++◌ cur (String.◌∷◌ c s)
push-append cur c s =
    append_assoc cur (String.◌∷◌ c "") s
    ∙ ap (String.◌++◌ cur) (cons-append c "" s ∙ ap (String.◌∷◌ c) (nil-append s))

step_close :
    (cur : String) (ws : List String)
    → split_step (record { scan = inside; current = cur; words = ws }) quote_char
      ≡ record { scan = outside; current = cur; words = ws }
unfolding split_step
step_close cur ws = refl

abbrev at : Scan → String → List String → Words
at scan current words = record { scan = scan; current = current; words = words }

split-escaped :
    (w cur rest : String) (ws : List String)
    → split_scan (at inside cur ws) (escape_then w (String.◌∷◌ quote_char rest))
      ≡ split_scan (at outside (String.◌++◌ cur w) ws) rest
unfolding split_scan escape_then
split-escaped String.[] cur rest ws =
    rw append-nil (ap (λ v. split_scan v rest) (step_close cur ws))
split-escaped (String.◌∷◌ c w) cur rest ws =
    let ends =
      split-escaped w (push cur c) rest ws
      ∙ ap (λ t. split_scan (at outside t ws) rest) (push-append cur c w) in
    let tail = escape_then w (String.◌∷◌ quote_char rest) in
    elim (Bool-cases (is_special c)) [
      | inl special ↦ rw special (ap (λ v. split_scan v tail) (step_special cur ws c) ∙ ends)
      | inr plain ↦ rw plain (ap (λ v. split_scan v tail) (step_plain cur ws c plain) ∙ ends)
    ]

step_open : (ws : List String) → split_step (at outside "" ws) quote_char ≡ at inside "" ws
unfolding split_step
step_open ws = refl

split-quoted :
    (w rest : String) (ws : List String)
    → split_scan (at outside "" ws) (quoted_then w rest) ≡ split_scan (at outside w ws) rest
unfolding split_scan
split-quoted w rest ws =
    ap (λ v. split_scan v (escape_then w (String.◌∷◌ quote_char rest))) (step_open ws)
    ∙ split-escaped w "" rest ws
    ∙ ap (λ t. split_scan (at outside t ws) rest) (nil-append w)

abbrev flush : Words → List String
flush w = if is_empty w.current then w.words else w.words ++ w.current ∷ []

step_space :
    (w : String) (ws : List String)
    → split_step (at outside w ws) " " ≡ at outside "" (flush (at outside w ws))
unfolding split_step is_whitespace
step_space String.[] ws = refl
step_space (String.◌∷◌ c w) ws = refl

flush-non_empty :
    (w : String) (vs ws : List String)
    → flush (at outside w ws) ++ non_empty vs ≡ ws ++ non_empty (w ∷ vs)
unfolding non_empty
flush-non_empty String.[] vs ws = refl
flush-non_empty (String.◌∷◌ c w) vs ws = list-append_assoc ws (String.◌∷◌ c w ∷ []) (non_empty vs)

abbrev Read : Words → List String → Type 0
Read w words = (w.scan.quote ≡ none) × (flush w ≡ words)

split-render :
    (words ws : List String)
    → Read (split_scan (at outside "" ws) (render words)) (ws ++ non_empty words)
unfolding render split_scan non_empty
split-render [] ws = (refl, sym (list-append-nil ws))
split-render (w ∷ []) ws =
    subst (λ v. Read v (ws ++ non_empty (w ∷ []))) (sym (split-quoted w "" ws))
      (refl, sym (list-append-nil (flush (at outside w ws))) ∙ flush-non_empty w [] ws)
split-render (w ∷ v ∷ rest) ws =
    let tail = render (v ∷ rest) in
    let ws' = flush (at outside w ws) in
    let whole =
      split-quoted w (String.◌∷◌ " " tail) ws ∙ ap (λ u. split_scan u tail) (step_space w ws) in
    let (q, f) = split-render (v ∷ rest) ws' in
    subst (λ u. Read u (ws ++ non_empty (w ∷ v ∷ rest))) (sym whole)
      (q, f ∙ flush-non_empty w (v ∷ rest) ws)

-- `split_words` reads quoted words back: the words between double quotes, with a backslash before
-- each quote and backslash in them and a space between two of them, are returned as they were,
-- whatever characters they hold, but empty words are dropped.
pub split_words-render : (words : List String) → split_words (render words) ≡ ok (non_empty words)
unfolding split_words
split_words-render words = let (q, f) = split-render words [] in ground arith
