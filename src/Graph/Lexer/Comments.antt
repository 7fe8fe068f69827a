-- ===== src/Graph/Lexer/Comments.antt =====
-- `strip_comment` of cli/src/framework/graph.rs on lines of quoted words.
use Prim.Native.Char.{Char}
use Prim.Native.String
use text.Mathlib.TextLemmas.{nil-append, cons-append}
use sec_fa.Prelude.{
  String, ◌≡◌, refl, ap, ◌∙◌, true, false, Option, none, some, List, [], ◌∷◌, arith, Bool-cases,
  inl, inr,
}
use sec_fa.Outcome.{ok}
use sec_fa.Graph.Lexer.{
  Scan, outside, is_empty, is_whitespace, strip_scan, strip_step, strip_comment, trim, trim_start,
  trim_end, split_words,
}
use sec_fa.Graph.Lexer.Quoting.{
  quote_char, backslash, is_special, escape_then, quoted_then, render, inside, non_empty,
  split_words-render,
}

abbrev Stripped : Type 0
Stripped = String × Option Char

-- A character in front of what was pushed.
abbrev before : Char → Stripped → Stripped
before c (out, quote) = (String.◌∷◌ c out, quote)

strip_plain : (c : Char) → is_special c ≡ false → strip_step inside c ≡ some inside
unfolding strip_step
strip_plain c h = ground arith

strip_cons :
    (st st' : Scan) (c : Char) (s : String)
    → strip_step st c ≡ some st'
    → strip_scan st (String.◌∷◌ c s) ≡ before c (strip_scan st' s)
unfolding strip_scan
strip_cons st st' c s h = ground arith

abbrev escaping : Scan
escaping = record { quote = some quote_char; escaped = true }

strip_backslash : strip_step inside backslash ≡ some escaping
unfolding strip_step
strip_backslash = refl

strip_escaped : (c : Char) → strip_step escaping c ≡ some inside
unfolding strip_step
strip_escaped c = refl

strip_open : strip_step outside quote_char ≡ some inside
unfolding strip_step
strip_open = refl

strip_close : strip_step inside quote_char ≡ some outside
unfolding strip_step
strip_close = refl

strip_space : strip_step outside " " ≡ some outside
unfolding strip_step
strip_space = refl

-- Behind a quoted word the scan stands outside of quotes, and the word was pushed.
strip-escaped :
    (w rest out : String)
    → strip_scan outside rest ≡ (out, none)
    → strip_scan inside (escape_then w (String.◌∷◌ quote_char rest))
      ≡ (escape_then w (String.◌∷◌ quote_char out), none)
unfolding escape_then
strip-escaped String.[] rest out h =
    strip_cons inside outside quote_char rest strip_close ∙ ap (before quote_char) h
strip-escaped (String.◌∷◌ c w) rest out h =
    let tail = escape_then w (String.◌∷◌ quote_char rest) in
    elim (Bool-cases (is_special c)) [
      | inl special ↦ rw special (
          strip_cons inside escaping backslash (String.◌∷◌ c tail) strip_backslash
          ∙ ap (before backslash) (
              strip_cons escaping inside c tail (strip_escaped c)
              ∙ ap (before c) (strip-escaped w rest out h)))
      | inr plain ↦ rw plain (
          strip_cons inside inside c tail (strip_plain c plain)
          ∙ ap (before c) (strip-escaped w rest out h))
    ]

strip-quoted :
    (w rest out : String)
    → strip_scan outside rest ≡ (out, none)
    → strip_scan outside (quoted_then w rest) ≡ (quoted_then w out, none)
strip-quoted w rest out h =
    strip_cons outside inside quote_char (escape_then w (String.◌∷◌ quote_char rest)) strip_open
    ∙ ap (before quote_char) (strip-escaped w rest out h)

escape_then-append :
    (w r s : String)
    → String.◌++◌ (escape_then w (String.◌∷◌ quote_char r)) s
      ≡ escape_then w (String.◌∷◌ quote_char (String.◌++◌ r s))
unfolding escape_then
escape_then-append String.[] r s = cons-append quote_char r s
escape_then-append (String.◌∷◌ c w) r s =
    let tail = escape_then w (String.◌∷◌ quote_char r) in
    elim (Bool-cases (is_special c)) [
      | inl special ↦ rw special (
          cons-append backslash (String.◌∷◌ c tail) s
          ∙ ap (String.◌∷◌ backslash)
              (cons-append c tail s ∙ ap (String.◌∷◌ c) (escape_then-append w r s)))
      | inr plain ↦ rw plain (cons-append c tail s ∙ ap (String.◌∷◌ c) (escape_then-append w r s))
    ]

quoted_then-append :
    (w r s : String) → String.◌++◌ (quoted_then w r) s ≡ quoted_then w (String.◌++◌ r s)
quoted_then-append w r s =
    cons-append quote_char (escape_then w (String.◌∷◌ quote_char r)) s
    ∙ ap (String.◌∷◌ quote_char) (escape_then-append w r s)

-- A rest of which nothing is pushed, such as a comment.
strip-render :
    (words : List String) (rest : String)
    → strip_scan outside rest ≡ ("", none)
    → strip_scan outside (String.◌++◌ (render words) rest) ≡ (render words, none)
unfolding render
strip-render [] rest h = rw nil-append h
strip-render (w ∷ []) rest h =
    rw (quoted_then-append w "" rest, nil-append) (strip-quoted w rest "" h)
strip-render (w ∷ v ∷ ws) rest h =
    let tail = render (v ∷ ws) in
    ap (strip_scan outside) (
      quoted_then-append w (String.◌∷◌ " " tail) rest
      ∙ ap (quoted_then w) (cons-append " " tail rest))
    ∙ strip-quoted w (String.◌∷◌ " " (String.◌++◌ tail rest)) (String.◌∷◌ " " tail) (
        strip_cons outside outside " " (String.◌++◌ tail rest) strip_space
        ∙ ap (before " ") (strip-render (v ∷ ws) rest h))

trim-cons :
    (c : Char) (s : String)
    → is_empty (trim_end s) ≡ false
    → trim_end (String.◌∷◌ c s) ≡ String.◌∷◌ c (trim_end s)
unfolding trim_end
trim-cons c s h = rw h

trim_quote : (s : String) → trim_end (String.◌∷◌ quote_char s) ≡ String.◌∷◌ quote_char (trim_end s)
unfolding trim_end is_whitespace
trim_quote s = ground arith

is_empty_cons : (s : String) (c : Char) (t : String) → s ≡ String.◌∷◌ c t → is_empty s ≡ false
is_empty_cons s c t h = rw h

escape_then_cons :
    (w r : String)
    → (c : Char) × (t : String) × (escape_then w (String.◌∷◌ quote_char r) ≡ String.◌∷◌ c t)
unfolding escape_then
escape_then_cons String.[] r = (quote_char, r, refl)
escape_then_cons (String.◌∷◌ c w) r =
    let tail = escape_then w (String.◌∷◌ quote_char r) in
    elim (Bool-cases (is_special c)) [
      | inl special ↦ (backslash, String.◌∷◌ c tail, rw special)
      | inr plain ↦ (c, tail, rw plain)
    ]

trim-escaped :
    (w r : String)
    → trim_end (escape_then w (String.◌∷◌ quote_char r))
      ≡ escape_then w (String.◌∷◌ quote_char (trim_end r))
unfolding escape_then
trim-escaped String.[] r = trim_quote r
trim-escaped (String.◌∷◌ c w) r =
    let tail = escape_then w (String.◌∷◌ quote_char r) in
    let (d, t, e) = escape_then_cons w (trim_end r) in
    let full = is_empty_cons (trim_end tail) d t (trim-escaped w r ∙ e) in
    let one = trim-cons c tail full ∙ ap (String.◌∷◌ c) (trim-escaped w r) in
    elim (Bool-cases (is_special c)) [
      | inl special ↦ rw special (
          trim-cons backslash (String.◌∷◌ c tail) (
            is_empty_cons (trim_end (String.◌∷◌ c tail)) c
              (escape_then w (String.◌∷◌ quote_char (trim_end r))) one)
          ∙ ap (String.◌∷◌ backslash) one)
      | inr plain ↦ rw plain one
    ]

trim-quoted : (w r : String) → trim_end (quoted_then w r) ≡ quoted_then w (trim_end r)
trim-quoted w r =
    trim_quote (escape_then w (String.◌∷◌ quote_char r))
    ∙ ap (String.◌∷◌ quote_char) (trim-escaped w r)

render_cons :
    (w : String) (ws : List String) → (t : String) × (render (w ∷ ws) ≡ String.◌∷◌ quote_char t)
unfolding render
render_cons w [] = (escape_then w (String.◌∷◌ quote_char ""), refl)
render_cons w (v ∷ ws) =
    (escape_then w (String.◌∷◌ quote_char (String.◌∷◌ " " (render (v ∷ ws)))), refl)

trim_end-render : (words : List String) → trim_end (render words) ≡ render words
unfolding render
trim_end-render [] = unfold trim_end in refl
trim_end-render (w ∷ []) = trim-quoted w "" ∙ unfold trim_end in refl
trim_end-render (w ∷ v ∷ ws) =
    trim-quoted w (String.◌∷◌ " " (render (v ∷ ws)))
    ∙ ap (quoted_then w) (
        trim-cons " " (render (v ∷ ws)) (
          let (t, e) = render_cons v ws in
          is_empty_cons (trim_end (render (v ∷ ws))) quote_char t (trim_end-render (v ∷ ws) ∙ e))
        ∙ ap (String.◌∷◌ " ") (trim_end-render (v ∷ ws)))

trim-render : (words : List String) → trim (render words) ≡ render words
unfolding trim
trim-render [] = rw trim_end-render (unfold render trim_start in refl)
trim-render (w ∷ ws) =
    let (t, e) = render_cons w ws in
    rw (trim_end-render, e) (unfold trim_start is_whitespace in refl)

strip_hash : (comment : String) → strip_scan outside (String.◌∷◌ "#" comment) ≡ ("", none)
unfolding strip_scan strip_step
strip_hash comment = refl

-- A line of at least one quoted word with a comment behind it loses only the comment, although the
-- words may hold quotes, spaces and number signs; and its words are read back, except the empty
-- ones, which are dropped.
pub read_line :
    (w : String) (ws : List String) (comment : String)
    → (strip_comment (String.◌++◌ (render (w ∷ ws)) (String.◌∷◌ "#" comment))
        ≡ ok (some (render (w ∷ ws))))
      × (split_words (render (w ∷ ws)) ≡ ok (non_empty (w ∷ ws)))
unfolding strip_comment
read_line w ws comment =
    let scanned = strip-render (w ∷ ws) (String.◌∷◌ "#" comment) (strip_hash comment) in
    let (t, e) = render_cons w ws in
    let full = is_empty_cons (render (w ∷ ws)) quote_char t e in
    (rw (scanned, trim-render, full), split_words-render (w ∷ ws))
