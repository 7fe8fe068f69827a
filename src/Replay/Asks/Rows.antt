-- ===== src/Replay/Asks/Rows.antt =====
-- The newest row of a query of cli/src/framework/replay.rs.
use sec_fa.Prelude.{
  String, ◌≡◌, ◌↔◌, refl, subst, ap, inl, inr, true, false, Option, none, some, List, [], ◌∷◌, ◌++◌,
  All, arith, eq_iff, Bool-cases,
}
use sec_fa.Prelude.Text.{str_ltb, str_ltb_irrefl, str_ltb_trans, str_ltb_total}
use sec_fa.Executor.Run.{NodeRow}
use sec_fa.Replay.Queries.{column_ltb, newer, newest_row}
use sec_fa.Replay.Asks.{of_node, Newest}

-- The order of columns is a strict weak order.
column_asym : (a b : Option String) → column_ltb a b ≡ true → column_ltb b a ≡ false
column_asym none none h = absurd (cc)
column_asym none (some b) h = refl
column_asym (some a) none h = absurd (cc)
column_asym (some a) (some b) h =
    ground (arith, str_ltb_trans a b a, str_ltb_irrefl a, Bool-cases (str_ltb b a))

column_irrefl : (a : Option String) → column_ltb a a ≡ false
column_irrefl none = refl
column_irrefl (some a) = str_ltb_irrefl a

column_le_trans :
    (a b c : Option String)
    → column_ltb a b ≡ false
    → column_ltb b c ≡ false
    → column_ltb a c ≡ false
column_le_trans none none c h k = k
column_le_trans none (some b) c h k = absurd (cc)
column_le_trans (some a) b none h k = refl
column_le_trans (some a) none (some c) h k = absurd (cc)
column_le_trans (some a) (some b) (some c) h k = ground (
  arith,
  str_ltb_total a b,
  str_ltb_total b c,
  eq_iff a b,
  eq_iff b c,
  str_ltb_trans c b a,
  str_ltb_trans a c b,
  str_ltb_irrefl a,
  Bool-cases (str_ltb a c),
)

module _ (key : NodeRow → Option String) (run node_id : String) where
  abbrev IsNone : List NodeRow → Type 0
  IsNone rows = All (λ r. of_node run node_id r ≡ false) rows

  nothing_newer :
      (row : NodeRow) (rows : List NodeRow)
      → IsNone rows
      → All (λ r. of_node run node_id r ≡ true → column_ltb (key row) (key r) ≡ false) rows
  nothing_newer row [] h = tt
  nothing_newer row (r ∷ rows) h = ((λ e. absurd (let f = h.0 in cc)), nothing_newer row rows h.1)

  -- What the query gives, by the rows.
  abbrev Gives : List NodeRow → Option NodeRow → Type 0
  Gives rows none = IsNone rows
  Gives rows (some row) = Newest key run node_id rows row

  newest_as :
      (x o : NodeRow) (rows : List NodeRow)
      → column_ltb (key x) (key o) ≡ false
      → All (λ r. of_node run node_id r ≡ true → column_ltb (key o) (key r) ≡ false) rows
      → All (λ r. of_node run node_id r ≡ true → column_ltb (key x) (key r) ≡ false) rows
  newest_as x o [] h k = tt
  newest_as x o (r ∷ rows) h k =
      ((λ e. column_le_trans (key x) (key o) (key r) h (k.0 e)), newest_as x o rows h k.1)

  newest_row-Gives : (rows : List NodeRow) → Gives rows (newest_row key run node_id rows)
  unfolding newest_row
  newest_row-Gives [] = tt
  newest_row-Gives (x ∷ rows) = elim (Bool-cases (of_node run node_id x)) [
    | inr e ↦ rw e (skip (newest_row key run node_id rows) e (newest_row-Gives rows))
    | inl e ↦ rw e (take (newest_row key run node_id rows) e (newest_row-Gives rows))
  ]
    where
      skip :
          (o : Option NodeRow) → of_node run node_id x ≡ false → Gives rows o → Gives (x ∷ rows) o
      skip none e g = (e, g)
      skip (some o) e g = record {
        earlier = x ∷ g.earlier;
        later = g.later;
        split = ap (λ l. x ∷ l) g.split;
        of = g.of;
        newest = ((λ f. absurd (cc)), g.newest);
        first = ((λ f. absurd (cc)), g.first);
      }

      front :
          of_node run node_id x ≡ true
          → All (λ r. of_node run node_id r ≡ true → column_ltb (key x) (key r) ≡ false) rows
          → Newest key run node_id (x ∷ rows) x
      front e n = record {
        earlier = [];
        later = rows;
        split = refl;
        of = e;
        newest = ((λ f. column_irrefl (key x)), n);
        first = tt;
      }

      take :
          (o : Option NodeRow)
          → of_node run node_id x ≡ true
          → Gives rows o
          → Gives (x ∷ rows) (newer key x o)
      take none e g = front e (nothing_newer x rows g)
      take (some o) e g = elim (Bool-cases (column_ltb (key x) (key o))) [
        | inl lt ↦ rw lt (record {
          earlier = x ∷ g.earlier;
          later = g.later;
          split = ap (λ l. x ∷ l) g.split;
          of = g.of;
          newest = ((λ f. column_asym (key x) (key o) lt), g.newest);
          first = ((λ f. lt), g.first);
        })
        | inr le ↦ rw le (front e (newest_as x o rows le g.newest))
      ]

  All-at :
      {A : Type 0} (P : A → Type 0) (xs : List A) (x : A) (ys : List A) → All P (xs ++ x ∷ ys) → P x
  All-at P [] x ys h = h.0
  All-at P (y ∷ xs) x ys h = All-at P xs x ys h.1

  front_wins :
      (row : NodeRow) (rows : List NodeRow) (o : Option NodeRow)
      → Gives rows o
      → All (λ r. of_node run node_id r ≡ true → column_ltb (key row) (key r) ≡ false) rows
      → newer key row o ≡ some row
  front_wins row rows none g n = refl
  front_wins row rows (some o) g n =
      let not_later =
        All-at (λ r. of_node run node_id r ≡ true → column_ltb (key row) (key r) ≡ false) g.earlier
          o g.later
          (subst (All (λ r. of_node run node_id r ≡ true → column_ltb (key row) (key r) ≡ false))
            g.split n)
          g.of in
      rw not_later refl

  split_wins :
      (earlier : List NodeRow) (row : NodeRow) (later : List NodeRow)
      → of_node run node_id row ≡ true
      → All
          (λ r. of_node run node_id r ≡ true → column_ltb (key row) (key r) ≡ false)
          (earlier ++ row ∷ later)
      → All (λ r. of_node run node_id r ≡ true → column_ltb (key r) (key row) ≡ true) earlier
      → newest_row key run node_id (earlier ++ row ∷ later) ≡ some row
  unfolding newest_row
  split_wins [] row later e n f =
      rw e (front_wins row later (newest_row key run node_id later) (newest_row-Gives later) n.1)
  split_wins (x ∷ earlier) row later e n f =
      let rest = split_wins earlier row later e n.1 f.1 in
      elim (Bool-cases (of_node run node_id x)) [
        | inl k ↦ let lt = f.0 k in rw (k, rest, lt) refl
        | inr k ↦ rw k rest
      ]

  pub newest_row_iff :
      (rows : List NodeRow) (row : NodeRow)
      → (newest_row key run node_id rows ≡ some row) ↔ Newest key run node_id rows row
  newest_row_iff rows row = (
    (λ e. subst (Gives rows) e (newest_row-Gives rows)),
    (λ n. rw n.split (
        split_wins n.earlier row n.later n.of
          (subst (All (λ r. of_node run node_id r ≡ true → column_ltb (key row) (key r) ≡ false))
            n.split n.newest)
          n.first)),
  )
