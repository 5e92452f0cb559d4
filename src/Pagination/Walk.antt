-- ===== src/Pagination/Walk.antt =====
-- A client that follows the cursors from the newest page gets every row once, in order.
use mathlib.Core.List.{append_assoc}
use lumenqraph.Base.{
  ℕ, zero, suc, ◌+◌, ◌-◌, ◌^◌, ◌≤◌, ◌<◌, ◌≡◌, refl, sym, ap, ◌∙◌, Option, none, some, List, [], ◌∷◌,
  ◌++◌, In, In-append_right, here, length, length-drop, take, drop, take-append-drop, ltb, arith,
  Bool-cases, inl, inr,
}
use lumenqraph.Base.Int.{ℤ, pos, negsuc, ◌≤ℤ◌}
use lumenqraph.Base.Str.{Str}
use lumenqraph.Base.Result.{ok, err}
use lumenqraph.Pagination.{
  Cursor, PageRequest, Page, as_usize, last, decode_after, checked, parse, fetch_limit,
  cursor_after, finish,
}
use lumenqraph.Pagination.Pages.{
  clamped, clamped_bounds, parse-decoded, IsPage, finish-IsPage, take-all,
}

last-snoc :
    {T : Type 0} (x : T) (xs : List T)
    → (front : List T) × (r : T) × (x ∷ xs ≡ front ++ r ∷ []) × (last (x ∷ xs) ≡ some r)
unfolding last
last-snoc x [] = ([], x, refl, refl)
last-snoc x (y ∷ xs) = let (front, r, e, l) = last-snoc y xs in (x ∷ front, r, ap (◌∷◌ x) e, l)

-- The last row of a page that has one.
last-take :
    {T : Type 0} (n : ℕ) (xs : List T)
    → 1 ≤ n
    → 1 ≤ length xs
    → (front : List T) × (r : T) × (take n xs ≡ front ++ r ∷ []) × (last (take n xs) ≡ some r)
last-take zero xs h k = absurd (omega arith)
last-take (suc n) [] h k = absurd (omega arith)
last-take (suc n) (x ∷ xs) h k = last-snoc x (take n xs)

-- The table in the order of its list, and what a query for the rows after a position answers.
module _ {C T : Type 0} (cursor : Cursor C) (cursor_of : T → C) (rows_after : Option C → List T)
    (limit max_limit : ℤ) where
  -- One request and its answer.
  pub answer : Option Str → Option (Page T)
  answer after = elim (parse cursor limit max_limit (pos 0) after) [
    | none ↦ none
    | some (err e) ↦ none
    | some (ok r) ↦
        some
          (finish cursor r (take (as_usize (fetch_limit cursor r)) (rows_after r.after)) cursor_of)
  ]

  -- The rows of a page, and those of the pages that follow it.
  pub walk : ℕ → Option Str → Option (List T)
  walk zero after = none
  walk (suc fuel) after = elim (answer after) [
    | none ↦ none
    | some p ↦ elim p.next_cursor [
      | none ↦ some p.data_rows
      | some next ↦ elim (walk fuel (some next)) [
        | none ↦ none
        | some rows ↦ some (p.data_rows ++ rows)
      ]
    ]
  ]

  walk-last :
      (fuel : ℕ) (after : Option Str) (p : Page T)
      → answer after ≡ some p
      → p.next_cursor ≡ none
      → walk (suc fuel) after ≡ some p.data_rows
  unfolding walk
  walk-last fuel after p a e = rw (walk, a, e) refl

  walk-next :
      (fuel : ℕ) (after : Option Str) (p : Page T) (next : Str) (rows : List T)
      → answer after ≡ some p
      → p.next_cursor ≡ some next
      → walk fuel (some next) ≡ some rows
      → walk (suc fuel) after ≡ some (p.data_rows ++ rows)
  unfolding walk
  walk-next fuel after p next rows a e w = rw (walk, a, e, w) refl

  checked-first :
      (l : ℤ) (c : Option C)
      → checked cursor l (pos 0) c ≡ ok (record { limit = l; offset = pos 0; after = c })
  unfolding checked
  checked-first l none = refl
  checked-first l (some c) = refl

  answer-served :
      (after : Option Str) (r : PageRequest C)
      → parse cursor limit max_limit (pos 0) after ≡ some (ok r)
      → answer after
        ≡ some (
            finish cursor r (take (as_usize (fetch_limit cursor r)) (rows_after r.after)) cursor_of)
  unfolding answer
  answer-served after r e = rw (answer, e) refl

  answer-IsPage :
      (after : Option Str) (c : Option C) (n : ℕ)
      → pos 1 ≤ℤ max_limit
      → clamped limit max_limit ≡ pos n
      → n + 1 < 2 ^ 63
      → decode_after cursor after ≡ ok c
      → (p : Page T) × (answer after ≡ some p) × IsPage cursor cursor_of n (rows_after c) p
  answer-IsPage after c n h e small d =
      let r : PageRequest C = record { limit = pos n; offset = pos 0; after = c } in
      (
        finish cursor r (take (as_usize (fetch_limit cursor r)) (rows_after c)) cursor_of,
        answer-served after r (
            parse-decoded cursor limit max_limit (pos 0) after c h d
            ∙ ap some (ap (λ l. checked cursor l (pos 0) c) e ∙ checked-first (pos n) c)),
        finish-IsPage cursor r n (rows_after c) cursor_of refl small,
      )

  -- The cursor of a row decodes to its position.
  abbrev pub Decodes : T → Type 0
  Decodes r = cursor.decode (cursor.encode (cursor_of r)) ≡ ok (cursor_of r)

  -- The rows after the position of a row of the table are those that follow it.
  abbrev pub Follows : List T → Type 0
  Follows table =
      (front : List T) (r : T) (back : List T)
      → table ≡ front ++ r ∷ back
      → rows_after (some (cursor_of r)) ≡ back

  decode_after-encode :
      (r : T)
      → Decodes r
      → decode_after cursor (some (cursor.encode (cursor_of r))) ≡ ok (some (cursor_of r))
  unfolding decode_after
  decode_after-encode r e = rw (decode_after, e) refl

  module _ (table : List T) (decodes : (r : T) → In r table → Decodes r) (follows : Follows table)
      (n : ℕ) (h : pos 1 ≤ℤ max_limit) (e : clamped limit max_limit ≡ pos n) (low : 1 ≤ n)
      (small : n + 1 < 2 ^ 63) where
    -- Where the last row of a page stands in the table.
    split_at :
        (seen rows front : List T) (r : T)
        → table ≡ seen ++ rows
        → take n rows ≡ front ++ r ∷ []
        → table ≡ (seen ++ front) ++ r ∷ drop n rows
    split_at seen rows front r split t =
        split
        ∙ ap (◌++◌ seen) (
            sym (take-append-drop n rows)
            ∙ ap (λ xs. xs ++ drop n rows) t
            ∙ append_assoc front (r ∷ []) (drop n rows))
        ∙ sym (append_assoc seen front (r ∷ drop n rows))

    walk-rest :
        (fuel : ℕ) (seen : List T) (after : Option Str) (c : Option C)
        → decode_after cursor after ≡ ok c
        → table ≡ seen ++ rows_after c
        → length (rows_after c) < fuel
        → walk fuel after ≡ some (rows_after c)
    walk-rest zero seen after c d split enough = absurd (omega arith)
    walk-rest (suc fuel) seen after c d split enough =
        let (p, a, page) = answer-IsPage after c n h e small d in
        elim (Bool-cases (ltb n (length (rows_after c)))) [
          | inr m ↦
              walk-last fuel after p a (page.next_lem ∙ rw m refl)
              ∙ ap some (page.rows_lem ∙ take-all cursor n (rows_after c) (ground arith))
          | inl m ↦
              let (front, r, t, l) = last-take n (rows_after c) low (ground arith) in
              let at_row = split_at seen (rows_after c) front r split t in
              let found = follows (seen ++ front) r (drop n (rows_after c)) at_row in
              let here_in : In r table =
                rw at_row (In-append_right (seen ++ front) (r ∷ drop n (rows_after c)) here) in
              walk-next fuel after p (cursor.encode (cursor_of r)) (drop n (rows_after c)) a
                (page.next_lem ∙ rw (m, l) (unfold cursor_after in refl))
                (walk-rest fuel (seen ++ take n (rows_after c)) (some (cursor.encode (cursor_of r)))
                    (some (cursor_of r)) (decode_after-encode r (decodes r here_in))
                    (split
                      ∙ ap (◌++◌ seen) (sym (take-append-drop n (rows_after c)))
                      ∙ sym (append_assoc seen (take n (rows_after c)) (drop n (rows_after c)))
                      ∙ ap (◌++◌ (seen ++ take n (rows_after c))) (sym found))
                    (rw found (ground (arith, length-drop n (rows_after c))))
                  ∙ ap some found)
              ∙ ap some (
                  ap (λ xs. xs ++ drop n (rows_after c)) page.rows_lem
                  ∙ take-append-drop n (rows_after c))
        ]

  low_pos : (a : ℤ) → pos 1 ≤ℤ a → (n : ℕ) × (a ≡ pos n) × (1 ≤ n)
  low_pos (pos n) h = (n, refl, omega arith)
  low_pos (negsuc n) h = absurd (omega arith)

  -- Following the cursors from the newest page ends, and gives exactly the table, for limits below
  -- the largest `i64`, if the query answers with the rows after a position and the cursors of the
  -- rows decode.
  pub walk_lem :
      (table : List T)
      → ((r : T) → In r table → Decodes r)
      → Follows table
      → rows_after none ≡ table
      → pos 1 ≤ℤ max_limit
      → max_limit ≤ℤ pos (2 ^ 63 - 2)
      → walk (suc (length table)) none ≡ some table
  unfolding decode_after
  walk_lem table decodes follows start h small =
      let (low, high) = clamped_bounds limit max_limit h in
      let (n, e, n_low) = low_pos (clamped limit max_limit) low in
      walk-rest table decodes follows n h e n_low (ground (arith, e, high, small))
        (suc (length table)) [] none none refl (sym start) (rw start (omega arith))
      ∙ ap some start
