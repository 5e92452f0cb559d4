-- ===== src/Pagination/Pages.antt =====
-- A page request keeps its bounds, an answer is the right stretch of the rows, and following the
-- cursors gives every row once.
use lumenqraph.Base.{
  ℕ, zero, suc, ◌+◌, ◌^◌, ◌≤◌, ◌<◌, ◌≡◌, refl, sym, ap, ◌∙◌, true, Option, none, some, List, [],
  ◌∷◌, ◌↔◌, ◌⊎◌, length, length-take, take, ltb, if◌then◌else◌, arith, inl, inr,
}
use lumenqraph.Base.Int.{ℤ, pos, ltb_ℤ, ◌≤ℤ◌}
use lumenqraph.Base.Str.{Str}
use lumenqraph.Base.Result.{Result, ok, err, ◌>>=◌}
use lumenqraph.Pagination.{
  Cursor, PageRequest, Page, ApiError, clamp, max_offset, as_usize, last, is_some, decode_after,
  checked, parse, fetch_limit, cursor_after, finish,
}

-- The limit that is served.
abbrev pub clamped : ℤ → ℤ → ℤ
clamped limit max_limit =
    if ltb_ℤ limit (pos 1) then pos 1 else if ltb_ℤ max_limit limit then max_limit else limit

clamp-some :
    (limit max_limit : ℤ)
    → pos 1 ≤ℤ max_limit
    → clamp limit (pos 1) max_limit ≡ some (clamped limit max_limit)
unfolding clamp
clamp-some limit max_limit h = ground arith

pub clamped_bounds :
    (limit max_limit : ℤ)
    → pos 1 ≤ℤ max_limit
    → (pos 1 ≤ℤ clamped limit max_limit) × (clamped limit max_limit ≤ℤ max_limit)
clamped_bounds limit max_limit h = ground arith

module _ {C : Type 0} (cursor : Cursor C) where
  -- What a request that is served satisfies.
  pub record IsServed (max_limit : ℤ) (after : Option Str) (r : PageRequest C) : Type 0 where
    pub limit_low : pos 1 ≤ℤ r.limit
    pub limit_high : r.limit ≤ℤ max_limit
    pub offset_low : pos 0 ≤ℤ r.offset
    pub offset_high : r.offset ≤ℤ max_offset
    pub decoded : decode_after cursor after ≡ ok r.after
    pub cursor_only : is_some r.after ≡ true → r.offset ≡ pos 0

  checked-IsServed :
      (limit max_limit offset : ℤ) (after : Option Str) (c : Option C) (r : PageRequest C)
      → pos 1 ≤ℤ limit
      → limit ≤ℤ max_limit
      → decode_after cursor after ≡ ok c
      → checked cursor limit offset c ≡ ok r
      → IsServed max_limit after r
  unfolding checked
  checked-IsServed limit max_limit offset after c r low high d e = record {
    limit_low = ground (arith, e, low);
    limit_high = ground (arith, e, high);
    offset_low = ground (arith, e);
    offset_high = ground (arith, e);
    decoded = ground (arith, e, d);
    cursor_only = λ s. ground (arith, e, s);
  }

  parse-clamped :
      (limit max_limit offset : ℤ) (after : Option Str)
      → pos 1 ≤ℤ max_limit
      → parse cursor limit max_limit offset after
        ≡ some (decode_after cursor after >>= checked cursor (clamped limit max_limit) offset)
  unfolding parse
  parse-clamped limit max_limit offset after h = rw (parse, clamp-some limit max_limit h) refl

  pub parse-decoded :
      (limit max_limit offset : ℤ) (after : Option Str) (c : Option C)
      → pos 1 ≤ℤ max_limit
      → decode_after cursor after ≡ ok c
      → parse cursor limit max_limit offset after
        ≡ some (checked cursor (clamped limit max_limit) offset c)
  parse-decoded limit max_limit offset after c h d =
      parse-clamped limit max_limit offset after h ∙ rw d refl

  -- If the largest limit is at least 1, a request that is served has a limit and an offset within their bounds, and the position of its
  -- cursor, if it has one, and then no offset.
  parse-IsServed :
      (limit max_limit offset : ℤ) (after : Option Str) (r : PageRequest C)
      → pos 1 ≤ℤ max_limit
      → parse cursor limit max_limit offset after ≡ some (ok r)
      → IsServed max_limit after r
  parse-IsServed limit max_limit offset after r h e =
      let (low, high) = clamped_bounds limit max_limit h in
      go (clamped limit max_limit) (decode_after cursor after) refl low high
        (sym (parse-clamped limit max_limit offset after h) ∙ e)
    where
      go :
          (l : ℤ) (d : Result ApiError (Option C))
          → decode_after cursor after ≡ d
          → pos 1 ≤ℤ l
          → l ≤ℤ max_limit
          → some (d >>= checked cursor l offset) ≡ some (ok r)
          → IsServed max_limit after r
      go l (ok c) d low high e = checked-IsServed l max_limit offset after c r low high d (cc e)
      go l (err x) d low high e = cc e

  checked_only :
      (l offset : ℤ) (c : Option C) (r : PageRequest C)
      → checked cursor l offset c ≡ ok r
      → (is_some c ≡ true) ⊎ (offset ≤ℤ max_offset)
  unfolding checked
  checked_only l offset (some c) r e = inl refl
  checked_only l offset none r e = inr (ground (arith, e))

  checked_serves :
      (l offset : ℤ) (c : Option C)
      → (is_some c ≡ true) ⊎ (offset ≤ℤ max_offset)
      → (r : PageRequest C) × (checked cursor l offset c ≡ ok r)
  unfolding checked
  checked_serves l offset (some c) w = (record { limit = l; offset = pos 0; after = some c }, refl)
  checked_serves l offset none w = (
    record { limit = l; offset = if ltb_ℤ offset (pos 0) then pos 0 else offset; after = none },
    ground (arith, w),
  )

  -- If the largest limit is at least 1 and the cursor, if there is one, decodes, the request is
  -- served exactly when it has a cursor or its offset is at most the deepest one.
  pub parse-outcome :
      (limit max_limit offset : ℤ) (after : Option Str) (c : Option C)
      → pos 1 ≤ℤ max_limit
      → decode_after cursor after ≡ ok c
      → ((r : PageRequest C) × (parse cursor limit max_limit offset after ≡ some (ok r)))
        ↔ ((is_some c ≡ true) ⊎ (offset ≤ℤ max_offset))
  parse-outcome limit max_limit offset after c h d = (
    λ (r, e).
        checked_only (clamped limit max_limit) offset c r
          (cc (parse-decoded limit max_limit offset after c h d, e)),
    λ w.
        let (r, e) = checked_serves (clamped limit max_limit) offset c w in
        (r, parse-decoded limit max_limit offset after c h d ∙ ap some e),
  )

  -- What the answer to a limit is, for the rows that the position has in front of it.
  pub record IsPage {T : Type 0} (cursor_of : T → C) (limit : ℕ) (rows : List T) (p : Page T)
      : Type 0 where
    pub rows_lem : p.data_rows ≡ take limit rows
    pub more_lem : p.has_more ≡ ltb limit (length rows)
    pub next_lem : p.next_cursor ≡ (
        if ltb limit (length rows)
        then cursor_after cursor cursor_of (last (take limit rows))
        else none)

  take-take : {T : Type 0} (n : ℕ) (xs : List T) → take n (take (suc n) xs) ≡ take n xs
  take-take zero xs = refl
  take-take (suc n) [] = refl
  take-take (suc n) (x ∷ xs) = ap (◌∷◌ x) (take-take n xs)

  pub take-all : {T : Type 0} (n : ℕ) (xs : List T) → length xs ≤ n → take n xs ≡ xs
  take-all zero [] h = refl
  take-all zero (x ∷ xs) h = absurd (omega arith)
  take-all (suc n) [] h = refl
  take-all (suc n) (x ∷ xs) h = ap (◌∷◌ x) (take-all n xs (omega arith))

  fetch_limit-pos :
      (r : PageRequest C) (limit : ℕ)
      → r.limit ≡ pos limit
      → limit + 1 < 2 ^ 63
      → as_usize (fetch_limit cursor r) ≡ suc limit
  unfolding fetch_limit
  fetch_limit-pos r limit e small = ground (arith, e)

  -- The answer, from the rows that were fetched.
  finish-fetched :
      {T : Type 0} (r : PageRequest C) (limit : ℕ) (fetched : List T) (cursor_of : T → C)
      → r.limit ≡ pos limit
      → let m = ltb limit (length fetched) in
        ((finish cursor r fetched cursor_of).data_rows
          ≡ (if m then take limit fetched else fetched))
        × ((finish cursor r fetched cursor_of).has_more ≡ m)
        × ((finish cursor r fetched cursor_of).next_cursor
            ≡ (if m then cursor_after cursor cursor_of (last (take limit fetched)) else none))
  unfolding finish
  finish-fetched r limit fetched cursor_of e = ground (arith, e)

  -- For a limit whose successor is an `i64`, fetching one row more than the limit and trimming it
  -- gives the rows up to the limit, and the cursor of the last of them exactly when more follow.
  pub finish-IsPage :
      {T : Type 0} (r : PageRequest C) (limit : ℕ) (rows : List T) (cursor_of : T → C)
      → r.limit ≡ pos limit
      → limit + 1 < 2 ^ 63
      → IsPage cursor_of limit rows
          (finish cursor r (take (as_usize (fetch_limit cursor r)) rows) cursor_of)
  finish-IsPage r limit rows cursor_of e small =
      let (d, m, n) = finish-fetched r limit (take (suc limit) rows) cursor_of e in
      let l = length-take (suc limit) rows in
      rw (fetch_limit-pos r limit e small) (record {
        rows_lem =
            ground
              (arith, d, l, take-take limit rows, take-all limit rows, take-all (suc limit) rows);
        more_lem = ground (arith, m, l);
        next_lem = ground (arith, n, l, take-take limit rows);
      })
