-- ===== src/Dispatcher/Enqueue/Backfill.antt =====
-- The backfill of a subscription over its passes, for a row that has a cursor. No code stores one.
use lumenqraph.Base.{
  ℕ, zero, suc, ◌+◌, ◌*◌, ◌≤◌, ◌<◌, ◌≡◌, refl, sym, ap, ◌∙◌, inl, inr, min, Bool, true, false,
  Option, none, some, List, [], ◌∷◌, In, here, arith, leb, Bool-cases,
}
use mathlib.Core.Path.{subst}
use lumenqraph.Dispatcher.Enqueue.{
  Event, Sub, Delivery, matches, is_in_backfill, insert_all, backfill_pass,
}
use lumenqraph.Dispatcher.Enqueue.Inserted.{
  IsDistinct, row_of, insert_all-IsDistinct, insert_all-kept, In-insert_all,
}

module _ {F : Type 0} (passes : F → Event → Bool) (batch : ℕ) (events : List Event) where
  -- A number of passes over a subscription, each from the cursor that the one before it left.
  unfoldable pub backfill_passes : ℕ → Sub F → List Delivery → Sub F × List Delivery
  unfolding backfill_pass
  backfill_passes zero s ds = (s, ds)
  backfill_passes (suc n) s ds =
      let pass : Sub F × List Delivery × ℕ =
        backfill_pass passes batch events s.backfill_seq s ds in
      backfill_passes n pass.0 pass.1

  -- The events of a window that match a subscription have their deliveries.
  unfoldable pub IsDelivered : Sub F → ℕ → ℕ → List Delivery → Type 0
  IsDelivered s from upper ds =
      (e : Event)
      → In e events
      → matches passes s e ≡ true
      → from < e.seq
      → e.seq ≤ upper
      → In (row_of s e) ds

  upper_of : Sub F → ℕ → ℕ
  upper_of s from = min (from + batch) s.starting_seq

  one_done :
      (s : Sub F) (from : ℕ) (ds : List Delivery)
      → s.starting_seq ≤ from
      → backfill_pass passes batch events (some from) s ds
        ≡ (record s { backfill_seq = none }, ds, 0)
  unfolding backfill_pass
  one_done s from ds h =
      let t : leb s.starting_seq from ≡ true = ground (arith, h) in rw (backfill_pass, t) refl

  window_of : Sub F → ℕ → List Delivery → List Delivery
  unfolding upper_of
  window_of s from ds = insert_all (is_in_backfill passes from (upper_of s from)) events (s ∷ []) ds

  one_last :
      (s : Sub F) (from : ℕ) (ds : List Delivery)
      → from < s.starting_seq
      → s.starting_seq ≤ from + batch
      → ((backfill_pass passes batch events (some from) s ds).0 ≡ record s { backfill_seq = none })
        × ((backfill_pass passes batch events (some from) s ds).1 ≡ window_of s from ds)
  unfolding backfill_pass window_of upper_of
  one_last s from ds h last =
      let t : leb s.starting_seq from ≡ false = ground (arith, h) in
      let u : leb s.starting_seq (min (from + batch) s.starting_seq) ≡ true =
        ground (arith, last) in
      (rw (backfill_pass, t, u) refl, rw (backfill_pass, t) refl)

  one_more :
      (s : Sub F) (from : ℕ) (ds : List Delivery)
      → from + batch < s.starting_seq
      → ((backfill_pass passes batch events (some from) s ds).0
          ≡ record s { backfill_seq = some (upper_of s from) })
        × ((backfill_pass passes batch events (some from) s ds).1 ≡ window_of s from ds)
  unfolding backfill_pass window_of upper_of
  one_more s from ds h =
      let t : leb s.starting_seq from ≡ false = ground (arith, h) in
      let u : leb s.starting_seq (min (from + batch) s.starting_seq) ≡ false = ground (arith, h) in
      (rw (backfill_pass, t, u) refl, rw (backfill_pass, t) refl)

  window_of-IsDelivered :
      (s : Sub F) (from : ℕ) (ds : List Delivery)
      → IsDelivered s from (upper_of s from) (window_of s from ds)
  unfolding IsDelivered window_of upper_of is_in_backfill
  window_of-IsDelivered s from ds e i m lo hi =
      In-insert_all (is_in_backfill passes from (upper_of s from)) e s events (s ∷ []) ds i here
        (rw (is_in_backfill, m) (ground (arith, lo, hi)))

  backfill_pass-kept :
      (o : Option ℕ) (s : Sub F) (ds : List Delivery) (x : Delivery)
      → In x ds
      → In x (backfill_pass passes batch events o s ds).1
  unfolding backfill_pass
  backfill_pass-kept none s ds x i = i
  backfill_pass-kept (some from) s ds x i = elim (Bool-cases (leb s.starting_seq from)) [
    | inl done ↦ rw (backfill_pass, done) i
    | inr more ↦
        rw (backfill_pass, more)
          (insert_all-kept (is_in_backfill passes from (min (from + batch) s.starting_seq)) events
            (s ∷ []) ds x i)
  ]

  backfill_pass-IsDistinct :
      (o : Option ℕ) (s : Sub F) (ds : List Delivery)
      → IsDistinct ds
      → IsDistinct (backfill_pass passes batch events o s ds).1
  unfolding backfill_pass
  backfill_pass-IsDistinct none s ds d = d
  backfill_pass-IsDistinct (some from) s ds d = elim (Bool-cases (leb s.starting_seq from)) [
    | inl done ↦ rw (backfill_pass, done) d
    | inr more ↦
        rw (backfill_pass, more)
          (insert_all-IsDistinct (is_in_backfill passes from (min (from + batch) s.starting_seq))
            events (s ∷ []) ds d)
  ]

  backfill_passes-kept :
      (n : ℕ) (s : Sub F) (ds : List Delivery) (x : Delivery)
      → In x ds
      → In x (backfill_passes n s ds).1
  unfolding backfill_passes
  backfill_passes-kept zero s ds x i = i
  backfill_passes-kept (suc n) s ds x i =
      backfill_passes-kept n _ _ x (backfill_pass-kept s.backfill_seq s ds x i)

  backfill_passes-IsDistinct :
      (n : ℕ) (s : Sub F) (ds : List Delivery)
      → IsDistinct ds
      → IsDistinct (backfill_passes n s ds).1
  unfolding backfill_passes
  backfill_passes-IsDistinct zero s ds d = d
  backfill_passes-IsDistinct (suc n) s ds d =
      backfill_passes-IsDistinct n _ _ (backfill_pass-IsDistinct s.backfill_seq s ds d)

  -- Without a cursor the passes change nothing.
  backfill_passes-none :
      (n : ℕ) (s : Sub F) (ds : List Delivery)
      → s.backfill_seq ≡ none
      → backfill_passes n s ds ≡ (s, ds)
  unfolding backfill_passes backfill_pass
  backfill_passes-none zero s ds q = refl
  backfill_passes-none (suc n) s ds q =
      let e : backfill_pass passes batch events s.backfill_seq s ds ≡ (s, ds, 0) =
        ap (λ o. backfill_pass passes batch events o s ds) q in
      ap (λ t. backfill_passes n t.0 t.1) e ∙ backfill_passes-none n s ds q

  -- What the passes over a backfill come to.
  pub record IsBackfilled (s : Sub F) (from : ℕ) (t : Sub F × List Delivery) : Type 0 where
    pub cleared : t.0.backfill_seq ≡ none
    pub delivered : IsDelivered s from s.starting_seq t.1

  one_more_pass : (n k : ℕ) → suc n * k ≡ n * k + k
  one_more_pass n k = grind arith

  after_pass : ℕ → ℕ → Sub F → List Delivery → Sub F × List Delivery
  after_pass n from s ds =
      backfill_passes n (backfill_pass passes batch events (some from) s ds).0
        (backfill_pass passes batch events (some from) s ds).1

  -- The passes from a cursor, from what they come to when one pass is not enough.
  passes-cases :
      (n : ℕ) (s : Sub F) (from : ℕ) (ds : List Delivery)
      → (from + batch < s.starting_seq → IsBackfilled s from (after_pass n from s ds))
      → IsBackfilled s from (after_pass n from s ds)
  unfolding after_pass IsDelivered upper_of
  passes-cases n s from ds further = elim (Bool-cases (leb s.starting_seq from)) [
    | inl done ↦
        rw
          (
            after_pass,
            one_done s from ds (ground (arith, done)),
            backfill_passes-none n (record s { backfill_seq = none }) ds refl,
          )
          (record {
            cleared = refl;
            delivered = λ e i m lo hi. absurd (ground (arith, done, lo, hi));
          })
    | inr more ↦ elim (Bool-cases (leb s.starting_seq (from + batch))) [
      | inl last ↦
          let p = one_last s from ds (ground (arith, more)) (ground (arith, last)) in
          rw
            (
              after_pass,
              p.0,
              p.1,
              backfill_passes-none n (record s { backfill_seq = none }) (window_of s from ds) refl,
            )
            (record {
              cleared = refl;
              delivered = λ e i m lo hi.
                  window_of-IsDelivered s from ds e i m lo (ground (arith, last, hi));
            })
      | inr beyond ↦ further (ground (arith, beyond))
    ]
  ]

  one_more-IsBackfilled :
      (m : ℕ) (s : Sub F) (from : ℕ) (ds : List Delivery)
      → from + batch < s.starting_seq
      → IsBackfilled
          (record s { backfill_seq = some (upper_of s from) })
          (upper_of s from)
          (after_pass m
            (upper_of s from)
            (record s { backfill_seq = some (upper_of s from) })
            (window_of s from ds))
      → IsBackfilled s from (after_pass (suc m) from s ds)
  unfolding after_pass IsDelivered backfill_passes
  one_more-IsBackfilled m s from ds beyond ih =
      let p = one_more s from ds beyond in
      rw (after_pass, p.0, p.1)
        (record {
          cleared = ih.cleared;
          delivered = λ e i h lo hi. elim (Bool-cases (leb e.seq (upper_of s from))) [
            | inl old ↦ backfill_passes-kept m _ _ (row_of s e) (
                backfill_pass-kept (some (upper_of s from)) _ _ (row_of s e)
                  (window_of-IsDelivered s from ds e i h lo (ground (arith, old))))
            | inr new ↦ ih.delivered e i h (ground (arith, new)) hi
          ];
        })

  passes-IsBackfilled :
      (n : ℕ) (s : Sub F) (from : ℕ) (ds : List Delivery)
      → s.starting_seq ≤ from + suc n * batch
      → IsBackfilled s from (after_pass n from s ds)
  unfolding upper_of
  passes-IsBackfilled zero s from ds enough =
      passes-cases zero s from ds
        (λ beyond. absurd (omega (arith, one_more_pass 0 batch, enough, beyond)))
  passes-IsBackfilled (suc m) s from ds enough = passes-cases (suc m) s from ds (λ beyond.
      one_more-IsBackfilled m s from ds beyond (
        passes-IsBackfilled m (record s { backfill_seq = some (upper_of s from) }) (upper_of s from)
          (window_of s from ds) (omega (arith, one_more_pass (suc m) batch, enough, beyond))))

  -- From its cursor on, enough passes of at most a batch each clear the cursor of a subscription,
  -- every event after the cursor up to its start that matches it has its delivery, and deliveries
  -- that were not doubled stay so.
  backfill_passes-IsBackfilled :
      (n : ℕ) (s : Sub F) (from : ℕ) (ds : List Delivery)
      → s.backfill_seq ≡ some from
      → s.starting_seq ≤ from + suc n * batch
      → IsDistinct ds
      → IsBackfilled s from (backfill_passes (suc n) s ds)
        × IsDistinct (backfill_passes (suc n) s ds).1
  unfolding backfill_passes after_pass
  backfill_passes-IsBackfilled n s from ds q enough distinct = (
    subst
        (λ o. IsBackfilled s from (
          backfill_passes n (backfill_pass passes batch events o s ds).0
            (backfill_pass passes batch events o s ds).1))
        (sym q) (passes-IsBackfilled n s from ds enough),
    backfill_passes-IsDistinct (suc n) s ds distinct,
  )
