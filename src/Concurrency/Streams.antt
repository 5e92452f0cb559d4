-- ===== src/Concurrency/Streams.antt =====
-- The stream limiter counts the streams that hold a slot, and keeps both limits.
use lumenqraph.Base.{
  ℕ, suc, ◌+◌, ◌-◌, ◌≤◌, ◌<◌, ◌≡◌, ◌≢◌, refl, true, false, Option, none, some, List, [], ◌∷◌, ◌++◌,
  length, length-append, if◌then◌else◌, arith,
}
use lumenqraph.Base.Str.{Str, str_eq, eq_of_str_eq, str_eq_refl}
use lumenqraph.Base.Maps.{Map, get, insert, get-insert}
use lumenqraph.Concurrency.{
  SseStreamLimiter, streams_new, entry_or, remove, key_count, acquire_stream, release_key,
  release_stream,
}

-- How often a key stands in a list.
abbrev pub count : Str → List Str → ℕ
count k [] = 0
count k (j ∷ js) = if str_eq j k then suc (count k js) else count k js

pub count-append : (k : Str) (xs ys : List Str) → count k (xs ++ ys) ≡ count k xs + count k ys
count-append k [] ys = omega arith
count-append k (x ∷ xs) ys = ground (arith, count-append k xs ys)

get-remove : (k j : Str) (m : Map ℕ) → get (remove k m) j ≡ (if str_eq k j then none else get m j)
unfolding get remove
get-remove k j [] = ground arith
get-remove k j ((i, v) ∷ m) = ground (
  arith,
  get-remove k j m,
  eq_of_str_eq i k,
  eq_of_str_eq i j,
  eq_of_str_eq k j,
  str_eq_refl i,
  str_eq_refl j,
  str_eq_refl k,
)

-- The limiter beside the keys of the streams that hold a slot, the order of no matter.
pub record IsAccounted (l : SseStreamLimiter) (held : List Str) : Type 0 where
  pub per_key : (k : Str) → key_count k l.per_key ≡ count k held
  pub global : l.global ≡ length held

key_count-insert :
    (k j : Str) (n : ℕ) (m : Map ℕ)
    → key_count j (insert k n m) ≡ (if str_eq k j then n else key_count j m)
unfolding key_count entry_or
key_count-insert k j n m = ground (arith, get-insert k j n m)

key_count-remove :
    (k j : Str) (m : Map ℕ) → key_count j (remove k m) ≡ (if str_eq k j then 0 else key_count j m)
unfolding key_count entry_or
key_count-remove k j m = ground (arith, get-remove k j m)

-- A slot that is granted is one more in the account.
acquire_stream-IsAccounted :
    (key : Str) (mk mg : ℕ) (l : SseStreamLimiter) (held : List Str)
    → IsAccounted l held
    → (acquire_stream key mk mg l).1.allowed ≡ true
    → IsAccounted (acquire_stream key mk mg l).0 (key ∷ held)
unfolding acquire_stream
acquire_stream-IsAccounted key mk mg l held acc ok = record {
  per_key = λ k. ground (
    arith,
    ok,
    key_count-insert key k (key_count key l.per_key + 1) l.per_key,
    acc.per_key k,
    acc.per_key key,
    eq_of_str_eq key k,
  );
  global = ground (arith, ok, acc.global);
}

-- A refusal changes nothing.
acquire_stream-refused :
    (key : Str) (mk mg : ℕ) (l : SseStreamLimiter)
    → (acquire_stream key mk mg l).1.allowed ≡ false
    → (acquire_stream key mk mg l).0 ≡ l
unfolding acquire_stream
acquire_stream-refused key mk mg l no_slot = ground (arith, no_slot)

key_count-release_key :
    (key k : Str) (o : Option ℕ) (m : Map ℕ)
    → get m key ≡ o
    → key_count k (release_key key o m)
      ≡ (if str_eq key k then key_count k m - 1 else key_count k m)
unfolding release_key
key_count-release_key key k none m e =
    unfold key_count entry_or in ground (arith, e, eq_of_str_eq key k)
key_count-release_key key k (some c) m e = ground (
  arith,
  key_count-insert key k (c - 1) m,
  key_count-remove key k m,
  eq_of_str_eq key k,
  key_count-some key m e,
)
  where
    key_count-some : (key : Str) (m : Map ℕ) → get m key ≡ some c → key_count key m ≡ c
    key_count-some key m e = unfold key_count entry_or in rw e

-- A slot that is given back, wherever it stands, is one less.
release_stream-IsAccounted :
    (key : Str) (l : SseStreamLimiter) (front back : List Str)
    → IsAccounted l (front ++ key ∷ back)
    → IsAccounted (release_stream key l) (front ++ back)
unfolding release_stream
release_stream-IsAccounted key l front back acc = record {
  per_key = λ k. ground (
    arith,
    key_count-release_key key k (get l.per_key key) l.per_key refl,
    acc.per_key k,
    count-append k front (key ∷ back),
    count-append k front back,
  );
  global = ground (arith, acc.global, length-append front (key ∷ back), length-append front back);
}

-- The limiter and the streams that hold a slot. A stream opens, is refused, or ends.
pub record Streams : Type 0 where
  pub limiter : SseStreamLimiter
  pub held : List Str

pub data StreamStep (max_per_key max_global : ℕ) : Streams → Streams → Type 0 where
  opened :
      (key : Str) (s : Streams)
      → (acquire_stream key max_per_key max_global s.limiter).1.allowed ≡ true
      → StreamStep max_per_key max_global s (record {
        limiter = (acquire_stream key max_per_key max_global s.limiter).0;
        held = key ∷ s.held;
      })
  refused :
      (key : Str) (s : Streams)
      → (acquire_stream key max_per_key max_global s.limiter).1.allowed ≡ false
      → StreamStep max_per_key max_global s (record {
        limiter = (acquire_stream key max_per_key max_global s.limiter).0;
        held = s.held;
      })
  ended :
      (key : Str) (l : SseStreamLimiter) (front back : List Str)
      → StreamStep max_per_key max_global
          (record { limiter = l; held = front ++ key ∷ back })
          (record { limiter = release_stream key l; held = front ++ back })

pub data StreamReach (max_per_key max_global : ℕ) : Streams → Type 0 where
  start : StreamReach max_per_key max_global (record { limiter = streams_new; held = [] })
  step :
      {s t : Streams}
      → StreamReach max_per_key max_global s
      → StreamStep max_per_key max_global s t
      → StreamReach max_per_key max_global t

pub record IsWithin (max_per_key max_global : ℕ) (s : Streams) : Type 0 where
  pub account : IsAccounted s.limiter s.held
  pub per_key : max_per_key ≢ 0 → (k : Str) → count k s.held ≤ max_per_key
  pub global : max_global ≢ 0 → length s.held ≤ max_global

acquired_below :
    (key : Str) (mk mg : ℕ) (l : SseStreamLimiter)
    → (acquire_stream key mk mg l).1.allowed ≡ true
    → (mk ≢ 0 → key_count key l.per_key < mk) × (mg ≢ 0 → l.global < mg)
unfolding acquire_stream
acquired_below key mk mg l ok = (λ h. ground (arith, ok), λ h. ground (arith, ok))

count-cons-le :
    (k key : Str) (held : List Str) (n : ℕ)
    → count k held ≤ n
    → (str_eq key k ≡ true → count k held < n)
    → count k (key ∷ held) ≤ n
count-cons-le k key held n h e = ground (arith, e)

StreamStep-IsWithin :
    {mk mg : ℕ} {s t : Streams} → StreamStep mk mg s t → IsWithin mk mg s → IsWithin mk mg t
StreamStep-IsWithin {mk} {mg} (opened key s ok) w =
    let below = acquired_below key mk mg s.limiter ok in
    record {
      account = acquire_stream-IsAccounted key mk mg s.limiter s.held w.account ok;
      per_key = λ h k.
          count-cons-le k key s.held mk (w.per_key h k)
            (λ e. rw (← eq_of_str_eq key k e) (omega (arith, below.0 h, w.account.per_key key)));
      global = λ h. omega (arith, below.1 h, w.account.global);
    }
StreamStep-IsWithin {mk} {mg} (refused key s no_slot) w =
    rw (acquire_stream-refused key mk mg s.limiter no_slot) w
StreamStep-IsWithin {mk} {mg} (ended key l front back) w = record {
  account = release_stream-IsAccounted key l front back w.account;
  per_key = λ h k.
      ground (arith, w.per_key h k, count-append k front (key ∷ back), count-append k front back);
  global =
      λ h. omega (arith, w.global h, length-append front (key ∷ back), length-append front back);
}

-- In every reachable state the counters are those of the streams that hold a slot, and no more
-- streams hold one than the limits allow, per key and in all, where a limit is not 0.
pub streams-IsWithin : {mk mg : ℕ} {s : Streams} → StreamReach mk mg s → IsWithin mk mg s
unfolding key_count entry_or get
streams-IsWithin start = record {
  account = record { per_key = λ k. refl; global = refl };
  per_key = λ h k. omega arith;
  global = λ h. omega arith;
}
streams-IsWithin (step r st) = StreamStep-IsWithin st (streams-IsWithin r)
