-- ===== src/Stream/Heard.antt =====
-- src/server/stream.rs, src/server/mod.rs: what a listener hears of a stream.
use mathlib.Core.List.{append-nil, append_assoc}
use togewire.Prelude.{
  ℕ, zero, suc, some, ◌+◌, ◌-◌, ◌≤◌, ◌<◌, max, ◌≡◌, refl, ◌∙◌, sym, ap, subst, ◌⊎◌, inl, inr, Bool,
  true, false, ◌||◌, List, [], ◌∷◌, ◌++◌, length, length-append, drop, ltb, leb, arith, Bool-cases,
  if◌then◌else◌,
}
use togewire.Stream.Pipe.{
  Bytes, max_burst_buffer, Pipe, new, set_headers, send, subscribe, send_all,
}
use togewire.Stream.Burst.{IsFull, burst-send_all}
use togewire.Stream.Backlog.{total_len, IsBounded, AllShort, send_all-IsBounded, headers-send_all}
use togewire.Stream.Listener.{
  Channel, Listener, listen, receive_at, receive, Event, sends, reads, run,
}

-- What the library promises: a channel holds at least as many of the newest pages as its capacity.
abbrev pub Retains : Channel → Type 0
Retains ch = (capacity n : ℕ) → ch.oldest capacity n ≤ n - capacity

-- Some of the second list, in its order.
pub data InOrder : List Bytes → List Bytes → Type 0 where
  nothing : InOrder [] []
  keep : (b : Bytes) {xs ys : List Bytes} → InOrder xs ys → InOrder (b ∷ xs) (b ∷ ys)
  skip : (b : Bytes) {xs ys : List Bytes} → InOrder xs ys → InOrder xs (b ∷ ys)

InOrder-skipped : (ys : List Bytes) (b : Bytes) → InOrder (b ∷ []) (ys ++ b ∷ [])
InOrder-skipped [] b = keep b nothing
InOrder-skipped (y ∷ ys) b = skip y (InOrder-skipped ys b)

InOrder-append :
    {xs ys zs ws : List Bytes} → InOrder xs ys → InOrder zs ws → InOrder (xs ++ zs) (ys ++ ws)
InOrder-append nothing k = k
InOrder-append (keep b h) k = keep b (InOrder-append h k)
InOrder-append (skip b h) k = skip b (InOrder-append h k)

-- The pages that are sent, how often the listener reads, and of these how often there is nothing for it.
unfoldable pub pages_of : List Event → List Bytes
pages_of [] = []
pages_of (sends page ∷ es) = page ∷ pages_of es
pages_of (reads ∷ es) = pages_of es

unfoldable pub reads_of : List Event → ℕ
reads_of [] = 0
reads_of (sends page ∷ es) = reads_of es
reads_of (reads ∷ es) = 1 + reads_of es

abbrev pub idle_read : Pipe → Listener → ℕ
idle_read p l = if leb (length p.sent) l.cursor then 1 else 0

unfoldable pub idle_reads : Channel → List Event → Pipe × Listener → ℕ
idle_reads ch [] s = 0
idle_reads ch (sends page ∷ es) (p, l) = idle_reads ch es (send page p, l)
idle_reads ch (reads ∷ es) (p, l) = idle_read p l + idle_reads ch es (p, receive ch p l)

-- Whether it reads when it has fallen behind by more than the backlog.
abbrev pub is_behind : Pipe → Listener → Bool
is_behind p l = ltb p.backlog (length p.sent - l.cursor)

unfoldable pub falls_behind : Channel → List Event → Pipe × Listener → Bool
falls_behind ch [] s = false
falls_behind ch (sends page ∷ es) (p, l) = falls_behind ch es (send page p, l)
falls_behind ch (reads ∷ es) (p, l) = is_behind p l || falls_behind ch es (p, receive ch p l)

drop-past : (k : ℕ) (xs ys : List Bytes) → drop (length xs + k) (xs ++ ys) ≡ drop k ys
drop-past k [] ys = ap (λ n. drop n ys) (omega arith)
drop-past k (x ∷ xs) ys =
    let e : suc (length xs) + k ≡ suc (length xs + k) = omega arith in
    ap (λ n. drop n (x ∷ (xs ++ ys))) e ∙ drop-past k xs ys

-- What stands before a place where a page is.
drop-found :
    (k : ℕ) (ys : List Bytes) (b : Bytes) (later : List Bytes)
    → drop k ys ≡ b ∷ later
    → (skipped : List Bytes) × (ys ≡ skipped ++ b ∷ later) × (length skipped ≡ k)
drop-found zero ys b later e = ([], e, refl)
drop-found (suc k) [] b later e = absurd (cc)
drop-found (suc k) (y ∷ ys) b later e =
    let (skipped, f, g) = drop-found k ys b later e in (y ∷ skipped, ap (◌∷◌ y) f, ap suc g)

drop-nothing : (k : ℕ) (ys : List Bytes) → drop k ys ≡ [] → length ys ≤ k
drop-nothing zero [] e = omega arith
drop-nothing zero (y ∷ ys) e = absurd (cc)
drop-nothing (suc k) [] e = omega arith
drop-nothing (suc k) (y ∷ ys) e = let ih = drop-nothing k ys e in omega arith

-- A listener that started after the pages `base` with the prefix `pre`, when `after` was sent since, it
-- has read `m` times, `n` of them for nothing, and `behind` tells whether it fell behind.
record Follows (base pre : List Bytes) (p : Pipe) (l : Listener) (after : List Bytes) (n m : ℕ)
    (behind : Bool) : Type 0 where
  got : List Bytes
  seen : List Bytes
  pending : List Bytes
  all_sent : p.sent ≡ (base ++ seen) ++ pending
  place : l.cursor ≡ length (base ++ seen)
  heard : l.given ≡ pre ++ got
  split : after ≡ seen ++ pending
  in_order : InOrder got seen
  whole : (behind ≡ true) ⊎ (got ≡ seen)
  tally : length got + n ≡ m

still : (b c : Bool) {A : Type 0} → (b ≡ true) ⊎ A → ((b || c) ≡ true) ⊎ A
still true c h = inl refl
still false c (inl e) = absurd (cc)
still false c (inr a) = inr a

now_behind : (b c : Bool) → c ≡ true → (b || c) ≡ true
now_behind true c h = refl
now_behind false c h = h

nothing_left : (c old cap n : ℕ) → 0 < cap → old ≤ n - cap → n ≤ max c old → n ≤ c
nothing_left c old cap n room h k = omega arith

idle-yes : (p : Pipe) (l : Listener) → length p.sent ≤ l.cursor → idle_read p l ≡ 1
idle-yes p l h = ground arith

idle-no : (p : Pipe) (l : Listener) → l.cursor < length p.sent → idle_read p l ≡ 0
idle-no p l h = ground arith

-- A listener that is no further behind than the backlog reads on where it stands.
no_lag : (c old cap n : ℕ) → old ≤ n - cap → ltb cap (n - c) ≡ false → max c old ≡ c
no_lag c old cap n h k = let f : n - c ≤ cap = ground arith in omega arith

no_pages : (xs : List Bytes) → length xs ≡ 0 → xs ≡ []
no_pages [] e = refl
no_pages (x ∷ xs) e = absurd (omega arith)

cut_after :
    (xs skipped : List Bytes) (page : Bytes) (later : List Bytes)
    → xs ++ (skipped ++ page ∷ later) ≡ (xs ++ (skipped ++ page ∷ [])) ++ later
cut_after xs skipped page later =
    ap (◌++◌ xs) (sym (append_assoc skipped (page ∷ []) later))
    ∙ sym (append_assoc xs (skipped ++ page ∷ []) later)

module _ (base pre : List Bytes) where
  Follows-send :
      (page : Bytes) (p : Pipe) (l : Listener) (after : List Bytes) (n m : ℕ) (b : Bool)
      → Follows base pre p l after n m b
      → Follows base pre (send page p) l (after ++ page ∷ []) n m b
  unfolding send
  Follows-send page p l after n m b f = record {
    got = f.got;
    seen = f.seen;
    pending = f.pending ++ page ∷ [];
    all_sent =
        ap (λ s. s ++ page ∷ []) f.all_sent ∙ append_assoc (base ++ f.seen) f.pending (page ∷ []);
    place = f.place;
    heard = f.heard;
    split = ap (λ s. s ++ page ∷ []) f.split ∙ append_assoc f.seen f.pending (page ∷ []);
    in_order = f.in_order;
    whole = f.whole;
    tally = f.tally;
  }

  module _ (ch : Channel) (retains : Retains ch) where
    Follows-receive :
        (p : Pipe) (l : Listener) (after : List Bytes) (n m : ℕ) (b : Bool)
        → 0 < p.backlog
        → Follows base pre p l after n m b
        → Follows base pre p (receive ch p l) after (n + idle_read p l) (m + 1) (b || is_behind p l)
    unfolding receive
    Follows-receive p l after n m b room f = by_place (drop at p.sent) refl
      where
        at : ℕ
        at = max l.cursor (ch.oldest p.backlog (length p.sent))

        total : length p.sent ≡ l.cursor + length f.pending
        total =
            ap length f.all_sent
            ∙ length-append (base ++ f.seen) f.pending
            ∙ ap (λ c. c + length f.pending) (sym f.place)

        k : ℕ
        k = at - l.cursor

        from_pending : drop at p.sent ≡ drop k f.pending
        from_pending =
            let past : at ≡ length (base ++ f.seen) + k = omega (arith, f.place) in
            ap (λ i. drop i p.sent) past
            ∙ ap (drop (length (base ++ f.seen) + k)) f.all_sent
            ∙ drop-past k (base ++ f.seen) f.pending

        placed :
            (page : Bytes) (skipped : List Bytes)
            → length skipped ≡ k
            → suc at ≡ length (base ++ (f.seen ++ (skipped ++ page ∷ [])))
        placed page skipped len =
            let a = length-append base (f.seen ++ (skipped ++ page ∷ [])) in
            let b' = length-append f.seen (skipped ++ page ∷ []) in
            let c = length-append skipped (page ∷ []) in
            let d = length-append base f.seen in omega (arith, a, b', c, d, len, f.place)

        all_heard :
            (page : Bytes) (skipped : List Bytes)
            → length skipped ≡ k
            → (b ≡ true) ⊎ (f.got ≡ f.seen)
            → ((b || is_behind p l) ≡ true)
              ⊎ (f.got ++ page ∷ [] ≡ f.seen ++ (skipped ++ page ∷ []))
        all_heard page skipped len (inl e) = still b (is_behind p l) (inl e)
        all_heard page skipped len (inr e) = elim (Bool-cases (is_behind p l)) [
          | inl q ↦ inl (now_behind b (is_behind p l) q)
          | inr q ↦
              let stay =
                no_lag l.cursor (ch.oldest p.backlog (length p.sent)) p.backlog (length p.sent)
                  (retains p.backlog (length p.sent)) q in
              let none_skipped = no_pages skipped (omega (arith, len, stay)) in
              inr (
                ap (λ xs. xs ++ page ∷ []) e
                ∙ ap (λ sk. f.seen ++ (sk ++ page ∷ [])) (sym none_skipped))
        ]

        found :
            (page : Bytes) (later skipped : List Bytes)
            → f.pending ≡ skipped ++ page ∷ later
            → length skipped ≡ k
            → Follows base pre p
                (receive_at at (page ∷ later) l)
                after
                (n + idle_read p l)
                (m + 1)
                (b || is_behind p l)
        found page later skipped e len = record {
          got = f.got ++ page ∷ [];
          seen = f.seen ++ (skipped ++ page ∷ []);
          pending = later;
          all_sent =
              f.all_sent
              ∙ append_assoc base f.seen f.pending
              ∙ ap (◌++◌ base) (ap (◌++◌ f.seen) e ∙ cut_after f.seen skipped page later)
              ∙ sym (append_assoc base (f.seen ++ (skipped ++ page ∷ [])) later);
          place = placed page skipped len;
          heard = ap (λ s. s ++ page ∷ []) f.heard ∙ append_assoc pre f.got (page ∷ []);
          split = f.split ∙ ap (◌++◌ f.seen) e ∙ cut_after f.seen skipped page later;
          in_order = InOrder-append f.in_order (InOrder-skipped skipped page);
          whole = all_heard page skipped len f.whole;
          tally =
              let more = length-append f.got (page ∷ []) in
              let rest = ap length e ∙ length-append skipped (page ∷ later) in
              let idle = idle-no p l (omega (arith, total, rest)) in
              omega (arith, more, idle, f.tally);
        }

        by_place :
            (there : List Bytes)
            → drop at p.sent ≡ there
            → Follows base pre p
                (receive_at at there l)
                after
                (n + idle_read p l)
                (m + 1)
                (b || is_behind p l)
        by_place [] e =
            let idle = idle-yes p l (
              nothing_left l.cursor (ch.oldest p.backlog (length p.sent)) p.backlog (length p.sent)
                room (retains p.backlog (length p.sent)) (drop-nothing at p.sent e)) in
            record {
              got = f.got;
              seen = f.seen;
              pending = f.pending;
              all_sent = f.all_sent;
              place = f.place;
              heard = f.heard;
              split = f.split;
              in_order = f.in_order;
              whole = still b (is_behind p l) f.whole;
              tally = omega (arith, idle, f.tally);
            }
        by_place (page ∷ later) e =
            let (skipped, g, len) = drop-found k f.pending page later (sym from_pending ∙ e) in
            found page later skipped g len

    backlog-send : (page : Bytes) (p : Pipe) → (send page p).backlog ≡ p.backlog
    unfolding send
    backlog-send page p = refl

    Follows-eq :
        (p : Pipe) (l : Listener) (after after' : List Bytes) (n n' m m' : ℕ) (b b' : Bool)
        → after ≡ after'
        → n ≡ n'
        → m ≡ m'
        → b ≡ b'
        → Follows base pre p l after n m b
        → Follows base pre p l after' n' m' b'
    Follows-eq p l after after' n n' m m' b b' ea en em eb f = record {
      got = f.got;
      seen = f.seen;
      pending = f.pending;
      all_sent = f.all_sent;
      place = f.place;
      heard = f.heard;
      split = sym ea ∙ f.split;
      in_order = f.in_order;
      whole = subst (λ x. (x ≡ true) ⊎ (f.got ≡ f.seen)) eb f.whole;
      tally = omega (arith, en, em, f.tally);
    }

    or_assoc : (a c d : Bool) → (a || c || d) ≡ (a || (c || d))
    or_assoc true c d = refl
    or_assoc false c d = refl

    Follows-run :
        (es : List Event) (p : Pipe) (l : Listener) (after : List Bytes) (n m : ℕ) (b : Bool)
        → 0 < p.backlog
        → Follows base pre p l after n m b
        → let end = run ch es (p, l) in
          Follows base pre end.0 end.1
            (after ++ pages_of es)
            (n + idle_reads ch es (p, l))
            (m + reads_of es)
            (b || falls_behind ch es (p, l))
    unfolding run pages_of reads_of idle_reads falls_behind
    Follows-run [] p l after n m b room f =
        Follows-eq p l after (after ++ []) n (n + 0) m (m + 0) b (b || false)
          (sym (append-nil after)) (omega arith) (omega arith) (ground arith) f
    Follows-run (sends page ∷ es) p l after n m b room f =
        subst
          (λ a.
            Follows base pre (run ch es (send page p, l)).0 (run ch es (send page p, l)).1 a
              (n + idle_reads ch es (send page p, l)) (m + reads_of es)
              (b || falls_behind ch es (send page p, l)))
          (append_assoc after (page ∷ []) (pages_of es))
          (Follows-run es (send page p) l (after ++ page ∷ []) n m b (rw (backlog-send page p) room)
            (Follows-send page p l after n m b f))
    Follows-run (reads ∷ es) p l after n m b room f =
        let rest =
          Follows-run es p (receive ch p l) after (n + idle_read p l) (m + 1) (b || is_behind p l)
            room (Follows-receive p l after n m b room f) in
        let end = run ch es (p, receive ch p l) in
        Follows-eq end.0 end.1 (after ++ pages_of es) (after ++ pages_of es) _ _ _ _ _ _ refl
          (omega arith) (omega arith)
          (or_assoc b (is_behind p l) (falls_behind ch es (p, receive ch p l))) rest

backlog-send_all : (pages : List Bytes) (p : Pipe) → (send_all pages p).backlog ≡ p.backlog
unfolding send_all send
backlog-send_all [] p = refl
backlog-send_all (page ∷ pages) p = backlog-send_all pages (send page p)

Follows-listen :
    (p : Pipe) (h : Bytes)
    → p.prefix.headers ≡ some h
    → Follows p.sent (h ∷ p.prefix.burst) p (listen p) [] 0 0 false
unfolding listen subscribe
Follows-listen p h e = record {
  got = [];
  seen = [];
  pending = [];
  all_sent = sym (append-nil (p.sent ++ []) ∙ append-nil p.sent);
  place = ap length (sym (append-nil p.sent));
  heard = rw e (ap (◌∷◌ h) (sym (append-nil p.prefix.burst)));
  split = refl;
  in_order = nothing;
  whole = inr refl;
  tally = refl;
}

-- What a listener hears that starts when the headers `h` and the pages `before` were sent, each of at
-- most 2^63 bytes, with any sends and reads after that: the headers, then the newest pages of `before`,
-- as many as fit in 128 KiB, then pages that were sent after it started, in their order and none twice.
-- They are all those up to the place where it stands, unless it read when it was behind by more than the
-- backlog, and each read gives one unless all that was sent is read. The channel is taken to hold at
-- least as many of the newest pages as its capacity.
pub run-listen :
    (ch : Channel) (backlog : ℕ) (h : Bytes) (before : List Bytes) (es : List Event)
    → Retains ch
    → 0 < backlog
    → AllShort before
    → let p = send_all before (set_headers h (new backlog)) in
      let end = run ch es (p, listen p) in
      (gone kept got seen pending : List Bytes) × (before ≡ gone ++ kept)
      × (total_len kept ≤ max_burst_buffer)
      × IsFull gone kept
      × ((end.1).given ≡ h ∷ (kept ++ got))
      × (pages_of es ≡ seen ++ pending)
      × (drop (end.1).cursor (end.0).sent ≡ pending)
      × InOrder got seen
      × ((falls_behind ch es (p, listen p) ≡ true) ⊎ (got ≡ seen))
      × (length got + idle_reads ch es (p, listen p) ≡ reads_of es)
unfolding set_headers new total_len
run-listen ch backlog h before es retains room short =
    let (gone, e, full) = burst-send_all before start [] short start-IsBounded (inl refl) in
    let f =
      Follows-run p.sent (h ∷ p.prefix.burst) ch retains es p (listen p) [] 0 0 false
        (subst (λ k. 0 < k) (sym (backlog-send_all before start)) room)
        (Follows-listen p h (headers-send_all before start)) in
    let b = send_all-IsBounded before start short start-IsBounded in
    (
      gone,
      p.prefix.burst,
      f.got,
      f.seen,
      f.pending,
      e,
      omega (arith, b.exact, b.bounded),
      full,
      f.heard,
      f.split,
      waiting f.seen f.pending f.all_sent f.place,
      f.in_order,
      f.whole,
      omega (arith, f.tally),
    )
  where
    start : Pipe
    start = set_headers h (new backlog)

    start-IsBounded : IsBounded start.prefix
    start-IsBounded = record { exact = refl; bounded = omega arith }

    p : Pipe
    p = send_all before start

    end : Pipe × Listener
    end = run ch es (p, listen p)

    waiting :
        (seen pending : List Bytes)
        → (end.0).sent ≡ (p.sent ++ seen) ++ pending
        → (end.1).cursor ≡ length (p.sent ++ seen)
        → drop (end.1).cursor (end.0).sent ≡ pending
    waiting seen pending e c =
        let at : (end.1).cursor ≡ length (p.sent ++ seen) + 0 = omega (arith, c) in
        ap (λ i. drop i (end.0).sent) at
        ∙ ap (drop (length (p.sent ++ seen) + 0)) e
        ∙ drop-past 0 (p.sent ++ seen) pending
