-- ===== src/Stream/Backlog.antt =====
-- src/server/stream.rs: the burst stays within its bound, and what a producer has sent.
use mathlib.Core.List.{append-nil, append_assoc}
use togewire.Prelude.{
  ℕ, ◌+◌, ◌-◌, ◌%◌, ◌≤◌, ◌<◌, ◌^◌, ◌≡◌, refl, ◌∙◌, sym, ap, List, [], ◌∷◌, ◌++◌, length, ltb, arith,
  Bool-cases, inl, inr,
}
use togewire.Prelude.Words.{u64_modulus}
use togewire.Stream.Pipe.{Bytes, max_burst_buffer, Prefix, Pipe, trim, send, send_all}

unfoldable pub total_len : List Bytes → ℕ
total_len [] = 0
total_len (b ∷ bs) = length b + total_len bs

pub total_len-append : (xs ys : List Bytes) → total_len (xs ++ ys) ≡ total_len xs + total_len ys
unfolding total_len
total_len-append [] ys = omega arith
total_len-append (x ∷ xs) ys = omega (arith, total_len-append xs ys)

-- The byte count of the burst is exact, and the burst is within its bound.
pub record IsBounded (p : Prefix) : Type 0 where
  pub exact : p.burst_len ≡ total_len p.burst
  pub bounded : p.burst_len ≤ max_burst_buffer

abbrev IsExact : List Bytes × ℕ → Type 0
IsExact r = (r.1 ≡ total_len r.0) × (r.1 ≤ max_burst_buffer)

trim-total_len :
    (burst : List Bytes) (len : ℕ)
    → len ≡ total_len burst
    → len < u64_modulus
    → IsExact (trim burst len)
unfolding trim total_len
trim-total_len [] len e h = omega arith
trim-total_len (old ∷ burst) len e h = elim (Bool-cases (ltb max_burst_buffer len)) [
  | inl over ↦ rw over (trim-total_len burst _ (omega arith) (omega arith))
  | inr fits ↦ rw fits (e, ground arith)
]

pub trim-suffix :
    (burst : List Bytes) (len : ℕ) → (gone : List Bytes) × (burst ≡ gone ++ (trim burst len).0)
unfolding trim
trim-suffix [] len = ([], refl)
trim-suffix (old ∷ burst) len = elim (Bool-cases (ltb max_burst_buffer len)) [
  | inl over ↦
      let (gone, e) = trim-suffix burst ((len + u64_modulus - length old) % u64_modulus) in
      rw over (old ∷ gone, ap (◌∷◌ old) e)
  | inr fits ↦ rw fits ([], refl)
]

-- Every send of a page of at most 2^63 bytes keeps the burst within 128 KiB and its byte count
-- exact.
pub send-IsBounded :
    (page : Bytes) (p : Pipe)
    → length page ≤ 2 ^ 63
    → IsBounded p.prefix
    → IsBounded (send page p).prefix
unfolding send
send-IsBounded page p h b = record { exact = kept.0; bounded = kept.1 }
  where
    sum : (p.prefix.burst_len + length page) % u64_modulus ≡ total_len (p.prefix.burst ++ page ∷ [])
    sum =
        unfold total_len in
        omega (arith, b.exact, b.bounded, total_len-append p.prefix.burst (page ∷ []))

    kept :
        IsExact
          (trim (p.prefix.burst ++ page ∷ []) ((p.prefix.burst_len + length page) % u64_modulus))
    kept = trim-total_len (p.prefix.burst ++ page ∷ []) _ sum (omega arith)

abbrev pub AllShort : List Bytes → Type 0
AllShort [] = Unit {0}
AllShort (b ∷ bs) = (length b ≤ 2 ^ 63) × AllShort bs

pub send_all-IsBounded :
    (pages : List Bytes) (p : Pipe)
    → AllShort pages
    → IsBounded p.prefix
    → IsBounded (send_all pages p).prefix
unfolding send_all
send_all-IsBounded [] p h b = b
send_all-IsBounded (page ∷ pages) p h b =
    send_all-IsBounded pages (send page p) h.1 (send-IsBounded page p h.0 b)

pub sent-send_all : (pages : List Bytes) (p : Pipe) → (send_all pages p).sent ≡ p.sent ++ pages
unfolding send_all send
sent-send_all [] p = sym (append-nil p.sent)
sent-send_all (page ∷ pages) p =
    sent-send_all pages (send page p) ∙ append_assoc p.sent (page ∷ []) pages

pub headers-send_all :
    (pages : List Bytes) (p : Pipe) → (send_all pages p).prefix.headers ≡ p.prefix.headers
unfolding send_all send
headers-send_all [] p = refl
headers-send_all (page ∷ pages) p = headers-send_all pages (send page p)
