-- ===== src/Stream/Burst.antt =====
-- src/server/stream.rs: the burst is as long as its bound allows.
use mathlib.Core.List.{append-nil, append_assoc}
use togewire.Prelude.{
  ℕ, ◌+◌, ◌-◌, ◌%◌, ◌<◌, ◌^◌, ◌≤◌, ◌≡◌, refl, ◌∙◌, sym, ap, ◌⊎◌, inl, inr, List, [], ◌∷◌, ◌++◌,
  length, ltb, arith, Bool-cases,
}
use togewire.Prelude.Words.{u64_modulus}
use togewire.Stream.Pipe.{Bytes, max_burst_buffer, Pipe, trim, send, send_all}
use togewire.Stream.Backlog.{total_len, total_len-append, IsBounded, AllShort, send-IsBounded}

-- Of the pages `gone` and then `kept`, no more could have been kept.
abbrev pub IsFull : List Bytes → List Bytes → Type 0
IsFull gone kept =
    (gone ≡ [])
    ⊎ ((older : List Bytes) × (page : Bytes) × (gone ≡ older ++ page ∷ [])
        × (max_burst_buffer < total_len (page ∷ kept)))

IsFull-cons :
    (old : Bytes) (gone kept : List Bytes)
    → max_burst_buffer < length old + total_len (gone ++ kept)
    → IsFull gone kept
    → IsFull (old ∷ gone) kept
unfolding total_len
IsFull-cons old gone kept over (inl e) =
    let same : total_len (gone ++ kept) ≡ total_len kept = ap (λ g. total_len (g ++ kept)) e in
    inr ([], old, ap (◌∷◌ old) e, omega (arith, over, same))
IsFull-cons old gone kept over (inr (older, page, e, h)) =
    inr (old ∷ older, page, ap (◌∷◌ old) e, h)

trim-IsFull :
    (burst : List Bytes) (len : ℕ)
    → len ≡ total_len burst
    → len < u64_modulus
    → (gone : List Bytes) × (burst ≡ gone ++ (trim burst len).0) × IsFull gone (trim burst len).0
unfolding trim total_len
trim-IsFull [] len e h = ([], refl, inl refl)
trim-IsFull (old ∷ burst) len e h = elim (Bool-cases (ltb max_burst_buffer len)) [
  | inl over ↦
      let (gone, f, full) =
        trim-IsFull burst ((len + u64_modulus - length old) % u64_modulus) (omega arith)
          (omega arith) in
      let much : max_burst_buffer < len = ground arith in
      let whole = ap total_len f in
      rw over
        (old ∷ gone, ap (◌∷◌ old) f, IsFull-cons old gone _ (omega (arith, much, e, whole)) full)
  | inr fits ↦ rw fits ([], refl, inl refl)
]

IsFull-join :
    (gone burst : List Bytes) (page : Bytes) (gone' burst' : List Bytes)
    → burst ++ page ∷ [] ≡ gone' ++ burst'
    → IsFull gone burst
    → IsFull gone' burst'
    → IsFull (gone ++ gone') burst'
unfolding total_len
IsFull-join gone burst page gone' burst' e full (inr (older, old, f, h)) =
    inr (gone ++ older, old, ap (◌++◌ gone) f ∙ sym (append_assoc gone older (old ∷ [])), h)
IsFull-join gone burst page gone' burst' e (inl f) (inl f') = inl (ap (λ g. g ++ gone') f ∙ f')
IsFull-join gone burst page gone' burst' e (inr (older, old, f, h)) (inl f') =
    let same : gone ++ gone' ≡ older ++ old ∷ [] = ap (◌++◌ gone) f' ∙ append-nil gone ∙ f in
    let longer : total_len (burst ++ page ∷ []) ≡ total_len burst' =
      ap total_len e ∙ ap (λ g. total_len (g ++ burst')) f' in
    let sum = total_len-append burst (page ∷ []) in
    inr (older, old, same, omega (arith, h, longer, sum))

send-IsFull :
    (page : Bytes) (p : Pipe)
    → length page ≤ 2 ^ 63
    → IsBounded p.prefix
    → (gone : List Bytes) × (p.prefix.burst ++ page ∷ [] ≡ gone ++ (send page p).prefix.burst)
      × IsFull gone (send page p).prefix.burst
unfolding send total_len
send-IsFull page p h b =
    let sum = total_len-append p.prefix.burst (page ∷ []) in
    trim-IsFull (p.prefix.burst ++ page ∷ []) _ (omega (arith, sum, b.exact, b.bounded))
      (omega arith)

-- The burst after more sends, if `gone` went before it stood as it is.
pub burst-send_all :
    (pages : List Bytes) (p : Pipe) (gone : List Bytes)
    → AllShort pages
    → IsBounded p.prefix
    → IsFull gone p.prefix.burst
    → (gone' : List Bytes) × (gone ++ p.prefix.burst ++ pages
        ≡ gone' ++ (send_all pages p).prefix.burst)
      × IsFull gone' (send_all pages p).prefix.burst
unfolding send_all
burst-send_all [] p gone h b full = (gone, append-nil (gone ++ p.prefix.burst), full)
burst-send_all (page ∷ pages) p gone h b full =
    let (out, e, f) = send-IsFull page p h.0 b in
    let next = send page p in
    let (gone', e', f') =
      burst-send_all pages next (gone ++ out) h.1 (send-IsBounded page p h.0 b)
        (IsFull-join gone p.prefix.burst page out next.prefix.burst e full f) in
    (gone', split out next.prefix.burst e ∙ e', f')
  where
    split :
        (out kept : List Bytes)
        → p.prefix.burst ++ page ∷ [] ≡ out ++ kept
        → gone ++ p.prefix.burst ++ page ∷ pages ≡ gone ++ out ++ kept ++ pages
    split out kept e =
        append_assoc gone p.prefix.burst (page ∷ pages)
        ∙ ap (◌++◌ gone)
            (sym (append_assoc p.prefix.burst (page ∷ []) pages) ∙ ap (λ b'. b' ++ pages) e)
        ∙ sym (append_assoc gone (out ++ kept) pages)
        ∙ ap (λ g. g ++ pages) (sym (append_assoc gone out kept))
