-- ===== src/Spotify/Costs.antt =====
-- src/spotify.rs: how many requests an operation sends, and that it uses the answers in turn.
use togewire.Prelude.{
  ℕ, ◌+◌, ◌≤◌, ◌≡◌, refl, ◌∙◌, ◌⊎◌, inl, inr, Bool, true, false, Option, none, some, List, [], ◌∷◌,
  arith, if◌then◌else◌, length,
}
use togewire.Spotify.Client.{Answer, Request, Client, Failure, Result, ok, failed, exchange}

pub List-cases {ℓ} :
    {A : Type ℓ} (xs : List A) → (xs ≡ []) ⊎ ((a : A) × (as' : List A) × (xs ≡ a ∷ as'))
List-cases [] = inl refl
List-cases (a ∷ as') = inr (a, as', refl)

-- What is left of the answers is a tail of what there was.
pub data Later : List Answer → List Answer → Type 0 where
  same : (as' : List Answer) → Later as' as'
  used : (a : Answer) (as' bs : List Answer) → Later as' bs → Later (a ∷ as') bs

pub Later-trans : {as' bs cs : List Answer} → Later as' bs → Later bs cs → Later as' cs
Later-trans (same _) l = l
Later-trans (used a as' bs k) l = used a as' _ (Later-trans k l)

pub Later-exchange : (r : Request) (c : Client) → Later c.answers (exchange r c).0.answers
unfolding exchange
Later-exchange r c = elim (List-cases c.answers) [
  | inl e ↦ rw e (same [])
  | inr (a, rest, e) ↦ rw e (used a rest rest (same rest))
]

pub sent-exchange : (r : Request) (c : Client) → (exchange r c).0.sent ≡ r ∷ c.sent
unfolding exchange
sent-exchange r c = elim (List-cases c.answers) [ inl e ↦ rw e refl | inr (a, rest, e) ↦ rw e refl ]

kept-exchange :
    (r : Request) (c : Client) → (exchange r c).0.track_metadata_cache ≡ c.track_metadata_cache
unfolding exchange
kept-exchange r c = elim (List-cases c.answers) [ inl e ↦ rw e refl | inr (a, rest, e) ↦ rw e refl ]

-- A step that sends at most `n` requests, uses the answers in turn and keeps the cached metadata.
pub record Costs (n : ℕ) (c c' : Client) : Type 0 where
  pub later : Later c.answers c'.answers
  pub few : length c'.sent ≤ n + length c.sent
  pub kept : c'.track_metadata_cache ≡ c.track_metadata_cache

pub Costs-none : (c : Client) → Costs 0 c c
Costs-none c = record { later = same c.answers; few = omega arith; kept = refl }

pub Costs-exchange : (r : Request) (c : Client) → Costs 1 c (exchange r c).0
Costs-exchange r c = record {
  later = Later-exchange r c;
  few = rw (sent-exchange r c) (omega arith);
  kept = kept-exchange r c;
}

pub Costs-trans : (m n : ℕ) (c d e : Client) → Costs m c d → Costs n d e → Costs (m + n) c e
Costs-trans m n c d e h k =
    let a = h.few in
    let b = k.few in
    record { later = Later-trans h.later k.later; few = omega arith; kept = k.kept ∙ h.kept }

pub Costs-le : (m n : ℕ) (c d : Client) → m ≤ n → Costs m c d → Costs n c d
Costs-le m n c d le h =
    let a = h.few in record { later = h.later; few = omega arith; kept = h.kept }

-- Steps that branch cost what their branches cost.
pub Costs-if {ℓ} :
    {A : Type ℓ} (n : ℕ) (c : Client) (b : Bool) (x y : Client × A)
    → Costs n c x.0
    → Costs n c y.0
    → Costs n c (if b then x else y).0
Costs-if n c true x y h k = h
Costs-if n c false x y h k = k

module _ {ℓ κ} {A : Type ℓ} {B : Type κ} (n : ℕ) (c : Client) where
  pub Costs-option :
      (o : Option B) (x : Client × A) (f : B → Client × A)
      → Costs n c x.0
      → ((b : B) → Costs n c (f b).0)
      → Costs n c (elim o as (λ _. Client × A) [ none ↦ x | some b ↦ f b ]).0
  Costs-option none x f h k = h
  Costs-option (some b) x f h k = k b

  pub Costs-result :
      (o : Result B) (x : Failure → Client × A) (f : B → Client × A)
      → ((why : Failure) → Costs n c (x why).0)
      → ((b : B) → Costs n c (f b).0)
      → Costs n c (elim o as (λ _. Client × A) [ failed why ↦ x why | ok b ↦ f b ]).0
  Costs-result (failed why) x f h k = h why
  Costs-result (ok b) x f h k = k b

-- A step on the client that sends nothing.
pub Costs-quiet :
    (n : ℕ) (c d e : Client)
    → Costs n c d
    → e.answers ≡ d.answers
    → e.sent ≡ d.sent
    → e.track_metadata_cache ≡ d.track_metadata_cache
    → Costs n c e
Costs-quiet n c d e h p q k = record { later = rw p h.later; few = rw q h.few; kept = k ∙ h.kept }

pub Costs-free : (n : ℕ) (c : Client) → Costs n c c
Costs-free n c = Costs-le 0 n c c (omega arith) (Costs-none c)
