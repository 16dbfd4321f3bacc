-- ===== src/Server/Forwarded.antt =====
-- src/server/mod.rs: a client cannot choose the address it is counted by.
use mathlib.Core.List.{reverse_aux}
use togewire.Prelude.{
  ℕ, ◌⊎◌, Bool, true, false, Option, none, some, List, [], ◌∷◌, ◌++◌, Text, arith, ◌≡◌, refl, ap,
  Bool-cases, inl, inr,
}
use togewire.Config.{trim}
use togewire.Server.Addresses.{
  IpAddr, Net, to_canonical, is_trusted_proxy, split, split_first, is_comma, rsplit, hops, walk,
  forwarded_client_ip, client_key, or_peer, client_ip,
}

-- A text with no comma in it.
abbrev pub NoComma : Text → Type 0
NoComma [] = Unit {0}
NoComma (c ∷ s) = (is_comma c ≡ false) × NoComma s

split-NoComma : (hop : Text) → NoComma hop → split is_comma hop ≡ hop ∷ []
unfolding split split_first
split-NoComma [] h = refl
split-NoComma (c ∷ s) h = let ih = split-NoComma s h.1 in rw (h.0, ih) refl

split-cons : (p : ℕ → Bool) (t : Text) → (s : Text) × (ss : List Text) × (split p t ≡ s ∷ ss)
unfolding split split_first
split-cons p [] = ([], [], refl)
split-cons p (c ∷ t) =
    let (s, ss, e) = split-cons p t in
    elim (Bool-cases (p c)) [
      | inl q ↦ ([], split p t, rw q refl)
      | inr q ↦ (c ∷ s, ss, rw (q, e) refl)
    ]

split-append :
    (claims hop : Text)
    → NoComma hop
    → split is_comma (claims ++ b',' ∷ hop) ≡ split is_comma claims ++ hop ∷ []
unfolding split split_first
split-append [] hop h = rw (split-NoComma hop h) refl
split-append (c ∷ s) hop h =
    let ih = split-append s hop h in
    let (t, ts, e) = split-cons is_comma s in
    elim (Bool-cases (is_comma c)) [ inl q ↦ rw (q, ih) refl | inr q ↦ rw (q, ih, e) refl ]

reverse_aux-snoc :
    (xs acc : List Text) (x : Text) → reverse_aux (xs ++ x ∷ []) acc ≡ x ∷ reverse_aux xs acc
reverse_aux-snoc [] acc x = refl
reverse_aux-snoc (y ∷ ys) acc x = reverse_aux-snoc ys (y ∷ acc) x

-- The last element of the last value is the nearest hop.
hops-last :
    (earlier : List (Option Text)) (claims hop : Text)
    → NoComma hop
    → (further : List Text) × (hops (earlier ++ some (claims ++ b',' ∷ hop) ∷ []) ≡ hop ∷ further)
unfolding hops rsplit
hops-last [] claims hop n = (
  reverse_aux (split is_comma claims) [],
  rw (split-append claims hop n) (reverse_aux-snoc (split is_comma claims) [] hop),
)
hops-last (none ∷ vs) claims hop n =
    let (further, e) = hops-last vs claims hop n in (further ++ [] ∷ [], ap (λ z. z ++ [] ∷ []) e)
hops-last (some v ∷ vs) claims hop n =
    let (further, e) = hops-last vs claims hop n in (further ++ rsplit v, ap (λ z. z ++ rsplit v) e)

module _ (net : Net) where
  walk-public :
      (hop : Text) (rest : List Text) (ip : IpAddr)
      → net.parse (trim hop) ≡ some ip
      → is_trusted_proxy ip ≡ false
      → walk net (hop ∷ rest) none ≡ some ip
  unfolding walk
  walk-public hop rest ip e f = ground arith

  -- A request from a trusted proxy counts for the address that the proxy has put behind the last comma,
  -- if that is a public one, whatever stands before it in that value or in values before it. A request
  -- from any other peer counts for the peer's address, whatever the values are.
  pub client_ip-unforgeable :
      (proxy ip : IpAddr) (earlier : List (Option Text)) (claims hop : Text) (peer : IpAddr)
      (values : List (Option Text))
      → NoComma hop
      → net.parse (trim hop) ≡ some ip
      → is_trusted_proxy ip ≡ false
      → is_trusted_proxy proxy ≡ true
      → (client_ip net (earlier ++ some (claims ++ b',' ∷ hop) ∷ []) proxy
          ≡ client_key net (to_canonical ip))
        × ((is_trusted_proxy peer ≡ true)
            ⊎ (client_ip net values peer ≡ client_key net (to_canonical peer)))
  unfolding client_ip forwarded_client_ip or_peer
  client_ip-unforgeable proxy ip earlier claims hop peer values n e f t =
      let (further, g) = hops-last earlier claims hop n in
      (
        rw (t, g, walk-public hop further ip e f) refl,
        elim (Bool-cases (is_trusted_proxy peer)) [ inl q ↦ inl q | inr q ↦ inr (rw q refl) ],
      )
