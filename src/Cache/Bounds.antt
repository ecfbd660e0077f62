-- ===== src/Cache/Bounds.antt =====
-- crates/tiny-io-oi/src/node.rs: what the cache of a node may hold.
use tiny_io_oi.Prelude.{
  ℕ, ◌-◌, ◌≤◌, List, [], ◌∷◌, ◌++◌, Bool, false, ◌≡◌, ◌≢◌, refl, arith, leb, if_rule, Bool-cases,
  inl, inr, sym, length, length-append, All, keep, same, same_iff,
}
use tiny_io_oi.Gossip.{GossipAssertion}
use tiny_io_oi.Cache.{expire, has_sender, renew, remember, hear, parse_assertion}

-- No entry of this sender.
abbrev pub Lacks : List ℕ → List GossipAssertion → Type 0
Lacks mac = All (λ e. e.sender_mac ≢ mac)

-- No two entries of one sender.
abbrev pub OnePerSender : List GossipAssertion → Type 0
OnePerSender [] = Unit
OnePerSender (e ∷ es) = Lacks e.sender_mac es × OnePerSender es

pub record IsCache (cache : List GossipAssertion) : Type 0 where
  pub bounded : length cache ≤ 8
  pub unique : OnePerSender cache

length-keep : {A : Type 0} (p : A → Bool) (xs : List A) → length (keep p xs) ≤ length xs
length-keep p [] = omega arith
length-keep p (x ∷ xs) = ground (arith, length-keep p xs)

keep-Lacks :
    (p : GossipAssertion → Bool) (mac : List ℕ) (es : List GossipAssertion)
    → Lacks mac es
    → Lacks mac (keep p es)
keep-Lacks p mac [] l = tt
keep-Lacks p mac (e ∷ es) l = ground (arith, l.0, keep-Lacks p mac es l.1)

keep-OnePerSender :
    (p : GossipAssertion → Bool) (es : List GossipAssertion)
    → OnePerSender es
    → OnePerSender (keep p es)
keep-OnePerSender p [] u = tt
keep-OnePerSender p (e ∷ es) u =
    if_rule OnePerSender (p e) (e ∷ keep p es) (keep p es)
      (λ t. (keep-Lacks p e.sender_mac es u.0, keep-OnePerSender p es u.1))
      (λ f. keep-OnePerSender p es u.1)

has_sender-Lacks :
    (es : List GossipAssertion) (mac : List ℕ) → has_sender es mac ≡ false → Lacks mac es
has_sender-Lacks [] mac h = tt
has_sender-Lacks (e ∷ es) mac h =
    (λ q. ground (arith, (same_iff e.sender_mac mac).1 q), has_sender-Lacks es mac (ground arith))

length-renew : (es : List GossipAssertion) (a : GossipAssertion) → length (renew es a) ≡ length es
length-renew [] a = refl
length-renew (e ∷ es) a = ground (arith, length-renew es a)

renew-Lacks :
    (es : List GossipAssertion) (a : GossipAssertion) (mac : List ℕ)
    → Lacks mac es
    → Lacks mac (renew es a)
renew-Lacks [] a mac l = tt
renew-Lacks (e ∷ es) a mac l =
    if_rule (Lacks mac) (same e.sender_mac a.sender_mac) _ _ (λ t. (l.0, l.1))
      (λ f. (l.0, renew-Lacks es a mac l.1))

renew-OnePerSender :
    (es : List GossipAssertion) (a : GossipAssertion) → OnePerSender es → OnePerSender (renew es a)
renew-OnePerSender [] a u = tt
renew-OnePerSender (e ∷ es) a u =
    if_rule OnePerSender (same e.sender_mac a.sender_mac) _ _ (λ t. (u.0, u.1))
      (λ f. (renew-Lacks es a e.sender_mac u.0, renew-OnePerSender es a u.1))

append_one-Lacks :
    (es : List GossipAssertion) (a : GossipAssertion) (mac : List ℕ)
    → Lacks mac es
    → a.sender_mac ≢ mac
    → Lacks mac (es ++ a ∷ [])
append_one-Lacks [] a mac l ne = (ne, tt)
append_one-Lacks (e ∷ es) a mac l ne = (l.0, append_one-Lacks es a mac l.1 ne)

append_one-OnePerSender :
    (es : List GossipAssertion) (a : GossipAssertion)
    → OnePerSender es
    → Lacks a.sender_mac es
    → OnePerSender (es ++ a ∷ [])
append_one-OnePerSender [] a u l = (tt, tt)
append_one-OnePerSender (e ∷ es) a u l = (
  append_one-Lacks es a e.sender_mac u.0 (λ q. l.0 (sym q)),
  append_one-OnePerSender es a u.1 l.1,
)

-- The expiry of old assertions keeps the cache within eight entries and one for each sender.
pub expire-IsCache :
    (now : ℕ) (cache : List GossipAssertion) → IsCache cache → IsCache (expire now cache)
unfolding expire
expire-IsCache now cache c = record {
  bounded = omega (arith, c.bounded, length-keep (λ a. leb (now - a.timestamp_us) 5_000_000) cache);
  unique = keep-OnePerSender _ cache c.unique;
}

remember-IsCache :
    (cache : List GossipAssertion) (a : GossipAssertion)
    → IsCache cache
    → IsCache (remember cache a)
unfolding remember
remember-IsCache cache a c = elim (Bool-cases (has_sender cache a.sender_mac)) [
  | inl t ↦ rw t (record {
    bounded = omega (arith, c.bounded, length-renew cache a);
    unique = renew-OnePerSender cache a c.unique;
  })
  | inr f ↦ rw f (
      if_rule IsCache (leb 8 (length cache)) cache (cache ++ a ∷ []) (λ t. c)
        (λ t. record {
          bounded = ground (arith, length-append cache (a ∷ []));
          unique = append_one-OnePerSender cache a c.unique (has_sender-Lacks cache a.sender_mac f);
        }))
]

-- A gossip message, whatever its payload, keeps the cache within eight entries and one for each
-- sender.
pub hear-IsCache :
    (payload : List ℕ) (cache : List GossipAssertion) → IsCache cache → IsCache (hear payload cache)
unfolding hear
hear-IsCache payload cache c =
    if_rule IsCache (leb 16 (length payload)) (remember cache (parse_assertion payload)) cache
      (λ t. remember-IsCache cache (parse_assertion payload) c) (λ f. c)
