-- ===== src/MacroNode/Attributes.antt =====
-- crates/tiny-io-oi-macros/src/lib.rs: the attributes of a field and the bindings that the macro
-- collects of them.
use Prim.Native.String.{String}
use text.Mathlib.Text.{◌==◌ as str_eq}
use text.Mathlib.TextEquality.{eq_iff}
use tiny_io_oi.Prelude.{
  ℕ, List, [], ◌∷◌, ◌++◌, Option, none, some, Bool, true, false, ◌&&◌, ◌≡◌, ◌⊎◌, inl, inr, refl,
  if◌then◌else◌, ◌∙◌, ap, if_rule, Bool-cases,
}
use tiny_io_oi.MacroNode.{Attribute, Bindings, bind, bind_if, collect_attrs}
use tiny_io_oi.MacroNode.Shutdown.{IsBound}

-- The attribute binds its field to a PWM.
pub record IsPwm (a : Attribute) : Type 0 where
  pub binds : a.is_bind ≡ true
  pub parses : a.parsed ≡ true
  pub has_channel : (ch : ℕ) × (a.channel ≡ some ch)
  pub is_pwm : a.strategy ≡ some "PWM"

abbrev pub AnyPwm : List Attribute → Type 0
AnyPwm [] = ⊥
AnyPwm (a ∷ attrs) = IsPwm a ⊎ AnyPwm attrs

IsBound-split :
    (name : String) (xs ys : List (String × ℕ))
    → IsBound name (xs ++ ys)
    → IsBound name xs ⊎ IsBound name ys
IsBound-split name [] ys b = inr b
IsBound-split name ((k, ch) ∷ xs) ys (inl e) = inl (inl e)
IsBound-split name ((k, ch) ∷ xs) ys (inr b) = elim (IsBound-split name xs ys b) [
  | inl l ↦ inl (inr l)
  | inr r ↦ inr r
]

IsBound-left :
    (name : String) (xs ys : List (String × ℕ)) → IsBound name xs → IsBound name (xs ++ ys)
IsBound-left name [] ys b = absurd b
IsBound-left name ((k, ch) ∷ xs) ys (inl e) = inl e
IsBound-left name ((k, ch) ∷ xs) ys (inr b) = inr (IsBound-left name xs ys b)

IsBound-last :
    (name : String) (ch : ℕ) (xs : List (String × ℕ)) → IsBound name (xs ++ (name, ch) ∷ [])
IsBound-last name ch [] = inl refl
IsBound-last name ch (x ∷ xs) = inr (IsBound-last name ch xs)

-- What an attribute adds.
abbrev after : String → Attribute → Bindings → Bindings
after k a b = if a.is_bind && a.parsed then bind_if k a.channel a.strategy b else b

bind_sound :
    (name k : String) (ch : ℕ) (strat : String) (b : Bindings)
    → IsBound name (bind k ch strat b).pwm
    → IsBound name b.pwm ⊎ ((k ≡ name) × (strat ≡ "PWM"))
bind_sound name k ch strat b = elim (Bool-cases (str_eq strat "PWM")) [
  | inl t ↦ rw t (λ bound. elim (IsBound-split name b.pwm ((k, ch) ∷ []) bound) [
    | inl l ↦ inl l
    | inr (inl e) ↦ inr (e, (eq_iff strat "PWM").0 t)
    | inr (inr x) ↦ absurd x
  ])
  | inr f ↦ rw f (
      if_rule (λ x. IsBound name x.pwm → IsBound name b.pwm ⊎ ((k ≡ name) × (strat ≡ "PWM")))
        (str_eq strat "GPIO") (record b { gpio = b.gpio ++ (k, ch) ∷ [] }) b (λ _. inl) (λ _. inl))
]

after_sound :
    (name k : String) (a : Attribute) (b : Bindings)
    → IsBound name (after k a b).pwm
    → IsBound name b.pwm ⊎ ((k ≡ name) × IsPwm a)
after_sound name k a b = go a.is_bind a.parsed a.channel a.strategy refl refl refl refl
  where
    go :
        (is_bind parsed : Bool) (channel : Option ℕ) (strategy : Option String)
        → a.is_bind ≡ is_bind
        → a.parsed ≡ parsed
        → a.channel ≡ channel
        → a.strategy ≡ strategy
        → IsBound name (if is_bind && parsed then bind_if k channel strategy b else b).pwm
        → IsBound name b.pwm ⊎ ((k ≡ name) × IsPwm a)
    go true true (some ch) (some strat) e1 e2 e3 e4 bound =
        elim (bind_sound name k ch strat b bound) [
          | inl l ↦ inl l
          | inr r ↦ inr (
            r.0,
            record { binds = e1; parses = e2; has_channel = (ch, e3); is_pwm = e4 ∙ ap some r.1 },
          )
        ]
    go true true none strategy e1 e2 e3 e4 bound = inl bound
    go true true (some ch) none e1 e2 e3 e4 bound = inl bound
    go true false channel strategy e1 e2 e3 e4 bound = inl bound
    go false parsed channel strategy e1 e2 e3 e4 bound = inl bound

bind-keeps :
    (name k : String) (ch : ℕ) (strat : String) (b : Bindings)
    → IsBound name b.pwm
    → IsBound name (bind k ch strat b).pwm
bind-keeps name k ch strat b bound =
    if_rule (λ x. IsBound name x.pwm) (str_eq strat "PWM")
      (record b { pwm = b.pwm ++ (k, ch) ∷ [] })
      (if str_eq strat "GPIO" then record b { gpio = b.gpio ++ (k, ch) ∷ [] } else b)
      (λ t. IsBound-left name b.pwm ((k, ch) ∷ []) bound)
      (λ f.
        if_rule (λ x. IsBound name x.pwm) (str_eq strat "GPIO")
          (record b { gpio = b.gpio ++ (k, ch) ∷ [] }) b (λ _. bound) (λ _. bound))

bind_if-keeps :
    (name k : String) (channel : Option ℕ) (strategy : Option String) (b : Bindings)
    → IsBound name b.pwm
    → IsBound name (bind_if k channel strategy b).pwm
bind_if-keeps name k (some ch) (some strat) b bound = bind-keeps name k ch strat b bound
bind_if-keeps name k (some ch) none b bound = bound
bind_if-keeps name k none strategy b bound = bound

after-keeps :
    (name k : String) (a : Attribute) (b : Bindings)
    → IsBound name b.pwm
    → IsBound name (after k a b).pwm
after-keeps name k a b bound =
    if_rule (λ x. IsBound name x.pwm) (a.is_bind && a.parsed) (bind_if k a.channel a.strategy b) b
      (λ t. bind_if-keeps name k a.channel a.strategy b bound) (λ f. bound)

after-IsPwm :
    (name : String) (a : Attribute) (b : Bindings) → IsPwm a → IsBound name (after name a b).pwm
after-IsPwm name a b pwm =
    rw (pwm.binds, pwm.parses, pwm.has_channel.1, pwm.is_pwm)
      (IsBound-last name pwm.has_channel.0 b.pwm)

pub collect_attrs_sound :
    (name k : String) (attrs : List Attribute) (b : Bindings)
    → IsBound name (collect_attrs k attrs b).pwm
    → IsBound name b.pwm ⊎ ((k ≡ name) × AnyPwm attrs)
unfolding collect_attrs
collect_attrs_sound name k [] b bound = inl bound
collect_attrs_sound name k (a ∷ attrs) b bound =
    elim (collect_attrs_sound name k attrs (after k a b) bound) [
      | inl l ↦ elim (after_sound name k a b l) [ inl x ↦ inl x | inr r ↦ inr (r.0, inl r.1) ]
      | inr r ↦ inr (r.0, inr r.1)
    ]

pub collect_attrs-keeps :
    (name k : String) (attrs : List Attribute) (b : Bindings)
    → IsBound name b.pwm
    → IsBound name (collect_attrs k attrs b).pwm
unfolding collect_attrs
collect_attrs-keeps name k [] b bound = bound
collect_attrs-keeps name k (a ∷ attrs) b bound =
    collect_attrs-keeps name k attrs (after k a b) (after-keeps name k a b bound)

pub collect_attrs-AnyPwm :
    (name : String) (attrs : List Attribute) (b : Bindings)
    → AnyPwm attrs
    → IsBound name (collect_attrs name attrs b).pwm
unfolding collect_attrs
collect_attrs-AnyPwm name [] b pwm = absurd pwm
collect_attrs-AnyPwm name (a ∷ attrs) b (inl pwm) =
    collect_attrs-keeps name name attrs (after name a b) (after-IsPwm name a b pwm)
collect_attrs-AnyPwm name (a ∷ attrs) b (inr later) =
    collect_attrs-AnyPwm name attrs (after name a b) later
