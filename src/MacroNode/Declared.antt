-- ===== src/MacroNode/Declared.antt =====
-- crates/tiny-io-oi-macros/src/lib.rs: the attributes of a struct and the bindings that the macro
-- collects of them.
use Prim.Native.String.{String}
use tiny_io_oi.Prelude.{ℕ, List, [], ◌∷◌, Option, none, some, ◌≡◌, ◌⊎◌, inl, inr, sym, ap, subst}
use tiny_io_oi.MacroNode.{Field, Item, Bindings, collect_attrs, collect, expand}
use tiny_io_oi.MacroNode.Shutdown.{IsBound}
use tiny_io_oi.MacroNode.Attributes.{
  AnyPwm, collect_attrs_sound, collect_attrs-keeps, collect_attrs-AnyPwm,
}

-- One of the fields has the name and an attribute that binds it to a PWM.
abbrev pub IsDeclared : List Field → String → Type 0
IsDeclared [] name = ⊥
IsDeclared (f ∷ fields) name = ((f.name ≡ name) × AnyPwm f.attrs) ⊎ IsDeclared fields name

collect_sound :
    (name : String) (fields : List Field) (b : Bindings)
    → IsBound name (collect fields b).pwm
    → IsBound name b.pwm ⊎ IsDeclared fields name
unfolding collect
collect_sound name [] b bound = inl bound
collect_sound name (f ∷ fields) b bound =
    elim (collect_sound name fields (collect_attrs f.name f.attrs b) bound) [
      | inl l ↦ elim (collect_attrs_sound name f.name f.attrs b l) [
        | inl x ↦ inl x
        | inr r ↦ inr (inl r)
      ]
      | inr r ↦ inr (inr r)
    ]

collect-keeps :
    (name : String) (fields : List Field) (b : Bindings)
    → IsBound name b.pwm
    → IsBound name (collect fields b).pwm
unfolding collect
collect-keeps name [] b bound = bound
collect-keeps name (f ∷ fields) b bound =
    collect-keeps name fields (collect_attrs f.name f.attrs b)
      (collect_attrs-keeps name f.name f.attrs b bound)

collect-IsDeclared :
    (name : String) (fields : List Field) (b : Bindings)
    → IsDeclared fields name
    → IsBound name (collect fields b).pwm
unfolding collect
collect-IsDeclared name [] b declared = absurd declared
collect-IsDeclared name (f ∷ fields) b (inl d) =
    collect-keeps name fields (collect_attrs f.name f.attrs b) (
      subst (λ k. IsBound name (collect_attrs k f.attrs b).pwm) (sym d.0)
        (collect_attrs-AnyPwm name f.attrs b d.1))
collect-IsDeclared name (f ∷ fields) b (inr later) =
    collect-IsDeclared name fields (collect_attrs f.name f.attrs b) later

pwm_or_none : Option Bindings → List (String × ℕ)
pwm_or_none none = []
pwm_or_none (some b) = b.pwm

-- The fields that an expanded struct stops are those whose attributes bind them to a PWM.
pub expand-IsDeclared :
    (fields : List Field) (b : Bindings) (name : String)
    → expand (Item.named fields) ≡ some b
    → (IsBound name b.pwm → IsDeclared fields name) × (IsDeclared fields name → IsBound name b.pwm)
unfolding expand pwm_or_none
expand-IsDeclared fields b name e =
    let start : Bindings = record { pwm = []; gpio = [] } in
    let same = ap pwm_or_none e in
    (
      λ bound. elim (collect_sound name fields start (subst (IsBound name) (sym same) bound)) [
        | inl x ↦ absurd x
        | inr r ↦ r
      ],
      λ declared. subst (IsBound name) same (collect-IsDeclared name fields start declared),
    )
