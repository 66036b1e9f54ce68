-- ===== src/Axi/Rx/Interleave/Order.antt =====
-- States that differ only in the order of the calls in their history.
use mathlib.Core.List.Perm
use mathlib.Core.List.{Perm}
use zyndra.Base.{◌≡◌, refl, sym, List, subst}
use zyndra.Axi.State.{Priv, Effect}

-- The same state, but for the order of the calls in the history.
pub record SameButOrder (p q : Priv) : Type 0 where
  pub history : List Effect
  pub same : q ≡ record p { effects = history }
  pub order : Perm p.effects history

pub SameButOrder-refl : (p : Priv) → SameButOrder p p
SameButOrder-refl p = record { history = p.effects; same = refl; order = Perm.rfl }

pub reorder :
    {p : Priv} {es : List Effect} → Perm p.effects es → SameButOrder p (record p { effects = es })
reorder {es} h = record { history = es; same = refl; order = h }

pub SameButOrder-ind :
    {p q : Priv} (P : Priv → Type 0)
    → ((es : List Effect) → Perm p.effects es → P (record p { effects = es }))
    → SameButOrder p q
    → P q
SameButOrder-ind P f h = subst P (sym h.same) (f h.history h.order)

pub SameButOrder-trans : {p q r : Priv} → SameButOrder p q → SameButOrder q r → SameButOrder p r
SameButOrder-trans {p} {r} h =
    SameButOrder-ind (λ q. SameButOrder q r → SameButOrder p r)
      (λ es π. SameButOrder-ind (SameButOrder p) (λ fs ρ. reorder (Perm.trans π ρ))) h
