-- ===== src/Txrx/Cli/Colon.antt =====
-- Where a host and a port are split, and what an answer of the parser is.
use zyndra.Base.{
  ℕ, ◌⊎◌, ◌≡◌, refl, arith, [], ◌∷◌, ◌++◌, Bool, true, false, ◌==◌, if◌then◌else◌, none, some,
  Option-cases, inl, inr,
}
use zyndra.Txrx.Cli.{Text, CliCfg, Parse, config, leave, split_last_colon}

-- No colon in a text.
abbrev pub no_colon : Text → Bool
no_colon [] = true
no_colon (c ∷ cs) = if c == b':' then false else no_colon cs

colon_free : (s : Text) → split_last_colon s ≡ none → no_colon s ≡ true
unfolding split_last_colon
colon_free [] e = refl
colon_free (c ∷ cs) e = ground (arith, colon_free cs)

-- A split puts the text together again around a colon, and the part after it has no other.
pub split_last_colon-some :
    (s : Text) {h p : Text}
    → split_last_colon s ≡ some (h, p)
    → (h ++ b':' ∷ p ≡ s) × (no_colon p ≡ true)
unfolding split_last_colon
split_last_colon-some [] e = cc
split_last_colon-some (c ∷ cs) {h} {p} e = elim (Option-cases (split_last_colon cs)) [
  | inl last ↦ ground (arith, colon_free cs last)
  | inr ((a, b), found) ↦ ground (arith, split_last_colon-some cs found)
]

pub Parse-cases :
    {D : Type 0} (p : Parse D) → ((c : CliCfg D) × (p ≡ config c)) ⊎ ((n : ℕ) × (p ≡ leave n))
Parse-cases (config c) = inl (c, refl)
Parse-cases (leave n) = inr (n, refl)

pub guarded :
    {D : Type 0} (b : Bool) (p : Parse D) {c : CliCfg D}
    → (if b then p else leave 1) ≡ config c
    → (b ≡ true) × (p ≡ config c)
guarded true p e = (refl, e)
guarded false p e = cc
