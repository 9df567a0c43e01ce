-- ===== src/Tls/Ledger.antt =====
-- gpu-proxy-cpp/src/ssl_utils.cpp: the discipline of the resources. A resource is released once, the
-- newest first, and used only while it is held.
use compute_market.Base.{
  ◌≡◌, ap, ◌∙◌, Bool, true, false, ◌||◌, List, [], ◌∷◌, ◌++◌, Option, none, some, ◌==◌,
  if◌then◌else◌, arith, inl, inr, Option-cases,
}
use mathlib.Core.Option.{some-injective}
use compute_market.Base.Text.{Text}
use compute_market.Tls.Receive.{until_nul}
use compute_market.Tls.State.{
  Resource, descriptor, context, session, Call, acquired, used, released, took,
}

unfoldable same : Resource → Resource → Bool
same (descriptor m) (descriptor n) = m == n
same (context m) (context n) = m == n
same (session m) (session n) = m == n
same _ _ = false

unfoldable pub holds : Resource → List Resource → Bool
unfolding same
holds r [] = false
holds r (q ∷ qs) = same r q || holds r qs

release_top : Resource → List Resource → Option (List Resource)
unfolding same
release_top r [] = none
release_top r (q ∷ qs) = if same r q then some qs else none

-- What is held, and what was read so far, each buffer up to its first zero.
abbrev pub Ledger : Type 0
Ledger = List Resource × Text

-- The ledger after a call; `none` where the discipline is broken.
unfoldable pub step : Call → Ledger → Option Ledger
unfolding release_top
step (acquired r) (held, read) = some (r ∷ held, read)
step (used r) (held, read) = if holds r held then some (held, read) else none
step (released r) (held, read) = elim (release_top r held) [
  | none ↦ none
  | some rest ↦ some (rest, read)
]
step (took s) (held, read) = some (held, read ++ until_nul s)

unfoldable pub replay : List Call → Ledger → Option Ledger
replay [] l = some l
replay (c ∷ cs) l = elim (step c l) [ none ↦ none | some next ↦ replay cs next ]

none_ne_some : {l : Ledger} → ◌≡◌ {A = Option Ledger} none (some l) → ⊥
none_ne_some e = cc

step_last : (c : Call) (l : Ledger) → replay (c ∷ []) l ≡ step c l
unfolding replay
step_last c l = elim (Option-cases (step c l)) [
  | inl e ↦ rw (e, replay)
  | inr (next, e) ↦ rw (e, replay)
]

-- The history goes on with a call.
pub replay-snoc :
    (cs : List Call) (c : Call) (before l : Ledger)
    → replay cs before ≡ some l
    → replay (cs ++ c ∷ []) before ≡ step c l
unfolding replay
replay-snoc [] c before l e = step_last c before ∙ ap (step c) (some-injective _ _ e)
replay-snoc (d ∷ cs) c before l e = elim (Option-cases (step d before)) [
  | inl n ↦ absurd (none_ne_some (rw (n, replay) at e))
  | inr (next, n) ↦ rw (n, replay) (replay-snoc cs c next l (rw (n, replay) at e))
]

pub step_used :
    (r : Resource) (held : List Resource) (read : Text)
    → holds r held ≡ true
    → step (used r) (held, read) ≡ some (held, read)
unfolding step
step_used r held read h = rw (h, step)

same_refl : (r : Resource) → same r r ≡ true
unfolding same
same_refl (descriptor n) = ground arith
same_refl (context n) = ground arith
same_refl (session n) = ground arith

pub holds_head : (r : Resource) (held : List Resource) → holds r (r ∷ held) ≡ true
unfolding holds
holds_head r held = rw (same_refl r, holds)

pub step_released :
    (r : Resource) (held : List Resource) (read : Text)
    → step (released r) (r ∷ held, read) ≡ some (held, read)
unfolding step release_top
step_released r held read = rw (same_refl r, step, release_top)

pub holds_tail :
    (r q : Resource) (held : List Resource) → holds r held ≡ true → holds r (q ∷ held) ≡ true
unfolding holds
holds_tail r q held h = ground arith
