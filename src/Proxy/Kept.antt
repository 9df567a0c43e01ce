-- ===== src/Proxy/Kept.antt =====
-- gpu-proxy-cpp/src/event_loop.cpp: the timeouts that a round leaves, as a function of the list.
use compute_market.Base.{
  ◌∙◌, append_assoc, ℕ, suc, ◌≡◌, refl, ap, Bool, true, false, List, [], ◌∷◌, ◌++◌, none, some,
  length, length-append, get_elem?, set, remove_at, arith, leb, if◌then◌else◌,
}
use compute_market.World.{Timeout}
use compute_market.EventLoop.Tables.{add64}
use compute_market.WorkerManager.Invariant.{Clockwork}

-- The timeouts after a round at `now`: one that is due is set again if it is recurring, and dropped if
-- it is not; the others stay.
unfoldable pub kept : ℕ → List Timeout → List Timeout
kept now [] = []
kept now (t ∷ ts) =
    if leb t.next_fire_ms now
    then (if t.recurring
        then record t { next_fire_ms = add64 now t.interval_ms } ∷ kept now ts
        else kept now ts)
    else t ∷ kept now ts

abbrev pub Frozen : List Timeout → Clockwork
Frozen before o ts r = ts ≡ before

abbrev pub AnyClock : Clockwork
AnyClock o ts r = Unit

pub get_elem?-here :
    (past rest : List Timeout) (t : Timeout) → get_elem? (past ++ t ∷ rest) (length past) ≡ some t
get_elem?-here [] rest t = refl
get_elem?-here (u ∷ past) rest t = get_elem?-here past rest t

pub get_elem?-end : (past : List Timeout) → get_elem? (past ++ []) (length past) ≡ none
get_elem?-end [] = refl
get_elem?-end (u ∷ past) = get_elem?-end past

set-here :
    (past rest : List Timeout) (t u : Timeout)
    → set (past ++ t ∷ rest) (length past) u ≡ (past ++ u ∷ []) ++ rest
set-here [] rest t u = refl
set-here (v ∷ past) rest t u = ap (λ ts. v ∷ ts) (set-here past rest t u)

remove_at-here :
    (past rest : List Timeout) (t : Timeout)
    → remove_at (past ++ t ∷ rest) (length past) ≡ past ++ rest
remove_at-here [] rest t = refl
remove_at-here (v ∷ past) rest t = ap (λ ts. v ∷ ts) (remove_at-here past rest t)

pub next_position :
    (past : List Timeout) (t : Timeout) → suc (length past) ≡ length (past ++ t ∷ [])
next_position past t = omega (arith, length-append past (t ∷ []))

pub kept-later :
    (now : ℕ) (t : Timeout) (ts : List Timeout)
    → leb t.next_fire_ms now ≡ false
    → kept now (t ∷ ts) ≡ t ∷ kept now ts
unfolding kept
kept-later now t ts e = rw (e, kept)

abbrev pub again_at : ℕ → Timeout → Timeout
again_at now t = record t { next_fire_ms = add64 now t.interval_ms }

if-first {ℓ} :
    {A : Type ℓ} (b c : Bool) (x y z : A)
    → b ≡ true
    → c ≡ true
    → (if b then (if c then x else y) else z) ≡ x
if-first b c x y z e h = ground arith

if-second {ℓ} :
    {A : Type ℓ} (b c : Bool) (x y z : A)
    → b ≡ true
    → c ≡ false
    → (if b then (if c then x else y) else z) ≡ y
if-second b c x y z e h = ground arith

pub kept-again :
    (now : ℕ) (t : Timeout) (ts : List Timeout)
    → leb t.next_fire_ms now ≡ true
    → t.recurring ≡ true
    → kept now (t ∷ ts) ≡ again_at now t ∷ kept now ts
unfolding kept
kept-again now t ts e h = if-first (leb t.next_fire_ms now) t.recurring _ _ _ e h

pub kept-once :
    (now : ℕ) (t : Timeout) (ts : List Timeout)
    → leb t.next_fire_ms now ≡ true
    → t.recurring ≡ false
    → kept now (t ∷ ts) ≡ kept now ts
unfolding kept
kept-once now t ts e h = if-second (leb t.next_fire_ms now) t.recurring _ _ _ e h

-- A write at the position after those that are done with.
pub set-past :
    (past rest : List Timeout) (i : ℕ) (t u : Timeout) (ts : List Timeout)
    → i ≡ length past
    → ts ≡ past ++ t ∷ rest
    → set ts i u ≡ (past ++ u ∷ []) ++ rest
set-past past rest i t u ts e h =
    ap (λ v. set v i u) h ∙ (ap (λ n. set (past ++ t ∷ rest) n u) e ∙ set-here past rest t u)

pub remove_at-past :
    (past rest : List Timeout) (i : ℕ) (t : Timeout) (ts : List Timeout)
    → i ≡ length past
    → ts ≡ past ++ t ∷ rest
    → remove_at ts i ≡ past ++ rest
remove_at-past past rest i t ts e h =
    ap (λ v. remove_at v i) h ∙ (ap (remove_at (past ++ t ∷ rest)) e ∙ remove_at-here past rest t)

-- One timeout moves over to those that are done with.
pub passed :
    (past rest : List Timeout) (t : Timeout) (now : ℕ)
    → (past ++ t ∷ []) ++ kept now rest ≡ past ++ t ∷ kept now rest
passed past rest t now = append_assoc past (t ∷ []) (kept now rest)
