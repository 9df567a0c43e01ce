-- ===== src/Connection/Moves/Releases.antt =====
-- gpu-proxy-cpp/src/connection.cpp: what a move gives back, and what becomes of the object that was
-- moved from.
use compute_market.Base.{
  ℕ, ◌≡◌, ◌≢◌, refl, ap, sym, ◌∙◌, Bool, true, false, List, [], ◌∷◌, ◌++◌, Option, none, some, ◌==◌,
  arith, append_assoc, append-nil,
}
use compute_market.Base.Table.{find, assign, find-assign_self, find-assign_ne}
use compute_market.Connection.Moves.{
  Impl, Object, Release, shut_down, freed_session, freed_context, closed, Memory, M, ◌>>◌, when,
  release, read, write, close_fd, Rest, moved_from, move_construct, move_assign, destroy_object,
}

-- What an object holds, in the order in which an assignment gives it back.
abbrev close_of : Option ℕ → List Release
close_of none = []
close_of (some fd) = closed fd ∷ []

abbrev if_set : Bool → List Release → List Release
if_set true rs = rs
if_set false rs = []

abbrev pub dropped : Object → Impl → List Release
dropped o i =
    close_of o.fd ++ (if_set i.ssl (freed_session ∷ []) ++ if_set i.ctx (freed_context ∷ []))

-- And in the order of the destructor.
abbrev pub destroyed : Object → Impl → List Release
destroyed o i =
    if_set i.ssl (shut_down ∷ freed_session ∷ [])
    ++ (if_set i.ctx (freed_context ∷ []) ++ close_of o.fd)

abbrev pub given : List Release → Memory → Memory
given rs w = record w { released = w.released ++ rs }

given-append : (rs qs : List Release) (w : Memory) → given qs (given rs w) ≡ given (rs ++ qs) w
given-append rs qs w =
    ap (λ t. record { objects = w.objects; released = t }) (append_assoc w.released rs qs)

given-nil : (w : Memory) → given [] w ≡ w
given-nil w = ap (λ t. record { objects = w.objects; released = t }) (append-nil w.released)

when-given :
    (b : Bool) (rs : List Release) (m : M (Unit {0})) (w : Memory)
    → m w ≡ some (tt, given rs w)
    → when b m w ≡ some (tt, given (if_set b rs) w)
when-given true rs m w h = h
when-given false rs m w h = ap (λ v. some (tt, v)) (sym (given-nil w))

close_fd-given : (fd : Option ℕ) (w : Memory) → close_fd fd w ≡ some (tt, given (close_of fd) w)
close_fd-given none w = ap (λ v. some (tt, v)) (sym (given-nil w))
close_fd-given (some fd) w = refl

read-some : (a : ℕ) (o : Object) (w : Memory) → find a w.objects ≡ some o → read a w ≡ some (o, w)
unfolding read
read-some a o w h = rw (h, read)

-- An object whose implementation has been moved away cannot be destroyed.
destroy_object-null :
    (a : ℕ) (o : Object) (w : Memory)
    → find a w.objects ≡ some o
    → o.pimpl ≡ none
    → destroy_object a w ≡ none
unfolding destroy_object
destroy_object-null a o w h n = rw (read-some a o w h, n)

destroy_object-some :
    (a : ℕ) (o : Object) (i : Impl) (w : Memory)
    → find a w.objects ≡ some o
    → o.pimpl ≡ some i
    → destroy_object a w ≡ some (tt, given (destroyed o i) w)
unfolding destroy_object
destroy_object-some a o i w h n =
    let tls = if_set i.ssl (shut_down ∷ freed_session ∷ []) in
    let context = if_set i.ctx (freed_context ∷ []) in
    rw
      (
        read-some a o w h,
        n,
        when-given i.ssl (shut_down ∷ freed_session ∷ [])
            (release shut_down >> release freed_session) w
            (ap (λ v. some (tt, v)) (given-append (shut_down ∷ []) (freed_session ∷ []) w)),
        when-given i.ctx (freed_context ∷ []) (release freed_context) (given tls w) refl,
        close_fd-given o.fd (given context (given tls w)),
      )
      (ap (λ v. some (tt, v))
        (given-append context (close_of o.fd) (given tls w)
          ∙ given-append tls (context ++ close_of o.fd) w))

-- The objects after a move.
abbrev pub moved : Rest → ℕ → ℕ → Object → Memory → Memory
moved rest a other o w = record w {
  objects = assign other (moved_from rest o) (assign a o w.objects);
}

move_construct-some :
    (rest : Rest) (a other : ℕ) (o : Object) (w : Memory)
    → find other w.objects ≡ some o
    → move_construct rest a other w ≡ some (tt, moved rest a other o w)
unfolding move_construct write
move_construct-some rest a other o w h = rw (read-some other o w h)

move_assign-some :
    (rest : Rest) (a other : ℕ) (x y : Object) (i : Impl) (w : Memory)
    → a ≢ other
    → find a w.objects ≡ some x
    → x.pimpl ≡ some i
    → find other w.objects ≡ some y
    → move_assign rest a other w ≡ some (tt, given (dropped x i) (moved rest a other y w))
unfolding move_assign write
move_assign-some rest a other x y i w ne h n k =
    let shut : (a == other) ≡ false = ground arith in
    let tls = if_set i.ssl (freed_session ∷ []) in
    let context = if_set i.ctx (freed_context ∷ []) in
    let before = given (close_of x.fd) w in
    rw
      (
        shut,
        read-some a x w h,
        close_fd-given x.fd w,
        n,
        when-given i.ssl (freed_session ∷ []) (release freed_session) before refl,
        when-given i.ctx (freed_context ∷ []) (release freed_context) (given tls before) refl,
        read-some other y (given context (given tls before)) k,
      )
      (ap (λ v. some (tt, moved rest a other y v))
        (given-append tls context before ∙ given-append (close_of x.fd) (tls ++ context) w))

-- Where the object that is moved from ends up.
moved_from-found :
    (rest : Rest) (a other : ℕ) (o : Object) (w : Memory)
    → find other (moved rest a other o w).objects ≡ some (moved_from rest o)
moved_from-found rest a other o w = find-assign_self other _ _

moved_to-found :
    (rest : Rest) (a other : ℕ) (o : Object) (w : Memory)
    → a ≢ other
    → find a (moved rest a other o w).objects ≡ some o
moved_to-found rest a other o w ne =
    find-assign_ne other a _ _ (λ e. ne (sym e)) ∙ find-assign_self a o w.objects

-- An assignment from another object gives back what the target held, its descriptor, session and
-- context, once each; the target is then the other object, and its destructor gives back what that
-- one held. But the destructor of an object that was moved from, by construction or by assignment,
-- is undefined behaviour: it dereferences the pointer that was moved away.
pub move_assign-destroy :
    (rest : Rest) (a other : ℕ) (x y : Object) (i j : Impl) (w : Memory)
    → a ≢ other
    → find a w.objects ≡ some x
    → x.pimpl ≡ some i
    → find other w.objects ≡ some y
    → y.pimpl ≡ some j
    → (move_assign rest a other w ≡ some (tt, given (dropped x i) (moved rest a other y w)))
      × ((move_assign rest a other >> destroy_object a) w
          ≡ some (tt, given (dropped x i ++ destroyed y j) (moved rest a other y w)))
      × ((move_assign rest a other >> destroy_object other) w ≡ none)
      × ((n : ℕ) → (move_construct rest n other >> destroy_object other) w ≡ none)
unfolding moved_from
move_assign-destroy rest a other x y i j w ne h n k m =
    let assigned = move_assign-some rest a other x y i w ne h n k in
    let after = given (dropped x i) (moved rest a other y w) in
    (
      assigned,
      rw assigned (
          destroy_object-some a y j after (moved_to-found rest a other y w ne) m
          ∙ ap (λ v. some (tt, v))
              (given-append (dropped x i) (destroyed y j) (moved rest a other y w))),
      rw assigned (
          destroy_object-null other (moved_from rest y) after (moved_from-found rest a other y w)
            refl),
      λ n'. rw (move_construct-some rest n' other y w k) (
          destroy_object-null other (moved_from rest y) (moved rest n' other y w)
            (moved_from-found rest n' other y w) refl),
    )
