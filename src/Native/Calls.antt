-- ===== src/Native/Calls.antt =====
-- How many transitions of a flow code of the prototype asks for.
use tool_flow.Prelude.{
  ℕ, suc, ◌+◌, ◌≤◌, Bool, true, false, ◌&&◌, ◌||◌, List, [], ◌∷◌, ◌++◌, ◌≡◌, refl, ◌∙◌, subst, ◌⊎◌,
  Str, Option, none, some, tally, arith, ◌==◌, str_eq, nat_eq, beq_self, if◌then◌else◌,
}
use tool_flow.Native.Contract.{
  ControllerState, BindingCall, set_waiting, resume, finish, fail, Bindings, Outside, Outcome,
  resolve_with, returned, rejection, unsupported_transition, Async, ◌>>=◌, return, answered, call,
  get_state, set_state, now,
}
use tool_flow.Native.{FlowRef}

-- The transitions that are counted: those of one flow from its revision, or any.
abbrev pub is_counted : Option FlowRef → Str → ℕ → Bool
is_counted none id revision = true
is_counted (some f) id revision = id == f.flow_id && revision == f.revision

-- A call that asks for such a transition.
abbrev pub is_transition_of : Option FlowRef → BindingCall → Bool
is_transition_of f (set_waiting id revision step s wait summary) = is_counted f id revision
is_transition_of f (resume id revision step s) = is_counted f id revision
is_transition_of f (finish id revision s) = is_counted f id revision
is_transition_of f (fail id revision s summary) = is_counted f id revision
is_transition_of f _ = false

tally-append :
    (p : BindingCall → Bool) (xs : List BindingCall) (c : BindingCall)
    → tally p (xs ++ c ∷ []) ≡ (if p c then tally p xs + 1 else tally p xs)
tally-append p [] c = ground arith
tally-append p (x ∷ xs) c = ground (arith, tally-append p xs c)

abbrev pub count : Option FlowRef → Outside → ℕ
count f o = tally (is_transition_of f) o.calls

-- How many transitions code makes: none, or one if it returns and at most one otherwise.
pub record Silent {A : Type 0} (f : Option FlowRef) (m : Async A) : Type 0 where
  pub at : (o : Outside) → count f (m o).1 ≡ count f o

abbrev pub Once : {A : Type 0} → ℕ → Outcome A → ℕ → Type 0
Once n (returned a) k = k ≡ n + 1
Once n rejection k = k ≤ n + 1
Once n (unsupported_transition s) k = k ≤ n + 1

pub record Single {A : Type 0} (f : Option FlowRef) (m : Async A) : Type 0 where
  pub at : (o : Outside) → Once (count f o) (m o).0 (count f (m o).1)

Once-eq : {A : Type 0} (r : Outcome A) (n k : ℕ) → k ≡ n + 1 → Once n r k
Once-eq (returned b) n k e = e
Once-eq rejection n k e = omega (arith, e)
Once-eq (unsupported_transition s) n k e = omega (arith, e)

module _ {A : Type 0} (f : Option FlowRef) where
  pub Silent-return : (a : A) → Silent f (return a)
  Silent-return a = record { at = λ o. refl }

  pub Silent-answered : (a : Option A) → Silent f (answered a)
  Silent-answered none = record { at = λ o. refl }
  Silent-answered (some a) = record { at = λ o. refl }

  pub Silent-bind :
      {B : Type 0} (m : Async A) (g : A → Async B)
      → Silent f m
      → ((a : A) → Silent f (g a))
      → Silent f (m >>= g)
  Silent-bind {B} m g p k = record { at = λ o. go o (m o).0 (m o).1 (p.at o) }
    where
      go :
          (o : Outside) (r : Outcome A) (v : Outside)
          → count f v ≡ count f o
          → count f (resolve_with r g v).1 ≡ count f o
      go o (returned a) v e = (k a).at v ∙ e
      go o rejection v e = e
      go o (unsupported_transition s) v e = e

  pub Single-after :
      {B : Type 0} (m : Async A) (g : A → Async B)
      → Silent f m
      → ((a : A) → Single f (g a))
      → Single f (m >>= g)
  Single-after {B} m g p k = record { at = λ o. go o (m o).0 (m o).1 (p.at o) }
    where
      go :
          (o : Outside) (r : Outcome A) (v : Outside)
          → count f v ≡ count f o
          → Once (count f o) (resolve_with r g v).0 (count f (resolve_with r g v).1)
      go o (returned a) v e = subst (λ n. Once n (g a v).0 (count f (g a v).1)) e ((k a).at v)
      go o rejection v e = omega (arith, e)
      go o (unsupported_transition s) v e = omega (arith, e)

  pub Single-then :
      {B : Type 0} (m : Async A) (g : A → Async B)
      → Single f m
      → ((a : A) → Silent f (g a))
      → Single f (m >>= g)
  Single-then {B} m g p k = record { at = λ o. go o (m o).0 (m o).1 (p.at o) }
    where
      go :
          (o : Outside) (r : Outcome A) (v : Outside)
          → Once (count f o) r (count f v)
          → Once (count f o) (resolve_with r g v).0 (count f (resolve_with r g v).1)
      go o (returned a) v e = Once-eq (g a v).0 (count f o) (count f (g a v).1) ((k a).at v ∙ e)
      go o rejection v e = e
      go o (unsupported_transition s) v e = e

pub Silent-get_state : (f : Option FlowRef) → Silent f get_state
Silent-get_state f = record { at = λ o. refl }

pub Silent-set_state : (f : Option FlowRef) (s : ControllerState) → Silent f (set_state s)
Silent-set_state f s = record { at = λ o. refl }

pub Silent-now : (f : Option FlowRef) (b : Bindings) → Silent f (now b)
unfolding now
Silent-now f b = record { at = λ o. refl }

pub Silent-call :
    (f : Option FlowRef) (c : BindingCall) → is_transition_of f c ≡ false → Silent f (call c)
Silent-call f c e = record { at = λ o. ground (arith, tally-append (is_transition_of f) o.calls c) }

pub Single-call :
    (f : Option FlowRef) (c : BindingCall) → is_transition_of f c ≡ true → Single f (call c)
Single-call f c e = record { at = λ o. ground (arith, tally-append (is_transition_of f) o.calls c) }

pub ruleset silent_rules = (
  Silent-return, Silent-answered, Silent-bind, Silent-get_state, Silent-set_state, Silent-now,
  Silent-call, Single-after, Single-then, Single-call, refl,
)
