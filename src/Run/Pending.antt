-- ===== src/Run/Pending.antt =====
-- The pending steps of a manifest, by which the rounds of `resumeWorkflow` are measured.
use tool_flow.Prelude.{
  ℕ, ◌≤◌, ◌<◌, Bool, true, false, ◌≡◌, ◌∙◌, ap, List, [], ◌∷◌, Str, none, some, lookup, lookup-put,
  str_eq, tally, arith, if◌then◌else◌, Option-cases, inl, inr,
}
use tool_flow.Types.{StepManifest, CompiledStep, is_pending, ok, >>=-eq-ok}
use tool_flow.Run.Manifest.{Steps, is_runnable, next_runnable_steps, modify_step}

-- Whether the entry of a step is pending.
unfoldable pub pending_at : Steps → Str → Bool
pending_at steps id = elim (lookup steps id) [ none ↦ false | some s ↦ is_pending s.state ]

-- No step becomes pending.
abbrev pub NoMorePending : Steps → Steps → Type 0
NoMorePending old new = (id : Str) → pending_at new id ≡ true → pending_at old id ≡ true

pub modify_step-pending :
    (steps : Steps) (id : Str) (f : StepManifest → StepManifest) (x : Str)
    → ((s : StepManifest) → is_pending (f s).state ≡ true → is_pending s.state ≡ true)
    → pending_at (modify_step steps id f) x ≡ true
    → pending_at steps x ≡ true
unfolding modify_step pending_at
modify_step-pending steps id f x k h = elim (Option-cases (lookup steps id)) [
  | inl n ↦ ground arith
  | inr (s, e) ↦ ground (arith, lookup-put steps id (f s) x, str_eq.beq_iff id x, k s)
]

pub modify_step-not_pending :
    (steps : Steps) (id : Str) (f : StepManifest → StepManifest)
    → ((s : StepManifest) → is_pending (f s).state ≡ false)
    → pending_at (modify_step steps id f) id ≡ false
unfolding modify_step pending_at
modify_step-not_pending steps id f k = elim (Option-cases (lookup steps id)) [
  | inl n ↦ ground arith
  | inr (s, e) ↦ ground (arith, lookup-put steps id (f s) id, str_eq.beq_iff id id, k s)
]

-- The measure.
abbrev pub pending_nodes : Steps → List CompiledStep → ℕ
pending_nodes steps nodes = tally (λ n. pending_at steps n.id) nodes

pending_nodes-le :
    (old new : Steps) (nodes : List CompiledStep)
    → NoMorePending old new
    → pending_nodes new nodes ≤ pending_nodes old nodes
pending_nodes-le old new [] h = omega arith
pending_nodes-le old new (n ∷ ns) h = ground (arith, pending_nodes-le old new ns h, h n.id)

runnable-pending :
    (steps : Steps) (n : CompiledStep)
    → is_runnable steps n ≡ ok true
    → pending_at steps n.id ≡ true
unfolding is_runnable pending_at
runnable-pending steps n h = elim (Option-cases (lookup steps n.id)) [
  | inl e ↦ absurd (ground arith)
  | inr (s, e) ↦ ground arith
]

pub pending_nodes-lt :
    (old new : Steps) (nodes : List CompiledStep) (s : CompiledStep) (ss : List CompiledStep)
    → next_runnable_steps nodes old ≡ ok (s ∷ ss)
    → pending_at new s.id ≡ false
    → NoMorePending old new
    → pending_nodes new nodes < pending_nodes old nodes
unfolding next_runnable_steps
pending_nodes-lt old new [] s ss e p h = absurd (cc)
pending_nodes-lt old new (n ∷ ns) s ss e p h =
    let (b, r, e) = >>=-eq-ok (is_runnable old n) _ e in
    let (rest, t, e) = >>=-eq-ok (next_runnable_steps ns old) _ e in
    go (λ t. pending_nodes-lt old new ns s ss t p h) b rest r t e
  where
    go :
        (next_runnable_steps ns old ≡ ok (s ∷ ss) → pending_nodes new ns < pending_nodes old ns)
        → (b : Bool) (rest : List CompiledStep) → is_runnable old n ≡ ok b
        → next_runnable_steps ns old ≡ ok rest
        → ok (if b then n ∷ rest else rest) ≡ ok (s ∷ ss)
        → pending_nodes new (n ∷ ns) < pending_nodes old (n ∷ ns)
    go ih true rest r t e =
        let same : n ≡ s = cc in
        let old_pending = runnable-pending old n r in
        let new_not : pending_at new n.id ≡ false = rw same p in
        ground (arith, pending_nodes-le old new ns h)
    go ih false rest r t e =
        let head : rest ≡ s ∷ ss = cc in ground (arith, ih (t ∙ ap ok head), h n.id)
