-- ===== src/Controller/Index.antt =====
-- The controller's index and the flows that it lists.
use tool_flow.Prelude.{
  Bool, true, false, not, ◌&&◌, ◌≡◌, refl, sym, ◌∙◌, Str, List, [], Option, Table, Key2, some, none,
  lookup, put, lookup-put, lookup-put_self, lookup-put_ne, str_eq, key2_eq, key2_beq, beq_self,
  eq_of_beq, ◌==◌, tally, or_else, Bool-cases, inl, inr, arith, if◌then◌else◌, ap, subst,
}
use tool_flow.Env.{Env}
use tool_flow.Config.{RuntimeConfig}
use tool_flow.World.{World, Ledger, ControllerFlowRecord, ControllerFlow, ControllerIndex, now_iso}
use tool_flow.Upsert.{upsert}
use tool_flow.Upsert.Laws.{is_sorted, upsert-IsUpserted, tally-IsUpserted, IsUpserted}
use tool_flow.Controller.{read_index, index_entry, upsert_index, save_flow}

abbrev pub no_index : ControllerIndex
no_index = record { updated_at = 0; flows = [] }

-- The entries that the index of a root shows.
abbrev pub entries : Str → Ledger → List ControllerFlow
entries root l = (or_else (lookup l.flow_indexes root) no_index).flows

abbrev pub has_id : Str → ControllerFlow → Bool
has_id id e = e.flow_id == id

-- What an entry says of a flow.
abbrev pub described : ControllerFlowRecord → ControllerFlow
described f = record {
  flow_id = f.flow_id;
  goal = f.goal;
  status = f.status;
  current_step = f.current_step;
  updated_at = f.updated_at;
}

-- A list of entries shows exactly the flows under their ids, each once and as it is stored, by time.
pub record Shows (stored : Str → Option ControllerFlowRecord) (es : List ControllerFlow)
    : Type 0 where
  pub own : (id : Str) (f : ControllerFlowRecord) → stored id ≡ some f → f.flow_id ≡ id
  pub sorted : is_sorted ControllerFlow.flow_id ControllerFlow.updated_at es ≡ true
  pub absent : (id : Str) → stored id ≡ none → tally (has_id id) es ≡ 0
  pub once : (id : Str) (f : ControllerFlowRecord) → stored id ≡ some f → tally (has_id id) es ≡ 1
  pub shown :
      (id : Str) (f : ControllerFlowRecord) (q : ControllerFlow → Bool)
      → stored id ≡ some f
      → q (described f) ≡ true
      → tally (λ e. has_id id e && not (q e)) es ≡ 0

-- The index of every root shows the flows that are stored under the root.
abbrev pub IsListed : Ledger → Type 0
IsListed l = (root : Str) → Shows (λ id. lookup l.flows (root, id)) (entries root l)

-- The ledger with a flow saved.
abbrev pub saved : Str → ControllerFlowRecord → Ledger → Ledger
saved root f l = record l {
  flows = put l.flows (root, f.flow_id) f;
  flow_indexes = put l.flow_indexes root (record {
    updated_at = f.updated_at;
    flows =
        upsert ControllerFlow.flow_id ControllerFlow.updated_at (entries root l) (index_entry f);
  });
}

pub save_flow-saved :
    (env : Env) (config : RuntimeConfig) (f : ControllerFlowRecord) (w : World)
    → (save_flow env config f w).1.ledger ≡ saved config.taskflow_mirror_root f w.ledger
unfolding save_flow upsert_index read_index now_iso
save_flow-saved env config f w = ground arith

module _ (stored : Str → Option ControllerFlowRecord) (old : List ControllerFlow)
    (h : Shows stored old) (f : ControllerFlowRecord) (es : List ControllerFlow)
    (u : IsUpserted ControllerFlow.flow_id ControllerFlow.updated_at old (index_entry f) es) where
  abbrev stored_after : Str → Option ControllerFlowRecord
  stored_after id = if f.flow_id == id then some f else stored id

  -- Entries of another id are those of the old list.
  tally_others :
      (id : Str) (p : ControllerFlow → Bool)
      → (f.flow_id == id) ≡ false
      → ((e : ControllerFlow) → p e ≡ true → has_id id e ≡ true)
      → tally p es ≡ tally p old
  unfolding index_entry
  tally_others id p ne sub =
      tally-IsUpserted ControllerFlow.flow_id ControllerFlow.updated_at old (index_entry f) es u p
        other
    where
      other : (e : ControllerFlow) → p e ≡ true → (e.flow_id == f.flow_id) ≡ false
      other e t = ground (
        arith,
        sub e t,
        str_eq.beq_iff e.flow_id id,
        str_eq.beq_iff e.flow_id f.flow_id,
        str_eq.beq_iff f.flow_id id,
      )

  absent_after : (id : Str) → stored_after id ≡ none → tally (has_id id) es ≡ 0
  absent_after id e = elim (Bool-cases (f.flow_id == id)) [
    | inl same ↦ absurd (ground arith)
    | inr other ↦ tally_others id (has_id id) other (λ e t. t) ∙ h.absent id (ground arith)
  ]

  once_after :
      (id : Str) (g : ControllerFlowRecord) → stored_after id ≡ some g → tally (has_id id) es ≡ 1
  unfolding index_entry
  once_after id g e = elim (Bool-cases (f.flow_id == id)) [
    | inl same ↦ subst (λ i. tally (has_id i) es ≡ 1) (eq_of_beq f.flow_id id same) u.once
    | inr other ↦ tally_others id (has_id id) other (λ e t. t) ∙ h.once id g (ground arith)
  ]

  shown_after :
      (id : Str) (g : ControllerFlowRecord) (q : ControllerFlow → Bool)
      → stored_after id ≡ some g
      → q (described g) ≡ true
      → tally (λ e. has_id id e && not (q e)) es ≡ 0
  shown_after id g q e t = elim (Bool-cases (f.flow_id == id)) [
    | inl same ↦
        subst (λ i. tally (λ e. has_id i e && not (q e)) es ≡ 0) (eq_of_beq f.flow_id id same)
          (own_entry (ground arith))
    | inr other ↦
        tally_others id (λ e. has_id id e && not (q e)) other (λ e t. ground arith)
        ∙ h.shown id g q (ground arith) t
  ]
    where
      own_entry : f ≡ g → tally (λ e. has_id f.flow_id e && not (q e)) es ≡ 0
      own_entry same = unfold index_entry in u.entry q (rw same t)

  upserted-Shows : Shows stored_after es
  upserted-Shows = record {
    own = λ id g e. ground (arith, h.own id g, str_eq.beq_iff f.flow_id id);
    sorted = u.sorted;
    absent = absent_after;
    once = once_after;
    shown = shown_after;
  }

-- What the index of a root shows of other stored flows and entries that are the same.
Shows-eq :
    {stored after : Str → Option ControllerFlowRecord} {es fs : List ControllerFlow}
    → ((id : Str) → stored id ≡ after id)
    → es ≡ fs
    → Shows stored es
    → Shows after fs
Shows-eq {stored} {after} {es} {fs} p q h =
    subst (λ (s : (Str → Option ControllerFlowRecord) × List ControllerFlow). Shows s.0 s.1)
      (λ i. (λ id. p id i, q i)) h

module _ (root : Str) (f : ControllerFlowRecord) (l : Ledger) (h : IsListed l) where
  abbrev new_index : ControllerIndex
  new_index = record {
    updated_at = f.updated_at;
    flows =
        upsert ControllerFlow.flow_id ControllerFlow.updated_at (entries root l) (index_entry f);
  }

  saved-Shows_self :
      Shows (λ id. lookup (saved root f l).flows (root, id)) (entries root (saved root f l))
  saved-Shows_self =
      Shows-eq stored_eq
        (ap (λ o. (or_else o no_index).flows) (sym (lookup-put_self l.flow_indexes root new_index)))
        (upserted-Shows (λ id. lookup l.flows (root, id)) (entries root l) (h root) f
          new_index.flows
          (upsert-IsUpserted ControllerFlow.flow_id ControllerFlow.updated_at (entries root l)
            (index_entry f)))
    where
      stored_eq :
          (id : Str)
          → (if f.flow_id == id then some f else lookup l.flows (root, id))
            ≡ lookup (put l.flows (root, f.flow_id) f) (root, id)
      stored_eq id =
          unfold key2_beq in
          ground (arith, lookup-put l.flows (root, f.flow_id) f (root, id), beq_self root)

  saved-Shows_ne :
      (other : Str)
      → (root == other) ≡ false
      → Shows (λ id. lookup (saved root f l).flows (other, id)) (entries other (saved root f l))
  saved-Shows_ne other ne =
      Shows-eq stored_eq
        (ap (λ o. (or_else o no_index).flows)
          (sym (lookup-put_ne l.flow_indexes root new_index other ne)))
        (h other)
    where
      stored_eq :
          (id : Str)
          → lookup l.flows (other, id) ≡ lookup (put l.flows (root, f.flow_id) f) (other, id)
      stored_eq id =
          unfold key2_beq in ground (arith, lookup-put l.flows (root, f.flow_id) f (other, id))

  pub saved-IsListed : IsListed (saved root f l)
  saved-IsListed other = elim (Bool-cases (root == other)) [
    | inl same ↦
        subst
          (λ r. Shows (λ id. lookup (saved root f l).flows (r, id)) (entries r (saved root f l)))
          (eq_of_beq root other same) saved-Shows_self
    | inr ne ↦ saved-Shows_ne other ne
  ]

-- The files of the controller.
abbrev pub controller_files : Ledger → Table Key2 ControllerFlowRecord × Table Str ControllerIndex
controller_files l = (l.flows, l.flow_indexes)

pub IsListed-same :
    (k l : Ledger) → controller_files k ≡ controller_files l → IsListed l → IsListed k
IsListed-same k l e h root =
    subst
      (λ (s : Table Key2 ControllerFlowRecord × Table Str ControllerIndex).
        Shows (λ id. lookup s.0 (root, id)) ((or_else (lookup s.1 root) no_index).flows))
      (sym e) (h root)

pub save_flow-IsListed :
    (env : Env) (config : RuntimeConfig) (f : ControllerFlowRecord) (w : World)
    → IsListed w.ledger
    → IsListed (save_flow env config f w).1.ledger
save_flow-IsListed env config f w h =
    subst IsListed (sym (save_flow-saved env config f w))
      (saved-IsListed config.taskflow_mirror_root f w.ledger h)

pub empty-IsListed : (l : Ledger) → IsListed (record l { flows = []; flow_indexes = [] })
unfolding lookup
empty-IsListed l root = record {
  own = λ id f e. absurd (cc);
  sorted = refl;
  absent = λ id e. refl;
  once = λ id f e. absurd (cc);
  shown = λ id f q e t. absurd (cc);
}
