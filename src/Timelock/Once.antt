-- ===== src/Timelock/Once.antt =====
-- The invariant under which no operation of router-timelock is executed twice, and that `queue` and
-- `execute` keep it: an identifier is the digest of its eta among others, and an executed one has its
-- eta in the past.
use stellar_router.Prelude.{
  ℕ, ◌+◌, ◌≤◌, ◌<◌, ◌++◌, String, true, false, some, List, [], ◌∷◌, ◌≡◌, ◌≢◌, refl, sym, ap, ◌∙◌,
  inl, inr, arith, Bool-cases, ◌==◌, ==→eq, insert, contains, contains-snoc, snoc-IsDistinct,
  IsDistinct,
}
use mathlib.Core.List.{append-nil}
use stellar_router.Prelude.Words.{u64_mod}
use stellar_router.Common.{Address, Env, Crypto, ok}
use stellar_router.Timelock
use stellar_router.Timelock.{
  OpId, Op, Event, op_queued, op_executed, op_cancelled, op_description_updated, ops_cleaned,
  min_delay_updated, admin_transferred, deployed,
}
use stellar_router.Timelock.Calls
use stellar_router.Timelock.Calls.{derive_op_id, enqueue, finalize, new_op}
use stellar_router.Timelock.Invariant.{IsValid}
use stellar_router.Timelock.Outcomes.{Queues, Executes, queue-Queues, execute-Executes}
use stellar_router.Timelock.Lifecycle.{ops-enqueue, ops-finalize, positive_delay}

abbrev State : Type 0
State = Timelock.Timelock

-- The identifiers that the published events report as executed.
abbrev pub executed_ids : List Event → List OpId
executed_ids [] = []
executed_ids (op_executed id target ∷ es) = id ∷ executed_ids es
executed_ids (op_queued id target eta grace ∷ es) = executed_ids es
executed_ids (op_cancelled id ∷ es) = executed_ids es
executed_ids (op_description_updated id text ∷ es) = executed_ids es
executed_ids (ops_cleaned n ∷ es) = executed_ids es
executed_ids (min_delay_updated old new ∷ es) = executed_ids es
executed_ids (admin_transferred old new ∷ es) = executed_ids es

executed_ids-append :
    (es fs : List Event) → executed_ids (es ++ fs) ≡ executed_ids es ++ executed_ids fs
executed_ids-append [] fs = refl
executed_ids-append (op_executed id target ∷ es) fs =
    ap (λ ids. id ∷ ids) (executed_ids-append es fs)
executed_ids-append (op_queued id target eta grace ∷ es) fs = executed_ids-append es fs
executed_ids-append (op_cancelled id ∷ es) fs = executed_ids-append es fs
executed_ids-append (op_description_updated id text ∷ es) fs = executed_ids-append es fs
executed_ids-append (ops_cleaned n ∷ es) fs = executed_ids-append es fs
executed_ids-append (min_delay_updated old new ∷ es) fs = executed_ids-append es fs
executed_ids-append (admin_transferred old new ∷ es) fs = executed_ids-append es fs

-- The digests of operations with different etas differ.
abbrev pub SeparatesEta : Crypto → Type 0
SeparatesEta crypto =
    (text text' : String) (target target' : Address) (eta eta' : ℕ)
    → eta < u64_mod
    → eta' < u64_mod
    → derive_op_id crypto text target eta ≡ derive_op_id crypto text' target' eta'
    → eta ≡ eta'

-- `id` is the digest of some operation with this eta.
abbrev pub Named : Crypto → OpId → ℕ → Type 0
Named crypto id eta =
    (text : String) × (target : Address) × (id ≡ derive_op_id crypto text target eta)

-- An identifier that was executed is not pending any more, and no future eta gives it again.
pub record Spent (crypto : Crypto) (now : ℕ) (s : State) (id : OpId) : Type 0 where
  pub over : (op : Op) → s.ops id ≡ some op → op.executed ≡ true
  pub past :
      (text : String) (target : Address) (eta : ℕ)
      → now < eta
      → eta < u64_mod
      → derive_op_id crypto text target eta ≢ id

pub record Tracked (crypto : Crypto) (now : ℕ) (s : State) : Type 0 where
  pub named : (id : OpId) (op : Op) → s.ops id ≡ some op → Named crypto id op.eta
  pub spent : (id : OpId) → contains (executed_ids s.events) id ≡ true → Spent crypto now s id
  pub distinct : IsDistinct (executed_ids s.events)

-- What is stored under an identifier goes, or keeps its eta and stays executed.
abbrev pub Tame : State → State → OpId → Type 0
Tame s t id =
    (op' : Op)
    → t.ops id ≡ some op'
    → (op : Op) × (s.ops id ≡ some op)
      × (op'.eta ≡ op.eta)
      × (op.executed ≡ true → op'.executed ≡ true)

module _ (crypto : Crypto) (now now' : ℕ) (s t : State) (later : now ≤ now')
    (k : Tracked crypto now s) where
  Tame-Named : (id : OpId) → Tame s t id → (op : Op) → t.ops id ≡ some op → Named crypto id op.eta
  Tame-Named id tame op e =
      let (op₀, e₀, same_eta, stays) = tame op e in rw same_eta (k.named id op₀ e₀)

  Tame-Spent :
      (id : OpId)
      → Tame s t id
      → contains (executed_ids s.events) id ≡ true
      → Spent crypto now' t id
  Tame-Spent id tame m = record {
    over = λ op e. let (op₀, e₀, same_eta, stays) = tame op e in stays ((k.spent id m).over op₀ e₀);
    past = λ text target eta p q. (k.spent id m).past text target eta (omega arith) q;
  }

  pub quiet-Tracked :
      ((id : OpId) → Tame s t id)
      → executed_ids t.events ≡ executed_ids s.events
      → Tracked crypto now' t
  quiet-Tracked tame quiet = record {
    named = λ id. Tame-Named id (tame id);
    spent = λ id m. Tame-Spent id (tame id) (rw quiet at m);
    distinct = rw quiet k.distinct;
  }

-- One stored operation is rewritten.
pub insert-Tame :
    (s t : State) (id : OpId) (op op' : Op)
    → s.ops id ≡ some op
    → ((j : OpId) → t.ops j ≡ insert s.ops id op' j)
    → op'.eta ≡ op.eta
    → (op.executed ≡ true → op'.executed ≡ true)
    → (j : OpId) → Tame s t j
insert-Tame s t id op op' stored writes same_eta stays j o e = elim (Bool-cases (j == id)) [
  | inl at_id ↦
      (op, rw (==→eq j id at_id) stored, ground (arith, writes j), ground (arith, writes j))
  | inr other ↦ (o, ground (arith, writes j), refl, λ h. h)
]

pub events-finalize : (s : State) (id : OpId) (op : Op) → (finalize s id op).events ≡ s.events
unfolding finalize
events-finalize s id op = refl

events-enqueue :
    (s : State) (id : OpId) (deps : List OpId) (op : Op)
    → (enqueue s id deps op).events
      ≡ s.events ++ op_queued id op.target op.eta op.grace_period_seconds ∷ []
unfolding enqueue
events-enqueue s id [] op = refl
events-enqueue s id (d ∷ ds) op = refl

-- The events of calls that execute nothing.
pub quiet_append :
    (es : List Event) (e : Event)
    → executed_ids (e ∷ []) ≡ []
    → executed_ids (es ++ e ∷ []) ≡ executed_ids es
quiet_append es e h =
    executed_ids-append es (e ∷ [])
    ∙ (ap (λ ids. executed_ids es ++ ids) h ∙ append-nil (executed_ids es))

pub execute-Tracked :
    (crypto : Crypto) (env : Env) (now : ℕ) (s : State) (caller : Address) (id : OpId) (t : State)
    → SeparatesEta crypto
    → IsValid s
    → now ≤ env.timestamp
    → Tracked crypto now s
    → Calls.execute env s caller id ≡ ok t
    → Tracked crypto env.timestamp t
execute-Tracked crypto env now s caller id t separates v later k h = record {
  named = λ j. Tame-Named crypto now env.timestamp s t later k j (tame j);
  spent = λ j m. elim (Bool-cases (j == id)) [
    | inl e ↦ rw (==→eq j id e) here
    | inr e ↦
        Tame-Spent crypto now env.timestamp s t later k j (tame j)
          (ground (arith, events, m, contains-snoc (executed_ids s.events) id j))
  ];
  distinct = rw events (snoc-IsDistinct (executed_ids s.events) id k.distinct fresh);
}
  where
    c : Executes env s caller id t
    c = execute-Executes env s caller id t h

    writes : (j : OpId) → t.ops j ≡ insert s.ops id (record (c.op) { executed = true }) j
    writes j =
        ap (λ (u : State). u.ops j) c.result
        ∙ ops-finalize s id (record (c.op) { executed = true }) j

    tame : (j : OpId) → Tame s t j
    tame =
        insert-Tame s t id c.op (record (c.op) { executed = true }) c.stored writes refl (λ e. refl)

    events : executed_ids t.events ≡ executed_ids s.events ++ id ∷ []
    events =
        ap (λ (u : State). executed_ids u.events) c.result
        ∙ (ap (λ es. executed_ids (es ++ op_executed id c.op.target ∷ []))
              (events-finalize s id (record (c.op) { executed = true }))
            ∙ executed_ids-append s.events (op_executed id c.op.target ∷ []))

    fresh : contains (executed_ids s.events) id ≡ false
    fresh = elim (Bool-cases (contains (executed_ids s.events) id)) [
      | inl m ↦ cc ((k.spent id m).over c.op c.stored, c.not_executed)
      | inr m ↦ m
    ]

    here : Spent crypto env.timestamp t id
    here = record {
      over = λ op e. ground (arith, writes id);
      past = λ text target eta p q e.
          let (text', target', named) = k.named id c.op c.stored in
          absurd (
            omega (
              arith,
              c.not_early,
              separates text text' target target' eta c.op.eta q
                  (ground (arith, v.indexed id, c.stored)) (e ∙ named),
            ));
    }

pub queue-Tracked :
    (crypto : Crypto) (env : Env) (now : ℕ) (s : State) (proposer : Address) (text : String)
    (target : Address) (delay grace : ℕ) (deps : List OpId) (id : OpId) (t : State)
    → IsValid s
    → now ≤ env.timestamp
    → Tracked crypto now s
    → Calls.queue crypto env s proposer text target delay grace deps ≡ ok (id, t)
    → Tracked crypto env.timestamp t
queue-Tracked crypto env now s proposer text target delay grace deps id t v later k h = record {
  named = λ j o e. elim (Bool-cases (j == id)) [
    | inl at_id ↦ (
      text,
      target,
      ==→eq j id at_id
          ∙ (q.named ∙ ap (λ x. derive_op_id crypto text target x) (ground (arith, writes j))),
    )
    | inr other ↦ k.named j o (ground (arith, writes j))
  ];
  spent = λ j m. record {
    over = λ o e.
        (k.spent j (events_old j m)).over o (ground (arith, writes j, not_new j (events_old j m)));
    past = λ text' target' eta p b.
        (k.spent j (events_old j m)).past text' target' eta (omega arith) b;
  };
  distinct = rw events k.distinct;
}
  where
    q : Queues crypto env s proposer text target delay grace deps id t
    q = queue-Queues crypto env s proposer text target delay grace deps id t h

    writes :
        (j : OpId)
        → t.ops j ≡ insert s.ops id (new_op proposer text target (env.timestamp + delay) grace) j
    writes j =
        ap (λ (u : State). u.ops j) q.result
        ∙ ops-enqueue s id deps (new_op proposer text target (env.timestamp + delay) grace) j

    events : executed_ids t.events ≡ executed_ids s.events
    events =
        ap (λ (u : State). executed_ids u.events) q.result
        ∙ (ap executed_ids
              (events-enqueue s id deps (new_op proposer text target (env.timestamp + delay) grace))
            ∙ quiet_append s.events _ refl)

    events_old :
        (j : OpId)
        → contains (executed_ids t.events) j ≡ true
        → contains (executed_ids s.events) j ≡ true
    events_old j m = rw events at m

    future : now < env.timestamp + delay
    future = omega (
      arith,
      later,
      positive_delay s.admin s.min_delay _ q.minimum q.stored_minimum v.configured,
      q.long_enough,
    )

    not_new : (j : OpId) → contains (executed_ids s.events) j ≡ true → (j == id) ≡ false
    not_new j m = elim (Bool-cases (j == id)) [
      | inl e ↦ absurd (
          (k.spent j m).past text target (env.timestamp + delay) future q.fits
            (sym (==→eq j id e ∙ q.named)))
      | inr e ↦ e
    ]
