-- ===== src/Task/Reconcile/Phases.antt =====
-- The phases of a Task as a state machine, which every reconciliation of a Task follows.
use mathlib.Core.Path.{subst}
use kubeopencode.Prelude.{◌≡◌, refl, sym, ap, ◌∙◌, ◌⊎◌, inl, inr, Bool, true, false, Option, arith}
use kubeopencode.Prelude.Text.{str_eq}
use kubeopencode.Api.Task.{Task, TaskPhase, unset, pending, queued, running, completed, failed}
use kubeopencode.Client.{Env, Call, PodPhase}
use kubeopencode.Task.Status.{is_task_finished}
use kubeopencode.Task.Stop.Order.{Ends}
use kubeopencode.Task.Pods.Sync.{Follows, phase_after}
use kubeopencode.Task.Queue.{is_running}
use kubeopencode.Task.Queue.Leave.{QueueStep}
use kubeopencode.Client.Rules.Reads.{Reads}
use kubeopencode.Task.Start.Steps.{StartStep, IsNamed}

-- The phases from which a Task may be queued, or get its Pod.
abbrev pub is_start : TaskPhase → Bool
is_start unset = true
is_start running = true
is_start _ = false

-- The machine: a Task that starts is queued or runs, a queued one waits or starts anew, and any but
-- a finished one may finish. A finished one has no move.
pub data Moves : TaskPhase → TaskPhase → Type 0 where
  queue : {p : TaskPhase} → is_start p ≡ true → Moves p queued
  start : Moves unset running
  wait : Moves queued queued
  admit : Moves queued unset
  finish : {p q : TaskPhase} → is_task_finished p ≡ false → is_task_finished q ≡ true → Moves p q

-- The given Task starts: it is new, or it runs and its Pod is not named.
abbrev pub Starts : Task → TaskPhase → Type 0
Starts task p = (p ≡ unset) ⊎ ((p ≡ running) × (str_eq task.status.pod_name "" ≡ true))

Starts-is_start : (task : Task) (p : TaskPhase) → Starts task p → is_start p ≡ true
Starts-is_start task p (inl e) = ap is_start e
Starts-is_start task p (inr (e, _)) = ap is_start e

start_is_live : (p : TaskPhase) → is_start p ≡ true → is_task_finished p ≡ false
unfolding is_task_finished
start_is_live unset h = refl
start_is_live running h = refl
start_is_live pending h = absurd (ground arith)
start_is_live queued h = absurd (ground arith)
start_is_live completed h = absurd (ground arith)
start_is_live failed h = absurd (ground arith)

-- What a reconciliation of a Task in the phase `p` writes.
abbrev pub Written : Task → TaskPhase → Env → Call → Type 0
Written task p env (Call.update_task_status t r) =
    Moves p t.status.phase ⊎ (Starts task p × IsNamed env task t)
Written task p env (Call.update_task t r) = Starts task p
Written task p env (Call.create_pod k r) = Starts task p
Written task p env (Call.create_config_map c r) = Starts task p
Written task p env (Call.update_agent_status a r) = Starts task p
Written task p env (Call.delete_pod k r) = p ≡ running
Written task p env (Call.delete_task t r) = is_task_finished p ≡ true
Written task p env c = Reads env c

pub read-Written :
    (task : Task) (p : TaskPhase) (env : Env) (c : Call) → Reads env c → Written task p env c
read-Written task p env (Call.update_task_status t r) h = elim h [ ]
read-Written task p env (Call.update_task t r) h = elim h [ ]
read-Written task p env (Call.create_pod k r) h = elim h [ ]
read-Written task p env (Call.create_config_map c r) h = elim h [ ]
read-Written task p env (Call.update_agent_status a r) h = elim h [ ]
read-Written task p env (Call.delete_pod k r) h = elim h [ ]
read-Written task p env (Call.delete_task t r) h = elim h [ ]
read-Written task p env _ h = h

-- A start is made of moves from the phases that start.
start_moves :
    (p : TaskPhase) (task t : Task)
    → Starts task p
    → (is_running task ≡ false → p ≡ unset)
    → (env : Env) (r : _) → StartStep Unit task env (Call.update_task_status t r)
    → Written task p env (Call.update_task_status t r)
unfolding is_task_finished
start_moves p task t s fresh env r (inl (q, _, _)) =
    inl (subst (Moves p) (sym q) (Moves.queue (Starts-is_start task p s)))
start_moves p task t s fresh env r (inr (inl ((q, waits, _, _), _))) = inl (
    subst (λ x. Moves x t.status.phase) (sym (fresh waits))
      (subst (Moves unset) (sym q) Moves.start))
start_moves p task t s fresh env r (inr (inr (inl (n, _)))) = inr (s, n)
start_moves p task t s fresh env r (inr (inr (inr (q, _, _)))) =
    inl (Moves.finish (start_is_live p (Starts-is_start task p s)) (ap is_task_finished q))

pub start-Written :
    (p : TaskPhase) (task : Task)
    → Starts task p
    → (is_running task ≡ false → p ≡ unset)
    → (env : Env) (c : Call) → StartStep Unit task env c
    → Written task p env c
start-Written p task s fresh env (Call.update_task_status t r) h =
    start_moves p task t s fresh env r h
start-Written p task s fresh env (Call.update_task t r) h = s
start-Written p task s fresh env (Call.create_pod k r) h = s
start-Written p task s fresh env (Call.create_config_map c r) h = s
start-Written p task s fresh env (Call.update_agent_status a r) h = s
start-Written p task s fresh env (Call.delete_pod k r) h = absurd h
start-Written p task s fresh env (Call.delete_task t r) h = absurd h
start-Written p task s fresh env _ h = h

queue_moves :
    (task t : Task) (env : Env) (r : _)
    → queued ≡ task.status.phase
    → QueueStep Unit task env (Call.update_task_status t r)
    → Moves queued t.status.phase
unfolding is_task_finished
queue_moves task t env r e (_, _, inl (q, _)) = subst (Moves queued) (sym q) Moves.admit
queue_moves task t env r e (_, _, inr (inl (q, _))) = Moves.finish refl q
queue_moves task t env r e (_, _, inr (inr q)) = subst (Moves queued) (e ∙ sym q) Moves.wait

pub queue-Written :
    (task : Task)
    → queued ≡ task.status.phase
    → (env : Env) (c : Call) → QueueStep Unit task env c
    → Written task queued env c
queue-Written task e env (Call.update_task_status t r) h = inl (queue_moves task t env r e h)
queue-Written task e env (Call.update_task t r) h = absurd h
queue-Written task e env (Call.create_pod k r) h = absurd h
queue-Written task e env (Call.create_config_map c r) h = absurd h
queue-Written task e env (Call.update_agent_status a r) h = absurd h
queue-Written task e env (Call.delete_pod k r) h = absurd h
queue-Written task e env (Call.delete_task t r) h = absurd h
queue-Written task e env _ h = h

-- A stop and a timeout finish a running Task.
pub Ends-Written :
    (task : Task) (env : Env) (c : Call)
    → Ends Unit task completed env c
    → Written task running env c
unfolding is_task_finished
Ends-Written task env (Call.update_task_status t r) (q, _, _, _) =
    inl (Moves.finish refl (ap is_task_finished q))
Ends-Written task env (Call.update_task t r) h = absurd h
Ends-Written task env (Call.create_pod k r) h = absurd h
Ends-Written task env (Call.create_config_map c r) h = absurd h
Ends-Written task env (Call.update_agent_status a r) h = absurd h
Ends-Written task env (Call.delete_pod k r) h = refl
Ends-Written task env (Call.delete_task t r) h = absurd h
Ends-Written task env _ h = h

after_finished :
    (p : PodPhase) (q : TaskPhase) → phase_after p ≡ Option.some q → is_task_finished q ≡ true
unfolding is_task_finished
after_finished PodPhase.succeeded q e = ground arith
after_finished PodPhase.failed q e = ground arith
after_finished PodPhase.pending q e = absurd (ground arith)
after_finished PodPhase.running q e = absurd (ground arith)
after_finished PodPhase.unknown q e = absurd (ground arith)

-- A Pod's end finishes its Task.
pub Follows-Written :
    (p : TaskPhase) (task : Task) (pp : PodPhase)
    → is_task_finished p ≡ false
    → (env : Env) (c : Call) → Follows task pp env c
    → Written task p env c
Follows-Written p task pp n env (Call.update_task_status t r) (q, e, f) =
    inl (Moves.finish n (ap is_task_finished f.0 ∙ after_finished pp q e))
Follows-Written p task pp n env (Call.update_task t r) h = absurd h
Follows-Written p task pp n env (Call.create_pod k r) h = absurd h
Follows-Written p task pp n env (Call.create_config_map c r) h = absurd h
Follows-Written p task pp n env (Call.update_agent_status a r) h = absurd h
Follows-Written p task pp n env (Call.delete_pod k r) h = absurd h
Follows-Written p task pp n env (Call.delete_task t r) h = absurd h
Follows-Written p task pp n env _ h = h
