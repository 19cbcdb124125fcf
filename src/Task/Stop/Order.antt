-- ===== src/Task/Stop/Order.antt =====
-- What stopping a Task does to its Pod, and what it writes
-- (internal/controller/task_controller.go).
use mathlib.Core.Path.{subst}
use kubeopencode.Prelude.{◌≡◌, refl, sym, ap, String, List, true, false, ◌∷◌, [], All, is_some}
use kubeopencode.Prelude.Int.{ℤ}
use kubeopencode.Prelude.Text.{str_eq}
use kubeopencode.Api.Errors.{Error, Result, ok, err, Arg, Message}
use kubeopencode.Api.Meta.{Conditions}
use kubeopencode.Api.Task.{Task, TaskPhase, completed, failed}
use kubeopencode.Client.{
  E, Env, Call, History, Pod, Requeue, no_requeue, ◌>>=◌, ◌>>◌, on_result, attempt, try_call, call,
  library, pure,
}
use kubeopencode.Client.Calls.{now, get_pod, delete_pod, event, with_condition, update_task_status}
use kubeopencode.Client.Cases.{then_err, then_ok, bind_ok, history_after}
use kubeopencode.Client.Rules.{Only, Only-All, Only-bind, Only-then, Only-bind-Ensures, only_rules}
use kubeopencode.Client.Rules.Calls.{call_rules, Only-update_task_status}
use kubeopencode.Client.Rules.Reads.{Reads}
use kubeopencode.Task.Sessions.{resolve_session_info}
use kubeopencode.Task.Sessions.Keeps.{
  SameButSession, resolve_session_info-Only, resolve_session_info-Ensures,
  resolve_session_info-Total,
}
use kubeopencode.Task.Stop.{
  delete_pod_of, pod_key, complete_stopped, handle_stop, handle_timeout, update_task_failed,
  stopped_at, condition,
}

-- A status update that ends the Task: its phase is `phase`, it has a completion time, and nothing
-- of its metadata or its spec is changed. Whether Pods may be deleted is `d`, and every other call
-- is a read or an event.
abbrev pub Ends : Type 0 → Task → TaskPhase → Env → Call → Type 0
Ends d task phase env (Call.update_task_status t r) =
    (t.status.phase ≡ phase)
    × (is_some t.status.completion_time ≡ true)
    × (t.meta ≡ task.meta)
    × (t.spec ≡ task.spec)
Ends d task phase env (Call.delete_pod p r) = d
Ends d task phase env c = Reads env c

pub Ends-SameButSession :
    (d : Type 0) (task t u : Task) (phase : TaskPhase) (env : Env) (r : Result Task)
    → SameButSession t u
    → Ends d task phase env (Call.update_task_status t r)
    → Ends d task phase env (Call.update_task_status u r)
Ends-SameButSession d task t u phase env r s e =
    subst (λ v. Ends d task phase env (Call.update_task_status v r)) (sym s.same) e

delete_pod_of-Ends :
    (task t : Task) (phase : TaskPhase) → Only (Ends Unit t phase) (delete_pod_of task)
unfolding delete_pod_of
delete_pod_of-Ends task t phase = search (only_rules, call_rules)

complete_stopped-Ends :
    (d : Type 0) (task : Task) (reason : String) (message : Message) (announce : E (Unit {0}))
    → Only (Ends d task completed) announce
    → Only (Ends d task completed) (complete_stopped task reason message announce)
unfolding complete_stopped
complete_stopped-Ends d task reason message announce quiet = Only-bind _ _ (search call_rules) (λ n.
    Only-bind _ _ (search call_rules) (λ conditions.
      Only-bind-Ensures (SameButSession (stopped_at task n conditions)) _ _
        (resolve_session_info-Only (λ _ _. tt) (λ _ _ _. tt) (λ _ _ _. tt) _)
        (resolve_session_info-Ensures _)
        (λ t s. Only-then _ _ quiet (
          Only-then _ _
            (Only-update_task_status t
              (λ env r. Ends-SameButSession d task _ t completed env r s (refl, refl, refl, refl)))
            (search only_rules)))))

-- Whatever the answers, a stop and a timeout write a Task only with the completed phase, and a
-- configuration error only with the failed one, each with a completion time and with the metadata
-- and the spec as they were; and they create no Pod and no Task.
pub endings :
    (task : Task) (timeout : ℤ) (reason : String) (error : Error)
    → Only (Ends Unit task completed) (handle_stop task)
      × Only (Ends Unit task completed) (handle_timeout task timeout)
      × Only (Ends Unit task failed) (update_task_failed task reason error)
unfolding handle_stop handle_timeout update_task_failed
endings task timeout reason error = (
  Only-then _ _ (delete_pod_of-Ends task task completed)
      (complete_stopped-Ends Unit task _ _ _ (search call_rules)),
  Only-then _ _ (delete_pod_of-Ends task task completed)
      (complete_stopped-Ends Unit task _ _ _ (search call_rules)),
  Only-bind _ _ (search call_rules)
      (λ n. Only-bind _ _ (search call_rules) (λ conditions. search (only_rules, call_rules))),
)

deletion_fails :
    (env : Env) (h : History) (task : Task) (pod : Pod) (e : Error)
    → str_eq task.status.pod_name "" ≡ false
    → env.get_pod h (pod_key task) ≡ ok pod
    → env.delete_pod (Call.get_pod (pod_key task) ∷ h) pod ≡ err e
    → delete_pod_of task env h
      ≡ (err e, Call.delete_pod pod (err e) ∷ Call.get_pod (pod_key task) ∷ h)
unfolding delete_pod_of get_pod delete_pod attempt try_call on_result ◌>>=◌
deletion_fails env h task pod e named found fails = rw (named, found, fails)

reading_fails :
    (env : Env) (h : History) (task : Task) (e : Error)
    → str_eq task.status.pod_name "" ≡ false
    → env.get_pod h (pod_key task) ≡ err e
    → delete_pod_of task env h ≡ (ok tt, Call.get_pod (pod_key task) ∷ h)
unfolding delete_pod_of get_pod attempt try_call on_result pure ◌>>=◌
reading_fails env h task e named fails = rw (named, fails)

-- The Task names a Pod, which is there, and whose deletion fails. The stop and the timeout then
-- end with that error after those two calls: the status is not written, so that the Task is tried
-- again.
pub stop_waits_for_deletion :
    (env : Env) (h : History) (task : Task) (timeout : ℤ) (pod : Pod) (e : Error)
    → str_eq task.status.pod_name "" ≡ false
    → env.get_pod h (pod_key task) ≡ ok pod
    → env.delete_pod (Call.get_pod (pod_key task) ∷ h) pod ≡ err e
    → (handle_stop task env h
        ≡ (err e, Call.delete_pod pod (err e) ∷ Call.get_pod (pod_key task) ∷ h))
      × (handle_timeout task timeout env h
          ≡ (err e, Call.delete_pod pod (err e) ∷ Call.get_pod (pod_key task) ∷ h))
unfolding handle_stop handle_timeout
stop_waits_for_deletion env h task timeout pod e named found fails =
    let d = deletion_fails env h task pod e named found fails in
    (then_err _ _ env h _ e d, then_err _ _ env h _ e d)

-- A run whose last call writes the given Task as completed, with a completion time and with its
-- metadata and spec unchanged.
abbrev pub Completes : Task → Result Requeue × History → Type 0
Completes task p =
    (t : Task) × (r : Result Task) × (rest : History) × (p.1 ≡ Call.update_task_status t r ∷ rest)
    × (t.status.phase ≡ completed)
    × (is_some t.status.completion_time ≡ true)
    × (t.meta ≡ task.meta)
    × (t.spec ≡ task.spec)

last_write :
    (env : Env) (h : History) (task u : Task) (n : ℤ) (cs : Conditions)
    → SameButSession (stopped_at task n cs) u
    → Completes task ((update_task_status u >> pure no_requeue) env h)
unfolding update_task_status try_call ◌>>=◌ ◌>>◌
last_write env h task u n cs s = (
  u,
  _,
  _,
  history_after (env.update_task_status h u) _ env _,
  ap (λ (v : Task). v.status.phase) s.same,
  ap (λ (v : Task). is_some v.status.completion_time) s.same,
  ap (λ (v : Task). v.meta) s.same,
  ap (λ (v : Task). v.spec) s.same,
)

complete_stopped-Completes :
    (env : Env) (h : History) (task : Task) (reason : String) (message : Message)
    (event_reason format : String) (args : List Arg)
    → Completes task (complete_stopped task reason message (event event_reason format args) env h)
unfolding complete_stopped now event call with_condition library ◌>>=◌ ◌>>◌
complete_stopped-Completes env h task reason message event_reason format args =
    let cs = env.set_condition task.status.conditions (condition "Stopped" true reason message) in
    let stopped = stopped_at task (env.now h) cs in
    let (t, h1, found, s) = (resolve_session_info-Total stopped).at env (Call.now ∷ h) in
    subst (Completes task)
      (sym (
        bind_ok (resolve_session_info stopped)
          (λ u. event event_reason format args >> (update_task_status u >> pure no_requeue)) env
          (Call.now ∷ h) h1 t found))
      (last_write env (Call.event event_reason format args ∷ h1) task t _ cs s)

-- The Task names a Pod, and the Pod cannot be read, for whatever reason. A stop then deletes no Pod
-- and still completes the Task: its last call writes the completed status, with a completion time,
-- and the other calls are reads, events and writes of such a status.
pub stop_may_leave_pod :
    (env : Env) (task : Task) (e : Error)
    → str_eq task.status.pod_name "" ≡ false
    → env.get_pod [] (pod_key task) ≡ err e
    → Completes task (handle_stop task env [])
      × All (Ends ⊥ task completed env) (handle_stop task env []).1
unfolding handle_stop
stop_may_leave_pod env task e named fails =
    let goes_on = then_ok _ _ env [] _ tt (reading_fails env [] task e named fails) in
    (
      subst (Completes task) (sym goes_on) (complete_stopped-Completes env _ task _ _ _ _ _),
      subst (λ p. All (Ends ⊥ task completed env) p.1) (sym goes_on)
          (Only-All (complete_stopped-Ends ⊥ task _ _ _ (search call_rules)) env
            (Call.get_pod (pod_key task) ∷ []) (tt, tt)),
    )
