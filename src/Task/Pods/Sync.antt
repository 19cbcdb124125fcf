-- ===== src/Task/Pods/Sync.antt =====
-- What a Task's status takes from its Pod (internal/controller/task_controller.go).

use kubeopencode.Prelude.{
  ◌≡◌, refl, Bool, false, not, ◌&&◌, Option, some, none, is_none, List, [], ◌∷◌, count_by, arith,
  ◌==◌,
}
use kubeopencode.Prelude.Int.{pos, eqb_ℤ}
use kubeopencode.Api.Errors.{Message}
use kubeopencode.Api.Task.{Task, TaskPhase, completed, failed}
use kubeopencode.Client.{E, Env, Call, Pod, PodPhase, ContainerStatus}
use kubeopencode.Client.Rules.{Only, Only-bind, Only-then, Only-bind-Ensures, only_rules}
use kubeopencode.Client.Rules.Calls.{call_rules, Only-update_task_status}
use kubeopencode.Task.Sessions.Keeps.{
  SameButSession, resolve_session_info-Only, resolve_session_info-Ensures,
}
use kubeopencode.Task.Stop.Order.{Ends, Ends-SameButSession}
use kubeopencode.Task.Pods.{
  ended_at, end_task, follow_pod, announce_failure, get_pod_failure_detail, first_failure,
}

-- The phase that a finished Pod gives its Task.
abbrev pub phase_after : PodPhase → Option TaskPhase
phase_after PodPhase.succeeded = some completed
phase_after PodPhase.failed = some failed
phase_after _ = none

-- A status update that follows a Pod's phase.
abbrev pub Follows : Task → PodPhase → Env → Call → Type 0
Follows task p env (Call.update_task_status t r) =
    (phase : TaskPhase) × (phase_after p ≡ some phase)
    × Ends ⊥ task phase env (Call.update_task_status t r)
Follows task p env c = Ends ⊥ task completed env c

announce_failure-Follows :
    (task : Task) (p : PodPhase) (o : Option Message) → Only (Follows task p) (announce_failure o)
unfolding announce_failure
announce_failure-Follows task p none = search call_rules
announce_failure-Follows task p (some m) = search call_rules

end_task-Follows :
    (task : Task) (p : PodPhase) (phase : TaskPhase) (announce : E (Unit {0}))
    → phase_after p ≡ some phase
    → Only (Follows task p) announce
    → Only (Follows task p) (end_task task phase announce)
unfolding end_task
end_task-Follows task p phase announce e quiet = Only-bind _ _ (search call_rules) (λ n.
    Only-then _ _ quiet (
      Only-bind-Ensures (SameButSession (ended_at task phase n)) _ _
        (resolve_session_info-Only (λ _ _. tt) (λ _ _ _. tt) (λ _ _ _. tt) _)
        (resolve_session_info-Ensures _)
        (λ t s. Only-update_task_status t (λ env r.
          (phase, e, Ends-SameButSession ⊥ task _ t phase env r s (refl, refl, refl, refl))))))

-- A Task is written as completed only when its Pod succeeded and as failed only when its Pod
-- failed, with a completion time and the same metadata and spec; in another phase of the Pod it is
-- not written.
pub follow_pod-Follows :
    (task : Task) (pod : Pod) (p : PodPhase) → Only (Follows task p) (follow_pod task pod p)
unfolding follow_pod
follow_pod-Follows task pod PodPhase.succeeded =
    end_task-Follows task PodPhase.succeeded completed _ refl (search call_rules)
follow_pod-Follows task pod PodPhase.failed =
    end_task-Follows task PodPhase.failed failed _ refl
      (announce_failure-Follows task PodPhase.failed _)
follow_pod-Follows task pod PodPhase.pending = search only_rules
follow_pod-Follows task pod PodPhase.running = search only_rules
follow_pod-Follows task pod PodPhase.unknown = search only_rules

-- The container ended with an exit code other than 0.
abbrev pub has_failed : ContainerStatus → Bool
has_failed c = elim c.terminated [ none ↦ false | some t ↦ not (eqb_ℤ (pos 0) t.exit_code) ]

first_failure-none :
    (cs : List ContainerStatus) → is_none (first_failure cs) ≡ (count_by has_failed cs == 0)
unfolding first_failure
first_failure-none [] = refl
first_failure-none (c ∷ cs) = ground (arith, first_failure-none cs)

-- A failed Pod's detail is missing exactly when none of its containers, init containers included,
-- ended with an exit code other than 0.
pub get_pod_failure_detail-none :
    (pod : Pod)
    → is_none (get_pod_failure_detail pod)
      ≡ (count_by has_failed pod.init_containers == 0) && (count_by has_failed pod.containers == 0)
unfolding get_pod_failure_detail
get_pod_failure_detail-none pod =
    ground (arith, first_failure-none pod.init_containers, first_failure-none pod.containers)
