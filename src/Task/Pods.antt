-- ===== src/Task/Pods.antt =====
-- A Task's status from that of its Pod (internal/controller/task_controller.go). The duration
-- metric is not modelled.
pub mod Sync
use kubeopencode.Prelude.{String, Bool, not, ◌&&◌, Option, none, some, List, [], ◌∷◌, if◌then◌else◌}
use kubeopencode.Prelude.Int.{ℤ, pos, eqb_ℤ}
use kubeopencode.Prelude.Text.{str_eq}
use kubeopencode.Api.Errors.{is_not_found, Arg, str, num, Message, text}
use kubeopencode.Api.Task.{Task, TaskPhase, completed, failed}
use kubeopencode.Client.{
  E, Pod, PodPhase, Terminated, ContainerStatus, pure, throw, attempt, on_result, ◌>>=◌, ◌>>◌,
}
use kubeopencode.Client.Calls.{now, get_pod, update_task_status, event}
use kubeopencode.Task.Sessions.{resolve_session_info}
use kubeopencode.Task.Stop.{pod_key}

abbrev is_zero : ℤ → Bool
is_zero = eqb_ℤ (pos 0)

-- `formatTerminationDetail`
unfoldable pub format_termination_detail : String → Terminated → Message
format_termination_detail container term =
    if str_eq term.reason "OOMKilled"
    then text "container %s: OOMKilled" (str container ∷ [])
    else if not (is_zero term.exit_code) && not (str_eq term.message "")
    then text "container %s: exit code %d (%s: %s)"
        (str container ∷ num term.exit_code ∷ str term.reason ∷ str term.message ∷ [])
    else if not (is_zero term.exit_code)
    then text "container %s: exit code %d (%s)"
        (str container ∷ num term.exit_code ∷ str term.reason ∷ [])
    else if not (str_eq term.message "")
    then text "container %s: %s" (str container ∷ str term.message ∷ [])
    else text "container %s: %s" (str container ∷ str term.reason ∷ [])

-- One of the two loops of `getPodFailureDetail`.
unfoldable pub first_failure : List ContainerStatus → Option Message
first_failure [] = none
first_failure (c ∷ cs) =
    let rest = first_failure cs in
    elim c.terminated [
      | none ↦ rest
      | some term ↦
          if is_zero term.exit_code then rest else some (format_termination_detail c.name term)
    ]

-- `getPodFailureDetail`, where "" is `none`.
unfoldable pub get_pod_failure_detail : Pod → Option Message
get_pod_failure_detail pod = elim (first_failure pod.init_containers) [
  | none ↦ first_failure pod.containers
  | some m ↦ some m
]

abbrev pub detail_args : Message → List Arg
detail_args (text format args) = str format ∷ args
detail_args _ = []

-- The event of a failed Pod; the detail is its second `%s`, given with its own arguments.
unfoldable pub announce_failure : Option Message → E (Unit {0})
announce_failure none = event "Failed" "Task failed" []
announce_failure (some detail) = event "Failed" "Task failed: %s" (detail_args detail)

abbrev pub ended_at : Task → TaskPhase → ℤ → Task
ended_at task phase n = record task {
  status = record task.status {
    observed_generation = task.meta.generation;
    phase = phase;
    completion_time = some n;
  };
}

-- A case of the switch of `updateTaskStatusFromPod`.
unfoldable pub end_task : Task → TaskPhase → E (Unit {0}) → E Task
end_task task phase announce = do
  n ← now
  announce
  resolved ← resolve_session_info (ended_at task phase n)
  update_task_status resolved

-- The switch of `updateTaskStatusFromPod`.
unfoldable pub follow_pod : Task → Pod → PodPhase → E Task
follow_pod task pod PodPhase.succeeded =
    end_task task completed (event "Completed" "Task completed successfully" [])
follow_pod task pod PodPhase.failed =
    end_task task failed (announce_failure (get_pod_failure_detail pod))
follow_pod task pod _ = pure task

-- `updateTaskStatusFromPod`, with the Task as it is left.
unfoldable pub update_task_status_from_pod : Task → E Task
update_task_status_from_pod task = if str_eq task.status.pod_name "" then pure task else (do
  found ← attempt (get_pod (pod_key task))
  on_result found (λ e. if is_not_found e then pure task else throw e)
      (λ pod. follow_pod task pod pod.phase))
