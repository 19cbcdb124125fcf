-- ===== src/Task/Start/Other.antt =====
-- The parts of the start of a Task that create no Pod.
use kubeopencode.Prelude.{◌≡◌, refl, ℕ, zero, suc, String, Bool, true, false, Option}
use kubeopencode.Api.Errors.{Error, is_conflict}
use kubeopencode.Api.Agent.{Agent}
use kubeopencode.Api.Task.{Task}
use kubeopencode.Client.{E, Env, Call}
use kubeopencode.Client.Rules.{
  Only, Only-weaken, Only-pure, Only-throw, Only-bind, Only-then, Only-attempt, Only-if,
  Only-on_result, Only-on_option, only_rules,
}
use kubeopencode.Client.Rules.Calls.{call_rules, Only-now, Only-update_agent_status}
use kubeopencode.Task.Quota.{
  update_or_retry, record_rounds, record_task_start, remove_rounds, remove_task_start,
}
use kubeopencode.Client.Rules.Reads.{Reads}
use kubeopencode.Task.Reads.{prune-Reads}
use kubeopencode.Task.Stop.{update_task_failed}
use kubeopencode.Task.Start.Pod.{fail_refreshed, record_pod, roll_back, fail_pod, finish_pod}

abbrev pub is_create_pod : Call → Bool
is_create_pod (Call.create_pod k r) = true
is_create_pod _ = false

-- Any call but the creation of a Pod.
abbrev Other : Env → Call → Type 0
Other env (Call.create_pod k r) = ⊥
Other env _ = Unit

Other-call : (env : Env) (c : Call) → Other env c → is_create_pod c ≡ false
Other-call env (Call.create_pod k r) h = elim h [ ]
Other-call env _ h = refl

read-Other : (env : Env) (c : Call) → Reads env c → Other env c
read-Other env (Call.create_pod k r) h = h
read-Other env _ h = tt

abbrev pub NoPod : {A : Type 0} → E A → Type 0
NoPod m = Only (λ _ c. is_create_pod c ≡ false) m

pub other : {A : Type 0} {m : E A} → Only Other m → NoPod m
other o = Only-weaken Other-call o

pub read : {A : Type 0} {m : E A} → Only Reads m → NoPod m
read o = other (Only-weaken read-Other o)

pub failed-Other :
    (t : Task) (reason : String) (e : Error) → Only Other (update_task_failed t reason e)
unfolding update_task_failed
failed-Other t reason e =
    Only-bind _ _ (search call_rules)
      (λ n. Only-bind _ _ (search call_rules) (λ cs. search (only_rules, call_rules)))

pub refreshed-Other :
    (t : Task) (reason : String) (e : Error) → Only Other (fail_refreshed t reason e)
unfolding fail_refreshed
refreshed-Other t reason e = search (only_rules, call_rules, failed-Other)

update-Other :
    (a : Agent) (again : E (Unit {0})) → Only Other again → Only Other (update_or_retry a again)
unfolding update_or_retry
update-Other a again next =
    Only-bind _ _ (Only-attempt _ (Only-update_agent_status _ (λ env r. tt))) (λ r.
      Only-on_result r _ _ (λ e. Only-if (is_conflict e) _ _ (λ _. next) (λ _. Only-throw _))
        (λ _. Only-pure _))

record_rounds-Other : (n : ℕ) (a : Agent) (t : Task) → Only Other (record_rounds n a t)
unfolding record_rounds
record_rounds-Other zero a t = search only_rules
record_rounds-Other (suc n) a t = Only-bind _ _ (search call_rules) (λ fresh.
    Only-on_option _ _ _ (λ _. Only-pure _)
      (λ q _. Only-bind _ _ (Only-weaken read-Other (prune-Reads _ _)) (λ pruned.
        Only-bind _ _ (Only-now (λ env. tt)) (λ n'. update-Other _ _ (record_rounds-Other n a t)))))

remove_rounds-Other : (n : ℕ) (a : Agent) (t : Task) → Only Other (remove_rounds n a t)
unfolding remove_rounds
remove_rounds-Other zero a t = search only_rules
remove_rounds-Other (suc n) a t =
    Only-bind _ _ (search call_rules) (λ fresh. update-Other _ _ (remove_rounds-Other n a t))

pub record_task_start-Other : (a : Agent) (t : Task) → Only Other (record_task_start a t)
unfolding record_task_start
record_task_start-Other a t = search (only_rules, record_rounds-Other)

pub fail_pod-Other : (t : Task) (a : Option Agent) (e : Error) → Only Other (fail_pod t a e)
unfolding fail_pod roll_back remove_task_start
fail_pod-Other t a e = Only-then _ _ (search call_rules) (
    Only-then _ _
      (Only-on_option _ _ _ (λ _. Only-pure _)
        (λ b _.
          Only-then _ _
            (Only-attempt _
              (Only-on_option _ _ _ (λ _. Only-pure _) (λ _ _. remove_rounds-Other _ b t)))
            (Only-pure _)))
      (refreshed-Other t _ e))

pub record_pod-Other :
    (t : Task) (name : String) (announce : E (Unit {0}))
    → Only Other announce
    → Only Other (record_pod t name announce)
unfolding record_pod
record_pod-Other t name announce quiet =
    Only-bind _ _ (Only-attempt _ (search call_rules))
      (λ r. Only-on_result r _ _ (λ e. search only_rules) (λ _. Only-then _ _ quiet (Only-pure _)))

pub finish_pod-Other : (t : Task) → Only Other (finish_pod t)
unfolding finish_pod
finish_pod-Other t =
    Only-bind _ _ (search call_rules) (λ fresh. record_pod-Other fresh _ _ (search call_rules))
