-- ===== src/Task/Sessions/Keeps.antt =====
-- What the search for the session leaves alone (`resolveSessionInfo` of
-- internal/controller/task_controller.go).
use kubeopencode.Prelude.{◌≡◌, refl, Option, String}
use kubeopencode.Prelude.Text.{str_eq}
use kubeopencode.Api.Task.{Task, SessionInfo}
use kubeopencode.Api.Meta.{Key}
use kubeopencode.Client.{Env, Call, Session}
use kubeopencode.Client.Rules.{
  Only, Only-pure, Only-on_option, Only-bind, Only-attempt, Only-on_result, Only-if, Ensures,
  only_rules,
}
use kubeopencode.Client.Rules.Calls.{call_rules}
use kubeopencode.Client.Rules.Returns.{
  Ensures-pure, Ensures-if, Ensures-bind, Ensures-on_result, ensures_rules,
}
use kubeopencode.Client.Rules.Total.{Total, Total-pure, Total-if, Total-on_option, Total-attempt}
use kubeopencode.Task.Sessions.{
  with_found_session, search_session, resolve_session_info, with_session, aggregate_message_stats,
  find_session_by_title,
}

-- The second Task is the first but for its session.
pub record SameButSession (t u : Task) : Type 0 where
  pub session : Option SessionInfo
  pub same : u ≡ record t { status = record t.status { session = session } }

unchanged : (t : Task) → SameButSession t t
unchanged t = record { session = t.status.session; same = refl }

changed : (t : Task) (info : SessionInfo) → SameButSession t (with_session t info)
changed t info = record { session = Option.some info; same = refl }

with_found_session-Ensures :
    (t : Task) (info : SessionInfo) (url : String) (s : Session)
    → Ensures (SameButSession t) (with_found_session t info url s)
unfolding with_found_session
with_found_session-Ensures t info url s = search (ensures_rules, changed)

search_session-Ensures :
    (t : Task) (info : SessionInfo) (name : String)
    → Ensures (SameButSession t) (search_session t info name)
unfolding search_session
search_session-Ensures t info name = Ensures-bind _ _ (λ r.
    Ensures-on_result r _ _ (λ e. Ensures-pure _ (unchanged t))
      (λ a.
        Ensures-if _ _ _ (Ensures-pure _ (unchanged t))
          (Ensures-bind _ _ (λ f. search (ensures_rules, unchanged, with_found_session-Ensures)))))

pub resolve_session_info-Ensures : (t : Task) → Ensures (SameButSession t) (resolve_session_info t)
unfolding resolve_session_info
resolve_session_info-Ensures t = search (ensures_rules, unchanged, search_session-Ensures)

with_found_session-Total :
    (t : Task) (info : SessionInfo) (url : String) (s : Session)
    → Total (SameButSession t) (with_found_session t info url s)
unfolding with_found_session
with_found_session-Total t info url s =
    Total-attempt _ _ _ (λ e. Total-pure _ (changed t _)) (λ a. Total-pure _ (changed t _))

search_session-Total :
    (t : Task) (info : SessionInfo) (name : String)
    → Total (SameButSession t) (search_session t info name)
unfolding search_session
search_session-Total t info name =
    let kept = Total-pure t (unchanged t) in
    Total-attempt _ _ _ (λ e. kept)
      (λ a. Total-if _ _ _ kept (
        Total-attempt _ _ _ (λ e. kept)
          (λ found. Total-on_option found _ _ kept (with_found_session-Total t info _))))

-- It always returns.
pub resolve_session_info-Total : (t : Task) → Total (SameButSession t) (resolve_session_info t)
unfolding resolve_session_info
resolve_session_info-Total t =
    let kept = Total-pure t (unchanged t) in
    Total-on_option _ _ _ kept
      (λ info. Total-if _ _ _ kept (Total-on_option _ _ _ kept (search_session-Total t info)))

module _ {P : Env → Call → Type 0} (ga : (env : Env) (k : Key) → P env (Call.get_agent k))
    (ls : (env : Env) (a b : String) → P env (Call.list_sessions a b))
    (lm : (env : Env) (a b : String) → P env (Call.list_messages a b)) where
  aggregate_message_stats-Only : (url id : String) → Only P (aggregate_message_stats url id)
  unfolding aggregate_message_stats
  aggregate_message_stats-Only url id = search (only_rules, call_rules, lm)

  with_found_session-Only :
      (t : Task) (info : SessionInfo) (url : String) (s : Session)
      → Only P (with_found_session t info url s)
  unfolding with_found_session
  with_found_session-Only t info url s = search (only_rules, aggregate_message_stats-Only)

  find_session_by_title-Only : (url title : String) → Only P (find_session_by_title url title)
  unfolding find_session_by_title
  find_session_by_title-Only url title = search (only_rules, call_rules, ls)

  search_session-Only :
      (t : Task) (info : SessionInfo) (name : String) → Only P (search_session t info name)
  unfolding search_session
  search_session-Only t info name = Only-bind _ _ (Only-attempt _ (search (call_rules, ga))) (λ r.
      Only-on_result r _ _ (λ e. Only-pure t)
        (λ a.
          Only-if (str_eq a.status.url "") _ _ (λ _. Only-pure t)
            (λ _. Only-bind _ _ (Only-attempt _ (find_session_by_title-Only _ _)) (λ f.
              Only-on_result f _ _ (λ e. Only-pure t)
                (λ found.
                  Only-on_option found _ _ (λ _. Only-pure t)
                    (λ s _. with_found_session-Only t info a.status.url s))))))

  -- It reads an Agent and asks its server, and nothing else.
  pub resolve_session_info-Only : (t : Task) → Only P (resolve_session_info t)
  unfolding resolve_session_info
  resolve_session_info-Only t = search (only_rules, search_session-Only)
