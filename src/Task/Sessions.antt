-- ===== src/Task/Sessions.antt =====
-- The OpenCode session of a finished Task (internal/controller/opencode_client.go and
-- `resolveSessionInfo` of task_controller.go). A request that fails, by whatever step, is an error
-- of `list_sessions` or `list_messages`; no error of theirs gets out.
pub mod Latest
pub mod Keeps
use kubeopencode.Prelude.{
  ℕ, suc, String, Bool, true, false, ◌||◌, Option, none, some, List, [], ◌∷◌, is_some, is_none,
  length, map, filter_by, if◌then◌else◌,
}
use kubeopencode.Prelude.Int.{ℤ, pos, ◌+ℤ◌, ltb_ℤ, int32}
use kubeopencode.Prelude.Text.{str_eq}
use kubeopencode.Api.Task.{Task, TokenUsage, SessionSummary, SessionInfo}
use kubeopencode.Client.{
  E, Session, SessionMessage, FileSummary, Env, pure, attempt, library, on_result, on_option, ◌>>=◌,
  ◌>>◌,
}
use kubeopencode.Client.Calls.{get_agent, list_sessions, list_messages}

-- The loop of `FindSessionByTitle`.
unfoldable pub latest_titled : String → Option Session → List Session → Option Session
latest_titled title latest [] = latest
latest_titled title none (s ∷ ss) =
    latest_titled title (if str_eq s.title title then some s else none) ss
latest_titled title (some l) (s ∷ ss) =
    latest_titled title
      (if str_eq s.title title
        then (if ltb_ℤ l.created s.created then some s else some l)
        else some l)
      ss

-- `FindSessionByTitle`
unfoldable pub find_session_by_title : String → String → E (Option Session)
find_session_by_title url title = do
  sessions ← list_sessions url title
  pure (latest_titled title none sessions)

-- The tokens of `AssistantMessageData`; the sums stay far below 2^63.
abbrev pub add_message : TokenUsage → SessionMessage → TokenUsage
add_message u m = record {
  input = u.input +ℤ m.input;
  output = u.output +ℤ m.output;
  reasoning = u.reasoning +ℤ m.reasoning;
  cache = u.cache +ℤ (m.cache_read +ℤ m.cache_write);
}

abbrev pub is_assistant : SessionMessage → Bool
is_assistant m = str_eq m.role "assistant"

unfoldable pub sum_tokens : TokenUsage → List SessionMessage → TokenUsage
sum_tokens u [] = u
sum_tokens u (m ∷ ms) = sum_tokens (if is_assistant m then add_message u m else u) ms

-- `AggregateMessageStats`: the tokens, the printed cost and the number of messages.
unfoldable pub aggregate_message_stats : String → String → E (TokenUsage × String × ℤ)
aggregate_message_stats url id = do
  messages ← list_messages url id
  cost ← library (λ env. env.add_costs (map (λ m. m.cost) (filter_by is_assistant messages)))
  let none_yet : TokenUsage = record {
    input = pos 0;
    output = pos 0;
    reasoning = pos 0;
    cache = pos 0;
  }
  pure (sum_tokens none_yet messages, cost, int32 (length messages))

abbrev pub with_session : Task → SessionInfo → Task
with_session task session = record task { status = record task.status { session = some session } }

abbrev pub summary_of : Session → TokenUsage × String × ℤ → SessionSummary
summary_of session (tokens, cost, count) = record {
  message_count = count;
  token_usage = some tokens;
  cost = cost;
  files_changed = elim session.summary [ none ↦ pos 0 | some f ↦ f.files ];
  additions = elim session.summary [ none ↦ pos 0 | some f ↦ f.additions ];
  deletions = elim session.summary [ none ↦ pos 0 | some f ↦ f.deletions ];
}

-- The part of `resolveSessionInfo` after the session was found.
unfoldable pub with_found_session : Task → SessionInfo → String → Session → E Task
with_found_session task info url session = do
  stats ← attempt (aggregate_message_stats url session.id)
  on_result stats (λ _. pure (with_session task (record info { id = session.id })))
      (λ s. pure (
        with_session task (record info { id = session.id; summary = some (summary_of session s) })))

-- The part of `resolveSessionInfo` after its first tests.
unfoldable pub search_session : Task → SessionInfo → String → E Task
search_session task info agent_name = do
  agent ← attempt (get_agent (record { name = agent_name; namespace = task.meta.namespace }))
  on_result agent (λ _. pure task)
      (λ a. if str_eq a.status.url "" then pure task else (do
        session ← attempt (find_session_by_title a.status.url info.title)
        on_result session (λ _. pure task)
            (λ found. on_option found (pure task) (with_found_session task info a.status.url))))

-- `resolveSessionInfo`, which changes the Task's status in place.
unfoldable pub resolve_session_info : Task → E Task
resolve_session_info task = on_option task.status.session (pure task) (λ info.
    if str_eq info.title ""
    then pure task
    else on_option task.status.agent_ref (pure task) (search_session task info))
