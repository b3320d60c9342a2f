-- ===== src/Examples/Wakes.antt =====
-- The witnesses of wakeups: a task without tools, and a subscription that its missing grant ends.
use microoperator.Base.{pos, true, [], ◌∷◌, text, same, ok, ◌≡◌, refl}
use microoperator.Store.{Control, WakeState, task_terminal, AgentRow, SubscriptionRow, Db, order_by}
use microoperator.Access.Pins.{authorize_pins, load_local_tools}
use microoperator.Access.Read.{goal_of, read_task}
use microoperator.Teams.Wakes.{Notice, wake_eligible, notify_subscriptions}
use microoperator.Teams.Woken.{Ready, wake_eligible-Ready}
use microoperator.Examples.{sample_db, sample_env, sample_goal}
use microoperator.Examples.Memories.{reader}

abbrev reader_agent : AgentRow
reader_agent = record {
  system_id = text "a";
  agent_id = text "b";
  parent_id = [];
  goal_id = text "o";
  name = text "operator";
  revision = pos 1;
  state = Control.active;
  depth = 0;
  token_budget = pos 40;
  max_turns = 8;
}

abbrev listener : SubscriptionRow
listener = record {
  system_id = text "a";
  subscription_id = text "u";
  task_id = text "t";
  creator = text "b";
  type = text "memory.changed";
  scope = text "system";
  expires_at = pos 0;
  remaining = pos 2;
  state = WakeState.active;
  reason = [];
}

abbrev listening_db : Db
listening_db = record sample_db {
  tasks = reader ∷ [];
  agents = reader_agent ∷ [];
  goals = record sample_goal { deadline = pos 5000 } ∷ [];
  subscriptions = listener ∷ [];
}

found_ready : wake_eligible sample_env listening_db reader ≡ ok (true, [])
unfolding wake_eligible goal_of authorize_pins same text task_terminal load_local_tools
found_ready = refl

wake_eligible-Ready_example : Ready sample_env listening_db reader
wake_eligible-Ready_example =
    wake_eligible-Ready sample_env listening_db reader (true, []) found_ready refl

abbrev change_notice : Notice
change_notice = record {
  source = record reader { task_id = text "w"; agent_id = text "z" };
  kind = text "memory.changed";
  scope = text "system";
  owner = [];
  cause = [];
  payload = text "x";
}

abbrev told_db : Db
told_db = record listening_db {
  subscriptions =
      record listener {
        state = WakeState.canceled;
        reason = text "memory retrieval grant unavailable";
      }
      ∷ [];
}

told :
    notify_subscriptions sample_env (λ k. k ∷ []) (λ k. k ∷ []) listening_db change_notice
    ≡ ok told_db
unfolding notify_subscriptions goal_of read_task authorize_pins same text task_terminal order_by
    load_local_tools
told = refl
