-- ===== src/Audit/Service.antt =====
-- internal/application/audit/service.go. The goroutine of the drainer is a step for each case of its
-- `select`; `Shutdown` does not wait for it. The counter is not as large as an int64; log lines are left
-- out.
pub mod Laws
use usp_cloud_native.Prelude.{
  ℕ, ◌+◌, Str, codes, str_eq, is_empty, leb, ltb, length, Bool, true, false, if◌then◌else◌, Option,
  none, some, List, [], ◌∷◌, ◌++◌,
}
use usp_cloud_native.Access.Claims.{Claims}
use usp_cloud_native.Audit.Event.{Event, Metadata, actor_user, actor_api_key, actor_system}
use usp_cloud_native.Audit.Repository.{Table, is_nil, write_many}

abbrev pub max_channel_size : ℕ
max_channel_size = 2048

abbrev pub default_batch_size : ℕ
default_batch_size = 50

pub record State : Type 0 where
  pub channel : List Event
  pub batch : List Event
  pub stopped : Bool
  pub dropped_events : ℕ
  pub logs : Table

abbrev pub new_service : Table → State
new_service logs = record {
  channel = [];
  batch = [];
  stopped = false;
  dropped_events = 0;
  logs = logs;
}

unfoldable pub capture : Event → State → State
capture e s =
    if ltb (length s.channel) max_channel_size
    then record s { channel = s.channel ++ e ∷ [] }
    else record s { dropped_events = s.dropped_events + 1 }

abbrev pub resolve_actor_type : Claims → Str
resolve_actor_type c = if str_eq c.issuer (codes "apikey") then actor_api_key else actor_user

abbrev pub anonymous : Event → Event
anonymous e = record e {
  actor_id = codes "anonymous";
  actor_type = actor_system;
  workspace_id = none;
}

abbrev pub acted_by : Option Claims → Event → Event
acted_by none e = anonymous e
acted_by (some c) e = record e {
  actor_id = c.user_id;
  actor_type = resolve_actor_type c;
  workspace_id = if is_empty c.workspace_id then none else some c.workspace_id;
}

-- The identifier that is drawn, and the clock.
pub record Outside : Type 0 where
  pub id : Str
  pub now : ℕ

unfoldable pub build_event :
    Outside
    → Option Claims
    → (action resource_type resource_id source_ip user_agent request_id : Str) → Metadata
    → Event
build_event o claims action resource_type resource_id source_ip user_agent request_id metadata =
    acted_by claims (record {
      id = o.id;
      workspace_id = none;
      actor_id = [];
      actor_type = [];
      action = action;
      resource_type = resource_type;
      resource_id = resource_id;
      source_ip = source_ip;
      user_agent = user_agent;
      request_id = request_id;
      metadata = metadata;
      occurred_at = o.now;
    })

abbrev pub written : List Event → State → Option Table → State
written events s none = record s { dropped_events = s.dropped_events + length events }
written events s (some t) = record s { logs = t }

-- `flush`, for the state without its batch.
unfoldable pub flush : Bool → List Event → State → State
unfolding write_many
flush lost events s = if is_nil events then s else written events s (write_many lost s.logs events)

abbrev pub flush_batch : Bool → State → State
flush_batch lost s = flush lost s.batch (record s { batch = [] })

abbrev pub flush_full : Bool → State → State
flush_full lost s = if leb default_batch_size (length s.batch) then flush_batch lost s else s

-- A drainer whose channel is empty waits.
abbrev pub take_event : Bool → State → List Event → State
take_event lost s [] = s
take_event lost s (e ∷ channel) =
    flush_full lost (record s { channel = channel; batch = s.batch ++ e ∷ [] })

-- The cases of the drainer's `select`; it does nothing once it has returned.
unfoldable pub receive : Bool → State → State
receive lost s = if s.stopped then s else take_event lost s s.channel

unfoldable pub tick : Bool → State → State
tick lost s = if s.stopped then s else flush_batch lost s

unfoldable pub stop : Bool → State → State
stop lost s = if s.stopped then s else record (flush_batch lost s) { stopped = true }

abbrev pub kept : State → Option Table → State
kept s none = s
kept s (some t) = record s { logs = t }

-- `Shutdown`, at any time. What a failed write loses is not counted.
unfoldable pub shutdown : Bool → State → State
unfolding write_many
shutdown lost s = kept (record s { channel = [] }) (write_many lost s.logs s.channel)

pub data Step : Type 0 where
  captured : Event → Step
  received ticked cancelled drained : Bool → Step

abbrev pub step : Step → State → State
step (captured e) s = capture e s
step (received lost) s = receive lost s
step (ticked lost) s = tick lost s
step (cancelled lost) s = stop lost s
step (drained lost) s = shutdown lost s

abbrev pub run : List Step → State → State
run [] s = s
run (x ∷ steps) s = run steps (step x s)
