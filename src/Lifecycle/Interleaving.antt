-- ===== src/Lifecycle/Interleaving.antt =====
-- clienthandler.go: the goroutines of requests, one critical section at a time. A goroutine sets a response,
-- a timeout or a cancellation, under the context's lock; if the request is done with it, the same goroutine
-- clears the holder, under the holder's lock, sends what comes of the request, and calls Done of the wait
-- group; what other goroutines do comes in between. A request is stored in one step: it is sent after
-- that, the clearing at the end waits for the goroutines that store, and a stray response under its stream
-- id between the parts of storing is left out.
use zdm_proxy.Prelude.{
  ℕ, Bool, Option, none, some, List, [], ℤ, int_eq, nat_eq, lookup, insert, if◌then◌else◌, Result,
  ◌≡◌,
}
use zdm_proxy.Protocol.{RawFrame, ClusterType, ClusterConnectorType}
use zdm_proxy.RequestInfo.{RequestInfo}
use zdm_proxy.Requests.Context.{
  RequestContext, NodeMetrics, FramePointer, set_timeout, set_response,
}
use zdm_proxy.Handler.{HandlerState, ResponseError}
use zdm_proxy.Lifecycle.{
  Table, get_or_create_holder, store_request, free_holder, leave, close_request, send_outcome,
  cancel_method,
}

-- What the goroutine of a request has to do next; `waiting` before there is one, `over` after its end.
pub data Stage : Type 0 where
  waiting to_clear to_send to_leave over : Stage

-- A request's stream id, and how far it is.
pub record Phase : Type 0 where
  pub stream_id : ℤ
  pub stage : Stage

-- The handler's tables, and the phases of requests by the address of their contexts.
pub record System : Type 0 where
  pub table : Table
  pub phases : List (ℕ × Phase)

-- SetTimeout, SetResponse and Cancel.
pub data Event : Type 0 where
  timeout : FramePointer → Event
  response : RawFrame → ClusterType → ClusterConnectorType → Event
  cancellation : Event

abbrev pub method_of : Event → RequestContext × NodeMetrics → RequestContext × NodeMetrics × Bool
method_of (timeout req) = set_timeout req
method_of (response f cluster connector) = set_response f cluster connector
method_of cancellation = cancel_method

abbrev pub with_stage : ℕ → Phase → Stage → List (ℕ × Phase) → List (ℕ × Phase)
with_stage ctx ph stage phases = insert ctx (record ph { stage = stage }) phases

unfoldable pub store_step : ℕ → FramePointer → RequestInfo → System → System
store_step ctx req info s =
    let (t, stored) = store_request ctx req info s.table in
    record {
      table = t;
      phases =
          if stored
          then insert ctx (record { stream_id = req.frame.header.stream_id; stage = waiting })
              s.phases
          else s.phases;
    }

abbrev pub create_step : ℤ → System → System
create_step stream_id s = record s {
  table = record s.table { holders = get_or_create_holder stream_id s.table.holders };
}

-- The method of a context that a goroutine has got from its holder, now or long before.
unfoldable pub event_step : Event → ℕ → Phase → RequestContext → System → System
event_step e ctx ph c s =
    let (c', m, finished) = method_of e (c, s.table.node_metrics) in
    record {
      table = record s.table { node_metrics = m; contexts = insert ctx c' s.table.contexts };
      phases = if finished then with_stage ctx ph to_clear s.phases else s.phases;
    }

abbrev pub clear_step : ℕ → Phase → System → System
clear_step ctx ph s = record {
  table = free_holder ph.stream_id ctx s.table;
  phases = with_stage ctx ph to_send s.phases;
}

abbrev pub close_step : ℕ → Phase → RequestContext → System → System
close_step ctx ph c s = record {
  table = close_request ctx c s.table;
  phases = with_stage ctx ph to_leave s.phases;
}

abbrev pub leave_step : ℕ → Phase → System → System
leave_step ctx ph s = record { table = leave s.table; phases = with_stage ctx ph over s.phases }

module _ (primary async : ClusterType)
    (process : RawFrame
      → ClusterType
      → RequestInfo
      → Option RawFrame
      → HandlerState
      → HandlerState × Result ResponseError RawFrame) where
  abbrev pub send_step : ℕ → Phase → FramePointer → RequestContext → System → System
  send_step ctx ph req c s = record {
    table = send_outcome primary async process ctx req c s.table;
    phases = with_stage ctx ph to_leave s.phases;
  }

  -- The states of a handler, from one without requests on. A new context has a new address.
  pub data Reach : System → Type 0 where
    starts :
        (s : System)
        → s.table.holders ≡ []
        → s.table.contexts ≡ []
        → s.table.outcomes ≡ []
        → s.table.requests_in_flight ≡ 0
        → s.phases ≡ []
        → Reach s
    stores :
        (ctx : ℕ) (req : FramePointer) (info : RequestInfo) (s : System)
        → lookup ctx s.table.contexts ≡ none
        → Reach s
        → Reach (store_step ctx req info s)
    creates : (stream_id : ℤ) (s : System) → Reach s → Reach (create_step stream_id s)
    happens :
        (e : Event) (ctx : ℕ) (ph : Phase) (c : RequestContext) (s : System)
        → lookup ctx s.phases ≡ some ph
        → lookup ctx s.table.contexts ≡ some c
        → Reach s
        → Reach (event_step e ctx ph c s)
    frees :
        (ctx : ℕ) (ph : Phase) (s : System)
        → lookup ctx s.phases ≡ some ph
        → ph.stage ≡ to_clear
        → Reach s
        → Reach (clear_step ctx ph s)
    sends :
        (ctx : ℕ) (ph : Phase) (req : FramePointer) (c : RequestContext) (s : System)
        → lookup ctx s.phases ≡ some ph
        → ph.stage ≡ to_send
        → lookup ctx s.table.contexts ≡ some c
        → c.request ≡ some req
        → Reach s
        → Reach (send_step ctx ph req c s)
    closes :
        (ctx : ℕ) (ph : Phase) (c : RequestContext) (s : System)
        → lookup ctx s.phases ≡ some ph
        → ph.stage ≡ to_send
        → lookup ctx s.table.contexts ≡ some c
        → Reach s
        → Reach (close_step ctx ph c s)
    leaves :
        (ctx : ℕ) (ph : Phase) (s : System)
        → lookup ctx s.phases ≡ some ph
        → ph.stage ≡ to_leave
        → Reach s
        → Reach (leave_step ctx ph s)
