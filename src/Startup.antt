-- ===== src/Startup.antt =====
-- smarty_server_t of src/server/server/smarty_server.cpp: the order in which the parts of the server
-- are made, started, stopped and waited for. `none` stands for a failed ASSERT or a call through a
-- null pointer. What a part answers to its calls is an argument.
pub mod Order
pub mod Network
pub mod Counts
pub mod Balance
use smarty.Base.{
  ℕ, Bool, true, false, not, ◌&&◌, ◌||◌, ◌==◌, List, [], ◌∷◌, ◌++◌, Option, none, some,
  if◌then◌else◌,
}
use smarty.Common.{ErrorCode, error_ok, operation_failed}
use smarty.Handler.{◌>>=◌}

pub data Part : Type 0 where
  device event_handler net_server mobile_register desktop_register : Part
  client_handler : ℕ → Part

-- A call of a part: `init`, the three of thread_base_t, and the part as an observer of the device
pub data Call : Type 0 where
  init start stop wait add_observer remove_observer : Part → Call

-- What `init` and `start` of the parts return
pub record Answers : Type 0 where
  pub inits : Part → Bool
  pub starts : Part → Bool

-- Which of the pointers are set
pub record SmartyServer : Type 0 where
  pub has_config : Bool
  pub has_device : Bool
  pub has_net_server : Bool
  pub has_event_handler : Bool

unfoldable pub new_smarty_server : SmartyServer
new_smarty_server = record {
  has_config = false;
  has_device = false;
  has_net_server = false;
  has_event_handler = false;
}

-- The result of an operation: the server, its calls in order, and what it returns
abbrev pub Started : Type 0
Started = Option (SmartyServer × List Call × Bool)

unfoldable pub start_device : Answers → (has_driver : Bool) → SmartyServer → Started
start_device a has_driver s =
    if not (s.has_config && has_driver)
    then none
    else if not (a.inits device)
    then none
    else if not (a.starts device)
    then none
    else some (record s { has_device = true }, init device ∷ start device ∷ [], true)

unfoldable pub stop_device : SmartyServer → Option (List Call)
stop_device s = if not s.has_device then none else some (stop device ∷ wait device ∷ [])

unfoldable pub start_event_handler : Answers → SmartyServer → Started
start_event_handler a s =
    if not (s.has_config && s.has_device)
    then none
    else if not (a.inits event_handler)
    then none
    else if not (a.starts event_handler)
    then none
    else some (
      record s { has_event_handler = true },
      init event_handler ∷ start event_handler ∷ add_observer event_handler ∷ [],
      true,
    )

unfoldable pub stop_event_handler : SmartyServer → Option (List Call)
stop_event_handler s =
    if not (s.has_event_handler && s.has_device)
    then none
    else some (remove_observer event_handler ∷ stop event_handler ∷ wait event_handler ∷ [])

unfoldable pub start_net_server : Answers → SmartyServer → Started
start_net_server a s =
    if s.has_net_server || not (s.has_config && (s.has_device && s.has_event_handler))
    then none
    else if not (a.starts net_server)
    then none
    else some (record s { has_net_server = true }, start net_server ∷ [], true)

unfoldable pub stop_net_server : SmartyServer → Option (List Call)
stop_net_server s =
    if not s.has_net_server then none else some (stop net_server ∷ wait net_server ∷ [])

-- `first && second`, the second being called only if the first returns true
abbrev pub and_then : Started → (SmartyServer → Started) → Started
and_then first second =
    first >>= λ r. if not r.2 then some r else (second r.0 >>= λ t. some (t.0, r.1 ++ t.1, t.2))

-- smarty_server_t::start
unfoldable pub start_server :
    Answers
    → (has_driver has_config : Bool) → SmartyServer
    → Option (SmartyServer × List Call × ErrorCode)
unfolding start_device start_event_handler start_net_server
start_server a has_driver has_config s =
    and_then
      (and_then (start_device a has_driver (record s { has_config = has_config }))
        (start_event_handler a))
      (start_net_server a)
    >>= λ r. some (r.0, r.1, if r.2 then error_ok else operation_failed)

-- smarty_server_t::stop
unfoldable pub stop_server : SmartyServer → Option (List Call × ErrorCode)
unfolding stop_device stop_event_handler stop_net_server
stop_server s = stop_net_server s >>= λ n.
    stop_event_handler s >>= λ e. stop_device s >>= λ d. some (n ++ (e ++ d), error_ok)
