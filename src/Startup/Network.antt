-- ===== src/Startup/Network.antt =====
-- The thread of net_server_t (src/server/server/net_server.cpp): the starts and stops of the
-- registers and of the threads that serve clients, and the loop that accepts connections. In a list of
-- calls `start` is one that has returned true, and a `wait` at the end may be one that never returns.
use smarty.Base.{
  ℕ, zero, suc, ◌+◌, Bool, true, false, not, List, [], ◌∷◌, ◌++◌, Option, none, some, if◌then◌else◌,
}
use smarty.Handler.{◌>>=◌}
use smarty.Startup.{
  mobile_register, desktop_register, client_handler, Call, start, stop, wait, add_observer,
  remove_observer, Answers,
}

-- HANDLERS_COUNT, the number of client threads; the definitions take any number.
abbrev pub handlers_count : ℕ
handlers_count = 10

pub record NetServer : Type 0 where
  pub has_mobile_register : Bool
  pub has_client_handlers : Bool
  pub clients_queue : List ℕ

-- net_server_t::net_server_t; the desktop register is made with it.
unfoldable pub new_net_server : NetServer
new_net_server = record {
  has_mobile_register = false;
  has_client_handlers = false;
  clients_queue = [];
}

abbrev pub Done : Type 0
Done = Option (NetServer × List Call × Bool)

unfoldable pub start_mobile_register : Answers → NetServer → Done
start_mobile_register a n =
    if n.has_mobile_register
    then none
    else if not (a.starts mobile_register)
    then none
    else some (
      record n { has_mobile_register = true },
      start mobile_register ∷ add_observer mobile_register ∷ [],
      true,
    )

unfoldable pub stop_mobile_register : NetServer → Option (List Call)
stop_mobile_register n =
    if not n.has_mobile_register
    then none
    else some (remove_observer mobile_register ∷ stop mobile_register ∷ wait mobile_register ∷ [])

unfoldable pub start_desktop_register : Answers → List Call × Bool
start_desktop_register a =
    if not (a.starts desktop_register) then ([], false) else (start desktop_register ∷ [], true)

unfoldable pub stop_desktop_register : List Call
stop_desktop_register = stop desktop_register ∷ wait desktop_register ∷ []

-- The loop of start_client_handlers, from thread `idx` on, `left` of them
unfoldable pub start_handlers : Answers → (idx left : ℕ) → Option (List Call)
start_handlers a idx zero = some []
start_handlers a idx (suc left) =
    if not (a.starts (client_handler idx))
    then none
    else (start_handlers a (idx + 1) left >>= λ rest. some (start (client_handler idx) ∷ rest))

-- The loop of stop_client_handlers, and whether it ends: `ends` says which threads end once they are
-- stopped, and the wait for another never returns.
unfoldable pub stop_handlers : (ℕ → Bool) → (idx left : ℕ) → List Call × Bool
stop_handlers ends idx zero = ([], true)
stop_handlers ends idx (suc left) =
    let (rest, done) = stop_handlers ends (idx + 1) left in
    if not (ends idx)
    then (stop (client_handler idx) ∷ wait (client_handler idx) ∷ [], false)
    else (stop (client_handler idx) ∷ wait (client_handler idx) ∷ rest, done)

unfoldable pub start_client_handlers : Answers → (count : ℕ) → NetServer → Done
unfolding start_handlers
start_client_handlers a count n = start_handlers a 0 count >>= λ calls.
    some (record n { has_client_handlers = true }, calls, true)

unfoldable pub stop_client_handlers :
    (ℕ → Bool) → (count : ℕ) → NetServer → Option (List Call × Bool)
unfolding stop_handlers
stop_client_handlers ends count n =
    if not n.has_client_handlers then none else some (stop_handlers ends 0 count)

-- net_server_t::init; `listens` is what `listen` returns.
unfoldable pub init : Answers → (listens : Bool) → (count : ℕ) → NetServer → Done
unfolding start_mobile_register start_desktop_register start_client_handlers
init a listens count n = start_mobile_register a n >>= λ m.
    let (calls, done) = start_desktop_register a in
    if not done
    then some (m.0, m.1 ++ calls, false)
    else (start_client_handlers a count m.0 >>= λ h. some (h.0, m.1 ++ (calls ++ h.1), listens))

unfoldable pub clean_clients_queue : NetServer → NetServer
clean_clients_queue n = record n { clients_queue = [] }

-- How the thread ends: without `finalize`, not at all, or after `finalize`
pub data Ending : Type 0 where
  gave_up waits finished : Ending

unfoldable pub finalize :
    (ℕ → Bool) → (count : ℕ) → NetServer → Option (NetServer × List Call × Ending)
unfolding stop_client_handlers clean_clients_queue stop_desktop_register stop_mobile_register
finalize ends count n = stop_client_handlers ends count n >>= λ h.
    if not h.1
    then some (n, h.0, waits)
    else (stop_mobile_register n >>= λ m.
        some (clean_clients_queue n, h.0 ++ (stop_desktop_register ++ m), finished))

-- The loop of do_run over what `accept` returns until the server stops, `none` being a null pointer
unfoldable pub accept_all : List (Option ℕ) → List ℕ → Option (List ℕ)
accept_all [] queue = some queue
accept_all (none ∷ cs) queue = none
accept_all (some c ∷ cs) queue = accept_all cs (queue ++ c ∷ [])

-- net_server_t::do_run; the client threads take clients from the queue at the same time, which is
-- left out.
unfoldable pub do_run :
    Answers
    → (listens : Bool) → (ends : ℕ → Bool) → (count : ℕ) → (accepted : List (Option ℕ)) → NetServer
    → Option (NetServer × List Call × Ending)
unfolding init finalize accept_all
do_run a listens ends count accepted n = init a listens count n >>= λ i.
    if not i.2
    then some (i.0, i.1, gave_up)
    else (accept_all accepted i.0.clients_queue >>= λ queue.
        finalize ends count (record (i.0) { clients_queue = queue }) >>= λ f.
        some (f.0, i.1 ++ f.1, f.2))
