-- ===== src/Startup/Counts.antt =====
-- Counts of the calls that start and stop the parts of the server (src/server/server/net_server.cpp).
use smarty.Base.{
  ℕ, zero, suc, ◌+◌, ◌≡◌, refl, arith, Bool, true, false, ◌&&◌, ◌==◌, List, [], ◌∷◌, ◌++◌, none,
  some, if◌then◌else◌,
}
use smarty.Startup.{
  Part, device, event_handler, net_server, mobile_register, desktop_register, client_handler, Call,
  start, stop, wait, add_observer, remove_observer, Answers,
}
use smarty.Startup.Network.{start_handlers, stop_handlers}

abbrev pub part_eq : Part → Part → Bool
part_eq device device = true
part_eq event_handler event_handler = true
part_eq net_server net_server = true
part_eq mobile_register mobile_register = true
part_eq desktop_register desktop_register = true
part_eq (client_handler i) (client_handler j) = i == j
part_eq _ _ = false

abbrev pub count : (Call → Bool) → List Call → ℕ
count test [] = 0
count test (c ∷ cs) = (if test c then 1 else 0) + count test cs

abbrev pub is_start : Part → Call → Bool
is_start p (start q) = part_eq p q
is_start p _ = false

abbrev pub is_stop : Part → Call → Bool
is_stop p (stop q) = part_eq p q
is_stop p _ = false

abbrev pub is_wait : Part → Call → Bool
is_wait p (wait q) = part_eq p q
is_wait p _ = false

abbrev pub is_add : Part → Call → Bool
is_add p (add_observer q) = part_eq p q
is_add p _ = false

abbrev pub is_remove : Part → Call → Bool
is_remove p (remove_observer q) = part_eq p q
is_remove p _ = false

-- Part p has been stopped and waited for as often as it was started, and taken from the observers of
-- the device as often as it was added.
pub record Balanced (p : Part) (calls : List Call) : Type 0 where
  pub stopped : count (is_stop p) calls ≡ count (is_start p) calls
  pub waited : count (is_wait p) calls ≡ count (is_start p) calls
  pub removed : count (is_remove p) calls ≡ count (is_add p) calls

-- Nothing was stopped, and the mobile register is started and observes the device.
pub record LeftRunning (calls : List Call) : Type 0 where
  pub none_stopped : (p : Part) → count (is_stop p) calls ≡ 0
  pub none_removed : (p : Part) → count (is_remove p) calls ≡ 0
  pub mobile_started : count (is_start mobile_register) calls ≡ 1
  pub mobile_observes : count (is_add mobile_register) calls ≡ 1

abbrev pub all_start : Answers → (idx left : ℕ) → Bool
all_start a idx zero = true
all_start a idx (suc left) = a.starts (client_handler idx) && all_start a (idx + 1) left

abbrev pub starts_from : (idx left : ℕ) → List Call
starts_from idx zero = []
starts_from idx (suc left) = start (client_handler idx) ∷ starts_from (idx + 1) left

pub start_handlers_lem :
    (a : Answers) (idx left : ℕ)
    → start_handlers a idx left
      ≡ (if all_start a idx left then some (starts_from idx left) else none)
unfolding start_handlers
start_handlers_lem a idx zero = refl
start_handlers_lem a idx (suc left) = ground (arith, start_handlers_lem a (idx + 1) left)

pub count-append :
    (test : Call → Bool) (xs ys : List Call) → count test (xs ++ ys) ≡ count test xs + count test ys
count-append test [] ys = omega arith
count-append test (x ∷ xs) ys = omega (arith, count-append test xs ys)

abbrev pub stops_from : (idx left : ℕ) → List Call
stops_from idx zero = []
stops_from idx (suc left) =
    stop (client_handler idx) ∷ wait (client_handler idx) ∷ stops_from (idx + 1) left

-- Every one of the threads ends once it is stopped.
abbrev pub all_end : (ℕ → Bool) → (idx left : ℕ) → Bool
all_end ends idx zero = true
all_end ends idx (suc left) = ends idx && all_end ends (idx + 1) left

-- The calls up to the thread that does not end
abbrev pub stops_until : (ℕ → Bool) → (idx left : ℕ) → List Call
stops_until ends idx zero = []
stops_until ends idx (suc left) =
    stop (client_handler idx)
    ∷ wait (client_handler idx)
    ∷ (if ends idx then stops_until ends (idx + 1) left else [])

pub stop_handlers_lem :
    (ends : ℕ → Bool) (idx left : ℕ)
    → stop_handlers ends idx left ≡ (
        if all_end ends idx left
        then (stops_from idx left, true)
        else (stops_until ends idx left, false))
unfolding stop_handlers
stop_handlers_lem ends idx zero = refl
stop_handlers_lem ends idx (suc left) = ground (arith, stop_handlers_lem ends (idx + 1) left)

pub record Handlers (p : Part) (idx left : ℕ) : Type 0 where
  pub stops : count (is_stop p) (stops_from idx left) ≡ count (is_start p) (starts_from idx left)
  pub waits : count (is_wait p) (stops_from idx left) ≡ count (is_start p) (starts_from idx left)
  pub no_removes : count (is_remove p) (stops_from idx left) ≡ 0
  pub no_adds : count (is_add p) (starts_from idx left) ≡ 0
  pub no_starts : count (is_start p) (stops_from idx left) ≡ 0
  pub no_stops : count (is_stop p) (starts_from idx left) ≡ 0
  pub no_waits : count (is_wait p) (starts_from idx left) ≡ 0
  pub none_removed : count (is_remove p) (starts_from idx left) ≡ 0
  pub none_added : count (is_add p) (stops_from idx left) ≡ 0

pub handlers_lem : (p : Part) (idx left : ℕ) → Handlers p idx left
handlers_lem p idx zero = omega arith
handlers_lem p idx (suc left) =
    let rest = handlers_lem p (idx + 1) left in ground (arith, rest.stops)

-- Only client threads are stopped.
pub record OnlyClients (calls : List Call) : Type 0 where
  pub mobile_stops : count (is_stop mobile_register) calls ≡ 0
  pub desktop_stops : count (is_stop desktop_register) calls ≡ 0
  pub mobile_starts : count (is_start mobile_register) calls ≡ 0
  pub desktop_starts : count (is_start desktop_register) calls ≡ 0
  pub adds : count (is_add mobile_register) calls ≡ 0
  pub removes : count (is_remove mobile_register) calls ≡ 0

pub until-OnlyClients : (ends : ℕ → Bool) (idx left : ℕ) → OnlyClients (stops_until ends idx left)
until-OnlyClients ends idx zero = omega arith
until-OnlyClients ends idx (suc left) =
    let rest = until-OnlyClients ends (idx + 1) left in ground (arith, rest.mobile_stops)

pub from-OnlyClients : (idx left : ℕ) → OnlyClients (starts_from idx left)
from-OnlyClients idx zero = omega arith
from-OnlyClients idx (suc left) =
    let rest = from-OnlyClients (idx + 1) left in ground (arith, rest.mobile_stops)

-- Both registers are started and not stopped, and the mobile register observes the device.
pub record KeepsRegisters (calls : List Call) : Type 0 where
  pub mobile_stopped : count (is_stop mobile_register) calls ≡ 0
  pub desktop_stopped : count (is_stop desktop_register) calls ≡ 0
  pub mobile_removed : count (is_remove mobile_register) calls ≡ 0
  pub mobile_started : count (is_start mobile_register) calls ≡ 1
  pub desktop_started : count (is_start desktop_register) calls ≡ 1
  pub mobile_observes : count (is_add mobile_register) calls ≡ 1

pub starts_clients : (idx left : ℕ) → count (is_start mobile_register) (starts_from idx left) ≡ 0
starts_clients idx zero = refl
starts_clients idx (suc left) = omega (arith, starts_clients (idx + 1) left)
