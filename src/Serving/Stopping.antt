-- ===== src/Serving/Stopping.antt =====
-- How the client threads are stopped: stop_client_handlers of src/server/server/net_server.cpp with
-- do_run and do_stop of src/server/client/client_thread.cpp, as steps of the threads. `stop` of
-- thread_base_t, which the repository uses and does not hold, marks a thread as stopping and calls its
-- do_stop; `wait` returns once its do_run has. Serving a client is one step.
use smarty.Base.{
  ◌==◌, ℕ, zero, suc, ◌≤◌, ◌≡◌, ◌≢◌, refl, arith, Bool, true, false, List, [], ◌∷◌, ◌++◌, some,
  if◌then◌else◌, get_elem?, set, length, replicate,
}

-- What is in the queue of clients: a connection, or the new socket that do_stop puts there
pub data Entry : Type 0 where
  connection wake : Entry

-- A client thread: in its loop, marked as stopping or not, or at its end
pub data Thread : Type 0 where
  looping : (stopping : Bool) → Thread
  ended : Thread

-- Where stop_client_handlers is: before the call of `stop` or of `wait` for a thread, or at its end
pub data Progress : Type 0 where
  to_stop to_wait : ℕ → Progress
  finished : Progress

pub record Pool : Type 0 where
  pub queue : List Entry
  pub threads : List Thread
  pub progress : Progress

-- The loop of client_thread_t::do_run once `pop` has returned: it ends if it is stopping, and serves
-- what it has taken if it is not.
unfoldable pub after_pop : Bool → Thread
after_pop stopping = if stopping then ended else looping false

unfoldable pub next_of : ℕ → ℕ → Progress
next_of count i = if suc i == count then finished else to_stop (suc i)

pub data Step : Pool → Pool → Type 0 where
  -- thread i takes the first entry
  pop :
      (i : ℕ) (stopping : Bool) (e : Entry) (es : List Entry) (p : Pool)
      → p.queue ≡ e ∷ es
      → get_elem? p.threads i ≡ some (looping stopping)
      → Step p (record p { queue = es; threads = set p.threads i (after_pop stopping) })
  -- handler->stop( )
  stop :
      (i : ℕ) (stopping : Bool) (p : Pool)
      → p.progress ≡ to_stop i
      → get_elem? p.threads i ≡ some (looping stopping)
      → Step p (record p {
        queue = p.queue ++ wake ∷ [];
        threads = set p.threads i (looping true);
        progress = to_wait i;
      })
  -- handler->wait( )
  wait :
      (i : ℕ) (p : Pool)
      → p.progress ≡ to_wait i
      → get_elem? p.threads i ≡ some ended
      → Step p (record p { progress = next_of (length p.threads) i })

pub data Steps (p : Pool) : Pool → Type 0 where
  here : Steps p p
  then_step : {q r : Pool} → Steps p q → Step q r → Steps p r

-- All threads wait for a client, and the server begins to stop them.
abbrev pub idle_pool : ℕ → Pool
idle_pool n = record { queue = []; threads = replicate n (looping false); progress = to_stop 0 }

-- Nothing more can happen, and stop_client_handlers has not returned.
abbrev pub Deadlocked : Pool → Type 0
Deadlocked p = ((q : Pool) → Step p q → ⊥) × (p.progress ≢ finished)

abbrev stuck : ℕ → Pool
stuck n = record {
  queue = [];
  threads = looping true ∷ looping false ∷ replicate n (looping false);
  progress = to_wait 0;
}

reaches_stuck : (n : ℕ) → Steps (idle_pool (suc (suc n))) (stuck n)
unfolding after_pop
reaches_stuck n = then_step (then_step here (stop 0 false (idle_pool (suc (suc n))) refl refl)) (
    pop 1 false wake []
      (record {
        queue = wake ∷ [];
        threads = looping true ∷ looping false ∷ replicate n (looping false);
        progress = to_wait 0;
      })
      refl refl)

-- Thread 0 is waited for, it loops, and the queue is empty.
record IsStuck (p : Pool) : Type 0 where
  empty : p.queue ≡ []
  waited : p.progress ≡ to_wait 0
  asleep : get_elem? p.threads 0 ≡ some (looping true)

no-Step : (p q : Pool) → IsStuck p → Step p q → ⊥
no-Step p q s (pop i stopping e es p' queued there) = cc (s.empty)
no-Step p q s (stop i stopping p' at there) = cc (s.waited)
no-Step p q s (wait i p' at there) = ground (arith, s.waited, s.asleep)

-- With at least two client threads that all wait for a client, stopping them can deadlock: the thread
-- that is told to stop first need not be the one that takes the socket which is meant to wake it; if
-- another thread takes it, nothing more can happen, and the server waits for ever.
pub stop_client_handlers-Deadlocked :
    (n : ℕ) → 2 ≤ n → (p : Pool) × Steps (idle_pool n) p × Deadlocked p
stop_client_handlers-Deadlocked zero h = absurd (omega arith)
stop_client_handlers-Deadlocked (suc zero) h = absurd (omega arith)
stop_client_handlers-Deadlocked (suc (suc n)) h = (
  stuck n,
  reaches_stuck n,
  ((λ q s. no-Step (stuck n) q (record { empty = refl; waited = refl; asleep = refl }) s), λ e. cc),
)
