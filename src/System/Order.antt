-- ===== src/System/Order.antt =====
-- The event handler's thread (src/server/event/event_handler.cpp) executes the commands of its queue
-- in the order in which they were queued.
use mathlib.Core.List.{append_assoc, append-nil, tail-eq_of_cons-eq, append_cancel_left}
use smarty.Base.{
  All, Bool-cases, inl, inr, ℕ, ◌≤◌, ◌≡◌, ◌∙◌, sym, ap, refl, arith, List, [], ◌∷◌, ◌++◌, Option,
  none, some, length, if◌then◌else◌,
}
use smarty.Command.{Command}
use smarty.Handler.{Output}
use smarty.System.Fifo.{
  Takes, Fifo, pushed, is_round, rounds_in, first_of, executed, all_executed, Keeps, Keeps-step,
  Keeps-append, sent-step,
}
use smarty.System.Executed.{sent, direct, sent-append, direct-append}
use smarty.System.{Queue, Call, System, after, step, run}
use smarty.System.Safety.{IsKnown, IsSafe, step-StaysSafe}

module _ (queue : Queue) (fifo : Fifo queue) where
  open queue use {Carrier, add, take}
  open fifo use {contents, contents_take}

  first_of-line :
      (taken : Option (Command × Carrier)) (line : List Command) (x : Command) (xs : List Command)
      → Takes queue contents line taken
      → line ≡ x ∷ xs
      → first_of queue taken ≡ x ∷ []
  first_of-line none line x xs t e = cc
  first_of-line (some (c, q)) line x xs t e = cc

  -- A round executes the first command of the line, and other calls none.
  executed-first :
      (c : Call) (s : System queue) (x : Command) (xs : List Command)
      → contents s.commands ≡ x ∷ xs
      → executed queue c s ≡ (if is_round c then x ∷ [] else [])
  executed-first c s x xs line =
      rw
        (first_of-line (take s.commands) (contents s.commands) x xs (contents_take s.commands) line)

  -- The line after a call
  next_line :
      (c : Call) (s s1 : System queue) (out1 : List Output) (x : Command) (xs rest : List Command)
      → step queue c s ≡ some (s1, out1)
      → contents s.commands ≡ x ∷ xs ++ rest
      → contents s1.commands ≡ (if is_round c then xs else x ∷ xs) ++ (rest ++ pushed out1)
  next_line c s s1 out1 x xs rest returns line =
      let first = executed-first c s x (xs ++ rest) line in
      let kept = Keeps-step queue fifo c s (s1, out1) returns in
      let ends = append_assoc xs rest (pushed out1) in
      elim (Bool-cases (is_round c)) [
        | inl turn ↦
            (let all : (x ∷ contents s1.commands) ≡ x ∷ ((xs ++ rest) ++ pushed out1) =
                rw (first, turn, line) at kept in
              rw turn (tail-eq_of_cons-eq all ∙ ends))
        | inr other ↦
            (let all : contents s1.commands ≡ x ∷ ((xs ++ rest) ++ pushed out1) =
                rw (first, other, line) at kept in
              rw other (all ∙ ap (λ ys. x ∷ ys) ends))
      ]

  module _ (n : ℕ) where
    executes :
        (cs : List Call) (s : System queue) (line rest : List Command)
        → contents s.commands ≡ line ++ rest
        → length line ≤ rounds_in cs
        → IsSafe queue n s
        → All (IsKnown n) cs
        → (more : List Command) × (all_executed queue cs s ≡ line ++ more)
    executes cs s [] rest e few safe known = (all_executed queue cs s, refl)
    executes [] s (x ∷ xs) rest e few safe known = absurd (omega arith)
    executes (c ∷ cs) s (x ∷ xs) rest e few safe known =
        let (s1, out1, returns, safe1, fit1) = step-StaysSafe queue n c s safe known.0 in
        let first = executed-first c s x (xs ++ rest) e in
        let next = next_line c s s1 out1 x xs rest returns e in
        elim (Bool-cases (is_round c)) [
          | inl turn ↦
              (let (more, these) =
                  executes cs s1 xs (rest ++ pushed out1) (rw turn at next) (ground (arith, turn))
                    safe1 known.1 in
                (more, rw (returns, first, turn) (ap (λ ys. x ∷ ys) these)))
          | inr other ↦
              (let (more, these) =
                  executes cs s1 (x ∷ xs) (rest ++ pushed out1) (rw other at next)
                    (ground (arith, other)) safe1 known.1 in
                (more, rw (returns, first, other) these))
        ]

    run-Keeps :
        (cs : List Call) (s : System queue)
        → IsSafe queue n s
        → All (IsKnown n) cs
        → (s' : System queue) × (out : List Output) × (run queue cs s ≡ some (s', out))
          × Keeps queue fifo (all_executed queue cs s) (contents s.commands) (s', out)
          × (sent out ≡ direct (all_executed queue cs s))
    unfolding run
    run-Keeps [] s safe known = (s, [], refl, sym (append-nil (contents s.commands)), refl)
    run-Keeps (c ∷ cs) s safe known =
        let (s1, out1, returns, safe1, fit1) = step-StaysSafe queue n c s safe known.0 in
        let (s2, out2, runs, rest, after) = run-Keeps cs s1 safe1 known.1 in
        let now = Keeps-step queue fifo c s (s1, out1) returns in
        let both = Keeps-append queue fifo _ _ _ s1 s2 out1 out2 now rest in
        let all : sent (out1 ++ out2) ≡ direct (executed queue c s ++ all_executed queue cs s1) =
          rw (sent-append, direct-append, sent-step queue c s s1 out1 returns, after) in
        (s2, out1 ++ out2, rw (returns, runs), rw returns both, rw returns all)

    -- From a safe system with a queue that gives the oldest command first, calls of the handler and
    -- rounds of its thread, in any order, return, if the commands that clients add are for lights that
    -- exist; if there are at least as many rounds as commands
    -- wait at the start, those commands are all executed, in their order and before any other, and
    -- then commands that were queued later: these and what waits in the end are just what the calls
    -- and rounds queued, in their order, so that no command is lost, doubled or overtaken. The device
    -- is sent those of the executed commands that are for it and have no delay, and nothing else.
    pub run-served :
        (cs : List Call) (s : System queue)
        → IsSafe queue n s
        → All (IsKnown n) cs
        → length (contents s.commands) ≤ rounds_in cs
        → (s' : System queue) × (out : List Output) × (more : List Command) × (run queue cs s
            ≡ some (s', out))
          × (all_executed queue cs s ≡ contents s.commands ++ more)
          × (more ++ contents s'.commands ≡ pushed out)
          × (sent out ≡ direct (contents s.commands ++ more))
    run-served cs s safe known few =
        let line = contents s.commands in
        let (s', out, runs, kept, gone) = run-Keeps cs s safe known in
        let (more, all) = executes cs s line [] (sym (append-nil line)) few safe known in
        let same : line ++ (more ++ contents s'.commands) ≡ line ++ pushed out =
          sym (append_assoc line more (contents s'.commands)) ∙ (rw all at kept) in
        (s', out, more, runs, all, append_cancel_left line _ _ same, (rw all at gone))
