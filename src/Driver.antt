-- ===== src/Driver.antt =====
-- device_driver_t (src/driver/device_driver.cpp) with its two microcontrollers on the I2C bus, and the
-- entry points of the driver's library (src/driver/main.cpp). The class i2c_master_t is not in the
-- repository: what the driver asks of it is a list of outputs, and its answers are an argument.
use smarty.Base.{
  Bool-cases, inl, inr, ℕ, Bool, true, false, not, List, [], ◌∷◌, ◌++◌, Option, none, some,
  if◌then◌else◌, All, All-append,
}

-- m_slaves: the addresses, which ascend
abbrev pub Slaves : Type 0
Slaves = List ℕ

pub data Output : Type 0 where
  -- i2c_master_t::init, connect and close, of the slave at this address
  init_slave connect_slave close_slave : ℕ → Output
  -- thread_base_t::start of the controller, and its deletion
  start_controller delete_controller : Output

-- What the slaves answer to `init` and to `connect`
pub record Answers : Type 0 where
  pub inits : ℕ → Bool
  pub connects : ℕ → Bool

-- device_driver_t::device_driver_t
unfoldable pub new_device_driver : Slaves
new_device_driver = 0x50 ∷ 0x51 ∷ []

-- device_driver_t::~device_driver_t
unfoldable pub destroy_device_driver : Slaves → List Output
destroy_device_driver [] = []
destroy_device_driver (s ∷ ss) = close_slave s ∷ destroy_device_driver ss

-- device_driver_t::init
unfoldable pub init : Answers → Slaves → List Output × Bool
init a [] = ([], true)
init a (s ∷ ss) =
    let (out, done) = init a ss in
    if not (a.inits s)
    then (init_slave s ∷ [], false)
    else if not (a.connects s)
    then (init_slave s ∷ connect_slave s ∷ [], false)
    else (init_slave s ∷ connect_slave s ∷ out, done)

-- g_pController and driver of main.cpp: whether the controller is there, and the driver's slaves
pub record Library : Type 0 where
  pub controller : Bool
  pub driver : Option Slaves

unfoldable pub new_library : Library
new_library = record { controller = false; driver = none }

-- `driver.reset` destroys the driver that was there.
unfoldable pub reset_driver : Option Slaves → List Output
unfolding destroy_device_driver
reset_driver none = []
reset_driver (some ss) = destroy_device_driver ss

-- create_driver; `starts` is the answer of `start`. `none` is a failed ASSERT.
unfoldable pub create_driver : Bool → Library → Option (Library × List Output)
unfolding reset_driver new_device_driver
create_driver starts l =
    if l.controller
    then none
    else if not starts
    then none
    else some (
      record { controller = true; driver = some new_device_driver },
      reset_driver l.driver ++ start_controller ∷ [],
    )

unfoldable pub free_driver : Library → Library × List Output
free_driver l =
    if l.controller then (record l { controller = false }, delete_controller ∷ []) else (l, [])

-- A call of the program: `create_driver` with the answer of `start`, or `free_driver`
pub data Call : Type 0 where
  create : Bool → Call
  free : Call

unfoldable pub calls : List Call → Library → Option (Library × List Output)
calls [] l = some (l, [])
calls (create starts ∷ cs) l = elim (create_driver starts l) [
  | none ↦ none
  | some (l', first) ↦ elim (calls cs l') [
    | none ↦ none
    | some (l'', rest) ↦ some (l'', first ++ rest)
  ]
]
calls (free ∷ cs) l = elim (calls cs (free_driver l).0) [
  | none ↦ none
  | some (l', rest) ↦ some (l', (free_driver l).1 ++ rest)
]

abbrev pub IsNoInit : Output → Type 0
IsNoInit (init_slave s) = ⊥
IsNoInit (connect_slave s) = ⊥
IsNoInit (close_slave s) = Unit {0}
IsNoInit start_controller = Unit {0}
IsNoInit delete_controller = Unit {0}

abbrev pub NoInit : Option (Library × List Output) → Type 0
NoInit none = Unit {0}
NoInit (some (l, out)) = All IsNoInit out

destroy-IsNoInit : (ss : Slaves) → All IsNoInit (destroy_device_driver ss)
unfolding destroy_device_driver
destroy-IsNoInit [] = tt
destroy-IsNoInit (s ∷ ss) = (tt, destroy-IsNoInit ss)

reset-IsNoInit : (o : Option Slaves) → All IsNoInit (reset_driver o)
unfolding reset_driver
reset-IsNoInit none = tt
reset-IsNoInit (some ss) = destroy-IsNoInit ss

NoInit-append :
    (first : List Output) (r : Option (Library × List Output))
    → All IsNoInit first
    → NoInit r
    → NoInit (elim r [ none ↦ none | some (l, rest) ↦ some (l, first ++ rest) ])
NoInit-append first none e k = tt
NoInit-append first (some (l, rest)) e k = All-append _ first rest e k

free-IsNoInit : (l : Library) → All IsNoInit (free_driver l).1
unfolding free_driver
free-IsNoInit l = elim (Bool-cases l.controller) [
  | inl there ↦ rw there (tt, tt)
  | inr gone ↦ rw gone tt
]

create_driver-NoInit : (starts : Bool) (l : Library) → NoInit (create_driver starts l)
unfolding create_driver
create_driver-NoInit starts l = elim (Bool-cases l.controller) [
  | inl there ↦ rw there tt
  | inr gone ↦ elim (Bool-cases starts) [
    | inl started ↦
        rw (gone, started)
          (All-append _ (reset_driver l.driver) _ (reset-IsNoInit l.driver) (tt, tt))
    | inr failed ↦ rw (gone, failed) tt
  ]
]

NoInit-then :
    (r : Option (Library × List Output)) (cs : List Call)
    → NoInit r
    → ((l : Library) → NoInit (calls cs l))
    → NoInit (elim r [
      | none ↦ none
      | some (l', first) ↦ elim (calls cs l') [
        | none ↦ none
        | some (l'', rest) ↦ some (l'', first ++ rest)
      ]
    ])
NoInit-then none cs e k = tt
NoInit-then (some (l, first)) cs e k = NoInit-append first (calls cs l) e (k l)

-- In any series of calls of the library no slave is opened: nothing calls `init` of the driver.
pub calls-NoInit : (cs : List Call) (l : Library) → NoInit (calls cs l)
unfolding calls
calls-NoInit [] l = tt
calls-NoInit (create starts ∷ cs) l =
    NoInit-then (create_driver starts l) cs (create_driver-NoInit starts l) (calls-NoInit cs)
calls-NoInit (free ∷ cs) l =
    NoInit-append (free_driver l).1 (calls cs (free_driver l).0) (free-IsNoInit l)
      (calls-NoInit cs (free_driver l).0)
