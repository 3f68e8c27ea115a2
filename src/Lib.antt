-- ===== src/Lib.antt =====
-- smarty: a home automation server. A microcontroller switches lights and reads buttons and
-- sensors; the server polls it, runs the events of its configuration, and serves mobile and desktop
-- clients.
--
-- The parts and how they meet:
--   the driver's controller (src/driver) polls the microcontroller and calls its observers when the
--   state changes; the device (src/server/device) is such an observer, keeps what it hears and, in
--   its own thread, calls its own observers: the event handler (src/server/event) and the register of
--   mobile clients (src/server/mobile). The event handler queues the commands of the events that
--   fire and executes them in its thread, on the device or on its modes; the registers of mobile and
--   desktop clients (src/server/mobile, src/server/desktop) pass commands, notifications and changes
--   of modes on, and drop clients that are silent. The event parser (src/server/event) builds the
--   events from the configuration.
--
-- Each part is a module of its own; a method becomes a function of the same name from the part's
-- state, a record with the source's members, to the new state and the list of calls that it makes of
-- the parts around it, its outputs, in order. `none` stands for a failed ASSERT or undefined
-- behaviour. Where one file holds several methods' helpers, the loop of a method is a function of
-- its own.
--   Common, Observer   src/common/enums.h, enums.cpp, errors.h, mc_enum.h, driver_intf.h and
--                      src/driver/driver.h: commands, states, name tables, observers and sets of them
--   Command            src/server/command, src/server/device/light_object.cpp: the commands
--   Event              src/server/event/device_event.cpp, mode_event.cpp, double_click_event.cpp
--   Handler            src/server/event/event_handler.cpp: the callbacks and the modes
--   Creation           the same file: how events and commands are made
--   Worker             the same file: the thread, with the execution of commands
--   Parser             src/server/event/event_parser.cpp and event_handler_t::init
--   Device             src/server/device/device.cpp
--   Controller         src/driver/device_controller.cpp, and execute_command of device_driver.cpp
--   Driver             src/driver/device_driver.cpp, main.cpp: the slaves on the I2C bus, and the library
--   Client             src/common/client_protocol.h, src/server/client: what the registers share
--   Mobile, Desktop    src/server/mobile/mobile_register.cpp,
--                      src/server/desktop/desktop_register.cpp
--   Connection         src/server/mobile/mobile_handler.cpp, src/server/desktop/desktop_handler.cpp:
--                      the handshake and the packets of one client
--   Server             src/server/server/net_server.cpp: the registers' calls of one another
--   Config             src/common/config.cpp, config_parser.cpp: the names and pins of lights and sensors
--   Protocol           src/common/client_protocol.h: the packets, and how they travel
--   Serving            src/server/client/client_thread.cpp: the threads that serve clients, and their end
--   Startup            src/server/server/smarty_server.cpp, net_server.cpp: the order in which the parts
--                      are started and stopped
--   Application        src/smarty, src/common/library_intf.cpp: the program and its two libraries
--   ClientLib          src/common/client_lib.cpp: the library of client programs
--   Firmware           src/mc/smarty_ir.v2.0.c, smarty_ir.v1.0.c: the programs of the microcontroller
--   Timer              src/server/event/timer.cpp
--   System             the event handler with its queue, under calls and rounds in any order
--   Pipeline           the way from the controller over the device to the event handler, one command
--                      after another
--   Base, Bits         shared: Boolean tests, lists, texts, the bits and words of 32 bits
--   Tests              runs at concrete inputs
--
-- Numbers: a `uint` is a native number, and what can leave 32 bits is written out (`dec_u32`,
-- `bit_not`, `shl_one`; a shift of 1 by 32 or more is undefined in the source and 0 here). Times are
-- readings of a clock that does not run backwards.
--
-- Bounds and fuel: `get_bit_offset` halves its parameter, which serves as its own fuel; arrays of
-- actions in a configuration are followed to the depth of the value. The loops of threads are
-- functions of a list with what each round meets, so a run is any finite sequence of rounds.
--
-- Outside the model: the JSON library (`Parser.Json` states what is asked of it), the network
-- (a function that tells which sockets take what is sent to them), the clock, the driver (a function
-- from a call to its answer), the command queue (`System.Queue` states what is asked of it),
-- the splitting of a text at colons (`Connection.Peer`), logging and locks; where the source takes no lock,
-- `Device.interleaved_check` has the calls of the other thread as arguments. Not
-- modelled: the setting of the microcontroller's ports, src/mc/smarty.c (an older program, whose
-- command_enum.h is not in the repository), the I2C bus itself, and logging.
--
-- Between the parts: a connection is the bytes that are still to come, and the serializer of one
-- member of a packet is a parameter (`Protocol.Wire.Serializer`). The interrupt of the microcontroller
-- runs between two calls of its main loop. `Serving.Stopping` has the threads as steps in any order;
-- elsewhere a thread runs alone. The threads library (`stop` marks a thread and calls its do_stop,
-- `wait` returns at the end of its do_run), the dynamic loader and sockets are outside.
pub mod Base
pub mod Bits
pub mod Common
pub mod Command
pub mod Event
pub mod Handler
pub mod Creation
pub mod Worker
pub mod Observer
pub mod Device
pub mod Controller
pub mod Driver
pub mod Client
pub mod Mobile
pub mod Desktop
pub mod Parser
pub mod Connection
pub mod Server
pub mod Config
pub mod Firmware
pub mod Protocol
pub mod Startup
pub mod Serving
pub mod Application
pub mod ClientLib
pub mod Timer
pub mod System
pub mod Pipeline
pub mod Tests
