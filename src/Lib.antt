-- ===== src/Lib.antt =====
-- A verification library for the simulation of real-time communication: a master process, the slave
-- processes that it serves, and a configurator that starts them.
--
-- The program's parts. The three processes share memory and send each other signals. A table of 32
-- segments (`Shm`, `Shmseg` in src/common.h) joins the master and the slaves; every segment holds a
-- pid, a name, a request and an answer in each direction, one semaphore in each direction that is 1
-- when no request is outstanding, parameters, and the errors that the slave sets. A control segment
-- (`ControlShm` in src/control.h) joins the master and the configurator, which writes a command there
-- and sends SIGUSR2. The master creates a thread for each slave that is connected; the thread claims
-- a segment, sends the request to connect, and then handles one SIGUSR1 of its slave after the other:
-- first the errors in the segment, then a request of the slave or its answer to a request. A slave
-- acknowledges the requests of the master, changes its name when the master asks, and, while its
-- cycle is started, writes the parameters that the master asked for and signals the master.
--
-- The files, and the code they are about (a function has its name in the source):
--   Prelude       lists, integers and shared lemmas over the native numbers
--   Common        src/common.h and src/control.h: constants, enums, segments; Common/Params the masks
--                 of parameters, Common/Text strings in buffers, `strcpy`, `%u`
--   Table         assignShmsegIdx, getAssignedShmsegIdx, assignLocalIdx and getAssignedLocalIdx: one
--                 search for the copies in the three programs; Probe, Laws, Exact its theorems, View
--                 the table as a finite map
--   Os            what the system calls may do, and the monad of the handlers
--   Master/Link   what a handler of src/master.c for one segment reads and writes
--   Master/Send   the five send_*_slave_request functions, the answers to slave and configurator
--   Master/Request  handle_slave_request, slave_request_has_errors, handle_slave_request_errors
--   Master/Reply  handle_slave_response, its switches as functions of their own
--   Master/State  the state of the whole master, must_change_name
--   Master/Init   init, init_signal_semaphores, init_shared_memory, async_signal_handler; Process
--                 init, main and final with calls that fail, Threads the end of main
--   Master/Processor  slave_processor_detached_thread and the function that creates it
--   Master/Commands   the body of sync_signal_handler_thread and the handlers of the commands
--   Slave/Node    what a handler of src/slave.c reads and writes, and the macro set_error
--   Slave/Name    handle_change_name_slave_request
--   Slave/Requests  handle_master_request, handle_master_response, the handlers of the requests
--   Slave/Cycle   one round of slave_communication_cycle_detached_thread
--   Slave/Threads the two threads of a slave, which run at the same time: the cycle thread in the parts
--                 between its calls, and the handlers of signals, with the sleep in the request to
--                 stop. Handled and Parts say what each does to what they share; Race leads
--                 them to a NULL pointer, Alone relates the parts to Slave/Cycle
--   Slave/Start   init, main and final with calls that fail
--   Slave/Signals the arguments of init, first_signal_ever_setup and one round of signal_handler_thread
--   Slave/Kept    what a slave leaves unchanged in its segment
--   Configurator  src/configurator.c: its table of slaves, its requests and what it does with the
--                 answers. Input the lines of the user; Menu, Cycle and AutomaticTest the cases of
--                 `main`, Main its switch, Start the calls before and after the loop, and the menu
--                 that is printed; Data and LogFilter what is printed. Registry the table as a finite
--                 map, and that a round of the menu stays inside it; Exhausted the number of slaves
--                 through the menu, Typed pids in lines, Arguments the command line of a slave, Shown
--                 and Printed the output
--   System        all three programs as steps on the shared state; Local is the interface that an
--                 invariant of the segments has to fill, handler by handler; Serving, Admission and
--                 Orders carry it through the master, Reachable through every step. Settled fills it
--                 for pids and names, InBounds for buffers and error counts. Transfer is the way of
--                 the parameters from slave to master, Handshake that of a process to its connection
--   Tests         runs on concrete states
--
-- The model. A handler is a function of the state, in a monad with three outcomes: `done`,
-- `blocked` when it sleeps in `sem_wait` (with the state that it leaves while it sleeps), and
-- `fault` where the code leaves the bounds of an array or a buffer, goes through a null pointer or
-- overflows a signed number. A handler runs without interruption, except in Slave/Threads, where
-- the cycle thread runs between the handlers and while one sleeps, and in Slave/Cycle, where a
-- request to stop may be handled while the cycle thread waits for the master. `Os` says for each
-- system call whether it fails while the handler runs; the theorems hold for every `Os` unless they
-- name the calls that must not fail. A semaphore is its value, a buffer a list of bytes, a pid an
-- integer; an entry of the log is a value of a data type in place of its text. Bytes and masks have
-- their wrap-around written out. Doubles that only compare microseconds are integers.
--
-- Fuel. The printing of a number has 10 digits, and 10 ^ 10 is above 2 ^ 32. The loop that drains a
-- semaphore has the semaphore's value as fuel, since every round takes one. The wait for the master
-- has 20 rounds, as in the code. The search in the table makes at most MAX_SLAVES steps.
--
-- Not modelled: of src/configurator.c the texts that ask for input; messages to stderr and entries
-- of the log on the levels DEBUG and INFO; in Slave/Threads the reset of the segment of a slave
-- that is disconnected while its cycle is started; what the kernel does for the set-up of signal
-- masks, of logging and of the shared memory. In System, the configurator is what it writes to the
-- shared memory, a handler that sleeps leaves its state behind and is not taken up again, a handler
-- that faults ends the run, and handlers do not overlap; in Slave/Threads, the master and the
-- configurator are what they may write to the slave's segment. The library functions `getline` and
-- `sscanf` are as in glibc; a line is at most as long as memory allows.
pub mod Prelude
pub mod Common
pub mod Table
pub mod Os
pub mod Master
pub mod Slave
pub mod Configurator
pub mod System
mod Tests
