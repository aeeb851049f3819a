-- ===== src/Lib.antt =====
-- A model of libdsvdc, the C library with which a virtual device connector speaks to a digitalSTROM
-- vdSM over one TCP connection, and theorems about it.
--
-- The program has these parts. src/sockutil.c reads and writes a socket with a timeout.
-- src/properties.c keeps the tree of named values that property requests carry. src/msg_processor.c
-- frames and sends messages, remembers the announcements that wait for an answer, and hands each
-- received message to the application's callback. src/dsvdc.c makes and clears an instance, opens
-- the listening socket, registers the callbacks and has `dsvdc_work`, a turn of the application's main
-- loop. src/database.c keeps properties in a file. src/discovery.c announces the service by Avahi.
-- examples/vdc-reference.c is an application of the library, a device connector with one light.
--
-- Which file models what:
--   Base        Boolean tests, lists over the native numbers, byte strings
--   Sock        src/sockutil.c: `sockread` and `sockwrite`, over a script of what select, recv and
--               send do; a loop turn for each event of the script
--   Memory      malloc, realloc of NULL, strdup and free: which requests are granted is a function
--               of the state, blocks are counted, and undefined behaviour is a result
--   Codes       the result codes of src/dsvdc.h
--   Property    src/properties.c: Free, Copy, Access and Build hold `dsvdc_property_` free, deep
--               copy, getters and adders, under the C names without the prefix; Whole says which
--               trees are well-formed, Freed and Lost what freeing them gives back
--   Message     the fields of messages/messages.proto and messages/vdcapi.proto that are used
--   Handle      src/common.h: `struct dsvdc`, and the state of the world around it
--   Effects     the monad of the functions below: state, undefined behaviour, waits and fuel
--   Send        `dsvdc_send_message` and all that is sent through it
--   Requests    `dsvdc_announce_container` and `_device`, `dsvdc_get_cached_request`,
--               `dsvdc_cleanup_request_list`
--   Process     the `dsvdc_process_` functions; Notification and Properties hold those for
--               notifications and for property requests
--   Dispatch    `dsvdc_process_message`
--   Instance    `dsvdc_setup_handle`, `dsvdc_cleanup`, the callbacks; Port has `dsvdc_setup_socket`
--               and New has `dsvdc_new`
--   Work        `dsvdc_work`
--   Invariant   what holds of an instance between two turns, and how commands keep it; Careful says
--               what a callback of the application may do; the modules named Keeping prove it of the
--               handlers, the cleanup of the requests, the dispatch and the turn
--   Life        sequences of turns and calls of the API
--   Database    src/database.c and src/util.c; Dictionary has the abstract view of a file
--               and Refinement the proof
--   Discovery   src/discovery.c: World has the state and the daemon, Callbacks the
--               functions that Avahi calls; Up, Services, Events, Init and
--               Restart have the proofs
--   Reference   examples/vdc-reference.c: Scenes has the light and the callbacks for scenes, with
--               Table for the abstract view and Refinement for the proof; Session, SetProperty and
--               GetProperty the other callbacks; Site, Icon and Dsuid the globals, the icon and
--               the comparison of dSUIDs; Program the main program, Settings its options
--   Samples     data for the tests, which stand in the modules named Examples
--
-- Four loops run on fuel. The walk over the waiting requests gets one turn for each request, and
-- the search for a port 65536 turns, more than there are ports; each is proved to end within
-- that. The digits of a scene's number get ten turns, as many as an int32_t has digits. `dsvdc_avahi_create_services` calls itself after a collision of names, which has no bound
-- in the code; its fuel has to exceed the calls of Avahi until the collisions stop. All other
-- loops recurse on the script or the list that they walk. Numbers are natural numbers, and int32,
-- int64 and double values are bit patterns; the message length and the request id wrap around as
-- in the code, at 2 ^ 16 and 2 ^ 32.
--
-- Parameters stand for code outside the repository: packing and unpacking by protobuf-c, whose
-- own blocks are not counted, the conversion of a double to an int32_t, tolower and toupper, the
-- arithmetic of doubles, GNU dbm, Avahi, libdsuid, the results of system calls, and the
-- application, which may change the whole state. A theorem on code that calls the application and
-- goes on says what it assumes of the callbacks: `IsCareful` where they may use the library
-- themselves and leave a sound instance sound, or `IsModest` where they leave the handle, the
-- mutex, the heap and the wire alone.
-- Unpacking is assumed to give well-formed arrays where a theorem says so: an array has as many
-- elements as its count says, NULL standing for none, and bytes are as long as their length says,
-- which is how protobuf-c fills repeated and bytes fields. Nothing is assumed of which fields of a
-- value are present together. The file of a database is assumed to keep what is stored. Packing
-- reads all elements of a pushed or answered property, and is undefined where one is missing, by
-- Property.Packing.
--
-- Not modelled: logging, which is empty without DEBUG; the calls of src/discovery.c in
-- src/dsvdc.c, whose functions are modelled in the build without Avahi; what the reference
-- connector prints, how it registers its signal handlers, whose effect is the end of the list of
-- turns, and how it draws random numbers; the tests.
mod Base
pub mod Sock
pub mod Memory
pub mod Codes
pub mod Property
pub mod Message
pub mod Handle
pub mod Effects
pub mod Send
pub mod Requests
pub mod Process
pub mod Dispatch
pub mod Instance
pub mod Work
pub mod Invariant
pub mod Life
pub mod Database
pub mod Discovery
pub mod Reference
pub mod Samples
