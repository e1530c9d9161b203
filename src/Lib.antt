-- ===== src/Lib.antt =====
-- Verification of the core of tuxanci-ng: the containers, the tables of ids and objects, the timers and
-- the players and shots that the server and the client of the game share (src/base), and the parts of the
-- client that keep state of their own (src/client).
--
-- The program. A list_t (list.c) is a growing array of pointers, on which nearly everything stands. An
-- index (index.c) is a list kept sorted by id; a space (space.c) holds the objects of one kind in an
-- arena, by id in an index and by place in a grid of zones. An arena has three spaces, for tuxes (tux.c),
-- shots (shot.c) and items (item.c), whose callbacks tell a space where an object stands; guns (gun.c)
-- make shots. Timers (myTimer.c) run what is due. Ids come from a table of counts (idManager.c); messages
-- to a client wait in a list (checkFront.c) and hold counts of their ids. A connection collects bytes in
-- a buffer (buffer.c), protect.c watches when a client was last heard of, and storage.c keeps images and
-- sounds by name. Text files (textFile.c) hold the configuration of the client (configFile.c); its keys
-- wait in a ring (keyboardBuffer.c), its images in drawing order (layer.c).
--
-- The files.
--   Prelude       names of the libraries, outcomes of C code that may stop (Prelude.Outcome), int as ℤ
--                 over the native numbers (Prelude.Int), lists (Prelude.Lists)
--   Memory        blocks of cells: malloc, memcpy and memmove with their bounds
--   Sequence      what a list_t promises; the clients below use list_add, list_ins, list_del and
--                 list_search in this form
--   ArrayList     src/base/list.c; ArrayList.Refine relates each function to Sequence, ArrayList.Trace
--                 whole sequences of calls
--   Index         src/base/index.c; Index.Table is the finite map it implements, Index.Laws the proof,
--                 the other children follow the two bisections
--   IdManager     src/base/idManager.c; Counts are the lemmas on the table, Laws and Fresh the operations
--   Buffer        src/base/buffer.c; Queue and Lines
--   Space         src/base/space.c; Objects is the interface of the callbacks, Zones and Visits the lemmas
--                 on the grid, Invariant, Move, Query and But the operations; Actions and Walk are the calls of
--                 a function for each object
--   Sweep         the loop over a list that deletes as it goes, of myTimer.c, checkFront.c and storage.c
--   Storage       src/base/storage.c
--   Timer         src/base/myTimer.c
--   CheckFront    src/base/checkFront.c
--   Protect       src/base/protect.c
--   Tux           src/base/tux.c, src/base/gun.c and the records of src/base/shot.c and src/base/item.c;
--                 Guns and Events are the handlers, Ammo and Shooting their theorems
--   Shots         src/base/shot.c: the flight of the shots, and in Making how they are made, turned and
--                 bounced; Index, Members and Ready are the lemmas on the index, Flight one shot, Pass and
--                 Laws all of them, Created and Made a new one, Turned and Course the laser and the ball
--   Arena         src/base/arena.c, with the three spaces; Free draws a free place and puts a tux there,
--                 Teleport says where it then stands; Step is moveTux, up to the pick-up of items, and
--                 Walk its theorem, over Ahead (the coordinates) and Room (who stands there)
--   KeyboardBuffer  src/client/keyboardBuffer.c; Refine relates it to a queue
--   HotKey        src/client/hotKey.c; Stacks and Refine are the calls as a stack for each key, Press the
--                 event
--   Layer         src/client/layer.c; Order is the list, Clip what is seen of it
--   Text          strings of the C library: strchr, strstr, strncmp, memchr
--   TextFile      src/base/textFile.c
--   ConfigFile    src/client/configFile.c; Entries is one line, Laws the file
--   Tests         the theorems at concrete inputs
--
-- The correspondence. A definition has the name of its C function in lower case (index_add, space_del,
-- switch_tux_gun for switchTuxGun); an object behind a pointer is a number and a heap says what stands
-- there (Space), or the element itself (the lists of the other parts). A failed assertion, an abort and an
-- access outside a block are faults of Result. int is ℤ without a bound, except where the code mixes
-- signed and unsigned: the lengths of buffers and the times in my_time_t are kept modulo 2 ^ 32. Callbacks
-- and what lies outside src are parameters: random() and gettimeofday() are streams of numbers, the
-- callback of a timer is a function on the rest of the state, arena_is_free_space and module_is_conflict
-- are arguments of the handlers of a tux.
--
-- Bounds and fuel. The loop of index_add takes the fuel that its own debug counter grants (five rounds for
-- each entry); getOffsetFromIndex takes one round more than the list is long; the sweep of a list takes
-- one round more than it is long, and so does space_action; createLine takes one more than the bytes
-- of the file; buffer_count_line takes one more than the bytes there. A round of
-- each of them halves the range, consumes an element or consumes a line, so this is enough. The
-- loops of findNewID and getRandomCourse draw from random() until a number suits, so the model needs one
-- round more than there are draws that do not. arena_find_free_space does the same with places.
--
-- Not modelled: drawing itself, sound, sockets, the file system, the menus and widgets, the pick-up
-- of items, the protocol and the modules of an arena.
pub mod Prelude
pub mod Memory
pub mod Sequence
pub mod Shots
pub mod ArrayList
pub mod Index
pub mod HotKey
pub mod KeyboardBuffer
pub mod Layer
pub mod IdManager
pub mod Buffer
pub mod Space
pub mod Sweep
pub mod Text
pub mod TextFile
pub mod ConfigFile
pub mod Storage
pub mod Timer
pub mod CheckFront
pub mod Protect
pub mod Tux
pub mod Arena
mod Tests
