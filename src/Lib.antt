-- ===== src/Lib.antt =====
-- A multiplayer snake game: `libsnake`, which the server and the clients share, `server`, and
-- `client`.
--
-- The program. The user of a client says in its menus (`client/menu`) which game to host or to join.
-- To host one, the client starts the server with the settings as arguments
-- (`client/server_launcher.c`), which the server reads (`server/argument_parser.c`). The server holds
-- one game state: a board (`libsnake/map`), the players (`libsnake/player`), a changelog of the tiles
-- that the last tick changed (`libsnake/changelog`) and a ticker that wakes those who wait for a tick
-- (`libsnake/ticker.c`). Its `main` calls `server_tick` of `server/server.c` at most every 350 ms,
-- which goes over the players, moves, places or kills their snakes on the board, records each changed
-- tile, clears the tiles of the dead, and replaces eaten fruits. Clients register a player and ask it
-- to turn, pause, respawn or leave: over shared memory by calling `libsnake`, over a socket by
-- messages, which `server/client_connection.c` handles. After each tick they show the changes of the
-- changelog, or the whole board where they have missed a tick. What is to be drawn goes through a
-- queue (`libsnake/queue.h`) to a thread of its own (`client/renderer`).
--
-- The files.
--   Common      Boolean tests, 32-bit arithmetic, list helpers, the counted loop with its invariant
--               rule, and `Outcome`, the result of code that can exit or have undefined behaviour.
--   Rng         `libsnake/rng.c`, a parameter: floating point over `drand48`.
--   Queue       `libsnake/queue.h`, linked nodes on a heap; Linked, Refine and Operations hold proofs.
--   Geometry    `libsnake/coordinates.c`, `libsnake/direction.c`.
--   Map         `libsnake/map/map.c`, `libsnake/map/map_template.c`. Death is the flood over a dead
--               snake, Search the random search for a cell; the others hold proofs.
--   Changelog   `libsnake/changelog`. Replay reads a changelog as an update of a board.
--   Player      `libsnake/player`. Lifecycle states what a tick does to the status
--               of a player as a step relation.
--   Ticker      `libsnake/ticker.c`.
--   Server      `server/server.c`, `server/player_data_cache.c`; Turn holds the tick, Start
--               `libsnake/game_state.c` and the steps of a game; the others hold proofs.
--   Main        `server/main.c`, and `server_init` of `server/server.c`.
--   Socket      `libsnake/socket/socket.c`; Message, Encode and Decode are `socket_message.c`.
--   Connection  `server/client_connection.c`: one received message, the messages of one tick, and
--               those of the send thread. Handler is `server/client_connection_handler.c`.
--   Client      `client/socket_client.c`: the messages of the server, what each asks of the renderer,
--               and the keys.
--   ShmClient   `client/shm_client.c` and the keys of `client/input.c`.
--   Termbox     the calls of `termbox2`, a parameter.
--   Renderer    `client/renderer`. Display is the step relation of the threads around the renderer;
--               the others hold proofs.
--   Terminal    `client/terminal.c`.
--   Menu        `client/menu`; Host is `host_menu.c`, Join the two others, Play the choice in
--               `client/main.c`.
--   Settings    `libsnake/game_settings.h`, the arguments of `client/server_launcher.c`, and
--               `server/argument_parser.c`; Documented is what `libargs` documents.
--   Loader      `server/map_loader.c`.
--   Tests       concrete inputs.
--
-- The model. A struct is a record, an enumeration a data type with one more constructor for the
-- values of the C type that have no name. An array is a function of its index, so memory that was
-- not set is a value like any other; the nodes of a queue are on a heap that is a function of the
-- address. A function that writes through a pointer returns the new value, and one that fails returns
-- an option. `coordinate_t` is computed modulo 2 ^ 32, `size_t` modulo 2 ^ 64. An operation that holds
-- a mutex throughout is one step. What the user types is a list of events, and what `main` reads of
-- the clock a list of readings. The renderer is followed from the first redraw that its client asks
-- for, and every redraw draws the client's one board.
--
-- Fuel. `map_mark_player_as_dead` and the search of `map_find_random_matching_predicate` call
-- themselves. Their fuel is one more than the number of cells, since each call below another has
-- marked one more cell; running out would be the outcome `stuck`. The loops of `socket_read` and
-- `socket_write` have one more than the bytes asked for: they run out where a call transfers no byte.
-- The loops over a queue have as many as its items, and those that ask for a port one more than the
-- events that are left, of which each turn takes one.
--
-- Parameters: the generator of random numbers, `read` and `write` of a socket, `fscanf`, the address
-- that `malloc` returns, `atoi` and `%d` of `sprintf`, the operations of `libargs` and of `termbox2`,
-- and whether shared memory and a socket can be opened. Of `libargs` a law is assumed for any options
-- that are registered, of `fscanf` only what it gives for the file at hand.
--
-- Not modelled: mutexes, threads and signals but for the renderer's, shared memory, the opening of
-- sockets, the process that the launcher starts, the loop in the `main` of the client, freeing but
-- for the queue's, and the vendored `libargs` and `termbox2`. Arrays have no end: neither the changelog
-- nor the board is bounded by the size of its array, while the buffer of `terminal_read` is, where a
-- write past its end is the outcome `overflow`. The send thread is taken to copy the changelog of the
-- tick that it was woken for before the next tick, which no lock of the source ensures.
pub mod Common
pub mod Queue
pub mod Rng
pub mod Geometry
pub mod Map
pub mod Changelog
pub mod Player
pub mod Ticker
pub mod Server
pub mod Socket
pub mod Connection
pub mod Client
pub mod Termbox
pub mod Terminal
pub mod Settings
pub mod Menu
pub mod Renderer
pub mod Loader
pub mod Main
pub mod ShmClient
pub mod Tests
