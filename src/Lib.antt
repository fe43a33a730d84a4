-- ===== src/Lib.antt =====
-- Verification library of the LL2Games RPG server: the channel server's own logic (SERVER/src/CHANNEL) and
-- the parts of SERVER/src/COMMON that it stands on (packets, threads, tickets, the Redis client).
--
-- The server accepts a client into a channel session, which cuts its bytes into packets, lets only
-- authentication packets through until the client is authenticated, and hands every other packet to a
-- worker of the thread pool, always the same one for a session. A client authenticates with a ticket
-- that can be consumed once; its player is loaded, put into the roster of the channel, and saved when the
-- session ends, which waits for the tasks that hold the session. The handlers call services (shop, trade)
-- that change a player's gold and inventories, and answer through the session's send queue.
--
--   Common            integers, lists, dictionaries and tests that all parts share
--   Packet            SERVER/src/COMMON/packet/PacketParser.cpp: TryParse, ParseLengthPrefixedString,
--                     ParseNextIntField, MakeBody, MakePacket are try_parse, parse_length_prefixed_string,
--                     parse_next_int_field, make_body, make_packet
--   Session           SERVER/src/CHANNEL/app/ChannelSession.cpp: OnBytes, Dispatch, Send, EnqueueSend,
--                     FlushSend, the authentication state and the count of tasks
--   Inventory         SERVER/src/CHANNEL/domain/Inventory.cpp: the slots of one inventory
--   InventoryManager  SERVER/src/CHANNEL/manager/InventoryManager.cpp: all inventories of a player
--   CharacterStat     SERVER/src/CHANNEL/domain/CharacterStat.cpp: AddExp, ReduceExp, Up
--   Player            SERVER/src/CHANNEL/domain/Player.cpp: gold, items and the save version
--   PlayerSave        SERVER/src/CHANNEL/service/PlayerDataSaveService.cpp: Save
--   Npc               SERVER/src/CHANNEL/service/NPCInteractionService.cpp
--   Shop              SERVER/src/CHANNEL/service/ShopService.cpp: Buy and Sell
--   Trade             SERVER/src/CHANNEL/service/TradeService.cpp: the table of trade sessions
--                     and the transaction of Execute
--   Threads           SERVER/src/COMMON/thread/WorkerThread.cpp and ThreadPool.cpp: the queues of the
--                     workers and the steps of their threads; tasks of one key go to one worker
--   Server            SERVER/src/CHANNEL/app/ChannelServer.cpp: the sessions by descriptor, OnAccept,
--                     OnReceive, BeginValidSessionTask, EndSessionTask, OnDisconnect
--   AuthToken         SERVER/src/COMMON/auth/AuthTokenGenerator.cpp: Generate
--   RedisClient       SERVER/src/COMMON/db/RedisClient.cpp: SetIfAbsentWithTtl, GetAndDelete
--   Auth              SERVER/src/COMMON/auth/AuthTicketService.cpp: the tickets
--   Roster            SERVER/src/CHANNEL/manager/PlayerManager.cpp, the final saves of ChannelServer.cpp and
--                     the tasks that load and save a player: who is online, saved or loaded
--   QuickSlots        SERVER/src/CHANNEL/manager/QuickSlotManager.cpp
--   Drops             SERVER/src/CHANNEL/manager/DropManager.cpp: SetDropItem, SelectDropItem
--
-- State is passed on explicitly: an operation takes the state and returns its answer with the new state. A
-- lock that the source holds through an operation makes it one step; `Ready` of a trade, which runs the
-- database transaction outside the lock, is two steps. `int` and `int64_t` are integers without bounds, and
-- the tests of the source that keep them in range are written out; the save version and the session ids
-- wrap at 2^64, the user count at 2^32, and the
-- statistics that AddExp changes wrap as `int` and `int64_t`. Bytes are natural numbers, texts are lists of bytes.
--
-- Concurrency is a relation `Reach` on states with their history (Threads.Life, Server.Life,
-- Roster.Handover, Trade.Reach, QuickSlots.Unique; `Calls` of Trade.Executing): its constructors are
-- the critical sections of the source, which any thread may run next. A call that blocks is two steps, before and after the wait.
--
-- Fuel: OnBytes runs on the length of the buffer, each round takes at least a header of four bytes; the
-- level loop of AddExp runs on the experience, each round takes at least 1 from it; the fuel of a worker's
-- `run` counts the steps of its thread, and two for each task and two more are enough. The three attempts to issue a ticket and
-- to save a player are the source's own bound.
--
-- Parameters: std::stoi and std::to_string, the number parser of ParseNextIntField, the level table, the
-- percentage of ReduceExp, the result of storing a player, the distance test of NPC interaction in double
-- arithmetic, the outcomes of send(2), accept, recv and getrandom, the
-- random numbers of a drop, the database of a trade
-- (Trade.Database) and the Redis server (RedisClient), each with what their documentation says.
--
-- Not modelled: the life of the player objects that a trade points to, the epoll loop, connections to the database and Redis, logging, movement, monsters and
-- combat, and the login, world and chat processes.
pub mod Common
pub mod Packet
pub mod Session
pub mod Inventory
pub mod InventoryManager
pub mod CharacterStat
pub mod Player
pub mod PlayerSave
pub mod Npc
pub mod Shop
pub mod Trade
pub mod Threads
pub mod Server
pub mod AuthToken
pub mod RedisClient
pub mod Auth
pub mod Roster
pub mod QuickSlots
pub mod Drops
